-- ===== src/List/Env/Changes.antt =====
-- The loop of `ResolveEnv`, internal/list/env.go. `filepath.Join` is the parameter `join_path`.
pub mod Ends
pub mod Effects
pub mod Fixpoint
use oku.Base.{
  Bool, Bytes, List, Option, Result, [], err, has_prefix, if◌then◌else◌, is_nil, length, map, none,
  not, ok, some, sorted, suc, ℕ, ◌>>=◌, ◌∷◌,
}
use oku.List.Dotenv.{got}
use oku.List.Env.{
  Answer, EnvEntry, EnvError, EnvText, EnvValue, expand, find_env, or_empty, resolve,
}
use oku.List.Pieces.{pieces}

-- an entry of `EnvChange.Prepend`
pub record EnvEntries : Type 0 where
  pub name : Bytes
  pub entries : List Bytes

-- `EnvChange`
pub record EnvChange : Type 0 where
  pub set : List EnvText
  pub removed : List Bytes
  pub prepended : List EnvEntries
  pub missing : List EnvText

abbrev pub no_change : EnvChange
no_change = record { set = []; removed = []; prepended = []; missing = [] }

-- what a round of the loop of `ResolveEnv` does to the change
pub data Effect : Type 0 where
  removes : Effect
  prepends : List Bytes → Effect
  misses : Bytes → Effect
  leaves : Effect
  sets : Bytes → Effect

unfoldable pub with_effect : Bytes → Effect → EnvChange → EnvChange
with_effect name removes change = record change { removed = name ∷ change.removed }
with_effect name (prepends entries) change = record change {
  prepended = record { name = name; entries = entries } ∷ change.prepended;
}
with_effect name (misses hint) change = record change {
  missing = record { name = name; text = hint } ∷ change.missing;
}
with_effect name leaves change = change
with_effect name (sets text) change = record change {
  set = record { name = name; text = text } ∷ change.set;
}

-- a value with the map `resolved` behind it
pub record Kept (V : Type 0) : Type 0 where
  pub item : V
  pub resolved : List EnvText

-- the early return on an error of `resolve` or `expand`
unfoldable pub or_fail : {V : Type 0} → Answer V → Result EnvError (Kept V)
or_fail answer = elim answer.failed [
  | none ↦ ok (record { item = answer.reply; resolved = answer.resolved })
  | some e ↦ err e
]

-- `filepath.IsAbs`, on Unix
unfoldable pub is_abs : Bytes → Bool
is_abs path = has_prefix (b'/' ∷ []) path

abbrev pub names_of : List EnvEntry → List Bytes
names_of = map (λ (e : EnvEntry). e.name)

module _ (join_path : Bytes → Bytes → Bytes) (env : List EnvEntry) (dir : Bytes)
    (look : Bytes → Option Bytes) (n : ℕ) where
  -- the loop over the entries to prepend
  unfoldable pub entries_from :
      Bytes → List Bytes → List EnvText → Result EnvError (Kept (List Bytes))
  entries_from name [] resolved = ok (record { item = []; resolved = resolved })
  entries_from name (entry ∷ l) resolved =
      or_fail (expand (λ x. resolve env look n x (name ∷ [])) (pieces entry) resolved) >>= λ first.
      entries_from name l first.resolved >>= λ rest. ok (record {
        item = (if is_abs first.item then first.item else join_path dir first.item) ∷ rest.item;
        resolved = rest.resolved;
      })

  -- the body of the loop of `ResolveEnv`
  unfoldable pub effect_of : Bytes → EnvValue → List EnvText → Result EnvError (Kept Effect)
  effect_of name v resolved =
      if v.unset then ok (record { item = removes; resolved = resolved }) else elim v.prepend [
        | some entries ↦ entries_from name entries resolved >>= λ taken.
            ok (record { item = prepends taken.item; resolved = taken.resolved })
        | none ↦
            if not (is_nil v.required)
            then ok (record {
              item = if is_nil (got (look name)) then misses v.required else leaves;
              resolved = resolved;
            })
            else or_fail (resolve env look n name [] resolved) >>= λ taken.
                ok (record { item = sets (got taken.item); resolved = taken.resolved })
      ]

  -- the loop of `ResolveEnv`
  unfoldable pub changes_from : List Bytes → List EnvText → Result EnvError EnvChange
  changes_from [] resolved = ok no_change
  changes_from (name ∷ names) resolved =
      effect_of name (or_empty (find_env name env)) resolved >>= λ taken.
      changes_from names taken.resolved >>= λ change. ok (with_effect name taken.item change)

-- `ResolveEnv`; `resolve` calls itself on a variable of the list that it did not see before
unfoldable pub resolve_env :
    (Bytes → Bytes → Bytes)
    → List EnvEntry
    → Bytes
    → (Bytes → Option Bytes)
    → Result EnvError EnvChange
resolve_env join_path env dir look =
    changes_from join_path env dir look (suc (length env)) (sorted (names_of env)) []
