-- ===== src/List/Env.antt =====
-- `resolve` and `expand` of `ResolveEnv`, internal/list/env.go. A map is the list of its entries.
pub mod Said
pub mod Raw
pub mod Changes
use oku.Base.{
  Bool, Bytes, List, Option, [], contains, equal, false, if◌then◌else◌, is_nil, none, not, some,
  suc, true, zero, ℕ, ◌&&◌, ◌++◌, ◌||◌, ◌∷◌,
}
use oku.List.Dotenv.{got}
use oku.List.Pieces.{Piece, pieces, plain, reference}

-- `EnvValue`; a nil `Prepend` is none
pub record EnvValue : Type 0 where
  pub value : Bytes
  pub unset : Bool
  pub prepend : Option (List Bytes)
  pub required : Bytes

-- an entry of the map `env`
pub record EnvEntry : Type 0 where
  pub name : Bytes
  pub entry : EnvValue

-- an entry of a map of strings
pub record EnvText : Type 0 where
  pub name : Bytes
  pub text : Bytes

abbrev pub is_set {ℓ} : {A : Type ℓ} → Option A → Bool
is_set none = false
is_set (some a) = true

-- `EnvValue.isValue`
unfoldable pub is_value : EnvValue → Bool
is_value v = not v.unset && not (is_set v.prepend) && is_nil v.required

abbrev pub empty_value : EnvValue
empty_value = record { value = []; unset = false; prepend = none; required = [] }

unfoldable pub find_env : Bytes → List EnvEntry → Option EnvValue
find_env name [] = none
find_env name (e ∷ env) = if equal name e.name then some e.entry else find_env name env

unfoldable pub find_text : Bytes → List EnvText → Option Bytes
find_text name [] = none
find_text name (e ∷ texts) = if equal name e.name then some e.text else find_text name texts

-- what a map of Go gives for a key: the zero value for a missing one
abbrev pub or_empty : Option EnvValue → EnvValue
or_empty none = empty_value
or_empty (some v) = v

-- The errors of `ResolveEnv`: a variable with the names on the way to it, the last first. The second
-- is the model's, for too little fuel.
pub data EnvError : Type 0 where
  names_itself : Bytes → List Bytes → EnvError
  no_fuel : EnvError

-- what `resolve` and `expand` return, with the map `resolved` behind them
pub record Answer (V : Type 0) : Type 0 where
  pub reply : V
  pub failed : Option EnvError
  pub resolved : List EnvText

-- `cmp.Or(failed, err)`
abbrev pub first_error : Option EnvError → Option EnvError → Option EnvError
first_error none later = later
first_error (some e) later = some e

-- what takes the place of a match: `resolve` returns an empty text with false
abbrev pub or_default : Option Bytes → Option Bytes → Bytes
or_default none fallback = got fallback
or_default (some text) none = text
or_default (some text) (some fallback) = if is_nil text then fallback else text

-- `expand`, with `resolve` as an argument
unfoldable pub expand :
    (Bytes → List EnvText → Answer (Option Bytes)) → List Piece → List EnvText → Answer Bytes
expand ask [] resolved = record { reply = []; failed = none; resolved = resolved }
expand ask (plain c ∷ l) resolved =
    let rest = expand ask l resolved in record rest { reply = c ∷ rest.reply }
expand ask (reference name fallback ∷ l) resolved =
    let answer = ask name resolved in
    let rest = expand ask l answer.resolved in
    record {
      reply = or_default answer.reply fallback ++ rest.reply;
      failed = first_error answer.failed rest.failed;
      resolved = rest.resolved;
    }

-- the name that is resolved is the last of `seen`, which holds the last first
unfoldable pub is_self : List Bytes → Bytes → Bool
is_self [] name = false
is_self (s ∷ seen) name = equal s name

-- `resolved[name] = value`, unless `expand` failed
unfoldable pub keep : Bytes → Answer Bytes → Answer (Option Bytes)
keep name inner = elim inner.failed [
  | none ↦ record {
    reply = some inner.reply;
    failed = none;
    resolved = record { name = name; text = inner.reply } ∷ inner.resolved;
  }
  | some e ↦ record { reply = none; failed = some e; resolved = inner.resolved }
]

unfoldable pub done_or : Option Bytes → List EnvText → Answer (Option Bytes) → Answer (Option Bytes)
done_or none resolved answer = answer
done_or (some text) resolved answer = record {
  reply = some text;
  failed = none;
  resolved = resolved;
}

abbrev pub fails : EnvError → List EnvText → Answer (Option Bytes)
fails e resolved = record { reply = none; failed = some e; resolved = resolved }

module _ (env : List EnvEntry) (look : Bytes → Option Bytes) where
  -- `resolve`, on fuel
  unfoldable pub resolve : ℕ → Bytes → List Bytes → List EnvText → Answer (Option Bytes)
  resolve zero name seen resolved = fails no_fuel resolved
  resolve (suc n) name seen resolved =
      let v = or_empty (find_env name env) in
      let inner = expand (λ x. resolve n x (name ∷ seen)) (pieces v.value) resolved in
      if is_set (find_env name env) && v.unset
      then record { reply = none; failed = none; resolved = resolved }
      else if not (is_set (find_env name env)) || not (is_value v) || is_self seen name
      then record { reply = look name; failed = none; resolved = resolved }
      else done_or (find_text name resolved) resolved
          (if contains seen name then fails (names_itself name seen) resolved else keep name inner)
