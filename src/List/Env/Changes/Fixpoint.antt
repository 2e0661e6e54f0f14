-- ===== src/List/Env/Changes/Fixpoint.antt =====
-- What `ResolveEnv` of internal/list/env.go sets.
use oku.Base.{
  >>=-eq-ok, Bool-cases, Bytes, List, Option, Option-cases, [], any-sorted, ap, arith, contains,
  equal, equal_iff, false, if◌then◌else◌, inl, inr, is_nil, length, none, not, ok, refl, some,
  sorted, subst, suc, sym, true, ℕ, ◌++◌, ◌+◌, ◌∙◌, ◌∷◌, ◌≡◌,
}
use oku.List.Dotenv.{got}
use oku.List.Env.{
  EnvEntry, EnvText, EnvValue, find_env, find_text, is_self, is_set, is_value, or_default, or_empty,
}
use oku.List.Env.Changes.{
  Effect, EnvChange, Kept, changes_from, effect_of, leaves, misses, names_of, prepends, removes,
  resolve_env, sets, with_effect,
}
use oku.List.Env.Changes.Effects.{effect_of-AreSaid, ok_injective, or_fail-IsSaid}
use oku.List.Env.Said.{
  AreSaid, Settles, Settles-pair, Settles-same, Settles-suc, Settles-unique, reads_before,
  is_removed, resolve-IsSaid, says, says_own, says_spelled, spell,
}
use oku.List.Pieces.{Piece, pieces, plain, reference}

equal_sym : (a b : Bytes) → equal a b ≡ equal b a
unfolding equal
equal_sym [] [] = refl
equal_sym [] (d ∷ b) = refl
equal_sym (c ∷ a) [] = refl
equal_sym (c ∷ a) (d ∷ b) = ground (arith, equal_sym a b)

module _ (env : List EnvEntry) (look : Bytes → Option Bytes) where
  -- what a reference in the value of `reader` stands for, when the variables are set
  unfoldable pub reads : List EnvText → Bytes → Bytes → Option Bytes
  reads set reader name =
      if is_removed env look name
      then none
      else if reads_before env look (reader ∷ []) name
      then look name
      else find_text name set

  -- a variable of the list with a value of its own
  abbrev IsOwn : Bytes → Type 0
  IsOwn name = (is_removed env look name ≡ false) × (reads_before env look [] name ≡ false)

  said_some :
      (name : Bytes) (o : Option Bytes)
      → IsOwn name
      → Settles (λ k. says env look k [] name) o
      → (text : Bytes) × (o ≡ some text)
  unfolding says
  said_some name o (stays, own) (m, h) =
      let text =
        spell (says env look m (name ∷ [])) (pieces (or_empty (find_env name env)).value) in
      let back : 1 + m ≡ suc m = omega arith in
      let told : says env look (suc m) [] name ≡ some text = rw (stays, own) refl in
      (text, sym (h 1) ∙ ap (λ k. says env look k [] name) back ∙ told)

  find_text-with_effect :
      (name x : Bytes) (effect : Effect) (change : EnvChange)
      → equal x name ≡ false
      → find_text x (with_effect name effect change).set ≡ find_text x change.set
  unfolding with_effect find_text
  find_text-with_effect name x removes change h = refl
  find_text-with_effect name x (prepends []) change h = refl
  find_text-with_effect name x (prepends (e ∷ l)) change h = refl
  find_text-with_effect name x (misses hint) change h = refl
  find_text-with_effect name x leaves change h = refl
  find_text-with_effect name x (sets text) change h = rw h refl

  find_text-sets :
      (name x text : Bytes) (change : EnvChange)
      → equal x name ≡ true
      → find_text x (with_effect name (sets text) change).set ≡ some text
  unfolding with_effect find_text
  find_text-sets name x text change h = rw h refl

  -- the variable is set to what it says
  abbrev IsFound : Bytes → EnvChange → Type 0
  IsFound x change =
      (text : Bytes) × (find_text x change.set ≡ some text)
      × Settles (λ k. says env look k [] x) (some text)

  module _ (join_path : Bytes → Bytes → Bytes) (dir : Bytes) (n : ℕ) where
    effect_of-own :
        (x : Bytes) (v : EnvValue) (resolved : List EnvText) (taken : Kept Effect)
        → AreSaid env look resolved
        → IsOwn x
        → is_value v ≡ true
        → effect_of join_path env dir look n x v resolved ≡ ok taken
        → (text : Bytes) × (taken.item ≡ sets text)
          × Settles (λ k. says env look k [] x) (some text)
    unfolding effect_of is_value
    effect_of-own x v resolved taken said own value done = elim (Option-cases v.prepend) [
      | inr (entries, bad) ↦ let h = rw bad at value in absurd (ground arith)
      | inl plain_value ↦
          let stays : v.unset ≡ false = ground arith in
          let no_hint : not (is_nil v.required) ≡ false = ground arith in
          let (first, h, g) = >>=-eq-ok _ _ (rw (stays, plain_value, no_hint) at done) in
          let here =
            or_fail-IsSaid env look (λ k. says env look k [] x) _ first
              (resolve-IsSaid env look n x [] resolved said) h in
          let (text, same) = said_some x first.item own here.0 in
          (
            text,
            sym (
                  ap (λ (t : Kept Effect). t.item)
                    (ok_injective env look
                      (record { item = sets (got first.item); resolved = first.resolved }) taken g))
                ∙ ap (λ o. sets (got o)) same,
            subst (λ o. Settles (λ k. says env look k [] x) o) same here.0,
          )
    ]

    changes_from-IsFound :
        (names : List Bytes) (x : Bytes) (resolved : List EnvText) (change : EnvChange)
        → AreSaid env look resolved
        → IsOwn x
        → is_value (or_empty (find_env x env)) ≡ true
        → contains names x ≡ true
        → changes_from join_path env dir look n names resolved ≡ ok change
        → IsFound x change
    unfolding changes_from
    changes_from-IsFound [] x resolved change said own value listed done = cc
    changes_from-IsFound (name ∷ names) x resolved change said own value listed done =
        let (taken, h, g) =
          >>=-eq-ok
            (effect_of join_path env dir look n name (or_empty (find_env name env)) resolved) _
            done in
        let (rest, p, q) =
          >>=-eq-ok (changes_from join_path env dir look n names taken.resolved)
            (λ c. ok (with_effect name taken.item c)) g in
        let same =
          ap (λ (c : EnvChange). find_text x c.set)
            (sym (ok_injective env look (with_effect name taken.item rest) change q)) in
        elim (Bool-cases (equal x name)) [
          | inl here ↦
              let at_x =
                subst
                  (λ y.
                    effect_of join_path env dir look n y (or_empty (find_env y env)) resolved
                    ≡ ok taken)
                  (sym ((equal_iff x name).0 here)) h in
              let (text, effect, settled) =
                effect_of-own x (or_empty (find_env x env)) resolved taken said own value at_x in
              let set = ap (λ e. find_text x (with_effect name e rest).set) effect in
              (text, same ∙ set ∙ find_text-sets name x text rest here, settled)
          | inr other ↦
              let kept = effect_of-AreSaid env look join_path dir n name _ resolved taken said h in
              let (text, found, settled) =
                changes_from-IsFound names x taken.resolved rest kept own value
                  (rw (equal_sym name x, other) at listed) p in
              let skips = find_text-with_effect name x taken.item rest other in
              (text, same ∙ skips ∙ found, settled)
        ]

  IsOwn-is_value :
      (x : Bytes) (v : EnvValue) → find_env x env ≡ some v → is_value v ≡ true → IsOwn x
  unfolding is_value is_self
  IsOwn-is_value x v h k = (rw h (ground arith), rw h (ground arith))

  listed_own :
      (x : Bytes) (l : List EnvEntry)
      → is_set (find_env x l) ≡ true
      → contains (names_of l) x ≡ true
  unfolding find_env
  listed_own x [] h = cc
  listed_own x (e ∷ l) h = ground (arith, equal_sym x e.name, listed_own x l)

  -- every variable with a value is set to what it says
  abbrev AllFound : EnvChange → Type 0
  AllFound change =
      (x : Bytes)
      → is_set (find_env x env) ≡ true
      → is_value (or_empty (find_env x env)) ≡ true
      → IsOwn x
      → IsFound x change

  said-reads :
      (change : EnvChange) (reader x : Bytes)
      → AllFound change
      → Settles (λ k. says env look k (reader ∷ []) x) (reads change.set reader x)
  unfolding says reads
  said-reads change reader x all = elim (Bool-cases (is_removed env look x)) [
    | inl gone ↦
        rw gone (Settles-suc (λ k. says env look k (reader ∷ []) x) none (0, λ k. rw gone refl))
    | inr stays ↦ elim (Bool-cases (reads_before env look (reader ∷ []) x)) [
      | inl before ↦
          rw (stays, before)
            (Settles-suc (λ k. says env look k (reader ∷ []) x) (look x)
              (0, λ k. rw (stays, before) refl))
      | inr own ↦
          let (text, found, settled) = all x (ground arith) (ground arith) (stays, own_first own) in
          rw (stays, own, found)
            (Settles-same _ _ _ (λ k. says_own env look (reader ∷ []) x k stays own) settled)
    ]
  ]
    where
      own_first : reads_before env look (reader ∷ []) x ≡ false → reads_before env look [] x ≡ false
      own_first h = unfold is_self in ground arith

  spell-reads :
      (change : EnvChange) (reader : Bytes) (l : List Piece)
      → AllFound change
      → Settles (λ k. spell (says env look k (reader ∷ [])) l) (spell (reads change.set reader) l)
  unfolding spell
  spell-reads change reader [] all = (0, λ k. refl)
  spell-reads change reader (plain c ∷ l) all =
      let (m, h) = spell-reads change reader l all in (m, λ k. ap (λ s. c ∷ s) (h k))
  spell-reads change reader (reference name fallback ∷ l) all =
      Settles-pair (λ k. says env look k (reader ∷ []) name)
        (λ k. spell (says env look k (reader ∷ [])) l) (λ x s. or_default x fallback ++ s) _ _
        (said-reads change reader name all) (spell-reads change reader l all)

-- If ResolveEnv succeeds, it sets every variable that has a value in the list, to this value with
-- each reference replaced: an unset variable reads as missing, the variable itself and one without a
-- value in the list read as they are before the list applies, and any other reads as the result sets
-- it. The default takes the place of a missing or empty text.
pub resolve_env-fixpoint :
    (join_path : Bytes → Bytes → Bytes) (env : List EnvEntry) (dir : Bytes)
    (look : Bytes → Option Bytes) (change : EnvChange) (name : Bytes) (v : EnvValue)
    → resolve_env join_path env dir look ≡ ok change
    → find_env name env ≡ some v
    → is_value v ≡ true
    → find_text name change.set ≡ some (spell (reads env look change.set name) (pieces v.value))
unfolding resolve_env
resolve_env-fixpoint join_path env dir look change name v done h k =
    let all : AllFound env look change = λ x own value stays.
      changes_from-IsFound env look join_path dir (suc (length env)) (sorted (names_of env)) x []
        change tt stays value
        (any-sorted (λ y. equal y x) (names_of env) ∙ listed_own env look x env own) done in
    let own = IsOwn-is_value env look name v h k in
    let (text, found, settled) = all name (rw h refl) (rw h k) own in
    let spelled =
      says_spelled env look [] name _ own.0 own.1
        (rw h (spell-reads env look change name (pieces v.value) all)) in
    found ∙ Settles-unique (λ k. says env look k [] name) (some text) _ settled spelled
