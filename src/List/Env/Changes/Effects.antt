-- ===== src/List/Env/Changes/Effects.antt =====
-- The map `resolved` through a round of the loop of `ResolveEnv`.
use oku.Base.{
  >>=-eq-ok, Bool-cases, Bytes, List, Option, Option-cases, Result, [], inl, inr, is_nil, not, ok,
  subst, ℕ, ◌∷◌, ◌≡◌,
}
use oku.List.Env.{Answer, EnvEntry, EnvError, EnvText, EnvValue}
use oku.List.Env.Changes.{Effect, Kept, effect_of, entries_from, or_fail}
use oku.List.Env.Said.{AreSaid, IsSaid, Settles, expand-IsSaid, resolve-IsSaid, says, spell}
use oku.List.Pieces.{pieces}

module _ (env : List EnvEntry) (look : Bytes → Option Bytes) where
  pub ok_injective : {B : Type 0} → (a b : B) → Path (Result EnvError B) (ok a) (ok b) → a ≡ b
  ok_injective a b h = cc

  pub or_fail-IsSaid :
      {B : Type 0}
      → (f : ℕ → B) (answer : Answer B) (taken : Kept B) → IsSaid env look f answer
      → or_fail answer ≡ ok taken
      → Settles f taken.item × AreSaid env look taken.resolved
  unfolding or_fail
  or_fail-IsSaid {B = B} f answer taken said done = elim (Option-cases answer.failed) [
    | inl fine ↦
        let same : record { item = answer.reply; resolved = answer.resolved } ≡ taken =
          (let h = rw fine at done in cc) in
        subst (λ (t : Kept B). Settles f t.item × AreSaid env look t.resolved) same (said fine)
    | inr (e, bad) ↦ let h = rw bad at done in cc
  ]

  module _ (join_path : Bytes → Bytes → Bytes) (dir : Bytes) (n : ℕ) where
    entries_from-AreSaid :
        (name : Bytes) (l : List Bytes) (resolved : List EnvText) (taken : Kept (List Bytes))
        → AreSaid env look resolved
        → entries_from join_path env dir look n name l resolved ≡ ok taken
        → AreSaid env look taken.resolved
    unfolding entries_from
    entries_from-AreSaid name [] resolved taken said done =
        subst (λ (t : Kept (List Bytes)). AreSaid env look t.resolved)
          (ok_injective (record { item = []; resolved = resolved }) taken done) said
    entries_from-AreSaid name (entry ∷ l) resolved taken said done =
        let (first, h, g) = >>=-eq-ok _ _ done in
        let (rest, p, q) = >>=-eq-ok _ _ g in
        let here =
          or_fail-IsSaid (λ k. spell (says env look k (name ∷ [])) (pieces entry)) _ first
            (expand-IsSaid env look _ (λ k. says env look k (name ∷ [])) (pieces entry) resolved
              (λ x d. resolve-IsSaid env look n x (name ∷ []) d) said)
            h in
        subst (λ (t : Kept (List Bytes)). AreSaid env look t.resolved) (ok_injective _ taken q)
          (entries_from-AreSaid name l first.resolved rest here.1 p)

    pub effect_of-AreSaid :
        (name : Bytes) (v : EnvValue) (resolved : List EnvText) (taken : Kept Effect)
        → AreSaid env look resolved
        → effect_of join_path env dir look n name v resolved ≡ ok taken
        → AreSaid env look taken.resolved
    unfolding effect_of
    effect_of-AreSaid name v resolved taken said done = elim (Bool-cases v.unset) [
      | inl gone ↦
          let h = rw gone at done in
          subst (λ (t : Kept Effect). AreSaid env look t.resolved) (ok_injective _ taken h) said
      | inr stays ↦ elim (Option-cases v.prepend) [
        | inr (entries, some_entries) ↦
            let (rest, h, g) = >>=-eq-ok _ _ (rw (stays, some_entries) at done) in
            subst (λ (t : Kept Effect). AreSaid env look t.resolved) (ok_injective _ taken g)
              (entries_from-AreSaid name entries resolved rest said h)
        | inl no_entries ↦ elim (Bool-cases (not (is_nil v.required))) [
          | inl hint ↦
              let h = rw (stays, no_entries, hint) at done in
              subst (λ (t : Kept Effect). AreSaid env look t.resolved) (ok_injective _ taken h) said
          | inr own ↦
              let (first, h, g) = >>=-eq-ok _ _ (rw (stays, no_entries, own) at done) in
              let here =
                or_fail-IsSaid (λ k. says env look k [] name) _ first
                  (resolve-IsSaid env look n name [] resolved said) h in
              subst (λ (t : Kept Effect). AreSaid env look t.resolved) (ok_injective _ taken g)
                here.1
        ]
      ]
    ]
