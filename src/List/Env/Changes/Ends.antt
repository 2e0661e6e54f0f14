-- ===== src/List/Env/Changes/Ends.antt =====
-- Termination of `ResolveEnv`, internal/list/env.go.
use oku.Base.{
  Bool-cases, Bytes, List, Option, Option-cases, Result, [], arith, contains, equal, equal_iff, err,
  false, if◌then◌else◌, inl, inr, is_nil, length, none, not, ok, refl, some, sorted, subst, suc,
  true, zero, ℕ, ◌&&◌, ◌<◌, ◌>>=◌, ◌||◌, ◌∙◌, ◌∷◌, ◌≡◌, ◌≢◌, ◌≤◌,
}
use oku.List.Env.{
  Answer, EnvEntry, EnvError, EnvText, EnvValue, done_or, expand, find_env, find_text, is_self,
  is_set, is_value, keep, no_fuel, or_empty, first_error, resolve,
}
use oku.List.Env.Changes.{changes_from, effect_of, entries_from, names_of, or_fail, resolve_env}
use oku.List.Pieces.{Piece, pieces, plain, reference}

-- the entries whose names are not seen
unfoldable unseen : List Bytes → List EnvEntry → ℕ
unseen seen [] = 0
unseen seen (e ∷ env) =
    let rest = unseen seen env in if contains seen e.name then rest else suc rest

unseen_all : (seen : List Bytes) (env : List EnvEntry) → unseen seen env ≤ length env
unfolding unseen
unseen_all seen [] = omega arith
unseen_all seen (e ∷ env) = ground (arith, unseen_all seen env)

unseen_more :
    (name : Bytes) (seen : List Bytes) (env : List EnvEntry)
    → unseen (name ∷ seen) env ≤ unseen seen env
unfolding unseen
unseen_more name seen [] = omega arith
unseen_more name seen (e ∷ env) = ground (arith, unseen_more name seen env)

unseen_less :
    (name : Bytes) (seen : List Bytes) (env : List EnvEntry)
    → is_set (find_env name env) ≡ true
    → contains seen name ≡ false
    → unseen (name ∷ seen) env < unseen seen env
unfolding unseen find_env
unseen_less name seen [] h k = cc
unseen_less name seen (e ∷ env) h k = elim (Bool-cases (equal name e.name)) [
  | inl same ↦
      let here = subst (λ x. contains seen x ≡ false) ((equal_iff name e.name).0 same) k in
      rw (same, here) (omega (arith, unseen_more name seen env))
  | inr other ↦ ground (arith, unseen_less name seen env (rw other at h) k)
]

abbrev Ended : {V : Type 0} → Answer V → Type 0
Ended answer = answer.failed ≢ some no_fuel

expand-Ended :
    (ask : Bytes → List EnvText → Answer (Option Bytes)) (l : List Piece) (resolved : List EnvText)
    → ((x : Bytes) (d : List EnvText) → Ended (ask x d))
    → Ended (expand ask l resolved)
unfolding expand
expand-Ended ask [] resolved h = λ e. cc
expand-Ended ask (plain c ∷ l) resolved h = expand-Ended ask l resolved h
expand-Ended ask (reference name fallback ∷ l) resolved h =
    either (ask name resolved).failed _ (h name resolved)
      (expand-Ended ask l (ask name resolved).resolved h)
  where
    either :
        (a b : Option EnvError)
        → a ≢ some no_fuel
        → b ≢ some no_fuel
        → first_error a b ≢ some no_fuel
    either none b f g = g
    either (some e) b f g = f

keep-Ended : (name : Bytes) (inner : Answer Bytes) → Ended inner → Ended (keep name inner)
unfolding keep
keep-Ended name inner h = elim (Option-cases inner.failed) [
  | inl e ↦ rw e (λ d. cc)
  | inr (a, e) ↦ rw e (λ d. h (e ∙ d))
]

done_or-Ended :
    (o : Option Bytes) (resolved : List EnvText) (answer : Answer (Option Bytes))
    → (o ≡ none → Ended answer)
    → Ended (done_or o resolved answer)
unfolding done_or
done_or-Ended none resolved answer h = h refl
done_or-Ended (some text) resolved answer h = λ e. cc

module _ (env : List EnvEntry) (look : Bytes → Option Bytes) where
  resolve-Ended :
      (n : ℕ) (name : Bytes) (seen : List Bytes) (resolved : List EnvText)
      → unseen seen env < n
      → Ended (resolve env look n name seen resolved)
  unfolding resolve
  resolve-Ended zero name seen resolved h = absurd (omega arith)
  resolve-Ended (suc n) name seen resolved h =
      elim (Bool-cases (is_set (find_env name env) && (or_empty (find_env name env)).unset)) [
        | inl gone ↦ rw gone (λ e. cc)
        | inr stays ↦
            elim (Bool-cases (
              not (is_set (find_env name env))
              || not (is_value (or_empty (find_env name env)))
              || is_self seen name)) [
                | inl before ↦ rw (stays, before) (λ e. cc)
                | inr own ↦
                    rw (stays, own)
                      (done_or-Ended (find_text name resolved) resolved _ (λ d.
                        elim (Bool-cases (contains seen name)) [
                          | inl again ↦ rw again (λ e. cc)
                          | inr new ↦
                              let inner =
                                expand-Ended (λ x. resolve env look n x (name ∷ seen))
                                  (pieces (or_empty (find_env name env)).value) resolved
                                  (λ x d. resolve-Ended n x (name ∷ seen) d (
                                    omega (arith, unseen_less name seen env (ground arith) new))) in
                              rw new (keep-Ended name _ inner)
                        ]))
              ]
      ]

or_fail-ends : {V : Type 0} → (answer : Answer V) → Ended answer → or_fail answer ≢ err no_fuel
unfolding or_fail
or_fail-ends answer h = elim (Option-cases answer.failed) [
  | inl e ↦ rw e (λ d. cc)
  | inr (a, e) ↦ rw e (λ d. h (cc))
]

then-ends :
    {V W : Type 0}
    → (r : Result EnvError V) (next : V → Result EnvError W) → r ≢ err no_fuel
    → ((v : V) → next v ≢ err no_fuel)
    → (r >>= next) ≢ err no_fuel
then-ends (err e) next h k = λ d. h cc
then-ends (ok v) next h k = k v

module _ (join_path : Bytes → Bytes → Bytes) (env : List EnvEntry) (dir : Bytes)
    (look : Bytes → Option Bytes) (n : ℕ) (enough : length env < n) where
  entries_from-ends :
      (name : Bytes) (l : List Bytes) (resolved : List EnvText)
      → entries_from join_path env dir look n name l resolved ≢ err no_fuel
  unfolding entries_from
  entries_from-ends name [] resolved = λ e. cc
  entries_from-ends name (entry ∷ l) resolved =
      then-ends _ _
        (or_fail-ends _ (
          expand-Ended _ (pieces entry) resolved (λ x d.
            resolve-Ended env look n x (name ∷ []) d (omega (arith, unseen_all (name ∷ []) env)))))
        (λ first. then-ends _ _ (entries_from-ends name l first.resolved) (λ rest e. cc))

  effect_of-ends :
      (name : Bytes) (v : EnvValue) (resolved : List EnvText)
      → effect_of join_path env dir look n name v resolved ≢ err no_fuel
  unfolding effect_of
  effect_of-ends name v resolved = elim (Bool-cases v.unset) [
    | inl gone ↦ rw gone (λ e. cc)
    | inr stays ↦ elim (Option-cases v.prepend) [
      | inr (entries, some_entries) ↦
          rw (stays, some_entries)
            (then-ends _ _ (entries_from-ends name entries resolved) (λ taken e. cc))
      | inl no_entries ↦ elim (Bool-cases (not (is_nil v.required))) [
        | inl hint ↦ rw (stays, no_entries, hint) (λ e. cc)
        | inr value ↦
            rw (stays, no_entries, value)
              (then-ends _ _
                (or_fail-ends _
                  (resolve-Ended env look n name [] resolved (omega (arith, unseen_all [] env))))
                (λ taken e. cc))
      ]
    ]
  ]

  changes_from-ends :
      (names : List Bytes) (resolved : List EnvText)
      → changes_from join_path env dir look n names resolved ≢ err no_fuel
  unfolding changes_from
  changes_from-ends [] resolved = λ e. cc
  changes_from-ends (name ∷ names) resolved =
      then-ends _ _ (effect_of-ends name (or_empty (find_env name env)) resolved)
        (λ taken. then-ends _ _ (changes_from-ends names taken.resolved) (λ change e. cc))

-- The fuel of `resolve_env` is enough for every list, also for one whose values name one another in
-- a circle.
pub resolve_env-ends :
    (join_path : Bytes → Bytes → Bytes) (env : List EnvEntry) (dir : Bytes)
    (look : Bytes → Option Bytes)
    → resolve_env join_path env dir look ≢ err no_fuel
unfolding resolve_env
resolve_env-ends join_path env dir look =
    changes_from-ends join_path env dir look (suc (length env)) (omega arith)
      (sorted (names_of env)) []
