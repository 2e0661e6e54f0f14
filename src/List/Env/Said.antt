-- ===== src/List/Env/Said.antt =====
-- `resolve` of internal/list/env.go, beside a reading of variables without the map `resolved` and
-- without the names on the way.
use oku.Base.{
  All, Bool, Bool-cases, Bytes, List, Option, Option-cases, [], ap, arith, contains, equal,
  equal_iff, false, if◌then◌else◌, inl, inr, none, not, refl, some, subst, suc, sym, zero, ℕ, ◌&&◌,
  ◌++◌, ◌+◌, ◌||◌, ◌∙◌, ◌∷◌, ◌≡◌,
}
use oku.List.Env.{
  Answer, EnvEntry, EnvError, EnvText, done_or, expand, find_env, find_text, is_self, is_set,
  is_value, keep, or_default, or_empty, first_error, resolve,
}
use oku.List.Pieces.{Piece, pieces, plain, reference}
use oku.Platform.And.{both}

-- a text with what is read in place of each reference
unfoldable pub spell : (Bytes → Option Bytes) → List Piece → Bytes
spell read [] = []
spell read (plain c ∷ l) = c ∷ spell read l
spell read (reference name fallback ∷ l) = or_default (read name) fallback ++ spell read l

-- from a number on, every value is the same
abbrev pub Settles : {A : Type 0} → (ℕ → A) → A → Type 0
Settles f a = (m : ℕ) × ((k : ℕ) → f (k + m) ≡ a)

pub Settles-suc : {A : Type 0} → (f : ℕ → A) (a : A) → Settles (λ n. f (suc n)) a → Settles f a
Settles-suc f a (m, h) =
    let behind : (k : ℕ) → k + suc m ≡ suc (k + m) = λ k. omega arith in
    (suc m, λ k. ap f (behind k) ∙ h k)

pub Settles-after : {A : Type 0} → (f : ℕ → A) (a : A) → Settles f a → Settles (λ n. f (suc n)) a
Settles-after f a (m, h) =
    let behind : (k : ℕ) → suc (k + m) ≡ suc k + m = λ k. omega arith in
    (m, λ k. ap f (behind k) ∙ h (suc k))

pub Settles-pair :
    {A B C : Type 0}
    → (f : ℕ → A) (g : ℕ → B) (both : A → B → C) (a : A) (b : B) → Settles f a
    → Settles g b
    → Settles (λ n. both (f n) (g n)) (both a b)
Settles-pair f g both a b (m, h) (p, q) =
    let left : (k : ℕ) → k + (m + p) ≡ (k + p) + m = λ k. omega arith in
    let right : (k : ℕ) → k + (m + p) ≡ (k + m) + p = λ k. omega arith in
    (m + p, λ k. rw (ap f (left k) ∙ h (k + p), ap g (right k) ∙ q (k + m)) refl)

pub Settles-same :
    {A : Type 0} → (f g : ℕ → A) (a : A) → ((k : ℕ) → f k ≡ g k) → Settles f a → Settles g a
Settles-same f g a same (m, h) = (m, λ k. sym (same (k + m)) ∙ h k)

pub Settles-unique : {A : Type 0} → (f : ℕ → A) (a b : A) → Settles f a → Settles f b → a ≡ b
Settles-unique f a b (m, h) (p, q) =
    let swap : p + m ≡ m + p = omega arith in sym (h p) ∙ ap f swap ∙ q m

module _ (env : List EnvEntry) (look : Bytes → Option Bytes) where
  -- the variable is unset
  abbrev pub is_removed : Bytes → Bool
  is_removed name = is_set (find_env name env) && (or_empty (find_env name env)).unset

  -- the value from before is read
  abbrev pub reads_before : List Bytes → Bytes → Bool
  reads_before seen name =
      not (is_set (find_env name env))
      || not (is_value (or_empty (find_env name env)))
      || is_self seen name

  -- the value of a variable, read up to a depth
  unfoldable pub says : ℕ → List Bytes → Bytes → Option Bytes
  says zero seen name = none
  says (suc n) seen name =
      let text = spell (says n (name ∷ [])) (pieces (or_empty (find_env name env)).value) in
      if is_removed name then none else if reads_before seen name then look name else some text

  pub says_own :
      (seen : List Bytes) (name : Bytes) (k : ℕ)
      → is_removed name ≡ false
      → reads_before seen name ≡ false
      → says k [] name ≡ says k seen name
  unfolding says is_self
  says_own seen name zero h g = refl
  says_own seen name (suc k) h g =
      let first : reads_before [] name ≡ false = ground arith in rw (h, g, first) refl

  says_last :
      (seen : List Bytes) (reader name : Bytes) (k : ℕ)
      → says k (reader ∷ seen) name ≡ says k (reader ∷ []) name
  unfolding says is_self
  says_last seen reader name zero = refl
  says_last seen reader name (suc k) = refl

  abbrev pub AreSaid : List EnvText → Type 0
  AreSaid = All (λ (e : EnvText). Settles (λ k. says k [] e.name) (some e.text))

  find_text-AreSaid :
      (name text : Bytes) (resolved : List EnvText)
      → AreSaid resolved
      → find_text name resolved ≡ some text
      → Settles (λ k. says k [] name) (some text)
  unfolding find_text
  find_text-AreSaid name text [] h k = cc
  find_text-AreSaid name text (e ∷ l) h k = elim (Bool-cases (equal name e.name)) [
    | inl same ↦
        let found : some e.text ≡ some text = rw same at k in
        subst (λ x. Settles (λ k. says k [] x) (some text)) (sym ((equal_iff name e.name).0 same))
          (subst (λ t. Settles (λ k. says k [] e.name) t) found h.0)
    | inr other ↦ find_text-AreSaid name text l h.1 (rw other at k)
  ]

  -- an answer without an error is right
  abbrev pub IsSaid : {V : Type 0} → (ℕ → V) → Answer V → Type 0
  IsSaid f answer = answer.failed ≡ none → Settles f answer.reply × AreSaid answer.resolved

  pub expand-IsSaid :
      (ask : Bytes → List EnvText → Answer (Option Bytes)) (read : ℕ → Bytes → Option Bytes)
      (l : List Piece) (resolved : List EnvText)
      → ((x : Bytes) (d : List EnvText) → AreSaid d → IsSaid (λ k. read k x) (ask x d))
      → AreSaid resolved
      → IsSaid (λ k. spell (read k) l) (expand ask l resolved)
  unfolding expand spell
  expand-IsSaid ask read [] resolved h said fine = ((0, λ k. refl), said)
  expand-IsSaid ask read (plain c ∷ l) resolved h said fine =
      let (m, q) = (expand-IsSaid ask read l resolved h said fine).0 in
      ((m, λ k. ap (λ s. c ∷ s) (q k)), (expand-IsSaid ask read l resolved h said fine).1)
  expand-IsSaid ask read (reference name fallback ∷ l) resolved h said fine =
      let both : ((ask name resolved).failed ≡ none)
          × ((expand ask l (ask name resolved).resolved).failed ≡ none) =
        none_both _ _ fine in
      let first = h name resolved said both.0 in
      let rest = expand-IsSaid ask read l (ask name resolved).resolved h first.1 both.1 in
      (
        Settles-pair (λ k. read k name) (λ k. spell (read k) l) (λ x s. or_default x fallback ++ s)
            _ _ first.0 rest.0,
        rest.1,
      )
    where
      none_both : (a b : Option EnvError) → first_error a b ≡ none → (a ≡ none) × (b ≡ none)
      none_both none b e = (refl, e)
      none_both (some a) b e = cc

  pub says_spelled :
      (seen : List Bytes) (name text : Bytes)
      → is_removed name ≡ false
      → reads_before seen name ≡ false
      → Settles (λ k. spell (says k (name ∷ [])) (pieces (or_empty (find_env name env)).value)) text
      → Settles (λ k. says k seen name) (some text)
  unfolding says
  says_spelled seen name text stays own (m, h) =
      Settles-suc (λ k. says k seen name) (some text) (m, λ k. rw (stays, own) (ap some (h k)))

  pub resolve-IsSaid :
      (n : ℕ) (name : Bytes) (seen : List Bytes) (resolved : List EnvText)
      → AreSaid resolved
      → IsSaid (λ k. says k seen name) (resolve env look n name seen resolved)
  unfolding resolve says keep done_or
  resolve-IsSaid zero name seen resolved said = λ fine. cc
  resolve-IsSaid (suc n) name seen resolved said = elim (Bool-cases (is_removed name)) [
    | inl gone ↦
        rw gone (λ fine. (Settles-suc (λ k. says k seen name) none (0, λ k. rw gone refl), said))
    | inr stays ↦ elim (Bool-cases (reads_before seen name)) [
      | inl before ↦
          rw (stays, before)
            (λ fine. (
              Settles-suc (λ k. says k seen name) (look name) (0, λ k. rw (stays, before) refl),
              said,
            ))
      | inr own ↦ elim (Option-cases (find_text name resolved)) [
        | inr (text, known) ↦
            let (m, h) = find_text-AreSaid name text resolved said known in
            rw (stays, own, known)
              (λ fine. ((m, λ k. sym (says_own seen name (k + m) stays own) ∙ h k), said))
        | inl new ↦ elim (Bool-cases (contains seen name)) [
          | inl again ↦ rw (stays, own, new, again) (λ fine. cc)
          | inr first ↦
              let l = pieces (or_empty (find_env name env)).value in
              let inner = expand (λ x. resolve env look n x (name ∷ seen)) l resolved in
              elim (Option-cases inner.failed) [
                | inr (e, bad) ↦ rw (stays, own, new, first, bad) (λ fine. cc)
                | inl good ↦
                    rw (stays, own, new, first, good)
                      (λ fine.
                        let (settled, kept) =
                          expand-IsSaid (λ x. resolve env look n x (name ∷ seen))
                            (λ k. says k (name ∷ [])) l resolved
                            (λ x d known fine.
                              let (here, rest) = resolve-IsSaid n x (name ∷ seen) d known fine in
                              (Settles-same _ _ _ (says_last seen name x) here, rest))
                            said good in
                        let spelled = says_spelled seen name inner.reply stays own settled in
                        (
                          spelled,
                          (
                            Settles-same _ _ _ (λ k. sym (says_own seen name k stays own)) spelled,
                            kept,
                          ),
                        ))
              ]
        ]
      ]
    ]
  ]
