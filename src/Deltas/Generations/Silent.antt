-- ===== src/Deltas/Generations/Silent.antt =====
-- Generations between which `generationDeltas` of internal/cli/changes.go has no row.
use mathlib.Core.Path.{fun_ext}
use oku.Base.{
  Bool, Bool-cases, Bytes, List, Option, Option-cases, [], ap, arith, eq_of_iff, equal_iff, find,
  inl, inr, none, refl, some, sym, true, ℕ, ◌++◌, ◌↔◌, ◌∙◌, ◌∷◌, ◌≡◌, ◌≢◌,
}
use oku.Deltas.{Delta, changed_rows, removed_rows, with_row}
use oku.Deltas.Generations.{
  file_gone, file_row, generation_deltas, package_gone, package_row, same_file, same_package,
  same_setting, setting_gone, setting_row,
}
use oku.Deltas.Generations.Applied.{file_rows, in_parts, package_rows, setting_rows}
use oku.Profile.{Generation, ProfileFile, ProfilePackage, Setting}

pub with_row-nil :
    (x : Option Delta) (rows : List Delta) → with_row x rows ≡ [] → (x ≡ none) × (rows ≡ [])
with_row-nil none rows h = (refl, h)
with_row-nil (some d) rows h = cc

pub append-nil_both : (xs ys : List Delta) → xs ++ ys ≡ [] → (xs ≡ []) × (ys ≡ [])
append-nil_both [] ys h = (refl, h)
append-nil_both (x ∷ xs) ys h = cc

-- what is seen of an item that is found
abbrev pub looked {ℓ} : {A : Type 0} {W : Type ℓ} → (A → W) → Option A → Option W
looked look none = none
looked look (some a) = some (look a)

module _ {A : Type 0} {K : Type 0} {W : Type 0} (key : A → K) (look : A → W) (same : A → A → Bool)
    (same_iff : (a b : A) → (same a b ≡ true) ↔ (key a ≡ key b)) (gone : A → Delta)
    (row : Option A → A → Option Delta) (row-none : (b : A) → row none b ≢ none)
    (row-some : (a b : A) → row (some a) b ≡ none → look a ≡ look b) where
  same_as : (x a : A) (l : List A) → same x a ≡ true → find (same a) l ≡ find (same x) l
  same_as x a l h =
      ap (λ f. find f l)
        (fun_ext λ b.
          eq_of_iff (same a b) (same x b)
            (λ g. (same_iff x b).1 ((same_iff x a).0 h ∙ (same_iff a b).0 g))
            (λ g. (same_iff a b).1 (sym ((same_iff x a).0 h) ∙ (same_iff x b).0 g)))

  not_gone :
      (x : A) (old new : List A) {a : A}
      → removed_rows same gone old new ≡ []
      → find (same x) old ≡ some a
      → find (same x) new ≢ none
  unfolding removed_rows
  not_gone x [] new h k = cc
  not_gone x (a ∷ old) new h k = elim (Option-cases (find (same a) new)) [
    | inl e ↦ let rows : gone a ∷ removed_rows same gone old new ≡ [] = rw e at h in cc
    | inr (b, e) ↦ elim (Bool-cases (same x a)) [
      | inl g ↦ λ m. let there = sym e ∙ same_as x a new g ∙ m in cc
      | inr g ↦ not_gone x old new (rw e at h) (rw g at k)
    ]
  ]

  looks_same :
      (x : A) (old new : List A) {b : A}
      → changed_rows same row old new ≡ []
      → find (same x) new ≡ some b
      → looked look (find (same x) old) ≡ some (look b)
  unfolding changed_rows
  looks_same x old [] h k = cc
  looks_same x old (b ∷ new) {b = c} h k =
      let (silent, rest) =
        with_row-nil (row (find (same b) old) b) (changed_rows same row old new) h in
      elim (Bool-cases (same x b)) [
        | inl g ↦ elim (Option-cases (find (same b) old)) [
          | inl e ↦ absurd (row-none b (ap (λ o. row o b) (sym e) ∙ silent))
          | inr (a, e) ↦
              ap (looked look) (sym (same_as x b old g) ∙ e)
              ∙ ap some (row-some a b (ap (λ o. row o b) (sym e) ∙ silent))
              ∙ ap (looked look) (rw g at k)
        ]
        | inr g ↦ looks_same x old new rest (rw g at k)
      ]

  -- where the loops report nothing
  pub looked-same :
      (x : A) (old new : List A)
      → removed_rows same gone old new ++ changed_rows same row old new ≡ []
      → looked look (find (same x) old) ≡ looked look (find (same x) new)
  looked-same x old new h =
      let (no_gone, no_row) =
        append-nil_both (removed_rows same gone old new) (changed_rows same row old new) h in
      elim (Option-cases (find (same x) new)) [
        | inr (b, e) ↦ looks_same x old new no_row e ∙ ap (looked look) (sym e)
        | inl e ↦ elim (Option-cases (find (same x) old)) [
          | inl g ↦ ap (looked look) (g ∙ sym e)
          | inr (a, g) ↦ absurd (not_gone x old new no_gone g e)
        ]
      ]

abbrev pub package_look : ProfilePackage → Bytes × Bytes
package_look p = (p.version, p.store_path)

abbrev pub file_look : ProfileFile → Bytes × Bytes × ℕ
file_look f = (f.link, f.hash, f.mode)

package_row-none : (b : ProfilePackage) → package_row none b ≢ none
unfolding package_row
package_row-none b h = cc

package_row-some :
    (a b : ProfilePackage) → package_row (some a) b ≡ none → package_look a ≡ package_look b
unfolding package_row
package_row-some a b h =
    let v : a.version ≡ b.version = ground (arith, equal_iff a.version b.version) in
    let s : a.store_path ≡ b.store_path = ground (arith, equal_iff a.store_path b.store_path) in cc

file_row-none : (b : ProfileFile) → file_row none b ≢ none
unfolding file_row
file_row-none b h = cc

file_row-some : (a b : ProfileFile) → file_row (some a) b ≡ none → file_look a ≡ file_look b
unfolding file_row
file_row-some a b h =
    let l : a.link ≡ b.link = ground (arith, equal_iff a.link b.link) in
    let s : a.hash ≡ b.hash = ground (arith, equal_iff a.hash b.hash) in
    let m : a.mode ≡ b.mode = ground (arith, equal_iff a.hash b.hash) in cc

abbrev setting_key : Setting → Bytes × Bytes
setting_key s = (s.domain, s.key)

same_setting_iff : (a b : Setting) → (same_setting a b ≡ true) ↔ (setting_key a ≡ setting_key b)
same_setting_iff a b = (
  λ h.
      let e : b.domain ≡ a.domain = ground (arith, equal_iff b.domain a.domain) in
      let f : b.key ≡ a.key = ground (arith, equal_iff b.key a.key) in cc,
  λ h. ground (
    arith,
    equal_iff b.domain a.domain,
    equal_iff b.key a.key,
    ap (λ (x : Bytes × Bytes). x.0) h,
    ap (λ (x : Bytes × Bytes). x.1) h,
  ),
)

setting_row-none : (b : Setting) → setting_row none b ≢ none
unfolding setting_row
setting_row-none b h = cc

setting_row-some : (a b : Setting) → setting_row (some a) b ≡ none → a.value ≡ b.value
unfolding setting_row
setting_row-some a b h = ground (arith, equal_iff a.value b.value)

-- Where no row stands between two generations, each package name stands for one version and store
-- path in both or for none in both, each target for one link, hash and mode, and each key of a domain
-- for one value.
pub generation_deltas-silent :
    (old new : Generation)
    → generation_deltas old new ≡ []
    → ((p : ProfilePackage)
        → looked package_look (find (same_package p) old.packages)
          ≡ looked package_look (find (same_package p) new.packages))
      × ((f : ProfileFile)
          → looked file_look (find (same_file f) old.files)
            ≡ looked file_look (find (same_file f) new.files))
      × ((s : Setting)
          → looked Setting.value (find (same_setting s) old.settings)
            ≡ looked Setting.value (find (same_setting s) new.settings))
generation_deltas-silent old new h =
    let (packages, rest) =
      append-nil_both (package_rows old new) (file_rows old new ++ setting_rows old new)
        (sym (in_parts old new) ∙ h) in
    let (files, settings) = append-nil_both (file_rows old new) (setting_rows old new) rest in
    (
      λ p.
          looked-same ProfilePackage.name package_look same_package
            (λ a b. ground (arith, equal_iff b.name a.name)) package_gone package_row
            package_row-none package_row-some p old.packages new.packages packages,
      λ f.
          looked-same ProfileFile.target file_look same_file
            (λ a b. ground (arith, equal_iff b.target a.target)) file_gone file_row file_row-none
            file_row-some f old.files new.files files,
      λ s.
          looked-same setting_key Setting.value same_setting same_setting_iff setting_gone
            setting_row setting_row-none setting_row-some s old.settings new.settings settings,
    )
