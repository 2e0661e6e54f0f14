-- ===== src/Profile/Stages/Fresh.antt =====
-- `stage` and `Activate` of internal/profile/profile.go, and the names that are taken.
use oku.Base.{
  Bool-cases, Bytes, List, Option, Result-cases, [], ap, arith, cut_prefix, equal, equal_iff, false,
  inl, inr, ltb, negsuc, none, pos, refl, some, subst, suc, true, zero, ℕ, ℤ, ◌+◌, ◌<◌, ◌∙◌, ◌∷◌,
  ◌≡◌, ◌≤◌,
}
use oku.Change.{failed}
use oku.Profile.Stages.{
  Disk, Entry, Faults, Held, current_number, find_entry, generation_name, highest_from,
  next_generation, number_of, number_or_zero, raised_by, stage, unfinished_name,
}
use oku.Profile.Stages.Edits.{activate}
use oku.Profile.Stages.Kept.{is_beside, stage-Keeps}
use oku.Version.{two_63}
use oku.Version.Range.{increment}
use oku.Version.Range.Shown.{atoi-itoa}

highest_from_mono : (highest : ℕ) (l : List Entry) → highest ≤ highest_from highest l
unfolding highest_from
highest_from_mono highest [] = omega arith
highest_from_mono highest (e ∷ l) =
    let rest = highest_from_mono (raised_by highest (number_of e.name)) l in
    let here = raised (number_of e.name) in omega arith
  where
    raised : (o : Option ℤ) → highest ≤ raised_by highest o
    raised none = omega arith
    raised (some (negsuc n)) = omega arith
    raised (some (pos n)) = ground arith

find_entry-higher :
    (name : Bytes) (n highest : ℕ) (l : List Entry)
    → number_of name ≡ some (pos n)
    → highest_from highest l < n
    → find_entry name l ≡ none
unfolding highest_from find_entry
find_entry-higher name n highest [] h k = refl
find_entry-higher name n highest (e ∷ l) h k = elim (Bool-cases (equal name e.name)) [
  | inl same ↦
      let number = subst (λ x. number_of x ≡ some (pos n)) ((equal_iff name e.name).0 same) h in
      let reached : n ≤ raised_by highest (number_of e.name) = rw number (ground arith) in
      absurd (omega (arith, highest_from_mono (raised_by highest (number_of e.name)) l))
  | inr other ↦ rw other (find_entry-higher name n (raised_by highest (number_of e.name)) l h k)
]

number_of-generation_name :
    (n : ℕ) → ltb n two_63 ≡ true → number_of (generation_name (pos n)) ≡ some (pos n)
unfolding generation_name cut_prefix
number_of-generation_name n h = atoi-itoa n h

next_generation-pos :
    (entries : List Entry)
    → ltb (highest_from 0 entries + 1) two_63 ≡ true
    → next_generation entries ≡ pos (highest_from 0 entries + 1)
unfolding next_generation increment
next_generation-pos entries h = ground arith

-- No entry has the name of the next generation, if the highest number is not the last int.
pub next_generation-is_new :
    (entries : List Entry)
    → ltb (highest_from 0 entries + 1) two_63 ≡ true
    → find_entry (generation_name (next_generation entries)) entries ≡ none
next_generation-is_new entries h =
    let n = highest_from 0 entries + 1 in
    rw (next_generation-pos entries h) (
      find_entry-higher (generation_name (pos n)) n 0 entries (number_of-generation_name n h)
        (omega arith))

-- Whatever fails, `stage` changes no entry that is there, apart from the unfinished copy, the project
-- file and the directory of the link trees, if the highest number is not the last int.
pub stage-loses_none :
    (faults : Faults) (held : Held) (disk : Disk) (e : Entry) (name : Bytes)
    → ltb (highest_from 0 disk.entries + 1) two_63 ≡ true
    → equal name (unfinished_name (next_generation disk.entries)) ≡ false
    → is_beside name ≡ false
    → find_entry name disk.entries ≡ some e
    → find_entry name (stage faults held disk).0.entries ≡ some e
stage-loses_none faults held disk e name h k beside there =
    let (active, failed, staged_too) = stage-Keeps faults held disk name k beside in
    elim (Result-cases (stage faults held disk).1) [
      | inr (error, bad) ↦ failed error bad ∙ there
      | inl (n, good) ↦
          let (next, after) = staged_too n good in
          elim (Bool-cases (equal name (generation_name n))) [
            | inr other ↦ after ∙ rw other there
            | inl same ↦
                let new = next_generation-is_new disk.entries h in
                let taken =
                  subst (λ x. find_entry x disk.entries ≡ some e)
                    ((equal_iff name (generation_name n)).0 same ∙ ap generation_name next) there in
                cc
          ]
    ]

-- `Current` reads back the number that `Activate` was given, if it is an int and not negative.
pub current_number-activate :
    (n : ℕ) (disk : Disk)
    → ltb n two_63 ≡ true
    → current_number (activate false (pos n) disk).0.active ≡ pos n
unfolding activate current_number
current_number-activate zero disk h = refl
current_number-activate (suc n) disk h = ap number_or_zero (number_of-generation_name (suc n) h)
