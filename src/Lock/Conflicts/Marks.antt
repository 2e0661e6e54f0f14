-- ===== src/Lock/Conflicts/Marks.antt =====
-- The lines and the labels that `Conflicted` reads.
use oku.Base.{
  Bool, Bool-cases, Bytes, List, [], any, arith, codes, equal, false, has_prefix, if◌then◌else◌,
  inl, inr, length, refl, text_or, trim_space, true, ℕ, ◌++◌, ◌==◌, ◌||◌, ◌∙◌, ◌∷◌, ◌≡◌, ◌≢◌,
}
use oku.Lock.Conflicts.{Sides, conflicted, from, line_before, lines, note_line, note_lines, up_to}

-- a line that is no more than a line: a newline stands at its end or nowhere
abbrev pub IsLine : Bytes → Type 0
IsLine [] = ⊥
IsLine (c ∷ []) = Unit
IsLine (c ∷ d ∷ line) = (c ≢ 10) × IsLine (d ∷ line)

abbrev pub ends_line : Bytes → Bool
ends_line [] = false
ends_line (c ∷ []) = c == 10
ends_line (c ∷ d ∷ line) = ends_line (d ∷ line)

-- every line but the last has a newline at its end
abbrev pub AreLines : List Bytes → Type 0
AreLines [] = Unit
AreLines (line ∷ []) = IsLine line
AreLines (line ∷ next ∷ rest) = IsLine line × (ends_line line ≡ true) × AreLines (next ∷ rest)

abbrev pub concat : List Bytes → Bytes
concat [] = []
concat (line ∷ rest) = line ++ concat rest

longer_line :
    (c : ℕ) (line : Bytes) (rest : List Bytes)
    → c ≢ 10
    → AreLines (line ∷ rest)
    → AreLines ((c ∷ line) ∷ rest)
longer_line c [] [] differs h = absurd h
longer_line c [] (next ∷ rest) differs h = absurd (h.0)
longer_line c (d ∷ line) [] differs h = (differs, h)
longer_line c (d ∷ line) (next ∷ rest) differs (h, k, m) = ((differs, h), k, m)

line_before-AreLines :
    (c : ℕ) (rest : List Bytes)
    → AreLines rest
    → (concat (line_before c rest) ≡ c ∷ concat rest) × AreLines (line_before c rest)
unfolding line_before
line_before-AreLines c [] h = (refl, tt)
line_before-AreLines c (line ∷ rest) h = elim (Bool-cases (c == 10)) [
  | inl e ↦ rw e (refl, (tt, e, h))
  | inr e ↦ rw e (refl, longer_line c line rest (ground arith) h)
]

-- The lines of a text are the text in order, and each is cut behind its first newline.
pub lines-AreLines : (text : Bytes) → (concat (lines text) ≡ text) × AreLines (lines text)
unfolding lines
lines-AreLines [] = (refl, tt)
lines-AreLines (c ∷ text) =
    let (joined, good) = lines-AreLines text in
    let (j, g) = line_before-AreLines c (lines text) good in (j ∙ rw joined, g)

-- the label of the last line with the marker, or the text given
abbrev pub last_label : Bytes → Bytes → List Bytes → Bytes → Bytes
last_label marker name [] before = before
last_label marker name (line ∷ rest) before =
    last_label marker name rest
      (if has_prefix marker line then text_or (trim_space (from 7 line)) name else before)

up_to-has_prefix :
    (marker line : Bytes) → equal (up_to (length marker) line) marker ≡ has_prefix marker line
unfolding equal has_prefix
up_to-has_prefix [] line = refl
up_to-has_prefix (m ∷ marker) [] = refl
up_to-has_prefix (m ∷ marker) (c ∷ line) = ground (arith, up_to-has_prefix marker line)

one_marker :
    (line : Bytes)
    → has_prefix (codes "<<<<<<<") line ≡ true
    → has_prefix (codes ">>>>>>>") line ≡ false
unfolding has_prefix
one_marker [] h = cc
one_marker (c ∷ line) h = ground arith

note_lines-marks :
    (l : List Bytes) (sides : Sides)
    → note_lines l sides ≡ record {
      ours = last_label (codes "<<<<<<<") (codes "ours") l sides.ours;
      theirs = last_label (codes ">>>>>>>") (codes "theirs") l sides.theirs;
      found = sides.found || any (has_prefix (codes "<<<<<<<")) l;
    }
unfolding note_lines note_line
note_lines-marks [] sides = ground arith
note_lines-marks (line ∷ l) sides =
    note_lines-marks l (note_line line sides)
    ∙ ground (
      arith,
      up_to-has_prefix (codes "<<<<<<<") line,
      up_to-has_prefix (codes ">>>>>>>") line,
      one_marker line,
    )

-- `conflicted` reports a conflict exactly if a line begins with the marker of the first side, and
-- the name of a side is the label of the last line that begins with its marker, or its default where
-- that label is empty.
pub conflicted-marks :
    (text : Bytes)
    → conflicted text ≡ record {
      ours = last_label (codes "<<<<<<<") (codes "ours") (lines text) [];
      theirs = last_label (codes ">>>>>>>") (codes "theirs") (lines text) [];
      found = any (has_prefix (codes "<<<<<<<")) (lines text);
    }
unfolding conflicted
conflicted-marks text =
    note_lines-marks (lines text) (record { ours = []; theirs = []; found = false })
