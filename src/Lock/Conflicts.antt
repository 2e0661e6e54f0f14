-- ===== src/Lock/Conflicts.antt =====
-- `Conflicted` of internal/lock/lock.go: the sides of a git merge conflict.
pub mod Marks
use oku.Base.{
  Bool, Bytes, List, [], codes, equal, false, if◌then◌else◌, suc, text_or, trim_space, true, zero,
  ℕ, ◌==◌, ◌∷◌,
}

unfoldable pub line_before : ℕ → List Bytes → List Bytes
line_before c [] = (c ∷ []) ∷ []
line_before c (line ∷ rest) = if c == 10 then (c ∷ []) ∷ line ∷ rest else (c ∷ line) ∷ rest

-- `strings.Lines`: each line with its newline
unfoldable pub lines : Bytes → List Bytes
lines [] = []
lines (c ∷ text) = line_before c (lines text)

-- the slices of a line at `min(n, len(line))`
abbrev pub up_to : ℕ → Bytes → Bytes
up_to zero line = []
up_to (suc n) [] = []
up_to (suc n) (c ∷ line) = c ∷ up_to n line

abbrev pub from : ℕ → Bytes → Bytes
from zero line = line
from (suc n) [] = []
from (suc n) (c ∷ line) = from n line

pub record Sides : Type 0 where
  pub ours : Bytes
  pub theirs : Bytes
  pub found : Bool

-- the loop body
unfoldable pub note_line : Bytes → Sides → Sides
note_line line sides =
    let marker = up_to 7 line in
    let label = trim_space (from 7 line) in
    if equal marker (codes "<<<<<<<")
    then record sides { ours = text_or label (codes "ours"); found = true }
    else if equal marker (codes ">>>>>>>")
    then record sides { theirs = text_or label (codes "theirs") }
    else sides

unfoldable pub note_lines : List Bytes → Sides → Sides
note_lines [] sides = sides
note_lines (line ∷ rest) sides = note_lines rest (note_line line sides)

-- `Conflicted`
unfoldable pub conflicted : Bytes → Sides
conflicted text = note_lines (lines text) (record { ours = []; theirs = []; found = false })
