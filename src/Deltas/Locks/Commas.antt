-- ===== src/Deltas/Locks/Commas.antt =====
-- A text that joins versions with commas, as depDeltas of internal/cli/changes.go does, tells which
-- versions they are, where no version has a comma.
use oku.Base.{
  Bool, Bytes, List, [], any, ap, arith, false, lacks, map, not, refl, split, split-append,
  split-lacks, split_pieces, true, ◌∙◌, ◌∷◌, ◌≡◌,
}
use oku.Deltas.Locks.{with_commas}

abbrev pub has_comma : Bytes → Bool
has_comma version = not (lacks b',' version)

-- the versions of a ref: one at least, and none with a comma
abbrev pub IsGood : List Bytes → Type 0
IsGood vs = (any (λ v. true) vs ≡ true) × (any has_comma vs ≡ false)

abbrev spaced : Bytes → Bytes
spaced v = b' ' ∷ v

abbrev unspaced : Bytes → Bytes
unspaced [] = []
unspaced (c ∷ v) = v

split-spaced :
    (w a : Bytes) (l : List Bytes) → split b',' w ≡ a ∷ l → split b',' (b' ' ∷ w) ≡ (b' ' ∷ a) ∷ l
unfolding split split_pieces
split-spaced w a l h = cc

split-with_commas :
    (x : Bytes) (xs : List Bytes)
    → any has_comma (x ∷ xs) ≡ false
    → split b',' (with_commas (x ∷ xs)) ≡ x ∷ map spaced xs
unfolding with_commas
split-with_commas x [] h = split-lacks b',' x (ground arith)
split-with_commas x (y ∷ ys) h =
    split-append b',' x (b' ' ∷ with_commas (y ∷ ys))
    ∙ cc (
      split-lacks b',' x (ground arith),
      split-spaced (with_commas (y ∷ ys)) y (map spaced ys) (split-with_commas y ys (ground arith)),
    )

map-unspaced : (xs : List Bytes) → map unspaced (map spaced xs) ≡ xs
map-unspaced [] = refl
map-unspaced (x ∷ xs) = rw (map-unspaced xs) refl

abbrev pub unspaced_list : List Bytes → List Bytes
unspaced_list [] = []
unspaced_list (x ∷ xs) = x ∷ map unspaced xs

-- The text tells which versions it is of.
pub unspaced_list-split :
    (vs : List Bytes) → IsGood vs → unspaced_list (split b',' (with_commas vs)) ≡ vs
unspaced_list-split [] h = cc (h.0)
unspaced_list-split (x ∷ xs) h =
    ap unspaced_list (split-with_commas x xs h.1) ∙ ap (λ l. x ∷ l) (map-unspaced xs)
