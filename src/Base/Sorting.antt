-- ===== src/Base/Sorting.antt =====
-- `slices.Sorted` and `slices.Sort` on strings.
use mathlib.Core.Path.{◌≡◌, refl}
use mathlib.Core.Bool.{Bool, true, false, ◌&&◌, ◌||◌}
use mathlib.Core.List.{List, [], ◌∷◌}
use native.Mathlib.Omega.{arith}
use oku.Base.Tests.{ltb, ◌==◌, if◌then◌else◌}
use oku.Base.Lists.{any}
use oku.Base.Text.{Bytes}

-- `a <= b` on strings, byte by byte
unfoldable pub text_leq : Bytes → Bytes → Bool
text_leq [] b = true
text_leq (c ∷ a) [] = false
text_leq (c ∷ a) (d ∷ b) = ltb c d || (c == d && text_leq a b)

unfoldable pub insert_text : Bytes → List Bytes → List Bytes
insert_text a [] = a ∷ []
insert_text a (b ∷ l) = let rest = insert_text a l in if text_leq a b then a ∷ b ∷ l else b ∷ rest

-- the texts in order; equal texts are the same, so no other order is left open
unfoldable pub sorted : List Bytes → List Bytes
sorted [] = []
sorted (a ∷ l) = insert_text a (sorted l)

any-insert_text :
    (p : Bytes → Bool) (a : Bytes) (l : List Bytes) → any p (insert_text a l) ≡ (p a || any p l)
unfolding insert_text
any-insert_text p a [] = refl
any-insert_text p a (b ∷ l) = ground (arith, any-insert_text p a l)

-- sorting keeps the texts
pub any-sorted : (p : Bytes → Bool) (l : List Bytes) → any p (sorted l) ≡ any p l
unfolding sorted
any-sorted p [] = refl
any-sorted p (a ∷ l) = ground (arith, any-insert_text p a (sorted l), any-sorted p l)
