-- ===== src/List/Pieces.antt =====
-- `referenceRe` of internal/list/env.go: the references in a text.
use oku.Base.{
  Bytes, List, Option, [], cut, has_prefix, if◌then◌else◌, is_nil, length, none, some, suc, true,
  zero, ℕ, ◌+◌, ◌∷◌,
}
use oku.List.Dotenv.{Round, drop_byte, name_span}

-- a piece of a text: a byte, or what `referenceRe` matches
pub data Piece : Type 0 where
  plain : ℕ → Piece
  reference : Bytes → Option Bytes → Piece

-- a match of `referenceRe`, as the piece and the number of its bytes behind the first
pub record Reference : Type 0 where
  pub piece : Piece
  pub size : ℕ

-- the default behind ":-", which ends at the first closing brace
unfoldable pub reference_default : Bytes → Bytes → Option Reference
reference_default name rest =
    let braces = cut b'}' rest in
    if braces.found
    then some (record {
      piece = reference name (some braces.before);
      size = length name + length braces.before + 4;
    })
    else none

unfoldable pub reference_behind : Round → Option Reference
reference_behind span =
    if is_nil span.out
    then none
    else if has_prefix (b'}' ∷ []) span.rest
    then some (record { piece = reference span.out none; size = length span.out + 2 })
    else if has_prefix (b':' ∷ b'-' ∷ []) span.rest
    then reference_default span.out (drop_byte (drop_byte span.rest))
    else none

-- `referenceRe`, \$\{([A-Za-z_][A-Za-z0-9_]*)(:-([^}]*))?\}, at the start of a text
unfoldable pub reference_at : Bytes → Option Reference
reference_at text =
    if has_prefix (b'$' ∷ b'{' ∷ []) text
    then reference_behind (name_span true (drop_byte (drop_byte text)))
    else none

abbrev pub piece_at : ℕ → Option Reference → Piece
piece_at c none = plain c
piece_at c (some found) = found.piece

abbrev pub size_at : Option Reference → ℕ
size_at none = 0
size_at (some found) = found.size

-- the matches of `referenceRe` in a text and the bytes between them; a number of bytes is skipped
unfoldable pub pieces_from : ℕ → Bytes → List Piece
pieces_from skipped [] = []
pieces_from (suc skipped) (c ∷ text) = pieces_from skipped text
pieces_from zero (c ∷ text) =
    let found = reference_at (c ∷ text) in piece_at c found ∷ pieces_from (size_at found) text

unfoldable pub pieces : Bytes → List Piece
pieces text = pieces_from 0 text
