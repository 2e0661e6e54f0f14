-- ===== src/Infer.antt =====
-- internal/infer/infer.go: the words in the names of release assets, and which platform an asset is
-- for. Names are ASCII. The words of a table hold no space.
pub mod Words
pub mod Tables
pub mod Assets
use oku.Base.{
  Bool, Bytes, List, Option, [], cut_prefix, equal, false, if◌then◌else◌, is_digit, is_lower_letter,
  length, none, not, some, ℕ, ◌&&◌, ◌-◌, ◌==◌, ◌||◌, ◌∷◌,
}

-- `isAlnum`
abbrev pub is_alnum : ℕ → Bool
is_alnum c = is_lower_letter c || is_digit c

abbrev pub starts_alnum : Bytes → Bool
starts_alnum [] = false
starts_alnum (c ∷ rest) = is_alnum c

abbrev pub ends_word : Option Bytes → Bool
ends_word none = false
ends_word (some rest) = not (starts_alnum rest)

-- the text begins with the word, and with no longer one; `joined` is that a letter or a digit stands
-- before it
unfoldable pub is_whole : Bytes → Bool → Bytes → Bool
is_whole word joined text = not joined && ends_word (cut_prefix word text)

-- a space, within a word that is replaced or where one begins
abbrev pub or_space : Bool → ℕ → ℕ
or_space replaced c = if replaced then 32 else c

-- the loop of `blank` over one word, with `left` bytes of a word that is replaced still to come
unfoldable pub blank_from : Bytes → ℕ → Bool → Bytes → Bytes
blank_from word left joined [] = []
blank_from word left joined (c ∷ rest) =
    let here = is_whole word joined (c ∷ rest) in
    let now = if left == 0 then (if here then length word else 0) else left in
    let out = or_space (not (now == 0)) c in out ∷ blank_from word (now - 1) (is_alnum out) rest

abbrev pub blank_word : Bytes → Bytes → Bytes
blank_word word name = blank_from word 0 false name

-- `blank`
unfoldable pub blank : Bytes → List Bytes → Bytes
blank name [] = name
blank name (word ∷ words) = blank (blank_word word name) words

-- `hasWord`
unfoldable pub has_word : Bytes → List Bytes → Bool
has_word name words = not (equal (blank name words) name)
