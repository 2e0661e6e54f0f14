-- ===== src/Infer/Words.antt =====
-- hasWord and blank of internal/infer/infer.go, and the words of a name.
use oku.Base.{
  ◌∙◌, Bool, Bool-cases, Bytes, List, [], and_true, any, ap, arith, cut_prefix, equal, equal_iff,
  equal_refl, every, false, has_prefix, if◌then◌else◌, inl, inr, length, not, refl, suc, true, zero,
  ℕ, ◌&&◌, ◌+◌, ◌-◌, ◌<◌, ◌==◌, ◌||◌, ◌∷◌, ◌≡◌, ◌≤◌,
}
use oku.Infer.{
  blank, blank_from, blank_word, ends_word, has_word, is_alnum, is_whole, or_space, starts_alnum,
}

-- the text behind some bytes
abbrev pub behind : ℕ → Bytes → Bytes
behind zero text = text
behind (suc n) [] = []
behind (suc n) (c ∷ rest) = behind n rest

-- The text begins with the word. `joined` is that a letter or a digit stands before it, and none may
-- stand before or behind the word.
unfoldable pub stands_at : Bytes → Bool → Bytes → Bool
stands_at word joined text =
    not joined && (has_prefix word text && not (starts_alnum (behind (length word) text)))

-- the word stands somewhere in the text as a whole word
unfoldable pub occurs_from : Bytes → Bool → Bytes → Bool
occurs_from word joined [] = false
occurs_from word joined (c ∷ rest) =
    stands_at word joined (c ∷ rest) || occurs_from word (is_alnum c) rest

ends_word-cut_prefix :
    (word text : Bytes)
    → ends_word (cut_prefix word text)
      ≡ (has_prefix word text && not (starts_alnum (behind (length word) text)))
unfolding cut_prefix has_prefix
ends_word-cut_prefix [] text = refl
ends_word-cut_prefix (d ∷ word) [] = refl
ends_word-cut_prefix (d ∷ word) (c ∷ text) = elim (Bool-cases (d == c)) [
  | inl same ↦ rw same (ends_word-cut_prefix word text)
  | inr other ↦ rw other refl
]

stands_at-is_whole :
    (word : Bytes) (joined : Bool) (text : Bytes)
    → stands_at word joined text ≡ is_whole word joined text
unfolding stands_at is_whole
stands_at-is_whole word joined text = rw (ends_word-cut_prefix word text) refl

abbrev pub occurs_in : Bytes → Bytes → Bool
occurs_in name word = occurs_from word false name

-- a word that begins with no space
abbrev pub is_word : Bytes → Bool
is_word [] = false
is_word (c ∷ rest) = not (c == 32)

abbrev spaces : Bytes → ℕ
spaces [] = 0
spaces (c ∷ rest) = (if c == 32 then 1 else 0) + spaces rest

spaces-blank_from :
    (word : Bytes) (left : ℕ) (joined : Bool) (text : Bytes)
    → spaces text ≤ spaces (blank_from word left joined text)
unfolding blank_from
spaces-blank_from word left joined [] = omega arith
spaces-blank_from word left joined (c ∷ rest) =
    let here = is_whole word joined (c ∷ rest) in
    let now = if left == 0 then (if here then length word else 0) else left in
    let out = or_space (not (now == 0)) c in
    let more = spaces-blank_from word (now - 1) (is_alnum out) rest in ground (arith, more)

blank_from-lacks :
    (word : Bytes) (joined : Bool) (text : Bytes)
    → occurs_from word joined text ≡ false
    → blank_from word 0 joined text ≡ text
unfolding blank_from occurs_from
blank_from-lacks word joined [] h = refl
blank_from-lacks word joined (c ∷ rest) h =
    let same = stands_at-is_whole word joined (c ∷ rest) in
    elim (Bool-cases (is_whole word joined (c ∷ rest))) [
      | inl here ↦ let bad = rw (same ∙ here) at h in cc
      | inr other ↦
          let later = rw (same ∙ other) at h in
          rw other (ap (λ l. c ∷ l) (blank_from-lacks word (is_alnum c) rest later))
    ]

whole_head :
    (word : Bytes) (joined : Bool) (c : ℕ) (rest : Bytes)
    → is_word word ≡ true
    → is_whole word joined (c ∷ rest) ≡ true
    → ((c == 32) ≡ false) × ((length word == 0) ≡ false)
unfolding is_whole cut_prefix
whole_head [] joined c rest w h = cc
whole_head (d ∷ word) joined c rest w h = elim (Bool-cases (d == c)) [
  | inl same ↦ (ground (arith, w, same), ground arith)
  | inr other ↦ let bad = rw other at h in absurd (ground (arith, bad))
]

blank_from-occurs :
    (word : Bytes) (joined : Bool) (text : Bytes)
    → is_word word ≡ true
    → occurs_from word joined text ≡ true
    → spaces text < spaces (blank_from word 0 joined text)
unfolding blank_from occurs_from
blank_from-occurs word joined [] w h = cc
blank_from-occurs word joined (c ∷ rest) w h =
    let same = stands_at-is_whole word joined (c ∷ rest) in
    elim (Bool-cases (is_whole word joined (c ∷ rest))) [
      | inl here ↦
          let (letter, long) = whole_head word joined c rest w here in
          let more = spaces-blank_from word (length word - 1) false rest in
          rw (here, long, letter) (omega (arith, more))
      | inr other ↦
          let more = blank_from-occurs word (is_alnum c) rest w (rw (same ∙ other) at h) in
          rw other (omega (arith, more))
    ]

spaces-blank : (name : Bytes) (words : List Bytes) → spaces name ≤ spaces (blank name words)
unfolding blank
spaces-blank name [] = omega arith
spaces-blank name (word ∷ words) =
    omega (arith, spaces-blank_from word 0 false name, spaces-blank (blank_word word name) words)

blank-lacks :
    (name : Bytes) (words : List Bytes)
    → any (occurs_in name) words ≡ false
    → blank name words ≡ name
unfolding blank
blank-lacks name [] h = refl
blank-lacks name (word ∷ words) h =
    let here : occurs_in name word ≡ false = ground (arith, h) in
    let rest : any (occurs_in name) words ≡ false = ground (arith, h) in
    rw (blank_from-lacks word false name here) (blank-lacks name words rest)

blank-occurs :
    (name : Bytes) (words : List Bytes)
    → every is_word words ≡ true
    → any (occurs_in name) words ≡ true
    → spaces name < spaces (blank name words)
unfolding blank
blank-occurs name [] w h = cc
blank-occurs name (word ∷ words) w h =
    let (here, rest) = and_true (is_word word) (every is_word words) w in
    elim (Bool-cases (occurs_in name word)) [
      | inl there ↦
          let more = blank_from-occurs word false name here there in
          omega (arith, more, spaces-blank (blank_word word name) words)
      | inr other ↦
          rw (blank_from-lacks word false name other) (blank-occurs name words rest (rw other at h))
    ]

-- hasWord reports whether one of the words stands in the name as a whole word, without a letter or
-- a digit before or behind it, for words that begin with no space.
pub has_word-occurs :
    (name : Bytes) (words : List Bytes)
    → every is_word words ≡ true
    → has_word name words ≡ any (occurs_in name) words
unfolding has_word
has_word-occurs name words w = elim (Bool-cases (any (occurs_in name) words)) [
  | inr absent ↦ rw (blank-lacks name words absent, equal_refl name, absent) refl
  | inl there ↦
      let more = blank-occurs name words w there in
      elim (Bool-cases (equal (blank name words) name)) [
        | inr other ↦ rw (other, there) refl
        | inl same ↦
            let equal_spaces = ap spaces ((equal_iff (blank name words) name).0 same) in
            absurd (omega (arith, more, equal_spaces))
      ]
]
