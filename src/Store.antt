-- ===== src/Store.antt =====
-- matchSegments of internal/store/store.go. `fits` is `path.Match` of one segment, and false for a
-- segment of the pattern that is not valid.
pub mod Segments
use oku.Base.{Bool, Bytes, List, [], codes, equal, false, if◌then◌else◌, is_nil, ◌&&◌, ◌||◌, ◌∷◌}

abbrev pub is_stars : Bytes → Bool
is_stars segment = equal segment (codes "**")

-- the loop over how many segments "**" stands for
abbrev pub some_tail : (List Bytes → Bool) → List Bytes → Bool
some_tail f [] = f []
some_tail f (s ∷ segments) = f (s ∷ segments) || some_tail f segments

-- one segment of the pattern that is not "**"
abbrev pub match_one : (Bytes → Bytes → Bool) → Bytes → (List Bytes → Bool) → List Bytes → Bool
match_one fits p f [] = false
match_one fits p f (s ∷ segments) = fits p s && f segments

-- `matchSegments`
unfoldable pub match_segments : (Bytes → Bytes → Bool) → List Bytes → List Bytes → Bool
match_segments fits [] segments = is_nil segments
match_segments fits (p ∷ pattern) segments =
    let rest = match_segments fits pattern in
    if is_stars p then some_tail rest segments else match_one fits p rest segments
