-- ===== src/Tests/StoreTests.antt =====
-- Tests of patterns of paths.
use oku.Base.{Bool, Bytes, [], codes, equal, false, refl, true, ◌||◌, ◌↔◌, ◌∷◌, ◌≡◌}
use oku.Store.{match_segments}
use oku.Store.Segments.{IsCovered, match_segments-covers}

-- "*" fits any segment and any other only itself
abbrev star_fits : Bytes → Bytes → Bool
star_fits p s = equal p (codes "*") || equal p s

match_deep :
    match_segments star_fits
      (codes "man" ∷ codes "**" ∷ codes "tool.1" ∷ [])
      (codes "man" ∷ codes "man1" ∷ codes "en" ∷ codes "tool.1" ∷ [])
    ≡ true
unfolding match_segments equal
match_deep = refl

match_short :
    match_segments star_fits (codes "*" ∷ codes "tool.1" ∷ []) (codes "tool.1" ∷ []) ≡ false
unfolding match_segments equal
match_short = refl

match_segments-covers_example :
    (match_segments star_fits (codes "**" ∷ codes "*" ∷ []) (codes "a" ∷ codes "b" ∷ []) ≡ true)
    ↔ IsCovered star_fits (codes "**" ∷ codes "*" ∷ []) (codes "a" ∷ codes "b" ∷ [])
match_segments-covers_example =
    match_segments-covers star_fits (codes "**" ∷ codes "*" ∷ []) (codes "a" ∷ codes "b" ∷ [])
