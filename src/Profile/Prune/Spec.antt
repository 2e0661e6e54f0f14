-- ===== src/Profile/Prune/Spec.antt =====
-- Which generations a `Retention` keeps: a generation is told by those that are newer than it.
use oku.Base.{
  Bool, List, [], every, false, if◌then◌else◌, leb, length, ltb, negsuc, pos, ℕ, ℤ, ◌&&◌, ◌||◌, ◌∷◌,
}
use oku.Profile.{Generation, Retention}
use oku.Profile.Prune.{without_dir}

-- fewer than `Keep` generations are newer
abbrev pub is_newest : ℤ → List Generation → Bool
is_newest (pos k) newer = ltb (length newer) k
is_newest (negsuc k) newer = false

-- no newer generation is from before a time, so this one was active then or is newer
abbrev pub was_active_from : ℕ → List Generation → Bool
was_active_from since newer = every (λ g. leb since g.created) newer

-- `r` keeps a generation that is active, one that fewer than `Keep` follow, and, where `Since` is
-- set, one that no generation from before `Since` follows.
unfoldable pub keeps : Retention → Generation → List Generation → Bool
keeps r gen newer =
    gen.is_current
    || is_newest r.keep_newest newer
    || (ltb 0 r.since && was_active_from r.since newer)

-- the numbers of the generations that are not kept
unfoldable pub not_kept : Retention → List Generation → List ℕ
not_kept r [] = []
not_kept r (gen ∷ newer) =
    let rest = not_kept r newer in if keeps r gen newer then rest else gen.number ∷ rest

-- the directory without the generations of some numbers
abbrev pub without_dirs : List ℕ → List ℕ → List ℕ
without_dirs [] dirs = dirs
without_dirs (n ∷ ns) dirs = without_dirs ns (without_dir n dirs)
