-- ===== src/Profile/Prune.antt =====
-- `Prune` of internal/profile/profile.go. The generations are the ones that `Generations` returns,
-- oldest first, the profile's directory is the numbers of the generations in it, and whether a
-- generation and the link trees can be deleted is an argument.
pub mod Spec
pub mod Pruned
use oku.Base.{
  Bool, List, Option, [], false, if◌then◌else◌, is_nil, keep, leb, length, ltb, negsuc, none, not,
  pos, some, suc, true, ℕ, ℤ, ◌&&◌, ◌++◌, ◌+◌, ◌==◌, ◌||◌, ◌∷◌,
}
use oku.Profile.{Generation, Retention}

-- `!r.Since.IsZero() && gen.Created.Before(r.Since)`
abbrev pub is_before : Retention → Generation → Bool
is_before r gen = ltb 0 r.since && ltb gen.created r.since

-- the loop that finds `then`; nothing is the -1 that it starts from
unfoldable pub then_from : Retention → ℕ → List Generation → Option ℕ → Option ℕ
then_from r i [] at = at
then_from r i (gen ∷ gens) at = then_from r (suc i) gens (if is_before r gen then some i else at)

-- `i >= then`
abbrev pub at_least : ℕ → Option ℕ → Bool
at_least i none = true
at_least i (some at) = leb at i

-- `r.Keep > 0 && i >= len(gens)-r.Keep`, with the difference written as a sum
abbrev pub kept_by_count : ℤ → ℕ → ℕ → Bool
kept_by_count (pos k) i total = ltb 0 k && leb total (i + k)
kept_by_count (negsuc k) i total = false

-- `!r.Since.IsZero() && (i >= then)`
abbrev pub kept_by_time : Retention → ℕ → Option ℕ → Bool
kept_by_time r i at = ltb 0 r.since && at_least i at

pub data PruneError : Type 0 where
  generation_stays : ℕ → PruneError
  trees_stay : PruneError

-- the profile's directory with the results of `Prune`
pub record State : Type 0 where
  pub dirs : List ℕ
  pub removed : List ℕ
  pub error : Option PruneError

abbrev pub without_dir : ℕ → List ℕ → List ℕ
without_dir n = keep (λ m. not (m == n))

-- the early return at an error
abbrev pub go_on_at : Option PruneError → State → (State → State) → State
go_on_at none s go_on = go_on s
go_on_at (some e) s go_on = s

abbrev pub unless_failed : State → (State → State) → State
unless_failed s go_on = go_on_at s.error s go_on

module _ (stays : ℕ → Bool) (dry_run : Bool) where
  -- the body of the loop for a generation that is not kept, up to the early return
  unfoldable pub delete : ℕ → State → State
  delete n s =
      if not dry_run && stays n then record s { error = some (generation_stays n) } else record s {
        dirs = if dry_run then s.dirs else without_dir n s.dirs;
        removed = s.removed ++ (n ∷ []);
      }

  -- the loop, which returns at the first error
  unfoldable pub prune_from : Retention → ℕ → Option ℕ → ℕ → List Generation → State → State
  prune_from r total at i [] s = s
  prune_from r total at i (gen ∷ gens) s =
      let next =
        if gen.is_current || kept_by_count r.keep_newest i total || kept_by_time r i at
        then s
        else delete gen.number s in
      unless_failed next (prune_from r total at (suc i) gens)

  -- the end of `Prune`
  abbrev pub drop_trees : Bool → State → State
  drop_trees trees_fail s =
      if dry_run || is_nil s.removed
      then s
      else record s { error = if trees_fail then some trees_stay else none }

  -- `Prune`
  unfoldable pub prune : Bool → Retention → List Generation → List ℕ → State
  prune trees_fail r gens dirs =
      unless_failed
        (prune_from r (length gens) (then_from r 0 gens none) 0 gens
          (record { dirs = dirs; removed = []; error = none }))
        (drop_trees trees_fail)
