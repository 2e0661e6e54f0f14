-- ===== src/Tests/TrustTests.antt =====
-- Tests of the trust modules, with files that are their items.
use Prim.Native.String.{String}
use oku.Base.{
  List, [], codes, contains, equal, is_nil, none, not, refl, some, true, ◌&&◌, ◌||◌, ◌∷◌, ◌≡◌,
}
use oku.Trust.{Machine, Toml, read, save}
use oku.Trust.Allowed.{Allow, changed, get, set}
use oku.Trust.Allowed.Last.{Call, Gives, last_allow, run, run-last_allow}
use oku.Trust.Sources.{Source, add_origins, has_origin}
use oku.Trust.Sources.Added.{Trusts, add_origins-Trusts}

abbrev plain : (A : Type 0) → Toml A
plain A = record {
  Data = List A;
  marshal = λ items. items;
  unmarshal = λ items. some items;
  unmarshal-marshal = λ items. refl;
}

abbrev works : Machine
works = record { locks = true; writes = true }

abbrev allow : String → String → Allow
allow dir sha = record { dir = codes dir; list_sha256 = codes sha; untracked = [] }

abbrev two_calls : List Call
two_calls =
    record { machine = works; stale = []; dir = codes "/a"; allow = some (allow "/a" "1") }
    ∷ record { machine = works; stale = allow "/b" "0" ∷ []; dir = codes "/b"; allow = none }
    ∷ []

both_calls : run (plain Allow) two_calls (some (allow "/b" "9" ∷ [])) ≡ some (allow "/a" "1" ∷ [])
unfolding run set read save changed equal
both_calls = refl

run-last_allow_example :
    Gives
      (plain Allow)
      (run (plain Allow) two_calls none)
      (λ other. last_allow two_calls other (get [] other))
unfolding read
run-last_allow_example = run-last_allow (plain Allow) two_calls none [] refl

abbrev trusted : Source
trusted = record { origin = codes "github:me"; trusted_at = 1 }

add_origins-Trusts_example :
    Trusts
      (plain Source)
      (add_origins
        (plain Source)
        works
        2
        (codes "example.com" ∷ [] ∷ codes "github:me" ∷ [])
        (trusted ∷ [])
        (some (trusted ∷ []))).file
      (λ o.
        has_origin (trusted ∷ []) o
        || not (is_nil o) && contains (codes "example.com" ∷ [] ∷ codes "github:me" ∷ []) o)
unfolding read has_origin equal
add_origins-Trusts_example =
    add_origins-Trusts (plain Source) works 2 (codes "example.com" ∷ [] ∷ codes "github:me" ∷ [])
      (trusted ∷ []) (some (trusted ∷ [])) refl refl (refl, refl, tt)
