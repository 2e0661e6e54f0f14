-- ===== src/Tests/ExposeTests.antt =====
-- Tests of the ledger of exposed items.
use mathlib.Core.Path.{sym}
use Prim.Native.String.{String}
use oku.Base.{
  Throughout, Bytes, List, Option, [], ap, codes, equal, equal_iff, equal_refl, every, false, none,
  refl, some, true, ◌++◌, ◌∷◌, ◌≡◌,
}
use oku.Expose.{
  Calls, Item, removes, act, bare, check_items, copies_dropped, file_item, in_the_way, is_gone,
  is_missing, is_seen, keep_system, leaving, owns, place_item, place_items, places, remove_all,
  remove_items, same_item, saves, sync, wants,
}
use oku.Expose.Known.{AreReplaced, IsKnown, all_known}
use oku.Expose.Known.Crash.{sync-IsKnown}
use oku.Expose.Matches.Placed.{sync-matches}
use oku.Expose.Owned.{IsFaithful, is_allowed, sync-is_allowed}

abbrev link : String → String → Item
link source target = record {
  kind = file_item;
  of_package = codes "bat";
  source = codes source;
  target = codes target;
  name = [];
  enabled = false;
  system = false;
  user = [];
  hash = [];
  domain = [];
  key = [];
  prior = [];
  had_prior = false;
  dir = 0;
}

-- every call succeeds, and `Before` notes a value
abbrev noting : Item → Item
noting item = record item { prior = codes "old"; had_prior = true }

abbrev calm : Calls
calm = record {
  hidden = λ t. false;
  write_fails = λ items. false;
  remove_fails = λ item. false;
  is_replaced = λ item. false;
  place_fails = λ item. false;
  leaves_part = λ item. false;
  before = λ item. some (noting item);
}

-- placing fails and leaves a part
abbrev clumsy : Calls
clumsy = record calm {
  is_replaced = λ item. equal item.target (codes "own");
  place_fails = λ item. true;
  leaves_part = λ item. true;
}

abbrev had : List Item
had = link "/store/a" "a" ∷ link "/store/b" "b" ∷ []

abbrev wanted : List Item
wanted = link "/store/b" "b" ∷ link "/store/c" "c" ∷ []

abbrev present : List Bytes
present = codes "a" ∷ codes "b" ∷ []

sync-moves : sync calm wanted present had ≡ record {
  actions =
      removes (link "/store/a" "a")
      ∷ saves (link "/store/b" "b" ∷ [])
      ∷ saves (link "/store/b" "b" ∷ noting (link "/store/c" "c") ∷ [])
      ∷ places (noting (link "/store/c" "c"))
      ∷ [];
  items = link "/store/b" "b" ∷ noting (link "/store/c" "c") ∷ [];
  error = none;
}
unfolding sync wants owns check_items remove_items place_items place_item bare same_item equal
    is_gone is_missing is_seen copies_dropped
sync-moves = refl

sync-not_ours :
    (sync calm wanted (codes "c" ∷ []) []).error ≡ some (in_the_way (link "/store/c" "c"))
unfolding sync wants owns check_items bare same_item equal is_gone is_missing is_seen copies_dropped
sync-not_ours = refl

-- an item that the user deleted is placed again
sync-again :
    (sync calm had (codes "b" ∷ []) had).items
    ≡ link "/store/b" "b" ∷ noting (link "/store/a" "a") ∷ []
unfolding sync wants owns check_items remove_items place_items place_item bare same_item equal
    is_gone is_missing is_seen copies_dropped
sync-again = refl

remove_all-had : (remove_all calm present had).items ≡ []
unfolding remove_all sync wants owns check_items remove_items place_items bare same_item equal
    is_gone is_missing is_seen copies_dropped
remove_all-had = refl

leaving-had : leaving had wanted ≡ link "/store/a" "a" ∷ []
unfolding leaving owns equal
leaving-had = refl

act-places :
    (act (places (link "/store/a" "a")) (record { saved = []; there = [] })).there ≡ codes "a" ∷ []
unfolding act
act-places = refl

keep_system-had :
    keep_system (record (link "x" "y") { system = true } ∷ had) wanted
    ≡ wanted ++ (record (link "x" "y") { system = true } ∷ [])
unfolding keep_system
keep_system-had = refl

calm-IsFaithful : IsFaithful calm
unfolding bare
calm-IsFaithful want found e =
    ap (λ (o : Option Item). elim o [ none ↦ bare want | some x ↦ bare x ]) (sym e)

clumsy-IsFaithful : IsFaithful clumsy
unfolding bare
clumsy-IsFaithful want found e =
    ap (λ (o : Option Item). elim o [ none ↦ bare want | some x ↦ bare x ]) (sym e)

had-IsKnown : IsKnown (codes "own" ∷ []) (record { saved = had; there = codes "own" ∷ present })
unfolding all_known owns equal
had-IsKnown = refl

clumsy-AreReplaced : AreReplaced (codes "own" ∷ []) clumsy
clumsy-AreReplaced item h =
    let same = (equal_iff item.target (codes "own")).0 h in rw (same, equal_refl (codes "own")) refl

sync-IsKnown_example :
    Throughout act
      (IsKnown (codes "own" ∷ []))
      (record { saved = had; there = codes "own" ∷ present })
      (sync clumsy wanted (codes "own" ∷ present) had).actions
sync-IsKnown_example =
    sync-IsKnown (codes "own" ∷ []) clumsy wanted
      (record { saved = had; there = codes "own" ∷ present }) clumsy-AreReplaced had-IsKnown

sync-is_allowed_example :
    every (is_allowed clumsy present had) (sync clumsy wanted present had).actions ≡ true
sync-is_allowed_example = sync-is_allowed clumsy wanted present had clumsy-IsFaithful

sync-fine : (sync calm wanted present had).error ≡ none
unfolding sync wants owns check_items remove_items place_items place_item bare same_item equal
    is_gone is_missing is_seen copies_dropped
sync-fine = refl

sync-matches_example :
    (every (wants wanted) (sync calm wanted present had).items ≡ true)
    × (every (wants (sync calm wanted present had).items) wanted ≡ true)
sync-matches_example = sync-matches calm wanted present had calm-IsFaithful sync-fine
