-- ===== src/Deltas/Locks/Pins.antt =====
-- Platforms that `reflect.DeepEqual` of internal/cli/changes.go finds equal are pinned alike.
use oku.Base.{
  ==_iff, Bool, Bool-cases, Bytes, List, Option, [], and_true, ap, arith, differ, equal, equal_iff,
  every, false, inl, inr, length, negsuc, none, pos, same_int, some, subst, sym, true, ℤ, ◌==◌, ◌∙◌,
  ◌∷◌, ◌≡◌,
}
use oku.Deltas.Locks.{has_pin, same_pin, same_platforms}
use oku.Lock.{PlatformPin}
use oku.Lock.Packages.{platform_pin}

-- each platform that the first pins is pinned alike by the second, which pins as many
abbrev pub PinAlike : List (Bytes × PlatformPin) → List (Bytes × PlatformPin) → Type 0
PinAlike a b =
    (length a ≡ length b)
    × ((key : Bytes) (pin : PlatformPin)
        → platform_pin key a ≡ some pin
        → platform_pin key b ≡ some pin)

same_int-eq : (a b : ℤ) → same_int a b ≡ true → a ≡ b
same_int-eq (pos m) (pos n) h = ap pos (ground arith)
same_int-eq (pos m) (negsuc n) h = cc
same_int-eq (negsuc m) (pos n) h = cc
same_int-eq (negsuc m) (negsuc n) h = ap negsuc (ground arith)

differ-eq : (a b : Bool) → differ a b ≡ false → a ≡ b
differ-eq a b h = ground arith

same_pin-eq : (a b : PlatformPin) → same_pin a b ≡ true → a ≡ b
unfolding same_pin
same_pin-eq a b h =
    let strategy : a.strategy ≡ b.strategy = (equal_iff a.strategy b.strategy).0 (ground arith) in
    let url : a.url ≡ b.url = (equal_iff a.url b.url).0 (ground arith) in
    let sha256 : a.sha256 ≡ b.sha256 = (equal_iff a.sha256 b.sha256).0 (ground arith) in
    let verified : a.verified ≡ b.verified = (equal_iff a.verified b.verified).0 (ground arith) in
    let vendor_sha256 : a.vendor_sha256 ≡ b.vendor_sha256 =
      (equal_iff a.vendor_sha256 b.vendor_sha256).0 (ground arith) in
    let version : a.version ≡ b.version = (equal_iff a.version b.version).0 (ground arith) in
    let tag : a.tag ≡ b.tag = (equal_iff a.tag b.tag).0 (ground arith) in
    let impure : a.impure ≡ b.impure = differ-eq a.impure b.impure (ground arith) in
    let commands : a.commands ≡ b.commands = differ-eq a.commands b.commands (ground arith) in
    let signed_at : a.signed_at ≡ b.signed_at =
      same_int-eq a.signed_at b.signed_at (ground arith) in
    λ i. record {
      strategy = strategy i;
      url = url i;
      sha256 = sha256 i;
      verified = verified i;
      impure = impure i;
      commands = commands i;
      vendor_sha256 = vendor_sha256 i;
      version = version i;
      tag = tag i;
      signed_at = signed_at i;
    }

has_pin-eq : (p : PlatformPin) (o : Option PlatformPin) → has_pin p o ≡ true → o ≡ some p
has_pin-eq p none h = cc
has_pin-eq p (some q) h = ap some (sym (same_pin-eq p q h))

every-PinAlike :
    (a b : List (Bytes × PlatformPin)) (key : Bytes) (pin : PlatformPin)
    → every (λ (entry : Bytes × PlatformPin). has_pin (entry.1) (platform_pin (entry.0) b)) a ≡ true
    → platform_pin key a ≡ some pin
    → platform_pin key b ≡ some pin
every-PinAlike [] b key pin h found = cc
every-PinAlike ((k, p) ∷ a) b key pin h found =
    let (first, rest) =
      and_true (has_pin p (platform_pin k b))
        (every (λ (entry : Bytes × PlatformPin). has_pin (entry.1) (platform_pin (entry.0) b)) a)
        h in
    elim (Bool-cases (equal k key)) [
      | inl same ↦
          let this : p ≡ pin = cc (rw same at found) in
          subst (λ x. platform_pin x b ≡ some pin) ((equal_iff k key).0 same)
            (has_pin-eq p (platform_pin k b) first ∙ ap some this)
      | inr other ↦ every-PinAlike a b key pin rest (rw other at found)
    ]

pub same_platforms-PinAlike :
    (a b : List (Bytes × PlatformPin)) → same_platforms a b ≡ true → PinAlike a b
unfolding same_platforms
same_platforms-PinAlike a b h =
    let (sizes, all) =
      and_true (length a == length b)
        (every (λ (entry : Bytes × PlatformPin). has_pin (entry.1) (platform_pin (entry.0) b)) a)
        h in
    ((==_iff (length a) (length b)).0 sizes, λ key pin. every-PinAlike a b key pin all)
