-- ===== src/Platform/Lists.antt =====
-- Platforms compared with `==`.
use oku.Base.{arith, equal_iff, equal_refl, true, ◌≡◌}
use oku.Platform.{Platform, same_platform}

pub same_platform-eq : (p q : Platform) → same_platform p q ≡ true → p ≡ q
unfolding same_platform
same_platform-eq p q h =
    ground (arith, equal_iff p.os q.os, equal_iff p.arch q.arch, equal_iff p.libc q.libc)

pub same_platform_refl : (p : Platform) → same_platform p p ≡ true
unfolding same_platform
same_platform_refl p = ground (arith, equal_refl p.os, equal_refl p.arch, equal_refl p.libc)
