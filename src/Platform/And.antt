-- ===== src/Platform/And.antt =====
-- `When.And` of internal/platform/platform.go: the `when` of the machines that two match.
pub mod Meets
use oku.Base.{
  Bool, Bytes, Option, [], equal_fold, if◌then◌else◌, is_nil, none, not, some, text_or, true, ◌&&◌,
  ◌++◌, ◌||◌, ◌∷◌,
}
use oku.Platform.{Selector, When}

-- `both` in `When.And`: it merges two fields, which agree when they are equal or one is empty
unfoldable pub both : Bytes → Bytes → Bytes × Bool
both a b = if is_nil a || equal_fold a b then (text_or a b, true) else (a, is_nil b)

-- the body of the inner loop of `When.And`
unfoldable pub merge : Selector → Selector → Option Selector
merge a b =
    let os = both a.os b.os in
    let arch = both a.arch b.arch in
    let libc = both a.libc b.libc in
    let host = both a.host b.host in
    if os.1 && arch.1 && libc.1 && host.1
    then some (record { os = os.0; arch = arch.0; libc = libc.0; host = host.0 })
    else none

-- the inner loop, over the selectors of `o`
unfoldable pub merge_each : Selector → When → When → When
merge_each a [] acc = acc
merge_each a (b ∷ o) acc =
    merge_each a o (elim (merge a b) [ some s ↦ acc ++ (s ∷ []) | none ↦ acc ])

-- the outer loop, over the selectors of `w`
unfoldable pub merge_all : When → When → When → When
merge_all [] o acc = acc
merge_all (a ∷ w) o acc = merge_all w o (merge_each a o acc)

-- `When.And`
unfoldable pub when_and : When → When → When × Bool
when_and [] o = (o, true)
when_and w [] = (w, true)
when_and (a ∷ w) (b ∷ o) =
    let merged = merge_all (a ∷ w) (b ∷ o) [] in (merged, not (is_nil merged))
