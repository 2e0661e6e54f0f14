-- ===== src/Lock/Refs/Inverse.antt =====
-- `mapRefs` with a function and with another that undoes it.
use oku.Base.{Bytes, List, [], map, refl, ◌∷◌, ◌≡◌}
use oku.Lock.{Deps, Include, Lock, Package, dep, no_deps, pinned}
use oku.Lock.Refs.{map_deps, map_include, map_package, map_refs}

module _ (f g : Bytes → Bytes) (undoes : (ref : Bytes) → g (f ref) ≡ ref) where
  mutual
    unfolding map_package

    map_package-inverse : (p : Package) → map_package g (map_package f p) ≡ p
    map_package-inverse (pinned p ds) = rw (undoes p.ref, map_deps-inverse ds)

    map_deps-inverse : (ds : Deps) → map_deps g (map_deps f ds) ≡ ds
    map_deps-inverse no_deps = refl
    map_deps-inverse (dep p ds) = rw (map_package-inverse p, map_deps-inverse ds)

  map_include-inverse : (l : List Include) → map (map_include g) (map (map_include f) l) ≡ l
  map_include-inverse [] = refl
  map_include-inverse (inc ∷ l) = rw (undoes inc.ref, map_include-inverse l)

  map_packages-inverse : (l : List Package) → map (map_package g) (map (map_package f) l) ≡ l
  map_packages-inverse [] = refl
  map_packages-inverse (p ∷ l) = rw (map_package-inverse p, map_packages-inverse l)

  -- Where `g` undoes `f` on every ref, mapping the refs of a lock with `f` and then with `g` gives
  -- the lock back, at every depth of the deps.
  pub map_refs-inverse : (l : Lock) → map_refs g (map_refs f l) ≡ l
  unfolding map_refs
  map_refs-inverse l = rw (map_include-inverse l.includes, map_packages-inverse l.packages)
