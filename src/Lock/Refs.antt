-- ===== src/Lock/Refs.antt =====
-- `mapRefs` of internal/lock/lock.go.
pub mod Inverse
use oku.Base.{Bytes, map}
use oku.Lock.{Deps, Include, Lock, Package, dep, no_deps, pinned}

-- `mapPackageRefs` on one package and on its deps
unfoldable mutual
  pub map_package : (Bytes → Bytes) → Package → Package
  map_package f (pinned p ds) = pinned (record p { ref = f p.ref }) (map_deps f ds)

  pub map_deps : (Bytes → Bytes) → Deps → Deps
  map_deps f no_deps = no_deps
  map_deps f (dep p ds) = dep (map_package f p) (map_deps f ds)

abbrev pub map_include : (Bytes → Bytes) → Include → Include
map_include f inc = record inc { ref = f inc.ref }

-- `mapRefs`
unfoldable pub map_refs : (Bytes → Bytes) → Lock → Lock
map_refs f l = record {
  includes = map (map_include f) l.includes;
  packages = map (map_package f) l.packages;
}
