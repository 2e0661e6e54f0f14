-- ===== src/Tests.antt =====
-- Tests on concrete inputs, and the theorems at inputs that meet their hypotheses.
mod PlatformTests
mod VersionTests
mod TrustTests
mod LockTests
mod ProfileTests
mod NetpolicyTests
mod DeltasTests
mod ListTests
mod StagesTests
mod ExposeTests
mod ChangeTests
mod InferTests
mod StoreTests
mod RefTests
