-- ===== src/Lib.antt =====
-- A model of oku, a package manager whose list, lock and generations describe a machine.
--
-- A list or a manifest limits what it names to some platforms by `when` values (internal/platform).
-- The version of a package is picked out of the releases of its source, by an order of versions, by
-- ranges and by a minimum age (internal/resolve), and oku.lock pins what was picked with the
-- refs of its deps (internal/lock). A list may also set the environment and load .env files
-- (internal/list). A profile keeps generations (internal/profile), and every
-- connection passes a policy (internal/netpolicy). What the user allowed stands in files that several
-- oku processes may change (internal/trust).
--
-- * Base and its children hold what the parts share: tests, lists, text as a list of bytes with the
--   functions of Go's strings package, results and signed integers.
-- * Platform models internal/platform/platform.go: Check, String, Parse, Matches and Here. Its child
--   And has When.And, Cover has When.Of and Cover, and Value has ParseWhen.
-- * Version models internal/resolve/resolve.go: Compare and its helpers. Its child Range has
--   Satisfies, ceiling, IsRange and Matches, with what ^ and ~ allow in Range/Allowed, and Pick has
--   pickFrom, newest, fits and tooNew.
-- * Trust models internal/trust/trust.go: the reads and writes of its files, with Allowed in one
--   child and Sources and Approvals in the other.
-- * Lock models internal/lock/lock.go: the pins. Its child Packages has Find, Set, Delete, FindDep,
--   FindDepFor and VersionOn, Checks has Weaker, CheckedSignature and checkVersions with CheckVersion
--   of internal/manifest/manifest.go, Refs has mapRefs, Conflicts has Conflicted,
--   and Merge has mergeLocks and samePin of internal/cli/lockconflict.go.
-- * Profile models internal/profile/profile.go: its child Prune has Prune with its Retention, Stages
--   the directory of a profile with nextGeneration, stage and Current, and Stages/Edits Add, Remove,
--   Activate and DropUnfinished.
-- * Netpolicy models internal/netpolicy/netpolicy.go: the patterns of hosts. Its child Addresses has
--   Local, private, checkHost, checkAddr and resolves, GitUrls has gitHost and CheckURL, and Guard has
--   what guard.RoundTrip refuses. The packages net/netip and net/url are parameters, and
--   filepath.Join is one of ResolveEnv.
-- * Deltas models internal/cli/changes.go: Generations has generationDeltas, Locks has lockDeltas,
--   packageDeltas and depDeltas.
-- * List models internal/list: Dotenv has ParseDotenv of internal/list/dotenv.go, Dotenv/Lines its
--   loop over the lines. Env has resolve and expand of ResolveEnv in internal/list/env.go, Pieces the
--   references that they replace, Env/Changes the loop over the variables, and
--   Env/Raw the reader of [env] with CheckEnvName.
-- * Ref models internal/ref/ref.go: Ref with String, isPath and splitVersion. Its child Shapes has
--   the regular expressions, with ValidName, ValidPath, ValidCask, ValidScoop and ValidWinget of the
--   registries, Urls has repoURL and encrypted, and Parse has ParseIn. Absent, Split and Round hold
--   lemmas, Valid and Accepted what ParseIn accepts, and Reparse what it reads back. The packages
--   os, path, path/filepath, net and net/url are the record System, a parameter.
-- * Store models matchSegments of internal/store/store.go.
-- * Infer models internal/infer/infer.go: blank and hasWord. Its child Tables has the tables of
--   words, and Assets has fitsPlatform, what pick filters, and the ranks that it sorts by.
-- * Expose models the ledger of internal/expose/expose.go: Check, Leaving, Sync and RemoveAll, and
--   keepSystem of internal/cli/expose.go.
-- * Change models internal/cli/change.go: restoreLists, revert and recoverPending. Its child Apply
--   has plan and apply, with planExposed, placeExposed and pendingSystem of internal/cli/expose.go.
--   A change is a list of writes to the world, in the order of the code.
-- * Tests runs the definitions on inputs, and the theorems on inputs that meet their hypotheses.
--
-- Text is ASCII: EqualFold, ToLower, TrimSpace and the case folding of the prerelease expression
-- act on ASCII letters and spaces alone. An int has 64 bits, and ints are signed integers with the
-- range written out. Itoa has fuel for 20 digits, and an int has at most 19. ParseDotenv has fuel
-- for its lines, since a round takes one at least, ResolveEnv for the variables of the list, and
-- expandDotenv for the bytes of the value. Every other loop is a recursion on its list. Times
-- count from the zero time. An error keeps its reason, and not the text of its message. The TOML
-- library is a parameter that reads back what it writes. What the machine answers, such as its
-- platform, its name and whether a file is written, is an argument.
--
-- Not modelled: requests, downloads, most of the store and its builds, the commands of the CLI,
-- the handlers of each OS, and internal/xz, which is a copy of another project's decoder.
pub mod Base
pub mod Platform
pub mod Version
pub mod Trust
pub mod Lock
pub mod Profile
pub mod Netpolicy
pub mod Deltas
pub mod List
pub mod Infer
pub mod Ref
pub mod Store
pub mod Expose
pub mod Change
mod Tests
