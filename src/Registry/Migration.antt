-- ===== src/Registry/Migration.antt =====
-- internal/registry/migrate.go: the copy of a registry from its old place. The file system is a
-- function from paths to contents; permissions are not modelled, and an error comes without the names
-- of the files that were copied before it.
pub mod Copying
pub mod Copied
use proxmox_license_proxy.Prelude.{
  Text, bytes, equal, not, ◌&&◌, ◌||◌, Bool, true, false, Option, none, some, List, [], ◌∷◌, ◌++◌,
  if◌then◌else◌,
}
use proxmox_license_proxy.Result.{Result, ok, err, io_failed}
use proxmox_license_proxy.Registry.Store.{Write, write_file, write_failed}

abbrev pub Files : Type 0
Files = Text → Option Text

-- path/filepath: `Dir`, `Join` and `Base`.
pub record Paths : Type 0 where
  pub dir : Text → Text
  pub join : Text → Text → Text
  pub base : Text → Text

-- What the calls of the operating system do with a path: whether a stat or a read of a file that
-- exists succeeds, and how a write ends.
pub record PathCalls : Type 0 where
  pub stat : Text → Bool
  pub read : Text → Bool
  pub mkdir : Bool
  pub write : Text → Write Text

abbrev pub exists : Option Text → Bool
exists none = false
exists (some c) = true

-- os.Stat returns no error.
unfoldable pub stat_ok : PathCalls → Files → Text → Bool
stat_ok c fs path = exists (fs path) && c.stat path

abbrev pub write_path : Text → Option Text → Files → Files
write_path path content fs = λ p. if equal p path then content else fs p

unfoldable pub read_path : PathCalls → Files → Text → Result Text
read_path c fs path = elim (fs path) [
  | none ↦ err io_failed
  | some content ↦ if c.read path then ok content else err io_failed
]

module _ (paths : Paths) where
  -- The files with their destinations.
  unfoldable pub pairs : Text → Text → List (Text × Text)
  pairs legacy new =
      let old_dir = paths.dir legacy in
      let new_dir = paths.dir new in
      (legacy, new)
      ∷ (legacy ++ bytes ".bak", new ++ bytes ".bak")
      ∷ (paths.join old_dir (bytes "tls-auto.crt"), paths.join new_dir (bytes "tls-auto.crt"))
      ∷ (paths.join old_dir (bytes "tls-auto.key"), paths.join new_dir (bytes "tls-auto.key"))
      ∷ []

  abbrev pub named : Text → Result (List Text) × Files → Result (List Text) × Files
  named dst (err e, fs) = (err e, fs)
  named dst (ok names, fs) = (ok (paths.base dst ∷ names), fs)

  -- One round of the loop, for a file that is there, before the rounds that follow.
  abbrev pub copy_one :
      PathCalls
      → Text
      → (Files → Result (List Text) × Files)
      → Result Text
      → Files
      → Result (List Text) × Files
  copy_one c dst rest (err e) fs = (err e, fs)
  copy_one c dst rest (ok content) fs =
      let fs' = write_path dst (write_file (c.write dst) content) fs in
      if write_failed (c.write dst) then (err io_failed, fs') else named dst (rest fs')

  -- The loop over the pairs.
  unfoldable pub copy_each : PathCalls → List (Text × Text) → Files → Result (List Text) × Files
  copy_each c [] fs = (ok [], fs)
  copy_each c ((src, dst) ∷ ps) fs =
      let skipped = copy_each c ps fs in
      let copied = copy_one c dst (λ fs'. copy_each c ps fs') (read_path c fs src) fs in
      if not (stat_ok c fs src) then skipped else copied

  -- `MigrateLegacy`: the names of the files that were copied.
  unfoldable pub migrate_legacy : PathCalls → Text → Text → Files → Result (List Text) × Files
  unfolding copy_each pairs
  migrate_legacy c legacy new fs =
      if equal legacy new || stat_ok c fs new || not (stat_ok c fs legacy)
      then (ok [], fs)
      else if not c.mkdir
      then (err io_failed, fs)
      else copy_each c (pairs legacy new) fs
