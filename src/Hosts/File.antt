-- ===== src/Hosts/File.antt =====
-- internal/hosts/hosts.go: the operations on the file. The permissions that `atomicWrite` keeps are
-- not modelled.
use proxmox_license_proxy.Prelude.{
  Text, equal, Bool, true, false, Option, none, some, List, [], ◌∷◌, ◌≡◌, ◌⊎◌, refl, ap, Bool-cases,
  inl, inr, arith, not, ◌||◌, if◌then◌else◌,
}
use proxmox_license_proxy.Result.{Error, Result, ok, err, io_failed, no_ip, no_hostnames, ◌>>=◌}
use proxmox_license_proxy.Registry.Store.{Write, write_file, write_failed}
use proxmox_license_proxy.Hosts.{managed_block, extract_block, enabled, disabled, redirect_ip}

-- The hosts file, where `none` is a file that does not exist, and the temporary one.

pub record HostsFile : Type 0 where
  pub content : Option Text
  pub tmp : Option Text

-- Which calls of the operating system succeed.
pub record FileCalls : Type 0 where
  pub read : Bool
  pub tmp_write : Write Text
  pub rename : Bool

abbrev pub read_file : FileCalls → HostsFile → Result Text
read_file c f = elim f.content [
  | none ↦ err io_failed
  | some raw ↦ if c.read then ok raw else err io_failed
]

unfoldable pub atomic_write : FileCalls → Text → HostsFile → Result (Unit {0}) × HostsFile
atomic_write c content f =
    let f' = record f { tmp = write_file c.tmp_write content } in
    if write_failed c.tmp_write || not c.rename
    then (err io_failed, f')
    else (ok tt, record { content = some content; tmp = none })

-- What is written, with what is returned where that succeeds.
abbrev pub written_as : Text → Text → FileCalls → HostsFile → Result Text × HostsFile
written_as content answer c f = let (r, f') = atomic_write c content f in (r >>= λ _. ok answer, f')

abbrev pub enable_read :
    Text → List Text → Bool → FileCalls → HostsFile → Result Text → Result Text × HostsFile
enable_read ip names dry_run c f (err e) = (err e, f)
enable_read ip names dry_run c f (ok raw) =
    if dry_run
    then (ok (enabled ip names raw), f)
    else written_as (enabled ip names raw) (managed_block ip names) c f

-- `Enable`
unfoldable pub enable : Text → List Text → Bool → FileCalls → HostsFile → Result Text × HostsFile
unfolding atomic_write
enable ip [] dry_run c f = if equal ip [] then (err no_ip, f) else (err no_hostnames, f)
enable ip (n ∷ ns) dry_run c f =
    if equal ip [] then (err no_ip, f) else enable_read ip (n ∷ ns) dry_run c f (read_file c f)

abbrev pub disable_read : Bool → FileCalls → HostsFile → Result Text → Result Text × HostsFile
disable_read dry_run c f (err e) = (err e, f)
disable_read dry_run c f (ok raw) =
    if dry_run then (ok (disabled raw), f) else written_as (disabled raw) [] c f

-- `Disable`
unfoldable pub disable : Bool → FileCalls → HostsFile → Result Text × HostsFile
unfolding atomic_write
disable dry_run c f = disable_read dry_run c f (read_file c f)

-- `Status`
unfoldable pub status : FileCalls → HostsFile → Result (Bool × Text)
status c f =
    read_file c f >>= λ raw. let block = extract_block raw in ok (not (equal block []), block)

-- `RedirectIP`, which passes on an error of the read.
unfoldable pub redirect : FileCalls → HostsFile → Result (Option Text)
redirect c f = read_file c f >>= λ raw. ok (redirect_ip raw)

-- A new content, whole, or else the old one.
abbrev pub Rewrites : (Text → Text) → HostsFile → HostsFile → Type 0
Rewrites change f f' =
    (f'.content ≡ f.content)
    ⊎ ((raw : Text) × (f.content ≡ some raw) × (f'.content ≡ some (change raw)))

written-Rewrites :
    (change : Text → Text) (answer : Text) (c : FileCalls) (f : HostsFile) (raw : Text)
    → f.content ≡ some raw
    → Rewrites change f (written_as (change raw) answer c f).1
unfolding atomic_write
written-Rewrites change answer c f raw found =
    elim (Bool-cases (write_failed c.tmp_write || not c.rename)) [
      | inl failed ↦ inl (rw failed refl)
      | inr done ↦ inr (raw, found, rw done refl)
    ]

-- The contents that a read may have given.
module _ (c : FileCalls) (f : HostsFile) (act : Result Text → Result Text × HostsFile)
    (change : Text → Text) where
  read-Rewrites :
      ((e : Error) → (act (err e)).1 ≡ f)
      → ((raw : Text) → f.content ≡ some raw → Rewrites change f (act (ok raw)).1)
      → Rewrites change f (act (read_file c f)).1
  read-Rewrites failed done = of_content f.content refl
    where
      of_content :
          (o : Option Text)
          → f.content ≡ o
          → Rewrites change f (act (read_file c (record f { content = o }))).1
      of_content none e = inl (ap (λ x. x.content) (failed io_failed))
      of_content (some raw) e = elim (Bool-cases c.read) [
        | inl fine ↦ rw fine (done raw e)
        | inr broken ↦ inl (rw broken (ap (λ x. x.content) (failed io_failed)))
      ]

-- `Enable` leaves the file as it was, or replaces the whole of it by what `enabled` says.
pub enable-Rewrites :
    (ip : Text) (names : List Text) (dry_run : Bool) (c : FileCalls) (f : HostsFile)
    → Rewrites (enabled ip names) f (enable ip names dry_run c f).1
unfolding enable
enable-Rewrites ip [] dry_run c f = inl (ground arith)
enable-Rewrites ip (n ∷ ns) dry_run c f = elim (Bool-cases (equal ip [])) [
  | inl no_address ↦ inl (rw no_address refl)
  | inr given ↦ rw given (
      read-Rewrites c f (enable_read ip (n ∷ ns) dry_run c f) (enabled ip (n ∷ ns)) (λ e. refl)
        (λ raw found. by_mode raw found dry_run))
]
  where
    by_mode :
        (raw : Text)
        → f.content ≡ some raw
        → (dry : Bool)
        → Rewrites (enabled ip (n ∷ ns)) f (enable_read ip (n ∷ ns) dry c f (ok raw)).1
    by_mode raw found true = inl refl
    by_mode raw found false =
        written-Rewrites (enabled ip (n ∷ ns)) (managed_block ip (n ∷ ns)) c f raw found

-- `Disable` leaves the file as it was, or replaces the whole of it by what `disabled` says.
pub disable-Rewrites :
    (dry_run : Bool) (c : FileCalls) (f : HostsFile) → Rewrites disabled f (disable dry_run c f).1
unfolding disable
disable-Rewrites dry_run c f =
    read-Rewrites c f (disable_read dry_run c f) disabled (λ e. refl)
      (λ raw found. by_mode raw found dry_run)
  where
    by_mode :
        (raw : Text)
        → f.content ≡ some raw
        → (dry : Bool) → Rewrites disabled f (disable_read dry c f (ok raw)).1
    by_mode raw found true = inl refl
    by_mode raw found false = written-Rewrites disabled [] c f raw found
