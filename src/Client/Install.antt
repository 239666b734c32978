-- ===== src/Client/Install.antt =====
-- internal/client/install.go: the installation of the binary, over its file and the temporary one.
use proxmox_license_proxy.Prelude.{
  Text, equal, not, ◌||◌, Bool, Bool-cases, true, false, Option, none, some, ◌≡◌, ◌⊎◌, refl, inl,
  inr, arith, if◌then◌else◌,
}
use proxmox_license_proxy.Result.{Result, ok, err, io_failed}
use proxmox_license_proxy.Registry.Store.{Write, write_file, write_failed}

pub data Action : Type 0 where
  installed updated unchanged : Action

-- The installed file, where `none` is one that does not exist, and the temporary one.
pub record Installed : Type 0 where
  pub dest : Option Text
  pub tmp : Option Text

-- Which calls of the operating system succeed.
pub record InstallCalls : Type 0 where
  pub read_dest : Bool
  pub mkdir : Bool
  pub tmp_write : Write Text
  pub rename : Bool

-- What `ReadFile(dest)` gives, where `none` is an error.
abbrev pub existing : InstallCalls → Installed → Option Text
existing c f = if c.read_dest then f.dest else none

abbrev pub put_binary : InstallCalls → Action → Text → Installed → Result Action × Installed
put_binary c action content f =
    let f' = record f { tmp = write_file c.tmp_write content } in
    if not c.mkdir
    then (err io_failed, f)
    else if write_failed c.tmp_write || not c.rename
    then (err io_failed, f')
    else (ok action, record { dest = some content; tmp = none })

abbrev pub install_over : InstallCalls → Text → Option Text → Installed → Result Action × Installed
install_over c content none f = put_binary c installed content f
install_over c content (some old) f =
    if equal old content then (ok unchanged, f) else put_binary c updated content f

-- `InstallBinary` of a source, where `none` is a read that fails.
unfoldable pub install_binary : InstallCalls → Option Text → Installed → Result Action × Installed
install_binary c none f = (err io_failed, f)
install_binary c (some content) f = install_over c content (existing c f) f

-- `UninstallBinary`, where `removed` is whether os.Remove works on a file that exists.
unfoldable pub uninstall_binary : Bool → Installed → Result Bool × Installed
uninstall_binary removed f = elim f.dest [
  | none ↦ (ok false, f)
  | some content ↦ if removed then (ok true, record f { dest = none }) else (err io_failed, f)
]

put_binary_whole :
    (c : InstallCalls) (action : Action) (content : Text) (f : Installed)
    → ((put_binary c action content f).1.dest ≡ f.dest)
      ⊎ ((put_binary c action content f).1.dest ≡ some content)
put_binary_whole c action content f = ground arith

-- The binary is never left in part: it is as it was, or the source.
pub install_binary_whole :
    (c : InstallCalls) (content : Text) (f : Installed)
    → ((install_binary c (some content) f).1.dest ≡ f.dest)
      ⊎ ((install_binary c (some content) f).1.dest ≡ some content)
unfolding install_binary
install_binary_whole c content f = by_existing (existing c f)
  where
    by_existing :
        (o : Option Text)
        → ((install_over c content o f).1.dest ≡ f.dest)
          ⊎ ((install_over c content o f).1.dest ≡ some content)
    by_existing none = put_binary_whole c installed content f
    by_existing (some old) = elim (Bool-cases (equal old content)) [
      | inl same ↦ inl (rw same refl)
      | inr other ↦ rw other (put_binary_whole c updated content f)
    ]
