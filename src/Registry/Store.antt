-- ===== src/Registry/Store.antt =====
-- internal/registry/store.go: the registry file, its lock, and the atomic write.
--
-- A `Disk` holds the registry file, its backup and the temporary file, where `none` is a file that
-- does not exist. What the operating system answers during one operation of the store is a value
-- of `Calls`; a `World` has one for each operation to come, and every call succeeds once the list
-- is used up. A mutation runs under the exclusive lock, so it is one step of the model.
-- Directories, permissions and the lock file are not modelled, but for the errors that they raise.
pub mod Commit
pub mod Reading
pub mod Reliable
use proxmox_license_proxy.Prelude.{
  Bool, true, false, not, ◌||◌, Option, none, some, List, [], ◌∷◌, if◌then◌else◌,
}
use proxmox_license_proxy.Result.{Result, ok, err, ◌>>=◌, io_failed, invalid_registry}
use proxmox_license_proxy.Subscription.Model.{Registry, empty_registry}

-- encoding/json on the registry; `none` is an error.
pub record Codec : Type 1 where
  pub Content : Type 0
  pub marshal : Registry → Option Content
  pub unmarshal : Content → Option Registry

-- os.WriteFile truncates the file before it writes: after a failure anything may be left.
pub data Write (C : Type 0) : Type 0 where
  written : Write C
  torn : Option C → Write C

-- `true` is a call that succeeds.
pub record Calls (C : Type 0) : Type 0 where
  pub mkdir : Bool
  pub lock : Bool
  pub read : Bool
  pub backup_read : Bool
  pub backup_write : Write C
  pub tmp_write : Write C
  pub chmod : Bool
  pub rename : Bool

abbrev pub fine : {C : Type 0} → Calls C
fine = record {
  mkdir = true;
  lock = true;
  read = true;
  backup_read = true;
  backup_write = written;
  tmp_write = written;
  chmod = true;
  rename = true;
}

pub record Disk (C : Type 0) : Type 0 where
  pub main : Option C
  pub bak : Option C
  pub tmp : Option C

pub record World (C : Type 0) : Type 0 where
  pub disk : Disk C
  pub calls : List (Calls C)

abbrev pub first_calls : {C : Type 0} → List (Calls C) → Calls C
first_calls [] = fine
first_calls (c ∷ _) = c

abbrev pub later_calls : {C : Type 0} → List (Calls C) → List (Calls C)
later_calls [] = []
later_calls (_ ∷ cs) = cs

-- The content of a file after os.WriteFile.
abbrev pub write_file : {C : Type 0} → Write C → C → Option C
write_file written data' = some data'
write_file (torn left) data' = left

abbrev pub write_failed : {C : Type 0} → Write C → Bool
write_failed written = false
write_failed (torn _) = true

module _ (codec : Codec) where
  open codec use {Content, marshal, unmarshal}

  -- What a reader makes of the registry file, where the read itself succeeds.
  unfoldable pub parse_file : Option Content → Result Registry
  parse_file none = ok empty_registry
  parse_file (some content) = elim (unmarshal content) [
    | none ↦ err invalid_registry
    | some reg ↦ ok reg
  ]

  unfoldable pub load_with : Calls Content → Disk Content → Result Registry
  load_with c d = if c.read then parse_file d.main else err io_failed

  -- The best-effort copy of the last good file: it is skipped where there is none to read.
  unfoldable pub back_up : Calls Content → Disk Content → Disk Content
  back_up c d =
      if c.backup_read
      then elim d.main [ none ↦ d | some prev ↦ record d { bak = write_file c.backup_write prev } ]
      else d

  unfoldable pub save : Calls Content → Registry → Disk Content → Result (Unit {0}) × Disk Content
  unfolding back_up
  save c reg d = elim (marshal reg) [
    | none ↦ (err io_failed, d)
    | some content ↦
        let kept = back_up c d in
        let d' = record kept { tmp = write_file c.tmp_write content } in
        if write_failed c.tmp_write || not c.chmod || not c.rename
        then (err io_failed, d')
        else (ok tt, record d' { main = some content; tmp = none })
  ]

  unfoldable pub load : World Content → Result Registry × World Content
  unfolding load_with
  load w = (load_with (first_calls w.calls) w.disk, record w { calls = later_calls w.calls })

  abbrev finish : {A : Type 0} → A → Result (Unit {0}) → Result A
  finish a (ok _) = ok a
  finish a (err e) = err e

  -- `fn` is the closure of the source; `A` is what it leaves in the variables around it, which a
  -- caller reads where there is no error.
  unfoldable pub mutate :
      {A : Type 0} → (Registry → Result (A × Registry)) → World Content → Result A × World Content
  unfolding load_with save
  mutate fn w =
      let c = first_calls w.calls in
      let w' = record w { calls = later_calls w.calls } in
      if not c.mkdir || not c.lock then (err io_failed, w') else elim (load_with c w.disk) [
        | err e ↦ (err e, w')
        | ok reg ↦ elim (fn reg) [
          | err e ↦ (err e, w')
          | ok (a, reg') ↦
              let (saved, disk) = save c reg' w.disk in (finish a saved, record w' { disk = disk })
        ]
      ]

  -- The operations that only read.
  unfoldable pub reading : {A : Type 0} → (Registry → A) → World Content → Result A × World Content
  unfolding load
  reading get w = let (loaded, w') = load w in (loaded >>= λ reg. ok (get reg), w')
