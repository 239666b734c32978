-- ===== src/Tests/Moves.antt =====
-- A registry and a certificate at their old place.
use proxmox_license_proxy.Prelude.{
  Text, bytes, equal, true, false, none, some, ◌++◌, take, drop, ◌≡◌, ◌⊎◌, refl, arith,
  if◌then◌else◌,
}
use proxmox_license_proxy.Registry.Store.{written}
use proxmox_license_proxy.Registry.Migration.{
  Files, Paths, PathCalls, stat_ok, pairs, migrate_legacy,
}
use proxmox_license_proxy.Registry.Migration.Copying.{NoneFails, Succeeds, is_destination}
use proxmox_license_proxy.Registry.Migration.Copied.{
  Migrated, migrate_legacy-Safe, migrate_legacy-Migrated,
}

abbrev paths : Paths
paths = record { dir = take 4; join = λ a b. a ++ (bytes "/" ++ b); base = drop 5 }

abbrev working : PathCalls
working = record { stat = λ p. true; read = λ p. true; mkdir = true; write = λ p. written }

working-NoneFails : NoneFails working
working-NoneFails = record {
  mkdir_ok = refl;
  stat_ok = λ p. refl;
  read_ok = λ p. refl;
  write_ok = λ p. refl;
}

abbrev legacy : Text
legacy = bytes "/old/r"

abbrev moved : Text
moved = bytes "/new/r"

abbrev cert : Text
cert = bytes "/old/tls-auto.crt"

abbrev files : Files
files = λ p.
    if equal p legacy then some (bytes "R") else if equal p cert then some (bytes "C") else none

migrate_legacy-Safe_example :
    ((migrate_legacy paths working legacy moved files).1 cert ≡ files cert)
    ⊎ ((stat_ok working files moved ≡ false)
        × (is_destination cert (pairs paths legacy moved) ≡ true))
migrate_legacy-Safe_example = migrate_legacy-Safe paths working legacy moved files cert

migrate_legacy-Migrated_example :
    Succeeds (migrate_legacy paths working legacy moved files).0
    × Migrated paths working working-NoneFails legacy moved files
        (migrate_legacy paths working legacy moved files).1
unfolding equal pairs
migrate_legacy-Migrated_example =
    migrate_legacy-Migrated paths working working-NoneFails legacy moved files refl refl
      (ground arith) (refl, refl, (refl, refl, (refl, refl, (refl, refl, tt))))
