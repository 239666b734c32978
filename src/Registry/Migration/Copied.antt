-- ===== src/Registry/Migration/Copied.antt =====
-- What a migration changes, and what it copies.
use proxmox_license_proxy.Prelude.{
  Text, bytes, ◌++◌, equal, not, ◌||◌, Bool-cases, true, false, Option, none, some, List, [], ◌≡◌,
  ◌≢◌, ◌⊎◌, refl, sym, subst, ap, ◌∙◌, inl, inr, arith,
}
use proxmox_license_proxy.Result.{Error, Result, ok, err}
use proxmox_license_proxy.Registry.Migration.{
  Files, Paths, PathCalls, stat_ok, pairs, copy_each, migrate_legacy,
}
use proxmox_license_proxy.Registry.Migration.Copying.{
  is_destination, NoneFails, Apart, or_kept, Succeeds, copy_each-outside, copy_each-Copies,
}

module _ (paths : Paths) where
  -- Whatever fails, a migration changes no file but the four destinations, and those only where
  -- no registry is found at the new place.
  pub migrate_legacy-Safe :
      (c : PathCalls) (legacy new : Text) (fs : Files) (p : Text)
      → ((migrate_legacy paths c legacy new fs).1 p ≡ fs p)
        ⊎ ((stat_ok c fs new ≡ false) × (is_destination p (pairs paths legacy new) ≡ true))
  unfolding migrate_legacy
  migrate_legacy-Safe c legacy new fs p =
      elim (Bool-cases (equal legacy new || stat_ok c fs new || not (stat_ok c fs legacy))) [
        | inl stays ↦ inl (rw stays refl)
        | inr moves ↦ elim (Bool-cases c.mkdir) [
          | inr failed ↦ inl (rw (moves, failed) refl)
          | inl made ↦ elim (Bool-cases (is_destination p (pairs paths legacy new))) [
            | inl target ↦ inr (ground arith, target)
            | inr other ↦
                let e : migrate_legacy paths c legacy new fs
                    ≡ copy_each paths c (pairs paths legacy new) fs =
                  ground (arith, moves, made) in
                inl (rw e (copy_each-outside paths c (pairs paths legacy new) fs p other))
          ]
        ]
      ]

module _ (paths : Paths) (c : PathCalls) (fine : NoneFails c) where
  -- What is at the new place behind a migration, file by file: what was at the old place, or else
  -- what was there.
  pub record Migrated (legacy new : Text) (fs fs' : Files) : Type 0 where
    pub registry : fs' new ≡ fs legacy
    pub backup :
        fs' (new ++ bytes ".bak") ≡ or_kept (fs (legacy ++ bytes ".bak")) (fs (new ++ bytes ".bak"))
    pub certificate :
        fs' (paths.join (paths.dir new) (bytes "tls-auto.crt"))
        ≡ or_kept
            (fs (paths.join (paths.dir legacy) (bytes "tls-auto.crt")))
            (fs (paths.join (paths.dir new) (bytes "tls-auto.crt")))
    pub key :
        fs' (paths.join (paths.dir new) (bytes "tls-auto.key"))
        ≡ or_kept
            (fs (paths.join (paths.dir legacy) (bytes "tls-auto.key")))
            (fs (paths.join (paths.dir new) (bytes "tls-auto.key")))

  or_kept-registry : (old : Option Text) → old ≢ none → or_kept old none ≡ old
  or_kept-registry none h = absurd (h refl)
  or_kept-registry (some content) h = refl

  -- Where no call fails, no registry is at the new place, one is at the old place, and no destination
  -- is a later source or destination, a migration succeeds and brings the registry, its backup, the
  -- certificate and its key to the new place. Of the last three, one that is at both places is
  -- replaced by the old one, and one that is not at the old place stays as it is.
  pub migrate_legacy-Migrated :
      (legacy new : Text) (fs : Files)
      → equal legacy new ≡ false
      → fs new ≡ none
      → fs legacy ≢ none
      → Apart (pairs paths legacy new)
      → Succeeds (migrate_legacy paths c legacy new fs).0
        × Migrated legacy new fs (migrate_legacy paths c legacy new fs).1
  unfolding migrate_legacy stat_ok pairs
  migrate_legacy-Migrated legacy new fs differ free there apart =
      let e : migrate_legacy paths c legacy new fs ≡ copy_each paths c (pairs paths legacy new) fs =
        ground (arith, differ, free, there, fine.mkdir_ok, fine.stat_ok legacy) in
      let (done, (registry, (backup, (certificate, (key, _))))) =
        copy_each-Copies paths c fine (pairs paths legacy new) fs apart in
      subst (λ (x : Result (List Text) × Files). Succeeds x.0 × Migrated legacy new fs x.1) (sym e)
        (
          done,
          record {
            registry =
                registry ∙ ap (or_kept (fs legacy)) free ∙ or_kept-registry (fs legacy) there;
            backup = backup;
            certificate = certificate;
            key = key;
          },
        )

-- A migration that failed behind the copy of the registry is never finished: a later one finds the
-- registry, succeeds and copies nothing.
pub migrate_legacy_unfinished :
    (paths : Paths) (c later : PathCalls) (legacy new : Text) (fs fs' : Files) (e : Error)
    (content : Text)
    → migrate_legacy paths c legacy new fs ≡ (err e, fs')
    → fs' new ≡ some content
    → later.stat new ≡ true
    → migrate_legacy paths later legacy new fs' ≡ (ok [], fs')
unfolding migrate_legacy stat_ok
migrate_legacy_unfinished paths c later legacy new fs fs' e content failed copied seen =
    rw (copied, seen) (ground arith)
