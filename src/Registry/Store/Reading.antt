-- ===== src/Registry/Store/Reading.antt =====
-- The operations of the store that only read.
use proxmox_license_proxy.Prelude.{true, ◌≡◌, refl, inl, inr, arith}
use proxmox_license_proxy.Result.{ok, Result-cases}
use proxmox_license_proxy.Subscription.Model.{Registry}
use proxmox_license_proxy.Registry.Store.{
  Codec, World, first_calls, later_calls, parse_file, reading,
}
use proxmox_license_proxy.Registry.Store.Commit.{view}

module _ (codec : Codec) {A : Type 0} (get : Registry → A) (w : World codec.Content) where
  pub reading-disk : (reading codec get w).1.disk ≡ w.disk
  unfolding reading
  reading-disk = refl

  pub reading-calls : (reading codec get w).1.calls ≡ later_calls w.calls
  unfolding reading
  reading-calls = refl

  -- What a read that succeeds returns is what is in the file.
  pub record ReadFrom (a : A) : Type 0 where
    pub registry : Registry
    pub found : view codec w ≡ ok registry
    pub returned : a ≡ get registry

  pub reading-ok : {a : A} → (reading codec get w).0 ≡ ok a → ReadFrom a
  unfolding reading
  reading-ok {a} h = elim (Result-cases (parse_file codec w.disk.main)) [
    | inl (e, failed) ↦ absurd (ground arith)
    | inr (reg, found) ↦ record { registry = reg; found = found; returned = ground arith }
  ]

  pub reading_serves :
      (reg : Registry)
      → (first_calls w.calls).read ≡ true
      → view codec w ≡ ok reg
      → (reading codec get w).0 ≡ ok (get reg)
  unfolding reading
  reading_serves reg r v = ground arith
