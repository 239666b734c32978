-- ===== src/Http/Management/Probes.antt =====
-- What the probes say.
use proxmox_license_proxy.Prelude.{
  ◌≤◌, Bool, Bool-cases, true, false, List, [], ◌∷◌, length, ◌&&◌, ◌≡◌, refl, arith, if◌then◌else◌,
  inl, inr,
}
use proxmox_license_proxy.Result.{Result, ok, err, Result-cases}
use proxmox_license_proxy.Subscription.Model.{Server}
use proxmox_license_proxy.Registry.Store.{load}
use proxmox_license_proxy.Http.Server.{Library, HttpServer}
use proxmox_license_proxy.Http.Management.{count_pending, handle_ready}

count_pending-le : (ss : List Server) → count_pending ss ≤ length ss
unfolding count_pending
count_pending-le [] = ground arith
count_pending-le (s ∷ ss) = ground (arith, count_pending-le ss)

abbrev pub succeeded : {A : Type 0} → Result A → Bool
succeeded (ok a) = true
succeeded (err e) = false

-- The readiness probe answers 200 exactly when the server is not draining and the registry can be
-- read, and 503 otherwise; it leaves the registry file, its backup and the nonces alone.
pub handle_ready_lem :
    (lib : Library) (s : HttpServer lib)
    → ((handle_ready lib s).0.code
        ≡ (if s.ready && succeeded (load lib.codec s.service.world).0 then 200 else 503))
      × ((handle_ready lib s).1.service.world.disk ≡ s.service.world.disk)
      × ((handle_ready lib s).1.nonces ≡ s.nonces)
unfolding handle_ready load
handle_ready_lem lib s = elim (Bool-cases s.ready) [
  | inr draining ↦ rw draining (refl, refl, refl)
  | inl up ↦ elim (Result-cases (load lib.codec s.service.world).0) [
    | inl (e, failed) ↦ rw (up, failed) (refl, refl, refl)
    | inr (reg, loaded) ↦ rw (up, loaded) (refl, refl, refl)
  ]
]
