-- ===== src/Http/Client/Revocation.antt =====
-- Who revokes a subscription over the client API, and what of.
use proxmox_license_proxy.Prelude.{
  Text, equal_iff, Bool, true, Option, none, some, Bool-cases, ◌≡◌, ◌⊎◌, refl, sym, ap, ◌∙◌, inl,
  inr,
}
use proxmox_license_proxy.Result.{Result, ok, Result-cases}
use proxmox_license_proxy.Subscription.Status.{revoked}
use proxmox_license_proxy.Subscription.Model.{License, Registry}
use proxmox_license_proxy.Registry.Operations.{get_license, set_license_status}
use proxmox_license_proxy.Registry.Store.{World, mutate, reading}
use proxmox_license_proxy.Registry.Store.Commit.{view, Committed, mutate-ok, mutate-err}
use proxmox_license_proxy.Registry.Store.Reading.{ReadFrom, reading-disk, reading-ok}
use proxmox_license_proxy.Registry.Api
use proxmox_license_proxy.App.Service
use proxmox_license_proxy.Acme.Jws.{Verified}
use proxmox_license_proxy.Http.Server.{
  Request, Moment, Library, Content, HttpServer, Checked, refused, passed, resume, write_fresh,
}
use proxmox_license_proxy.Http.Guards.{verify_jws}
use proxmox_license_proxy.Http.Guards.Reading.{disk_of, verify_jws-disk}
use proxmox_license_proxy.Http.Client.{
  owned_by, revoke_owned, revoke_found, revoke_key, requested_key, revoke_requested, revoke,
}
use proxmox_license_proxy.Http.Client.Passing.{Passed, verify_jws-Passed}

owner :
    (lib : Library) (thumbprint : Text) (o : Option License)
    → owned_by lib thumbprint o ≡ true
    → (l : License) × (o ≡ some l) × (l.account ≡ thumbprint)
unfolding owned_by
owner lib thumbprint none h = cc
owner lib thumbprint (some l) h = (l, refl, (equal_iff l.account thumbprint).0 h)

module _ (lib : Library) (m : Moment) where
  open lib use {codec}

  abbrev revoking : Text → Registry → Result (Bool × Registry)
  revoking key reg = ok (set_license_status key revoked reg)

  -- The license with the key is of the account, and the registry file has been replaced by one
  -- in which it is REVOKED.
  pub record RevokedBy (v : Verified) (key : Text) (w w' : World (Content lib)) : Type 0 where
    pub registry : Registry
    pub found : view codec w ≡ ok registry
    pub lic : License
    pub known : get_license key registry ≡ some lic
    pub owned : lic.account ≡ v.thumbprint
    pub was_known : Bool
    pub start : World (Content lib)
    pub same : start.disk ≡ w.disk
    pub committed : Committed codec (revoking key) start w' was_known

  -- The file is as it was, or what the account owns is revoked.
  abbrev pub Outcome : Verified → Text → World (Content lib) → World (Content lib) → Type 0
  Outcome v key w w' = (w'.disk.main ≡ w.disk.main) ⊎ RevokedBy v key w w'

  owned-world :
      (key : Text) (s : HttpServer lib)
      → (revoke_owned lib m key s).1.service.world ≡ (mutate codec (revoking key) s.service.world).1
  unfolding revoke_owned Service.revoke_subscription Api.set_license_status write_fresh
  owned-world key s = elim (Result-cases (mutate codec (revoking key) s.service.world).0) [
    | inl (e, failed) ↦ rw failed refl
    | inr (b, done) ↦ rw done refl
  ]

  Known : Verified → Text → World (Content lib) → Type 0
  Known v key w =
      (reg : Registry) × (view codec w ≡ ok reg)
      × (lic : License) × (get_license key reg ≡ some lic)
      × (lic.account ≡ v.thumbprint)

  owned-Outcome :
      (v : Verified) (key : Text) (w : World (Content lib)) (s : HttpServer lib)
      → s.service.world.disk ≡ w.disk
      → Known v key w
      → Outcome v key w (revoke_owned lib m key s).1.service.world
  unfolding Known
  owned-Outcome v key w s same (reg, found, lic, known, owned) =
      elim (Result-cases (mutate codec (revoking key) s.service.world).0) [
        | inl (e, failed) ↦ inl (
            ap (λ x. x.disk.main) (owned-world key s)
            ∙ mutate-err codec (revoking key) s.service.world failed
            ∙ ap (λ d. d.main) same)
        | inr (b, done) ↦ inr (record {
          registry = reg;
          found = found;
          lic = lic;
          known = known;
          owned = owned;
          was_known = b;
          start = s.service.world;
          same = same;
          committed = rw (owned-world key s) (mutate-ok codec (revoking key) s.service.world done);
        })
      ]

  found-Outcome :
      (v : Verified) (key : Text) (found : Option License) (w : World (Content lib))
      (s : HttpServer lib)
      → s.service.world.disk ≡ w.disk
      → ReadFrom codec (get_license key) w found
      → Outcome v key w (revoke_found lib m v key found s).1.service.world
  unfolding revoke_found write_fresh Known
  found-Outcome v key found w s same from = elim (Bool-cases (owned_by lib v.thumbprint found)) [
    | inr other ↦ inl (rw other (ap (λ d. d.main) same))
    | inl own ↦
        let (lic, is_some, of_account) = owner lib v.thumbprint found own in
        rw own (
          owned-Outcome v key w s same
            (from.registry, from.found, lic, sym from.returned ∙ is_some, of_account))
  ]

  revoke_key-Outcome :
      (v : Verified) (key : Text) (s : HttpServer lib)
      → Outcome v key s.service.world (revoke_key lib m v key s).1.service.world
  unfolding revoke_key Api.get_license write_fresh
  revoke_key-Outcome v key s =
      let w = s.service.world in
      let read = reading codec (get_license key) w in
      let t : HttpServer lib = record s { service = record s.service { world = read.1 } } in
      elim (Result-cases read.0) [
        | inl (e, failed) ↦
            inl (rw failed (ap (λ d. d.main) (reading-disk codec (get_license key) w)))
        | inr (found, got) ↦ rw got (
            found-Outcome v key found w t (reading-disk codec (get_license key) w)
              (reading-ok codec (get_license key) w got))
      ]

  -- The request passed, and the license with the key of its payload is revoked.
  pub record Revoked (r : Request) (s : HttpServer lib) (w' : World (Content lib)) : Type 0 where
    pub verified : Verified
    pub checked : HttpServer lib
    pub request : Passed lib m r s checked verified
    pub key : Text
    pub asked : requested_key lib verified.payload ≡ some key
    pub revoked : RevokedBy verified key checked.service.world w'

  abbrev rest : Checked lib Verified → HttpServer lib → World (Content lib)
  rest c t =
      (resume lib c t λ v. revoke_requested lib m v (requested_key lib v.payload)).1.service.world

  asked-Revoked :
      (r : Request) (s : HttpServer lib) (v : Verified) (t : HttpServer lib) (o : Option Text)
      → requested_key lib v.payload ≡ o
      → disk_of lib t ≡ disk_of lib s
      → Passed lib m r s t v
      → ((revoke_requested lib m v o t).1.service.world.disk.main ≡ s.service.world.disk.main)
        ⊎ Revoked r s (revoke_requested lib m v o t).1.service.world
  unfolding write_fresh
  asked-Revoked r s v t none asked kept p = inl (ap (λ d. d.main) kept)
  asked-Revoked r s v t (some key) asked kept p = elim (revoke_key-Outcome v key t) [
    | inl same ↦ inl (same ∙ ap (λ d. d.main) kept)
    | inr done ↦ inr (record {
      verified = v;
      checked = t;
      request = p;
      key = key;
      asked = asked;
      revoked = done;
    })
  ]

  checked-Revoked :
      (r : Request) (s : HttpServer lib) (c : Checked lib Verified) (t : HttpServer lib)
      → verify_jws lib m r s ≡ (c, t)
      → ((rest c t).disk.main ≡ s.service.world.disk.main) ⊎ Revoked r s (rest c t)
  unfolding write_fresh
  checked-Revoked r s (refused reply) t h =
      let kept : disk_of lib t ≡ disk_of lib s =
        ap (λ (x : Checked lib Verified × HttpServer lib). disk_of lib x.1) (sym h)
        ∙ verify_jws-disk lib m r s in
      inl (ap (λ d. d.main) kept)
  checked-Revoked r s (passed v) t h =
      let kept : disk_of lib t ≡ disk_of lib s =
        ap (λ (x : Checked lib Verified × HttpServer lib). disk_of lib x.1) (sym h)
        ∙ verify_jws-disk lib m r s in
      asked-Revoked r s v t (requested_key lib v.payload) refl kept
        (verify_jws-Passed lib m r s t v h)

  -- Whatever the request to revoke, and whichever calls of the store fail, the registry file stays as
  -- it was; or else the request passed `verifyJWS`, its payload names a key, the registry holds that
  -- key as a license of the account that signed the request, and the file is replaced by the registry
  -- with that license REVOKED.
  pub revoke-Revoked :
      (r : Request) (s : HttpServer lib)
      → ((revoke lib m r s).1.service.world.disk.main ≡ s.service.world.disk.main)
        ⊎ Revoked r s (revoke lib m r s).1.service.world
  unfolding revoke
  revoke-Revoked r s = checked-Revoked r s (verify_jws lib m r s).0 (verify_jws lib m r s).1 refl
