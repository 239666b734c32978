-- ===== src/App/Verify/Decision.antt =====
-- When `Verify` answers "active".
use mathlib.Core.Bool.{false≢true}
use proxmox_license_proxy.Prelude.{
  Text, equal, equal_iff, Bool, true, false, Bool-cases, Option, none, some, [], ◌≡◌, ◌≢◌, refl,
  sym, ◌∙◌, ◌↔◌, ◌⊎◌, inl, inr, arith,
}
use proxmox_license_proxy.Result.{ok}
use proxmox_license_proxy.Subscription.Status.{Status, approved}
use proxmox_license_proxy.Subscription.Key.{describe}
use proxmox_license_proxy.Subscription.Model.{License, Server, Registry, active}
use proxmox_license_proxy.Registry.Operations.{get_license, get_server, contact, upsert_server}
use proxmox_license_proxy.Registry.Store.{Codec, World, first_calls, later_calls, parse_file}
use proxmox_license_proxy.Registry.Store.Commit.{
  view, RoundTrips, Serves, mutate-Serves, mutate-calls,
}
use proxmox_license_proxy.Registry.Store.Reading.{reading_serves}
use proxmox_license_proxy.Registry.Store.Reliable.{Reliable, Reliable-first, All-later}
use proxmox_license_proxy.Registry.Api
use proxmox_license_proxy.App.Service.{Clock}
use proxmox_license_proxy.App.Verify.{Registration, decide, register, known_license, verify}

-- The license of the key, where there is one, is not revoked or denied.

abbrev pub NotDenied : Option License → Type 0
NotDenied none = Unit
NotDenied (some lic) = active lic ≡ true

-- The key was issued to an ACME account.
abbrev pub IsIssuedKey : Option License → Type 0
IsIssuedKey none = ⊥
IsIssuedKey (some lic) = lic.account ≢ []

-- What stands behind an active answer.
abbrev pub Authorized : Text → Status → Option License → Type 0
Authorized server_id host_status lic =
    (server_id ≢ []) × NotDenied lic × ((host_status ≡ approved) ⊎ IsIssuedKey lic)

decide_iff :
    (clock : Clock) (server_id key token : Text) (host : Registration) (lic : Option License)
    → ((decide clock server_id key token host lic).active ≡ true)
      ↔ Authorized server_id host.host_status lic
unfolding decide
decide_iff clock server_id key token host none =
    ground (arith, equal_iff server_id [], equal_iff host.host_status approved)
decide_iff clock server_id key token host (some lic) =
    ground
      (arith, equal_iff server_id [], equal_iff host.host_status approved, equal_iff lic.account [])

decide_unnamed :
    (clock : Clock) (server_id key token : Text) (host : Registration) (lic : Option License)
    → equal server_id [] ≡ true
    → (decide clock server_id key token host lic).active ≡ false
unfolding decide
decide_unnamed clock server_id key token host none e = ground arith
decide_unnamed clock server_id key token host (some lic) e = ground arith

pub known_license-reading :
    (codec : Codec) (key : Text) (w : World codec.Content) (reg : Registry)
    → (first_calls w.calls).read ≡ true
    → view codec w ≡ ok reg
    → (known_license codec key w).0 ≡ get_license key reg
unfolding known_license Api.get_license
known_license-reading codec key w reg r v =
    ground (arith, reading_serves codec (get_license key) w reg r v)

module _ (codec : Codec) (clock : Clock) (server_id key token : Text) (auto_approve : Bool) where
  open codec use {Content, marshal}

  -- The entry of the host after the contact, and the registry with it.
  abbrev pub entry : Registry → Server
  entry reg =
      contact clock.now server_id key (describe key).product auto_approve (get_server server_id reg)

  abbrev pub contacted : Registry → Registry
  contacted reg = (upsert_server clock.now server_id key (describe key).product auto_approve reg).1

  module _ (w : World Content) (reg : Registry) (content : Content)
      (serves : Serves codec (first_calls w.calls)) (found : view codec w ≡ ok reg)
      (encoded : marshal (contacted reg) ≡ some content) (named : equal server_id [] ≡ false) where
    abbrev pub registered : Registration × World Content
    registered = register codec clock.now server_id key auto_approve w

    upserted :
        ((Api.upsert_server codec clock.now server_id key (describe key).product auto_approve w).0
          ≡ ok (entry reg))
        × ((Api.upsert_server codec clock.now server_id key
              (describe key).product
              auto_approve
              w).1.disk.main
            ≡ some content)
    unfolding Api.upsert_server
    upserted =
        mutate-Serves codec
          (λ r. ok (upsert_server clock.now server_id key (describe key).product auto_approve r)) w
          reg (contacted reg) (entry reg) content serves found (unfold upsert_server in refl)
          encoded

    pub registered-status : registered.0.host_status ≡ (entry reg).status
    unfolding register
    registered-status = ground (arith, upserted.0)

    registered-view : RoundTrips codec → view codec registered.1 ≡ ok (contacted reg)
    unfolding register parse_file
    registered-view rt = ground (arith, upserted.1, rt (contacted reg) content encoded)

    pub registered-calls : registered.1.calls ≡ later_calls w.calls
    unfolding register Api.upsert_server
    registered-calls = rw named (mutate-calls codec _ w)

    same_license : get_license key (contacted reg) ≡ get_license key reg
    unfolding upsert_server
    same_license = refl

    looked_up :
        RoundTrips codec
        → Reliable codec w
        → (known_license codec key registered.1).0 ≡ get_license key (contacted reg)
    looked_up rt reliable =
        known_license-reading codec key registered.1 (contacted reg)
          (Reliable-first codec registered.1
            (rw registered-calls (All-later codec w.calls reliable))).read_ok
          (registered-view rt)

    verify_named :
        RoundTrips codec
        → Reliable codec w
        → ((verify codec clock server_id key token auto_approve w).0.active ≡ true)
          ↔ Authorized server_id (entry reg).status (get_license key reg)
    unfolding verify
    verify_named rt reliable =
        rw (looked_up rt reliable, same_license, sym registered-status)
          (decide_iff clock server_id key token registered.0 (get_license key reg))

  verify_unnamed :
      (w : World Content) (status : Status) (lic : Option License)
      → equal server_id [] ≡ true
      → ((verify codec clock server_id key token auto_approve w).0.active ≡ true)
        ↔ Authorized server_id status lic
  unfolding verify
  verify_unnamed w status lic e =
      let refused =
        decide_unnamed clock server_id key token
          (register codec clock.now server_id key auto_approve w).0
          (known_license codec key (register codec clock.now server_id key auto_approve w).1).0 e in
      (λ h. absurd (false≢true (sym refused ∙ h)), λ a. absurd (a.0 ((equal_iff server_id []).0 e)))

  -- Where the calls of the store succeed, Verify answers "active" exactly when the host names
  -- itself, the key is not one that is known and denied (revoked, blocked, rejected or failed), and
  -- either the host is APPROVED after this contact or the key was issued to an ACME account.
  pub verify_active_iff :
      (w : World Content) (reg : Registry) (content : Content)
      → RoundTrips codec
      → Reliable codec w
      → view codec w ≡ ok reg
      → marshal (contacted reg) ≡ some content
      → ((verify codec clock server_id key token auto_approve w).0.active ≡ true)
        ↔ Authorized server_id (entry reg).status (get_license key reg)
  verify_active_iff w reg content rt reliable found encoded =
      elim (Bool-cases (equal server_id [])) [
        | inl e ↦ verify_unnamed w (entry reg).status (get_license key reg) e
        | inr ne ↦
            verify_named w reg content (Reliable-first codec w reliable) found encoded ne rt
              reliable
      ]
