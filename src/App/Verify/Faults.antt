-- ===== src/App/Verify/Faults.antt =====
-- What `Verify` answers when a call of the store fails.
use proxmox_license_proxy.Prelude.{
  Text, bytes, equal, equal_iff, Bool, true, false, Option, none, some, [], ◌≡◌, ◌≢◌, ap, ◌∙◌,
  arith,
}
use proxmox_license_proxy.Result.{Error, ok, err}
use proxmox_license_proxy.Subscription.Status.{approved}
use proxmox_license_proxy.Subscription.Key.{describe}
use proxmox_license_proxy.Subscription.Model.{License, Registry, active}
use proxmox_license_proxy.Registry.Operations.{get_license}
use proxmox_license_proxy.Registry.Store.{Codec, World, first_calls, later_calls, reading}
use proxmox_license_proxy.Registry.Store.Commit.{view, Serves}
use proxmox_license_proxy.Registry.Api
use proxmox_license_proxy.App.Service.{Clock}
use proxmox_license_proxy.App.Verify.{
  VerifyResult, Registration, decide, register, known_license, verify,
}
use proxmox_license_proxy.App.Verify.Decision.{
  entry, contacted, registered-status, registered-calls,
}

-- An answer to a request for this host and challenge.

pub record Answers (server_id token : Text) (r : VerifyResult) : Type 0 where
  pub directory : r.response.server_id ≡ server_id
  pub challenge : r.response.check_token ≡ token
  pub granted : r.active ≡ true → r.response.status ≡ bytes "active"
  pub refused :
      r.active ≡ false
      → (r.response.status ≡ bytes "invalid")
        × (r.response.product_name ≡ [])
        × (r.response.reg_date ≡ [])
        × (r.response.next_due_date ≡ [])

decide-Answers :
    (clock : Clock) (server_id key token : Text) (host : Registration) (lic : Option License)
    → Answers server_id token (decide clock server_id key token host lic)
unfolding decide
decide-Answers clock server_id key token host none = ground arith
decide-Answers clock server_id key token host (some lic) = ground arith

-- Whatever fails, the answer echoes the host and the challenge of the request; its status is
-- "active" or "invalid" as it was decided, and an invalid one names no product and no date.
pub verify-Answers :
    (codec : Codec) (clock : Clock) (server_id key token : Text) (auto_approve : Bool)
    (w : World codec.Content)
    → Answers server_id token (verify codec clock server_id key token auto_approve w).0
unfolding verify
verify-Answers codec clock server_id key token auto_approve w =
    decide-Answers clock server_id key token
      (register codec clock.now server_id key auto_approve w).0
      (known_license codec key (register codec clock.now server_id key auto_approve w).1).0

unreadable_license :
    (codec : Codec) (key : Text) (w : World codec.Content)
    → (first_calls w.calls).read ≡ false
    → (known_license codec key w).0 ≡ none
unfolding known_license Api.get_license reading
unreadable_license codec key w r = ground arith

decide_unknown :
    (clock : Clock) (server_id key token : Text) (host : Registration)
    → server_id ≢ []
    → host.host_status ≡ approved
    → (decide clock server_id key token host none).active ≡ true
unfolding decide
decide_unknown clock server_id key token host n a =
    ground (arith, equal_iff server_id [], equal_iff host.host_status approved)

module _ (codec : Codec) (clock : Clock) (server_id key token : Text) (auto_approve : Bool)
    (w : World codec.Content) where
  open codec use {Content, marshal}

  -- The error of the lookup is dropped: on an APPROVED host, a key that the registry holds as denied
  -- is answered "active" whenever the read of the lookup fails after the host was registered.
  pub verify_fails_open :
      (reg : Registry) (content : Content) (lic : License)
      → server_id ≢ []
      → Serves codec (first_calls w.calls)
      → (first_calls (later_calls w.calls)).read ≡ false
      → view codec w ≡ ok reg
      → marshal (contacted codec clock server_id key token auto_approve reg) ≡ some content
      → (entry codec clock server_id key token auto_approve reg).status ≡ approved
      → get_license key reg ≡ some lic
      → active lic ≡ false
      → (verify codec clock server_id key token auto_approve w).0.active ≡ true
  unfolding verify
  verify_fails_open reg content lic named serves unread found encoded status known denied =
      let ne : equal server_id [] ≡ false = ground (arith, equal_iff server_id []) in
      let host = (register codec clock.now server_id key auto_approve w).0 in
      let w₁ = (register codec clock.now server_id key auto_approve w).1 in
      let later : w₁.calls ≡ later_calls w.calls =
        registered-calls codec clock server_id key token auto_approve w reg content serves found
          encoded ne in
      let fit : host.host_status ≡ approved =
        registered-status codec clock server_id key token auto_approve w reg content serves found
          encoded ne
        ∙ status in
      rw (unreadable_license codec key w₁ (ap (λ cs. (first_calls cs).read) later ∙ unread))
        (decide_unknown clock server_id key token host named fit)

  -- A registration that fails is neither reported nor refused for a key that was issued to an
  -- account: the answer is active, and it carries no registration error.
  pub verify_hides_error :
      (e : Error) (lic : License)
      → server_id ≢ []
      → (Api.upsert_server codec clock.now server_id key (describe key).product auto_approve w).0
        ≡ err e
      → (known_license codec key (register codec clock.now server_id key auto_approve w).1).0
        ≡ some lic
      → active lic ≡ true
      → lic.account ≢ []
      → ((verify codec clock server_id key token auto_approve w).0.active ≡ true)
        × ((verify codec clock server_id key token auto_approve w).0.register_err ≡ none)
  unfolding verify decide
  verify_hides_error e lic named failed found live issued =
      ground (arith, equal_iff server_id [], equal_iff lic.account [])
