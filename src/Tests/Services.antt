-- ===== src/Tests/Services.antt =====
-- The service at concrete inputs.
use proxmox_license_proxy.Prelude.{
  Text, bytes, equal, has_prefix, true, false, Option, some, [], ◌∷◌, ◌≡◌, ◌≢◌, ◌↔◌, refl, arith,
}
use proxmox_license_proxy.Result.{ok, err, unknown_sockets, subscription_revoked}
use proxmox_license_proxy.Exec.{◌>>=◌}
use proxmox_license_proxy.Subscription.Status.{approved, revoked}
use proxmox_license_proxy.Subscription.Key.{
  product_code, known_level, level_name, valid_sockets, generate_key, key_sockets, drawn,
}
use proxmox_license_proxy.Subscription.Model.{Account, Registry, is_denied, active}
use proxmox_license_proxy.Registry.Keyed.{find}
use proxmox_license_proxy.Registry.Operations.{
  get_license, get_account, contact, refresh, set_license_status, upsert_account,
}
use proxmox_license_proxy.Registry.Api
use proxmox_license_proxy.Registry.Store.{fine, World, parse_file, reading}
use proxmox_license_proxy.Registry.Store.Commit.{view}
use proxmox_license_proxy.App.Sockets.{atoi, needs_socket_upgrade}
use proxmox_license_proxy.App.Service.{
  IssueInput, refreshed_account, held_license, is_approved, license_for_account_product,
  issue_subscription, issue_held,
}
use proxmox_license_proxy.App.Service.Accounts.{
  Registers, requested, registering, register_account-Registers, register_account_forgets,
}
use proxmox_license_proxy.App.Service.Issue.{IsIssued, issue_subscription-IsIssued}
use proxmox_license_proxy.App.Service.Holdings.{has_any, holdings}
use proxmox_license_proxy.App.Service.Denied.{issue_subscription-Denied}
use proxmox_license_proxy.App.Service.Refusals.{Ready, after_read, issue_loses_license}
use proxmox_license_proxy.App.Verify.{verify}
use proxmox_license_proxy.App.Verify.Decision.{Authorized, entry, contacted, verify_active_iff}
use proxmox_license_proxy.App.Verify.Faults.{Answers, verify-Answers, verify_fails_open}
use proxmox_license_proxy.Tests.Fixtures.{
  memory_codec, memory_codec-RoundTrips, held, withdrawn, account, registry, world, state, clock,
  unreadable, fine-Serves,
}

found : view memory_codec world ≡ ok registry
unfolding parse_file
found = refl

verify_active_iff_example :
    ((verify memory_codec clock (bytes "H1") held.key (bytes "x") false world).0.active ≡ true)
    ↔ Authorized
        (bytes "H1")
        (entry memory_codec clock (bytes "H1") held.key (bytes "x") false registry).status
        (get_license held.key registry)
verify_active_iff_example =
    verify_active_iff memory_codec clock (bytes "H1") held.key (bytes "x") false world registry
      (some (contacted memory_codec clock (bytes "H1") held.key (bytes "x") false registry))
      memory_codec-RoundTrips tt found refl

abbrev order : Text → Text → IssueInput
order product sockets = record {
  thumbprint = bytes "T1";
  server_id = bytes "H1";
  product = product;
  level = [];
  sockets = sockets;
}

reissued :
    issue_subscription memory_codec clock (order (bytes "pve") (bytes "1")) state
    ≡ (ok held, after_read memory_codec (after_read memory_codec state))
unfolding issue_subscription license_for_account_product issue_held Api.get_account
    Api.list_licenses reading parse_file find product_code is_approved held_license active is_denied
    needs_socket_upgrade atoi key_sockets equal has_prefix ◌>>=◌
reissued = refl

issue_subscription-IsIssued_example :
    IsIssued memory_codec clock
      (order (bytes "pve") (bytes "1"))
      state
      (after_read memory_codec (after_read memory_codec state))
      held
issue_subscription-IsIssued_example =
    issue_subscription-IsIssued memory_codec clock (order (bytes "pve") (bytes "1")) state
      memory_codec-RoundTrips reissued

Ready-pbs : Ready memory_codec (order (bytes "pbs") []) state registry
unfolding product_code find equal
Ready-pbs = record {
  product_ok = refl;
  account = account;
  known = refl;
  account_ok = refl;
  found = found;
  reliable = tt;
}

issue_subscription-Denied_example :
    (issue_subscription memory_codec clock (order (bytes "pbs") []) state).0
      ≡ err subscription_revoked
    ↔ ((has_any (bytes "T1") (bytes "pbs") registry.licenses ≡ true)
        × (holdings (bytes "T1") (bytes "pbs") registry.licenses ≡ 0))
issue_subscription-Denied_example =
    issue_subscription-Denied memory_codec clock (order (bytes "pbs") []) state registry Ready-pbs

abbrev revoked_registry : Registry
revoked_registry = (set_license_status held.key revoked registry).1

Ready-pve : Ready memory_codec (order (bytes "pve") (bytes "16")) state registry
unfolding product_code find equal
Ready-pve = record {
  product_ok = refl;
  account = account;
  known = refl;
  account_ok = refl;
  found = found;
  reliable = tt;
}

pve_held : held_license (bytes "T1") (bytes "pve") Option.none registry.licenses ≡ some held
unfolding held_license equal active is_denied
pve_held = refl

held_active : active held ≡ true
unfolding active is_denied equal
held_active = refl

wants_more : needs_socket_upgrade (bytes "pve") (bytes "16") held ≡ true
unfolding needs_socket_upgrade atoi key_sockets equal has_prefix
wants_more = refl

no_such_key :
    generate_key (bytes "pve") [] (bytes "16") (drawn 1 2 3 4) ≡ err (unknown_sockets (bytes "16"))
unfolding generate_key product_code known_level level_name valid_sockets equal
no_such_key = refl

issue_loses_license_example :
    ((issue_subscription memory_codec clock (order (bytes "pve") (bytes "16")) state).0
      ≡ err (unknown_sockets (bytes "16")))
    × ((issue_subscription memory_codec clock
          (order (bytes "pve") (bytes "16"))
          state).1.world.disk.main
        ≡ some (some revoked_registry))
issue_loses_license_example =
    issue_loses_license memory_codec clock (order (bytes "pve") (bytes "16")) state registry
      Ready-pve held (unknown_sockets (bytes "16")) (some revoked_registry) pve_held held_active
      wants_more no_such_key refl

H1-ne-nil : bytes "H1" ≢ []
H1-ne-nil e = grind (arith, e)

abbrev flaky : World (Option Registry)
flaky = record world { calls = fine ∷ unreadable ∷ [] }

host_approved :
    (entry memory_codec clock (bytes "H1") withdrawn.key (bytes "x") false registry).status
    ≡ approved
unfolding contact refresh find equal
host_approved = refl

verify_fails_open_example :
    (verify memory_codec clock (bytes "H1") withdrawn.key (bytes "x") false flaky).0.active ≡ true
unfolding parse_file find equal active is_denied
verify_fails_open_example =
    verify_fails_open memory_codec clock (bytes "H1") withdrawn.key (bytes "x") false flaky registry
      (some (contacted memory_codec clock (bytes "H1") withdrawn.key (bytes "x") false registry))
      withdrawn H1-ne-nil fine-Serves refl refl refl host_approved refl refl

verify-Answers_example :
    Answers
      (bytes "H1")
      (bytes "x")
      (verify memory_codec clock (bytes "H1") withdrawn.key (bytes "x") false flaky).0
verify-Answers_example =
    verify-Answers memory_codec clock (bytes "H1") withdrawn.key (bytes "x") false flaky

abbrev locked_out : World (Option Registry)
locked_out = record world { calls = record fine { lock = false } ∷ [] }

T2-ne-nil : bytes "T2" ≢ []
T2-ne-nil e = grind (arith, e)

K2-ne-nil : bytes "K2" ≢ []
K2-ne-nil e = grind (arith, e)

abbrev re_registered : Registry
re_registered =
    upsert_account
      (refreshed_account
        (requested memory_codec clock.now (bytes "T2") (bytes "K2") (bytes "H1") [] true)
        (get_account (bytes "T2") registry))
      registry

register_account-Registers_example :
    Registers memory_codec clock.now
      (bytes "T2")
      (bytes "K2")
      (bytes "H1")
      []
      true
      world
      (get_account (bytes "T2") registry)
      (some re_registered)
register_account-Registers_example =
    register_account-Registers memory_codec clock.now (bytes "T2") (bytes "K2") (bytes "H1") [] true
      world registry (some re_registered) T2-ne-nil K2-ne-nil refl fine-Serves found refl

abbrev forgetful : World (Option Registry)
forgetful = record world { calls = unreadable ∷ [] }

abbrev new_request : Account
new_request = requested memory_codec clock.now (bytes "T2") (bytes "K2") (bytes "H1") [] true

register_account_forgets_example :
    ((registering memory_codec clock.now (bytes "T2") (bytes "K2") (bytes "H1") [] true forgetful).0
      ≡ ok new_request)
    × ((registering memory_codec clock.now
          (bytes "T2")
          (bytes "K2")
          (bytes "H1")
          []
          true
          forgetful).1.disk.main
        ≡ some (some (upsert_account new_request registry)))
register_account_forgets_example =
    register_account_forgets memory_codec clock.now (bytes "T2") (bytes "K2") (bytes "H1") [] true
      forgetful registry (some (upsert_account new_request registry)) T2-ne-nil K2-ne-nil refl
      fine-Serves found refl
