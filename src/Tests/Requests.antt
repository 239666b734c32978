-- ===== src/Tests/Requests.antt =====
-- The theorems on keys, nonces, settings and requests at concrete inputs.
use proxmox_license_proxy.Prelude.{
  Text, bytes, equal, true, false, Option, none, some, List, [], ◌∷◌, ◌≡◌, ◌≤◌, refl, ltb, arith,
  any, ◌&&◌, ◌||◌, trim_space, to_lower,
}
use proxmox_license_proxy.Result.{ok}
use proxmox_license_proxy.Subscription.Model.{Registry}
use proxmox_license_proxy.Exec.{lift, ◌>>=◌}
use proxmox_license_proxy.Registry.Keyed.{find}
use proxmox_license_proxy.Registry.Store.{World, parse_file, load, reading}
use proxmox_license_proxy.Registry.Operations.{get_account}
use proxmox_license_proxy.Registry.Api
use proxmox_license_proxy.Acme.Nonces.{new_nonce_store, issue, consume}
use proxmox_license_proxy.Acme.Nonces.Single.{
  Event, issues, uses, run, times_issued, times_accepted, times_accepted_lem,
}
use proxmox_license_proxy.Acme.Nonces.Lifetime.{consume-issue}
use proxmox_license_proxy.Acme.Jws.{
  Verified, sign_request, read_header, check_signature, resolved, key_of_header, jwk_ed25519,
  verify,
}
use proxmox_license_proxy.Acme.Jws.Authentic.{Authentic, verify-Authentic}
use proxmox_license_proxy.Acme.Jws.Signing.{received, verify-sign_request}
use proxmox_license_proxy.Config.{
  AutoApprove, Config, Settings, level_info, allows, parse_networks, auto_approve_to_domain,
  to_settings, hosts_to_domain, tls_to_domain, tls_mode, parse_log_level,
}
use proxmox_license_proxy.Config.Trusted.{not_routed, lies_in, allows-auto_approve_to_domain}
use proxmox_license_proxy.Config.Valid.{IsValid, to_settings-IsValid}
use proxmox_license_proxy.Http.Guards.{resolve_key}
use proxmox_license_proxy.Tests.Remote.{
  header, key, request_jws, jose, public_key, pair, net, library, options, signed_world,
}

abbrev reused : List Event
reused =
    issues (record { collected = 1; issued = 1 }) (some (bytes "N"))
    ∷ uses 5 (bytes "N")
    ∷ uses 6 (bytes "N")
    ∷ []

times_accepted_lem_example :
    times_accepted (bytes "N") reused (new_nonce_store 10) ≤ times_issued (bytes "N") reused
times_accepted_lem_example = times_accepted_lem 10 (bytes "N") reused

others : List Event
others = issues (record { collected = 9; issued = 9 }) (some (bytes "M")) ∷ uses 9 (bytes "M") ∷ []

consume-issue_example :
    (consume 10 (bytes "N") (
      run others
        (issue (record { collected = 1; issued = 1 }) (some (bytes "N")) (new_nonce_store 10)).1)).0
    ≡ ltb 10 11
unfolding others equal new_nonce_store
consume-issue_example =
    consume-issue (bytes "N") (record { collected = 1; issued = 1 }) (new_nonce_store 10) others 10
      ((refl, ground arith), (refl, tt))

abbrev resolve : Text → World (Option Registry) → Option Text × World (Option Registry)
resolve = resolve_key library

abbrev verified : Verified
verified = record { header = header; payload = key; jwk = none; thumbprint = bytes "T1" }

request_verified : verify jose resolve (bytes "request") signed_world ≡ (ok verified, signed_world)
unfolding verify read_header check_signature resolved key_of_header jwk_ed25519 resolve_key equal
    Api.get_account reading find parse_file lift ◌>>=◌
request_verified = refl

verify-Authentic_example :
    Authentic jose resolve (bytes "request") signed_world signed_world verified
verify-Authentic_example =
    verify-Authentic jose resolve (bytes "request") signed_world signed_world verified
      request_verified

verify-sign_request_example : verify jose resolve (bytes "request") signed_world ≡ (
  ok (received jose (bytes "private") public_key pair header (some key) (bytes "T1")),
  signed_world,
)
unfolding sign_request key_of_header resolved resolve_key jwk_ed25519 equal Api.get_account reading
    load find get_account parse_file
verify-sign_request_example =
    verify-sign_request jose (bytes "private") public_key pair resolve header (some key)
      (bytes "T1") (bytes "request") signed_world signed_world request_jws refl refl refl

abbrev trusting : AutoApprove
trusting = record { enabled = true; private = false; networks = bytes "10.0.0.0/8" ∷ [] }

allows-auto_approve_to_domain_example : allows net options.auto_approve 7 ≡ (
    true
    && net.is_valid 7
    && (any (lies_in net 7) (bytes "10.0.0.0/8" ∷ [])
        || (false && any (lies_in net 7) (not_routed net))))
unfolding auto_approve_to_domain trim_space equal parse_networks
allows-auto_approve_to_domain_example =
    allows-auto_approve_to_domain net trusting options.auto_approve 7 refl

abbrev config : Config
config = record {
  listen = bytes ":443";
  log_level = [];
  registry_file = bytes "registry.json";
  tls = record { mode = bytes "http"; cert = []; key = []; names = [] };
  hosts = record { file = []; ip = []; names = [] };
  offline = record { private_key = []; public_key = [] };
  auto_approve = trusting;
  admin_token = bytes " secret ";
}

abbrev settings : Settings net
settings = record {
  listen = bytes ":443";
  log_level = level_info;
  registry_file = bytes "registry.json";
  tls = record { mode = bytes "http"; cert = []; key = []; names = bytes "shop.proxmox.com" ∷ [] };
  hosts = record { file = bytes "/etc/hosts"; ip = 0; names = bytes "shop.proxmox.com" ∷ [] };
  offline = record { private_key = []; public_key = [] };
  auto_approve = options.auto_approve;
  admin_token = bytes "secret";
}

to_settings-IsValid_example : IsValid net config settings
unfolding to_settings parse_log_level tls_to_domain tls_mode hosts_to_domain auto_approve_to_domain
    trim_space to_lower equal parse_networks
to_settings-IsValid_example = to_settings-IsValid net config settings refl
