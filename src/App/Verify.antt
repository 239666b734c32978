-- ===== src/App/Verify.antt =====
-- internal/app/service.go: `Verify`, which answers the check of a Proxmox host.
pub mod Decision
pub mod Faults
use proxmox_license_proxy.Prelude.{
  Text, bytes, equal, Bool, true, false, not, ◌&&◌, ◌||◌, Option, none, some, List, [], ◌∷◌, ◌++◌,
  if◌then◌else◌,
}
use proxmox_license_proxy.Result.{Error, Result, ok, err}
use proxmox_license_proxy.Subscription.Status.{Status, approved}
use proxmox_license_proxy.Subscription.Key.{describe}
use proxmox_license_proxy.Subscription.Model.{License, Server, active}
use proxmox_license_proxy.Subscription.Response.{Response}
use proxmox_license_proxy.Registry.Store.{Codec, World}
use proxmox_license_proxy.Registry.Api
use proxmox_license_proxy.App.Service.{Clock}

pub record VerifyResult : Type 0 where
  pub response : Response
  pub active : Bool
  pub host_status : Status
  pub register_err : Option Error

-- What the registration of the host leaves in `hostStatus` and `regErr`.
pub record Registration : Type 0 where
  pub host_status : Status
  pub register_err : Option Error

abbrev pub registration_of : Result Server → Registration
registration_of (ok srv) = record { host_status = srv.status; register_err = none }
registration_of (err e) = record { host_status = []; register_err = some e }

abbrev pub no_registration : Registration
no_registration = record { host_status = []; register_err = none }

abbrev pub invalid_response : Text → Text → Text → Response
invalid_response server_id token message = record {
  status = bytes "invalid";
  server_id = server_id;
  product_name = [];
  reg_date = [];
  next_due_date = [];
  message = message;
  check_token = token;
}

abbrev pub denied_result : Text → Text → Registration → License → VerifyResult
denied_result server_id token host lic = record {
  response = invalid_response server_id token (bytes "subscription " ++ lic.status);
  active = false;
  host_status = host.host_status;
  register_err = none;
}

abbrev pub refused_result : Text → Text → Registration → VerifyResult
refused_result server_id token host = record {
  response = invalid_response server_id token (bytes "no valid subscription");
  active = false;
  host_status = host.host_status;
  register_err = host.register_err;
}

abbrev or_else : Text → Text → Text
or_else given default = if equal given [] then default else given

-- The product name and the dates of an active answer.
unfoldable pub active_response : Clock → Text → Text → Text → Option License → Response
active_response clock server_id key token none = record {
  status = bytes "active";
  server_id = server_id;
  product_name = (describe key).product_name;
  reg_date = clock.today;
  next_due_date = clock.next_year;
  message = [];
  check_token = token;
}
active_response clock server_id key token (some lic) = record {
  status = bytes "active";
  server_id = server_id;
  product_name = lic.product_name;
  reg_date = or_else lic.reg_date clock.today;
  next_due_date = or_else lic.next_due_date clock.next_year;
  message = [];
  check_token = token;
}

abbrev pub is_denied_license : Option License → Bool
is_denied_license none = false
is_denied_license (some lic) = not (active lic)

abbrev pub acme_issued : Option License → Bool
acme_issued none = false
acme_issued (some lic) = not (equal lic.account [])

abbrev denied_message : Text → Text → Registration → Option License → VerifyResult
denied_message server_id token host none = refused_result server_id token host
denied_message server_id token host (some lic) = denied_result server_id token host lic

-- The answer, once the host is registered and the license is looked up.
unfoldable pub decide : Clock → Text → Text → Text → Registration → Option License → VerifyResult
unfolding active_response
decide clock server_id key token host lic =
    if is_denied_license lic
    then denied_message server_id token host lic
    else if equal server_id [] || not (equal host.host_status approved) && not (acme_issued lic)
    then refused_result server_id token host
    else record {
      response = active_response clock server_id key token lic;
      active = true;
      host_status = host.host_status;
      register_err = none;
    }

module _ (codec : Codec) where
  open codec use {Content}

  unfoldable pub register : Text → Text → Text → Bool → World Content → Registration × World Content
  register now server_id key auto_approve w =
      if equal server_id []
      then (no_registration, w)
      else let (r, w') =
          Api.upsert_server codec now server_id key (describe key).product auto_approve w in
        (registration_of r, w')

  -- `lic, licKnown, _ := s.store.GetLicense(key)`: an error is taken for an unknown key.
  unfoldable pub known_license : Text → World Content → Option License × World Content
  known_license key w =
      let (r, w') = Api.get_license codec key w in (elim r [ ok found ↦ found | err _ ↦ none ], w')

  unfoldable pub verify :
      Clock → Text → Text → Text → Bool → World Content → VerifyResult × World Content
  verify clock server_id key token auto_approve w =
      let (host, w₁) = register clock.now server_id key auto_approve w in
      let (lic, w₂) = known_license key w₁ in (decide clock server_id key token host lic, w₂)
