-- ===== src/Http/Admin.antt =====
-- internal/transport/httpapi/apiv1.go: the endpoints of the admins, which check a bearer token.
pub mod Guarded
use proxmox_license_proxy.Prelude.{Text, bytes, Bool, true, false, List, [], ◌∷◌}
use proxmox_license_proxy.Subscription.Status.{Status, approved, blocked, revoked}
use proxmox_license_proxy.Registry.Api
use proxmox_license_proxy.App.Service
use proxmox_license_proxy.Http.Server.{
  Request, message, fault, fields, accounts, servers, licenses, empty, Library, Options, Handler,
  Reply, HttpServer, resume, attempt_world, write,
}
use proxmox_license_proxy.Http.Guards.{require_admin}

-- The routes below /api/v1/admin.
pub data AdminRoute : Type 0 where
  list_accounts approve_account block_account : AdminRoute
  list_hosts approve_host block_host : AdminRoute
  list_subscriptions revoke_subscription delete_subscription : AdminRoute

module _ (lib : Library) where
  open lib use {codec}

  -- `if !found { 404 }`
  abbrev pub if_found : Bool → Text → Handler lib → Handler lib
  if_found true missing next = next
  if_found false missing next = write lib 404 (message missing)

  -- The rest of `adminSetAccountStatus`, behind the check of the token; so below.
  unfoldable pub set_account_status : Text → Status → Handler lib
  set_account_status thumb s =
      attempt_world lib (Api.set_account_status codec thumb s) (λ e. write lib 500 (fault e))
        (λ found.
          if_found found (bytes "account not found")
            (write lib 200 (fields ((bytes "thumbprint", thumb) ∷ (bytes "status", s) ∷ []))))

  unfoldable pub set_host_status : Text → Status → Handler lib
  set_host_status id s =
      attempt_world lib (Api.set_server_status codec id s) (λ e. write lib 500 (fault e))
        (λ found.
          if_found found (bytes "host not found")
            (write lib 200 (fields ((bytes "serverid", id) ∷ (bytes "status", s) ∷ []))))

  unfoldable pub revoke_key : Text → Handler lib
  revoke_key key =
      attempt_world lib (Service.revoke_subscription codec key) (λ e. write lib 500 (fault e))
        (λ found.
          if_found found (bytes "subscription not found")
            (write lib 200 (fields ((bytes "key", key) ∷ (bytes "status", revoked) ∷ []))))

  unfoldable pub delete_key : Text → Handler lib
  delete_key key =
      attempt_world lib (Api.remove_license codec key) (λ e. write lib 500 (fault e))
        (λ removed. if_found removed (bytes "subscription not found") (write lib 204 empty))

  unfoldable pub all_accounts : Handler lib
  all_accounts =
      attempt_world lib (Api.list_accounts codec) (λ e. write lib 500 (fault e))
        (λ as'. write lib 200 (accounts as'))

  unfoldable pub all_hosts : Handler lib
  all_hosts =
      attempt_world lib (Api.list_servers codec) (λ e. write lib 500 (fault e))
        (λ ss. write lib 200 (servers ss))

  unfoldable pub all_subscriptions : Handler lib
  all_subscriptions =
      attempt_world lib (Api.list_licenses codec) (λ e. write lib 500 (fault e))
        (λ ls. write lib 200 (licenses ls))

  -- The handler of a route, without the check of the token.
  abbrev pub admin_action : AdminRoute → Text → Handler lib
  admin_action list_accounts param = all_accounts
  admin_action approve_account param = set_account_status param approved
  admin_action block_account param = set_account_status param blocked
  admin_action list_hosts param = all_hosts
  admin_action approve_host param = set_host_status param approved
  admin_action block_host param = set_host_status param blocked
  admin_action list_subscriptions param = all_subscriptions
  admin_action revoke_subscription param = revoke_key param
  admin_action delete_subscription param = delete_key param

  unfoldable pub admin : AdminRoute → Options lib.net → Request → Handler lib
  admin route options r s =
      let (checked, s') = require_admin lib options r s in
      resume lib checked s' λ _. admin_action route r.param
