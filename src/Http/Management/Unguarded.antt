-- ===== src/Http/Management/Unguarded.antt =====
-- The management of hosts and licenses that asks for no token.
use proxmox_license_proxy.Prelude.{
  Text, equal_refl, Bool-cases, true, none, some, List, ◌≡◌, refl, inl, inr, arith,
}
use proxmox_license_proxy.Result.{ok}
use proxmox_license_proxy.Exec.{outcome-eq}
use proxmox_license_proxy.Subscription.Status.{approved}
use proxmox_license_proxy.Subscription.Model.{License, Server, Registry}
use proxmox_license_proxy.Registry.Keyed.{find, has, has-find, find-update, find-remove}
use proxmox_license_proxy.Registry.Operations.{
  license_key, server_key, server_with_status, set_server_status, remove_license,
}
use proxmox_license_proxy.Registry.Store.Commit.{view, RoundTrips}
use proxmox_license_proxy.Registry.Store.Reliable.{Encodes, Ready, mutate-Ready}
use proxmox_license_proxy.Registry.Api
use proxmox_license_proxy.Http.Server.{Request, Library, Options, HttpServer}
use proxmox_license_proxy.Http.Admin.{admin, approve_host, delete_subscription}
use proxmox_license_proxy.Http.Admin.Guarded.{HasToken, IsRefused, admin-Guarded}
use proxmox_license_proxy.Http.Management
use proxmox_license_proxy.Http.Management.{handle_approve_server, handle_delete_license}

found-has :
    {A : Type 0} (id : A → Text) (k : Text) (xs : List A) {x : A}
    → find id k xs ≡ some x
    → has id k xs ≡ true
found-has id k xs h = elim (Bool-cases (has id k xs)) [
  | inl there ↦ there
  | inr missing ↦ absurd (ground (arith, has-find id k xs missing, h))
]

module _ (lib : Library) (options : Options lib.net) where
  -- What becomes of a server by the requests that approve a host and delete a license, with the
  -- registries that are then in the file. The endpoints for operators refuse both.
  pub record IsOpen (r : Request) (s : HttpServer lib) (id key : Text) (host : Server)
      : Type 0 where
    pub approval_refused :
        let out = admin lib approve_host options (record r { param = id }) s in
        IsRefused lib options s out.1 out.0
    pub deletion_refused :
        let out = admin lib delete_subscription options (record r { param = key }) s in
        IsRefused lib options s out.1 out.0
    pub approving : (handle_approve_server lib id s).0.code ≡ 200
    pub with_host : Registry
    pub approved_found :
        view lib.codec (handle_approve_server lib id s).1.service.world ≡ ok with_host
    pub is_approved :
        find server_key id with_host.servers ≡ some (record host { status = approved })
    pub deleting : (handle_delete_license lib key s).0.code ≡ 204
    pub without_license : Registry
    pub deleted_found :
        view lib.codec (handle_delete_license lib key s).1.service.world ≡ ok without_license
    pub is_deleted : find license_key key without_license.licenses ≡ none

  refused :
      (route : _) (r : Request) (s : HttpServer lib)
      → (¬ HasToken lib options r)
      → IsRefused lib options s (admin lib route options r s).1 (admin lib route options r s).0
  refused route r s hidden = elim (admin-Guarded lib options route r s) [
    | inl (shown, _) ↦ absurd (hidden shown)
    | inr (_, out) ↦ out
  ]

  module _ (rt : RoundTrips lib.codec) (en : Encodes lib.codec) (s : HttpServer lib)
      (reg : Registry) (ready : Ready lib.codec s.service.world reg) where
    approving-eq :
        (id : Text) (host : Server)
        → find server_key id reg.servers ≡ some host
        → ((handle_approve_server lib id s).0.code ≡ 200)
          × (view lib.codec (handle_approve_server lib id s).1.service.world
              ≡ ok (set_server_status id approved reg).1)
    unfolding handle_approve_server Management.set_server_status Api.set_server_status
        set_server_status
    approving-eq id host found =
        let (done, left) =
          mutate-Ready lib.codec (λ x. ok (set_server_status id approved x)) s.service.world reg
            (set_server_status id approved reg).1 true rt en ready
            (ground (arith, found-has server_key id reg.servers found)) in
        rw (outcome-eq (Api.set_server_status lib.codec id approved) s.service.world done)
          (refl, left.found)

    deleting-eq :
        (key : Text) (lic : License)
        → find license_key key reg.licenses ≡ some lic
        → ((handle_delete_license lib key s).0.code ≡ 204)
          × (view lib.codec (handle_delete_license lib key s).1.service.world
              ≡ ok (remove_license key reg).1)
    unfolding handle_delete_license Api.remove_license remove_license
    deleting-eq key lic found =
        let (done, left) =
          mutate-Ready lib.codec (λ x. ok (remove_license key x)) s.service.world reg
            (remove_license key reg).1 true rt en ready
            (ground (arith, found-has license_key key reg.licenses found)) in
        rw (outcome-eq (Api.remove_license lib.codec key) s.service.world done) (refl, left.found)

    -- Without the token, the endpoints below /api/v1/admin refuse to approve a host and to delete a
    -- license, and nothing happens. The endpoints below /api/servers and /api/subscriptions of the
    -- same server do both: where the host and the license are in the registry, every registry can
    -- be encoded and the calls of the store succeed, they answer 200 and 204, and the host is
    -- APPROVED in the file, and the license gone from it.
    pub management-IsOpen :
        (r : Request) (id key : Text) (host : Server) (lic : License)
        → (¬ HasToken lib options r)
        → find server_key id reg.servers ≡ some host
        → find license_key key reg.licenses ≡ some lic
        → IsOpen r s id key host
    unfolding set_server_status remove_license
    management-IsOpen r id key host lic hidden listed held =
        let (approving, approved_found) = approving-eq id host listed in
        let (deleting, deleted_found) = deleting-eq key lic held in
        record {
          approval_refused = refused approve_host (record r { param = id }) s hidden;
          deletion_refused = refused delete_subscription (record r { param = key }) s hidden;
          approving = approving;
          with_host = (set_server_status id approved reg).1;
          approved_found = approved_found;
          is_approved = ground (
            arith,
            find-update server_key (server_with_status approved) (λ x. refl) id id reg.servers,
            listed,
            equal_refl id,
          );
          deleting = deleting;
          without_license = (remove_license key reg).1;
          deleted_found = deleted_found;
          is_deleted = ground (arith, find-remove license_key key key reg.licenses, equal_refl key);
        }
