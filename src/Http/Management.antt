-- ===== src/Http/Management.antt =====
-- internal/transport/httpapi/server.go: the check of a Proxmox host, the probes, and the management
-- of licenses and hosts, none of which checks who asks.
pub mod Probes
pub mod Unguarded
use proxmox_license_proxy.Prelude.{
  ℕ, ◌+◌, Text, bytes, equal, Bool, true, false, not, Option, none, some, List, [], ◌∷◌, length,
  if◌then◌else◌,
}
use proxmox_license_proxy.Subscription.Status.{Status, approved, blocked, pending}
use proxmox_license_proxy.Subscription.Model.{License, Server, Registry}
use proxmox_license_proxy.Subscription.Response.{render_xml}
use proxmox_license_proxy.Registry.Store.{load}
use proxmox_license_proxy.Registry.Api
use proxmox_license_proxy.App.Service
use proxmox_license_proxy.App.Verify
use proxmox_license_proxy.Config.{allows}
use proxmox_license_proxy.Http.Server.{
  Request, Moment, VerifyForm, StatusReply, message, fault, fields, status, license, licenses,
  servers, xml, pem, empty, Library, Options, HttpServer, Handler, attempt_world, write,
  client_addr,
}
use proxmox_license_proxy.Http.Admin.{if_found}

-- The hosts that wait for an operator.
unfoldable pub count_pending : List Server → ℕ
count_pending [] = 0
count_pending (s ∷ ss) = (if equal s.status pending then 1 else 0) + count_pending ss

module _ (lib : Library) where
  open lib use {codec, json, md5_hex}

  abbrev pub answer_check : Options lib.net → Moment → Request → Option VerifyForm → Handler lib
  answer_check options m r none s = write lib 400 (message (bytes "bad form")) s
  answer_check options m r (some form) s =
      let (result, w) =
        Verify.verify codec (m.clock 0) form.dir form.license_key form.check_token
          (allows lib.net options.auto_approve (client_addr lib r.remote_addr)) s.service.world in
      write lib 200 (xml (render_xml md5_hex result.response))
        (record s { service = record s.service { world = w } })

  -- `handleVerify`
  unfoldable pub handle_verify : Options lib.net → Moment → Request → Handler lib
  handle_verify options m r = answer_check options m r r.form

  unfoldable pub handle_cert : Handler lib
  handle_cert s =
      if equal s.cert_pem []
      then write lib 404 (message (bytes "no certificate (server runs in http mode)")) s
      else write lib 200 (pem s.cert_pem) s

  abbrev status_field : Text → List (Text × Text)
  status_field t = (bytes "status", t) ∷ []

  unfoldable pub handle_live : Handler lib
  handle_live = write lib 200 (fields (status_field (bytes "ok")))

  unfoldable pub handle_ready : Handler lib
  handle_ready s =
      if not s.ready
      then write lib 503 (fields (status_field (bytes "draining"))) s
      else attempt_world lib (load codec)
          (λ _. write lib 503 (fields (status_field (bytes "registry unavailable"))))
          (λ _. write lib 200 (fields (status_field (bytes "ready")))) s

  abbrev pub status_of : Bool → Registry → StatusReply
  status_of ready reg = record {
    ready = ready;
    licenses = length reg.licenses;
    servers = length reg.servers;
    pending = count_pending reg.servers;
  }

  unfoldable pub handle_status : Handler lib
  handle_status s =
      attempt_world lib (load codec) (λ e. write lib 500 (fault e))
        (λ reg. write lib 200 (status (status_of s.ready reg))) s

  unfoldable pub handle_list_licenses : Handler lib
  handle_list_licenses =
      attempt_world lib (Api.list_licenses codec) (λ e. write lib 500 (fault e))
        (λ ls. write lib 200 (licenses ls))

  abbrev pub add_decoded : Moment → Option License → Handler lib
  add_decoded m none = write lib 400 (message (bytes "invalid JSON"))
  add_decoded m (some lic) =
      attempt_world lib
        (Service.add_license codec (m.clock 0) (record {
          key = lic.key;
          product = lic.product;
          product_name = lic.product_name;
          status_raw = lic.status;
          reg_date = lic.reg_date;
          next_due_date = lic.next_due_date;
          force = false;
        }))
        (λ e. write lib 400 (fault e)) (λ created. write lib 201 (license created))

  -- `body` is what the decoder reads, where `none` is an error.
  unfoldable pub handle_add_license : Moment → Option Text → Handler lib
  handle_add_license m none = add_decoded m none
  handle_add_license m (some body) = add_decoded m (json.license body)

  unfoldable pub handle_delete_license : Text → Handler lib
  handle_delete_license key =
      attempt_world lib (Api.remove_license codec key) (λ e. write lib 500 (fault e))
        (λ removed. if_found lib removed (bytes "license not found") (write lib 204 empty))

  unfoldable pub handle_list_servers : Handler lib
  handle_list_servers =
      attempt_world lib (Api.list_servers codec) (λ e. write lib 500 (fault e))
        (λ ss. write lib 200 (servers ss))

  unfoldable pub set_server_status : Text → Status → Handler lib
  set_server_status id s =
      attempt_world lib (Api.set_server_status codec id s) (λ e. write lib 500 (fault e))
        (λ found.
          if_found lib found (bytes "host not found")
            (write lib 200 (fields ((bytes "serverid", id) ∷ (bytes "status", s) ∷ []))))

  unfoldable pub handle_approve_server : Text → Handler lib
  unfolding set_server_status
  handle_approve_server id = set_server_status id approved

  unfoldable pub handle_block_server : Text → Handler lib
  unfolding set_server_status
  handle_block_server id = set_server_status id blocked

  unfoldable pub handle_delete_server : Text → Handler lib
  handle_delete_server id =
      attempt_world lib (Api.remove_server codec id) (λ e. write lib 500 (fault e))
        (λ removed. if_found lib removed (bytes "host not found") (write lib 204 empty))
