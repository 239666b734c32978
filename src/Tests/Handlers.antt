-- ===== src/Tests/Handlers.antt =====
-- The theorems on the handlers at a server with a signed request.
use proxmox_license_proxy.Prelude.{
  bytes, equal, none, some, List, [], ◌∷◌, ◌≡◌, ◌≢◌, ◌⊎◌, refl, arith,
}
use proxmox_license_proxy.Exec.{lift, ◌>>=◌}
use proxmox_license_proxy.Registry.Keyed.{find, remove}
use proxmox_license_proxy.Registry.Operations.{get_account}
use proxmox_license_proxy.Registry.Store.{parse_file, load, reading}
use proxmox_license_proxy.Registry.Store.Reliable.{Ready}
use proxmox_license_proxy.Registry.Api
use proxmox_license_proxy.Acme.Nonces.{consume}
use proxmox_license_proxy.Acme.Nonces.Single.{Event, issues, run}
use proxmox_license_proxy.Acme.Jws.{
  Verified, read_header, check_signature, resolved, key_of_header, jwk_ed25519, verify,
}
use proxmox_license_proxy.Http.Server.{Request, HttpServer, NewOrderReq, passed, base_url}
use proxmox_license_proxy.Http.Guards.{resolve_key, check_url, check_nonce, verify_jws}
use proxmox_license_proxy.Http.Admin.{approve_host, admin, admin_action}
use proxmox_license_proxy.Http.Admin.Guarded.{HasToken, IsRefused, admin-Guarded}
use proxmox_license_proxy.Http.Client.{place_order, revoke}
use proxmox_license_proxy.Http.Client.Passing.{Passed, verify_jws-Passed}
use proxmox_license_proxy.Http.Client.Replay.{replay_refused}
use proxmox_license_proxy.Http.Client.Orders.{Ordered, place_order-Ordered}
use proxmox_license_proxy.Http.Client.Revocation.{Revoked, revoke-Revoked}
use proxmox_license_proxy.Http.Management.Unguarded.{IsOpen, management-IsOpen}
use proxmox_license_proxy.Tests.Fixtures.{
  memory_codec, memory_codec-RoundTrips, memory_codec-Encodes, host, held, registry,
}
use proxmox_license_proxy.Tests.Remote.{
  header, key, library, options, signer, server, request, moment,
}

abbrev verified : Verified
verified = record { header = header; payload = key; jwk = none; thumbprint = bytes "T1" }

abbrev checked : HttpServer library
checked = record server { nonces = record server.nonces { issued = [] } }

request_passes : verify_jws library moment request server ≡ (passed verified, checked)
unfolding verify_jws check_url check_nonce consume remove base_url verify read_header
    check_signature resolved key_of_header jwk_ed25519 resolve_key equal Api.get_account reading
    load find get_account parse_file lift ◌>>=◌
request_passes = refl

verify_jws-Passed_example : Passed library moment request server checked verified
verify_jws-Passed_example =
    verify_jws-Passed library moment request server checked verified request_passes

abbrev between : List Event
between = issues moment.readings (some (bytes "N2")) ∷ []

abbrev next_server : HttpServer library
next_server = record checked { nonces = run between checked.nonces }

-- The same request once more, behind a nonce for another one.
replay_refused_example : verify_jws library moment request next_server ≢ (passed verified, checked)
unfolding equal
replay_refused_example =
    replay_refused library moment moment request request server checked next_server checked verified
      verified between request_passes refl refl refl

admin-Guarded_example :
    (HasToken library options request
      × (admin library approve_host options request server
          ≡ admin_action library approve_host (bytes "H1") server))
    ⊎ ((HasToken library options request → ⊥)
        × IsRefused library options server
            (admin library approve_host options request server).1
            (admin library approve_host options request server).0)
admin-Guarded_example = admin-Guarded library options approve_host request server

abbrev wanted : NewOrderReq
wanted = record {
  server_id = bytes "H1";
  products = bytes "pbs" ∷ bytes "pve" ∷ [];
  level = bytes "c";
  sockets = bytes "1";
}

place_order-Ordered_example :
    Ordered library moment verified wanted server
      (place_order library moment verified (some wanted) server).1
      (place_order library moment verified (some wanted) server).0
place_order-Ordered_example =
    place_order-Ordered library moment verified wanted server memory_codec-RoundTrips (ground arith)
      (ground arith)

revoke-Revoked_example :
    ((revoke library moment request server).1.service.world.disk.main
      ≡ server.service.world.disk.main)
    ⊎ Revoked library moment request server (revoke library moment request server).1.service.world
revoke-Revoked_example = revoke-Revoked library moment request server

abbrev stranger : Request
stranger = record request { authorization = [] }

stranger-HasToken : ¬ HasToken library options stranger
stranger-HasToken (given, shown) = ground (arith, shown)

server-Ready : Ready memory_codec server.service.world (record registry { accounts = signer ∷ [] })
unfolding parse_file
server-Ready = record { reliable = tt; found = refl }

management-IsOpen_example : IsOpen library options stranger server (bytes "H1") held.key host
unfolding find equal
management-IsOpen_example =
    management-IsOpen library options memory_codec-RoundTrips memory_codec-Encodes server
      (record registry { accounts = signer ∷ [] }) server-Ready stranger (bytes "H1") held.key host
      held stranger-HasToken refl refl
