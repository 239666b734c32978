-- ===== src/Tests/Clients.antt =====
-- The host of a client and its calls.
use proxmox_license_proxy.Prelude.{
  Text, bytes, equal, equal_iff, Bool, true, false, ◌&&◌, if◌then◌else◌, none, some, List, [], ◌∷◌,
  ◌≡◌, refl, arith,
}
use proxmox_license_proxy.Result.{ok}
use proxmox_license_proxy.Subscription.Key.{known_level, level_name}
use proxmox_license_proxy.Registry.Keyed.{find}
use proxmox_license_proxy.Registry.Operations.{get_account}
use proxmox_license_proxy.Registry.Store.{written, parse_file}
use proxmox_license_proxy.Acme.Nonces.{consume}
use proxmox_license_proxy.Acme.Jws.{Jose, Jws, jwk_from_ed25519, thumbprint, sign_request}
use proxmox_license_proxy.Http.Server.{Library, HttpServer, base_url}
use proxmox_license_proxy.Exec.{pure, lift, ◌>>=◌}
use proxmox_license_proxy.Client.Acme.Posted.{Posted, post-Posted}
use proxmox_license_proxy.Client.Acme.{
  Session, post, post_signed, exchange, AcmeClient, endpoint, signed_request,
}
use proxmox_license_proxy.Client.Messages.{Transport, text, ClientJson}
use proxmox_license_proxy.Client.Acme.Accepted.{
  Owns, IsRegistered, by_account, Delivered, Accepted, signed_request-Accepted,
}
use proxmox_license_proxy.Client.AccountKey.{
  ed25519, KeyCodec, KeyCalls, KeyRoundTrips, load_or_create_account_key,
  load_or_create_account_key_again,
}
use proxmox_license_proxy.Client.Detect.Tiers.{TierKey, pve_socket_tier-TierKey}
use proxmox_license_proxy.Tests.Remote

pve_socket_tier-TierKey_example : TierKey 3 (bytes "c") 1 2 3 4
unfolding known_level level_name equal
pve_socket_tier-TierKey_example = pve_socket_tier-TierKey 3 (bytes "c") 1 2 3 4 refl

abbrev plain_codec : KeyCodec
plain_codec = record {
  pem_decode = λ t. some t;
  pem_encode = λ t. t;
  parse = λ t. some (ed25519 t);
  marshal = λ t. some t;
}

plain_codec-KeyRoundTrips : KeyRoundTrips plain_codec
plain_codec-KeyRoundTrips = record { block = λ der. refl; key = λ k der e. ground arith }

abbrev unread : KeyCalls
unread = record { read = false; drawn = some (bytes "K2"); mkdir = true; write = written }

abbrev reads : KeyCalls
reads = record unread { read = true }

load_or_create_account_key_again_example :
    load_or_create_account_key plain_codec reads (some (bytes "K2"))
    ≡ (ok (bytes "K2"), some (bytes "K2"))
unfolding load_or_create_account_key
load_or_create_account_key_again_example =
    load_or_create_account_key_again plain_codec plain_codec-KeyRoundTrips unread reads none
      (some (bytes "K2")) (bytes "K2") refl refl

-- The account id of every key is that of the account in the registry.
abbrev jose : Jose
jose = record Remote.jose { sha256 = λ t. bytes "T1" }

abbrev library : Library
library = record Remote.library { jose = jose }

abbrev client : AcmeClient
client = record {
  base = bytes "http://proxy";
  priv = bytes "private";
  jwk = jwk_from_ed25519 jose Remote.public_key;
  kid = bytes "T1";
  dir = (bytes "revoke", bytes "http://proxy/revoke") ∷ [];
  nonce = bytes "N1";
}

client-Owns : Owns jose Remote.public_key client
unfolding thumbprint
client-Owns = record {
  pair = record {
    decoded = Remote.pair.decoded;
    empty = Remote.pair.empty;
    header_read = Remote.pair.header_read;
    verifies = Remote.pair.verifies;
  };
  size = refl;
  jwk = refl;
  kid = refl;
}

abbrev is_request : Jws → Bool
is_request j =
    equal j.protected (bytes "h") && (equal j.payload Remote.key && equal j.signature (bytes "s"))

abbrev client_json : ClientJson
client_json = record {
  marshal = λ fs. some Remote.key;
  marshal_jws = λ j. if is_request j then some (bytes "request") else none;
  directory = λ t. none;
  account_result = λ t. none;
  order_result = λ t. none;
}

abbrev server : HttpServer library
server = record {
  service = Remote.server.service;
  nonces = Remote.server.nonces;
  ready = true;
  cert_pem = [];
}

is_request-eq : (j : Jws) → is_request j ≡ true → Remote.request_jws ≡ j
is_request-eq j e = ground (
  arith,
  equal_iff j.protected (bytes "h"),
  equal_iff j.payload Remote.key,
  equal_iff j.signature (bytes "s"),
)

delivered :
    Delivered library Remote.moment Remote.request client_json Remote.public_key client server
      (bytes "revoke")
      (bytes "request")
unfolding endpoint base_url consume find equal
delivered = record {
  body = refl;
  url = refl;
  fresh = refl;
  read = λ j e. ground (arith, is_request-eq j);
}

signer-IsRegistered :
    IsRegistered library.codec jose Remote.public_key (bytes "T1") server.service.world
unfolding get_account parse_file find equal
signer-IsRegistered = record {
  registry = _;
  account = Remote.signer;
  readable = refl;
  found = refl;
  known = refl;
  same_key = refl;
  given = ground arith;
}

signed_request-Accepted_example :
    Accepted library Remote.moment Remote.request client_json Remote.public_key client server
      client-Owns
      (bytes "revoke")
      (some Remote.key)
      false
unfolding signed_request sign_request equal endpoint
signed_request-Accepted_example =
    signed_request-Accepted library Remote.moment Remote.request client_json Remote.public_key
      client server client-Owns (bytes "revoke") (some Remote.key) false (bytes "request") refl
      (by_account signer-IsRegistered) delivered

abbrev transport : Transport (List Text)
transport = record {
  get = λ url sent. (some (record { code = 200; nonce = bytes "N3"; body = [] }), sent);
  post = λ url raw sent. (some (record { code = 200; nonce = bytes "N2"; body = [] }), raw ∷ sent);
}

abbrev session : Session (List Text)
session = record { client = client; net = [] }

abbrev answered : Session (List Text)
answered = record { client = record client { nonce = bytes "N2" }; net = bytes "request" ∷ [] }

post-Posted_example :
    Posted jose client_json transport
      (bytes "revoke")
      (some ((bytes "key", text Remote.key) ∷ []))
      false
      tt
      none
      session
      answered
      tt
unfolding post post_signed exchange signed_request sign_request equal endpoint ◌>>=◌ lift pure
post-Posted_example =
    post-Posted jose client_json transport (bytes "revoke")
      (some ((bytes "key", text Remote.key) ∷ [])) false tt none session answered tt refl
