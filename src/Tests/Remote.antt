-- ===== src/Tests/Remote.antt =====
-- Libraries that are small enough to run, and a server with a signed request.
use proxmox_license_proxy.Prelude.{
  Text, bytes, equal, equal_iff, equal_refl, ◌&&◌, ◌==◌, Bool, true, false, Option, none, some, [],
  ◌∷◌, ◌≡◌, refl, arith, if◌then◌else◌, ℕ,
}
use proxmox_license_proxy.Subscription.Model.{Account, Registry}
use proxmox_license_proxy.Subscription.Key.{drawn}
use proxmox_license_proxy.Registry.Store.{World}
use proxmox_license_proxy.Acme.Jws.{Jwk, ProtectedHeader, Jws, Jose}
use proxmox_license_proxy.Acme.Jws.Signing.{KeyPair}
use proxmox_license_proxy.Config.{Net}
use proxmox_license_proxy.Http.Server.{Request, Moment, Json, Library, Options, HttpServer}
use proxmox_license_proxy.Tests.Fixtures.{memory_codec, registry, account, clock}

abbrev pub header : ProtectedHeader
header = record {
  alg = bytes "EdDSA";
  nonce = bytes "N1";
  url = bytes "http://proxy/revoke";
  kid = bytes "T1";
  jwk = none;
}

abbrev is_none : Option Jwk → Bool
is_none none = true
is_none (some j) = false

-- The one header that this codec knows, as a text of one byte.
abbrev is_header : ProtectedHeader → Bool
is_header h =
    equal h.alg header.alg
    && equal h.nonce header.nonce
    && equal h.url header.url
    && equal h.kid header.kid
    && is_none h.jwk

abbrev pub key : Text
key = bytes "pve1c-1ab0000000"

abbrev pub request_jws : Jws
request_jws = record { protected = bytes "h"; payload = key; signature = bytes "s" }

abbrev pub jose : Jose
jose = record {
  encode = λ t. t;
  decode = λ t. some t;
  marshal_header = λ h. if is_header h then some (bytes "h") else none;
  unmarshal_header = λ t. if equal t (bytes "h") then some header else none;
  unmarshal_jws = λ t. if equal t (bytes "request") then some request_jws else none;
  sha256 = λ t. t;
  sign = λ k m. bytes "s";
  verify = λ k m s. equal s (bytes "s");
}

is_header-eq : (h : ProtectedHeader) → is_header h ≡ true → header ≡ h
is_header-eq h e = ground (
  arith,
  equal_iff h.alg header.alg,
  equal_iff h.nonce header.nonce,
  equal_iff h.url header.url,
  equal_iff h.kid header.kid,
)

abbrev pub public_key : Text
public_key = bytes "abcdefghijklmnopqrstuvwxyz012345"

pub pair : KeyPair jose (bytes "private") public_key
pair = record {
  decoded = λ t. refl;
  empty = refl;
  header_read = λ h content e. ground (arith, is_header-eq h, equal_refl (bytes "h"));
  verifies = λ m. equal_refl (bytes "s");
}

-- An address is a number; the network 10.0.0.0/8 has the one address 7.
abbrev pub net : Net
net = record {
  Addr = ℕ;
  Prefix = ℕ;
  no_addr = 0;
  is_valid = λ a. if a == 0 then false else true;
  unmap = λ a. a;
  parse_addr = λ t. some 7;
  parse_prefix = λ t. if equal t (bytes "10.0.0.0/8") then some 7 else none;
  masked = λ p. p;
  contains = λ p a. p == a;
  split_host = λ t. some t;
}

abbrev pub json : Json
json = record {
  new_account_req = λ t. record { contact = []; server_id = t };
  new_order_req =
      λ t. some (record { server_id = bytes "H1"; products = t ∷ []; level = []; sockets = [] });
  revoke_req = λ t. some t;
  license = λ t. none;
}

abbrev pub library : Library
library = record { codec = memory_codec; jose = jose; net = net; json = json; md5_hex = λ t. t }

abbrev pub options : Options net
options = record {
  auto_approve = record { enabled = true; networks = 7 ∷ [] };
  admin_token = bytes "secret";
}

abbrev pub signer : Account
signer = record account { public_key = public_key }

abbrev pub signed_world : World (Option Registry)
signed_world = record {
  disk = record {
    main = some (some (record registry { accounts = signer ∷ [] }));
    bak = none;
    tmp = none;
  };
  calls = [];
}

abbrev pub server : HttpServer library
server = record {
  service = record { world = signed_world; draws = drawn 1 2 3 4 ∷ [] };
  nonces = record { issued = record { nonce = bytes "N1"; expires = 100 } ∷ []; ttl = 10 };
  ready = true;
  cert_pem = [];
}

abbrev pub request : Request
request = record {
  tls = false;
  forwarded_proto = [];
  host = bytes "proxy";
  path = bytes "/revoke";
  authorization = bytes "Bearer secret";
  remote_addr = bytes "10.0.0.7";
  param = bytes "H1";
  body = some (bytes "request");
  form = none;
}

abbrev pub moment : Moment
moment = record {
  clock = λ n. clock;
  used = 50;
  readings = record { collected = 50; issued = 50 };
  draw = some (bytes "N2");
}
