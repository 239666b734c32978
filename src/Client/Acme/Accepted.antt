-- ===== src/Client/Acme/Accepted.antt =====
-- What the client sends passes the check of the server.
use proxmox_license_proxy.Prelude.{
  Text, equal, equal_iff, equal_refl, Bool, true, false, Option, some, Option-cases, [], ◌++◌,
  length, ◌≡◌, ◌≢◌, refl, ap, ◌∙◌, inl, inr, arith,
}
use proxmox_license_proxy.Result.{ok, Result-cases}
use proxmox_license_proxy.Subscription.Model.{Account, Registry}
use proxmox_license_proxy.Registry.Operations.{get_account}
use proxmox_license_proxy.Registry.Store.{World, Codec, first_calls}
use proxmox_license_proxy.Registry.Store.Commit.{view}
use proxmox_license_proxy.Registry.Store.Reading.{reading_serves}
use proxmox_license_proxy.Registry.Api
use proxmox_license_proxy.Acme.Nonces.{consume}
use proxmox_license_proxy.Acme.Jws
use proxmox_license_proxy.Acme.Jws.{
  Jose, Jwk, Jws, Verified, ProtectedHeader, jwk_from_ed25519, jwk_ed25519, thumbprint, resolved,
  key_of_header, sign_request,
}
use proxmox_license_proxy.Acme.Jws.Signing.{KeyPair, received, verify-sign_request}
use proxmox_license_proxy.Http.Server.{
  Request, Moment, Library, Content, HttpServer, passed, base_url,
}
use proxmox_license_proxy.Http.Guards.{resolve_key, check_nonce, check_url, verify_jws}
use proxmox_license_proxy.Client.Acme.{AcmeClient, endpoint, header_of, signed_request}
use proxmox_license_proxy.Client.Messages.{ClientJson}

module _ (jose : Jose) (json : ClientJson) (name : Text) (body : Option Text) (use_jwk : Bool)
    (c : AcmeClient) (raw : Text) where
  record Sent : Type 0 where
    pub jws : Jws
    pub signed : sign_request jose c.priv (header_of c name use_jwk) body ≡ ok jws
    pub encoded : json.marshal_jws jws ≡ some raw

  signed_request-Sent : signed_request jose json name body use_jwk c ≡ ok raw → Sent
  unfolding signed_request
  signed_request-Sent h =
      elim (Result-cases (sign_request jose c.priv (header_of c name use_jwk) body)) [
        | inl (e, failed) ↦ absurd (ground arith)
        | inr (j, signed) ↦ elim (Option-cases (json.marshal_jws j)) [
          | inl failed ↦ absurd (ground arith)
          | inr (t, encoded) ↦ record { jws = j; signed = signed; encoded = ground arith }
        ]
      ]

header_of-nonce : (c : AcmeClient) (name : Text) (b : Bool) → (header_of c name b).nonce ≡ c.nonce
header_of-nonce c name true = refl
header_of-nonce c name false = refl

header_of-url :
    (c : AcmeClient) (name : Text) (b : Bool) → (header_of c name b).url ≡ endpoint c name
header_of-url c name true = refl
header_of-url c name false = refl

-- A key pair of the right size.
jwk_ed25519-jwk_from_ed25519 :
    (jose : Jose) (key pub_key : Text)
    → KeyPair jose key pub_key
    → length pub_key ≡ 32
    → jwk_ed25519 jose (jwk_from_ed25519 jose pub_key) ≡ ok pub_key
unfolding jwk_ed25519 jwk_from_ed25519 equal
jwk_ed25519-jwk_from_ed25519 jose key pub_key pair size = ground (arith, pair.decoded pub_key)

-- The client holds this key, and its account id is that of the key.
pub record Owns (jose : Jose) (pub_key : Text) (c : AcmeClient) : Type 0 where
  pub pair : KeyPair jose c.priv pub_key
  pub size : length pub_key ≡ 32
  pub jwk : c.jwk ≡ jwk_from_ed25519 jose pub_key
  pub kid : c.kid ≡ thumbprint jose c.jwk

-- The registry file can be read, and holds an account with the key of the client.
pub record IsRegistered (codec : Codec) (jose : Jose) (pub_key kid : Text) (w : World codec.Content)
    : Type 0 where
  pub registry : Registry
  pub account : Account
  pub readable : (first_calls w.calls).read ≡ true
  pub found : view codec w ≡ ok registry
  pub known : get_account kid registry ≡ some account
  pub same_key : account.public_key ≡ jose.encode pub_key
  pub given : kid ≢ []

-- A request names its key: by embedding it, or by the id of an account that is registered.
pub data NamesKey (lib : Library) (pub_key : Text) (c : AcmeClient) (w : World (Content lib))
    : Bool → Type 0 where
  embedded : NamesKey lib pub_key c w true
  by_account : IsRegistered lib.codec lib.jose pub_key c.kid w → NamesKey lib pub_key c w false

module _ (lib : Library) (pub_key : Text) (c : AcmeClient) (owns : Owns lib.jose pub_key c)
    (w : World (Content lib)) where
  open lib use {codec, jose}

  own_key : jwk_ed25519 jose c.jwk ≡ ok pub_key
  own_key =
      ap (jwk_ed25519 jose) owns.jwk
      ∙ jwk_ed25519-jwk_from_ed25519 jose c.priv pub_key owns.pair owns.size

  resolve_key-IsRegistered :
      IsRegistered codec jose pub_key c.kid w → (resolve_key lib c.kid w).0 ≡ some pub_key
  unfolding resolve_key Api.get_account jwk_from_ed25519
  resolve_key-IsRegistered r = ground (
    arith,
    reading_serves codec (get_account c.kid) w r.registry r.readable r.found,
    r.known,
    r.same_key,
    jwk_ed25519-jwk_from_ed25519 jose c.priv pub_key owns.pair owns.size,
  )

  record Named (jwk : Option Jwk) (kid : Text) : Type 0 where
    pub left : World (Content lib)
    pub key : key_of_header jose (resolve_key lib) jwk kid w ≡ (ok (pub_key, c.kid), left)

  key_of_header-Named :
      (name : Text) (use_jwk : Bool)
      → NamesKey lib pub_key c w use_jwk
      → Named (header_of c name use_jwk).jwk (header_of c name use_jwk).kid
  unfolding key_of_header resolved
  key_of_header-Named name true embedded = record {
    left = w;
    key = ground (arith, own_key, owns.kid, equal_refl []);
  }
  key_of_header-Named name false (by_account r) = record {
    left = (resolve_key lib c.kid w).1;
    key = ground (arith, resolve_key-IsRegistered r, equal_iff c.kid [], r.given);
  }

module _ (lib : Library) (m : Moment) (r : Request) (json : ClientJson) (pub_key : Text)
    (c : AcmeClient) (s : HttpServer lib) where
  open lib use {jose}

  -- The request is for an endpoint of the client, with the body that it sends and a nonce that the
  -- server accepts.
  pub record Delivered (name raw : Text) : Type 0 where
    pub body : r.body ≡ some raw
    pub url : endpoint c name ≡ base_url lib r ++ r.path
    pub fresh : (consume m.used c.nonce s.nonces).0 ≡ true
    -- encoding/json reads what it wrote.
    pub read : (j : Jws) → json.marshal_jws j ≡ some raw → jose.unmarshal_jws raw ≡ some j

  pub record Accepted (owns : Owns jose pub_key c) (name : Text) (body : Option Text)
      (use_jwk : Bool) : Type 0 where
    pub left : HttpServer lib
    pub accepted : verify_jws lib m r s ≡ (
      passed (received jose c.priv pub_key owns.pair (header_of c name use_jwk) body c.kid),
      left,
    )

  verified-Accepted :
      (owns : Owns jose pub_key c) (name : Text) (body : Option Text) (use_jwk : Bool) (raw : Text)
      (w : World (Content lib))
      → Delivered name raw
      → Jws.verify jose (resolve_key lib) raw s.service.world
        ≡ (ok (received jose c.priv pub_key owns.pair (header_of c name use_jwk) body c.kid), w)
      → Accepted owns name body use_jwk
  unfolding verify_jws check_url check_nonce
  verified-Accepted owns name body use_jwk raw w d ran = record {
    left = record s {
      service = record s.service { world = w };
      nonces = (consume m.used c.nonce s.nonces).1;
    };
    accepted = ground (
      arith,
      ran,
      d.body,
      d.url,
      d.fresh,
      equal_refl (endpoint c name),
      header_of-nonce c name use_jwk,
      header_of-url c name use_jwk,
    );
  }

  -- A request that the client signs for one of its endpoints passes the check of the server, where
  -- it embeds the key of the client or the account of the client is registered with it, its nonce is
  -- one that the server accepts, and it arrives at the url of the endpoint. The server takes it as
  -- one of the account of the client and gets the body that was signed.
  pub signed_request-Accepted :
      (owns : Owns jose pub_key c) (name : Text) (body : Option Text) (use_jwk : Bool) (raw : Text)
      → signed_request jose json name body use_jwk c ≡ ok raw
      → NamesKey lib pub_key c s.service.world use_jwk
      → Delivered name raw
      → Accepted owns name body use_jwk
  signed_request-Accepted owns name body use_jwk raw signed names d =
      let sent = signed_request-Sent jose json name body use_jwk c raw signed in
      let named = key_of_header-Named lib pub_key c owns s.service.world name use_jwk names in
      verified-Accepted owns name body use_jwk raw named.left d (
        verify-sign_request jose c.priv pub_key owns.pair (resolve_key lib)
          (header_of c name use_jwk) body c.kid raw s.service.world named.left sent.jws sent.signed
          (d.read sent.jws sent.encoded) named.key)
