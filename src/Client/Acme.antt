-- ===== src/Client/Acme.antt =====
-- internal/client/acmeclient.go: the calls of the proxy. A call runs over a Session, which is the
-- client with the state `S` of what is behind the network. The status code that `post` returns
-- beside its error is left out, since every caller drops it.
pub mod Accepted
pub mod Posted
use proxmox_license_proxy.Prelude.{
  ℕ, Text, bytes, equal, Bool, true, false, Option, none, some, List, [], ◌∷◌, ◌++◌, ltb, leb, ◌==◌,
  not, ◌||◌, if◌then◌else◌,
}
use proxmox_license_proxy.Result.{
  Result, ok, err, io_failed, no_nonce, not_encoded, not_decoded, replied,
}
use proxmox_license_proxy.Exec.{Exec, pure, fail, lift, ◌>>=◌, ◌>>◌}
use proxmox_license_proxy.Subscription.Status.{Status}
use proxmox_license_proxy.Acme.Jws.{
  Jose, Jwk, Jws, ProtectedHeader, jwk_from_ed25519, thumbprint, sign_request, or_error,
}
use proxmox_license_proxy.Client.Messages.{
  Response, Transport, AccountResult, OrderResult, Field, text, texts, ClientJson,
}

-- `dir` is the map of the endpoints; the HTTP client is a `Transport`.
pub record AcmeClient : Type 0 where
  pub base : Text
  pub priv : Text
  pub jwk : Jwk
  pub kid : Text
  pub dir : List (Text × Text)
  pub nonce : Text

-- The value of a key in a map.
abbrev pub entry_of : Text → List (Text × Text) → Option Text
entry_of name [] = none
entry_of name ((n, u) ∷ es) = let rest = entry_of name es in if equal n name then some u else rest

unfoldable pub endpoint : AcmeClient → Text → Text
endpoint c name = elim (entry_of name c.dir) [
  | none ↦ c.base ++ (bytes "/api/v1/" ++ name)
  | some u ↦ u
]

pub record Session (S : Type 0) : Type 0 where
  pub client : AcmeClient
  pub net : S

abbrev no_account : AccountResult
no_account = record { thumbprint = []; server_id = []; status = [] }

abbrev no_order : OrderResult
no_order = record { server_id = []; status = []; subscriptions = []; pending = []; problems = [] }

-- The header of a request, whose algorithm is set when it is signed.
abbrev pub header_of : AcmeClient → Text → Bool → ProtectedHeader
header_of c name true = record {
  alg = [];
  nonce = c.nonce;
  url = endpoint c name;
  kid = [];
  jwk = some c.jwk;
}
header_of c name false = record {
  alg = [];
  nonce = c.nonce;
  url = endpoint c name;
  kid = c.kid;
  jwk = none;
}

module _ (jose : Jose) (json : ClientJson) where
  -- `NewACMEClient`, with the public half of the key.
  unfoldable pub new_acme_client : Text → Text → Text → AcmeClient
  new_acme_client base priv pub_key =
      let jwk = jwk_from_ed25519 jose pub_key in
      record {
        base = base;
        priv = priv;
        jwk = jwk;
        kid = thumbprint jose jwk;
        dir = [];
        nonce = [];
      }

  -- The bytes of a payload, where there is one.
  abbrev pub body_of : Option (List (Text × Field)) → Result (Option Text)
  body_of none = ok none
  body_of (some fields) = elim (json.marshal fields) [
    | none ↦ err not_encoded
    | some b ↦ ok (some b)
  ]

  -- What `post` sends.
  unfoldable pub signed_request : Text → Option Text → Bool → AcmeClient → Result Text
  signed_request name body use_jwk c =
      elim (sign_request jose c.priv (header_of c name use_jwk) body) [
        | err e ↦ err e
        | ok j ↦ or_error not_encoded (json.marshal_jws j)
      ]

  module _ {S : Type 0} (transport : Transport S) where
    abbrev pub current : Exec (Session S) AcmeClient
    current s = (ok s.client, s)

    abbrev pub replied_get : Option Response → Session S → Result Response × Session S
    replied_get none s = (err io_failed, s)
    replied_get (some r) s = (ok r, s)

    abbrev pub get : Text → Exec (Session S) Response
    get url s = let (r, net) = transport.get url s.net in replied_get r (record s { net = net })

    abbrev pub send : Text → Text → Exec (Session S) Response
    send url raw s =
        let (r, net) = transport.post url raw s.net in replied_get r (record s { net = net })

    abbrev pub keep_nonce : Text → Exec (Session S) (Unit {0})
    keep_nonce nonce s = (ok tt, record s { client = record s.client { nonce = nonce } })

    abbrev pub keep_dir : List (Text × Text) → Exec (Session S) (Unit {0})
    keep_dir dir s = (ok tt, record s { client = record s.client { dir = dir } })

    -- `Directory`
    unfoldable pub directory : Exec (Session S) (Unit {0})
    directory = do
      c ← current
      r ← get (c.base ++ bytes "/api/v1/directory")
      if not (r.code == 200)
          then fail (replied r.code)
          else lift (or_error not_decoded (json.directory r.body)) >>= keep_dir

    -- `refreshNonce`
    unfoldable pub refresh_nonce : Exec (Session S) (Unit {0})
    refresh_nonce = do
      c ← current
      r ← get (endpoint c (bytes "newNonce"))
      keep_nonce r.nonce
      if equal r.nonce [] then fail no_nonce else pure tt

    abbrev pub ensure_nonce : Exec (Session S) (Unit {0})
    ensure_nonce = do c ← current; if equal c.nonce [] then refresh_nonce else pure tt

    -- What is made of a body: `out` decodes it into what holds `zero`, where there is something to
    -- decode into.
    abbrev pub decoded : {A : Type 0} → A → Option (Text → Option A) → Text → Result A
    decoded zero none content = ok zero
    decoded zero (some decode) content =
        if equal content [] then ok zero else or_error not_decoded (decode content)

    -- From `c.http.Post` to the end, for the bytes of a request.
    unfoldable pub exchange :
        {A : Type 0} → Text → Text → A → Option (Text → Option A) → Exec (Session S) A
    exchange url raw zero out = do
      r ← send url raw
      keep_nonce r.nonce
      if leb 400 r.code then fail (replied r.code) else lift (decoded zero out r.body)

    -- From the header of the request to the end, for a client that has a nonce.
    unfoldable pub post_signed :
        {A : Type 0}
        → Text
        → Option (List (Text × Field))
        → Bool
        → A
        → Option (Text → Option A)
        → AcmeClient
        → Exec (Session S) A
    post_signed name payload use_jwk zero out c = do
      body ← lift (body_of payload)
      raw ← lift (signed_request name body use_jwk c)
      exchange (endpoint c name) raw zero out

    -- `post`
    unfoldable pub post :
        {A : Type 0}
        → Text
        → Option (List (Text × Field))
        → Bool
        → A
        → Option (Text → Option A)
        → Exec (Session S) A
    post name payload use_jwk zero out = do
      ensure_nonce
      c ← current
      post_signed name payload use_jwk zero out c

    -- `Register`
    unfoldable pub register : Text → Text → Exec (Session S) AccountResult
    register server_id contact =
        post (bytes "newAccount")
          (some ((bytes "serverid", text server_id) ∷ (bytes "contact", text contact) ∷ [])) true
          no_account (some json.account_result)

    -- `Order`
    unfoldable pub order : Text → List Text → Text → Text → Exec (Session S) OrderResult
    order server_id products level sockets =
        post (bytes "newOrder")
          (some (
            (bytes "serverid", text server_id)
            ∷ (bytes "products", texts products)
            ∷ (bytes "level", text level)
            ∷ (bytes "sockets", text sockets)
            ∷ []))
          false no_order (some json.order_result)

    -- `Revoke`
    unfoldable pub revoke : Text → Exec (Session S) (Unit {0})
    revoke key = post (bytes "revoke") (some ((bytes "key", text key) ∷ [])) false tt none
