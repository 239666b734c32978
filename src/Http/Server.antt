-- ===== src/Http/Server.antt =====
-- internal/transport/httpapi: the server, what it receives and answers, and what its handlers share.
--
-- A handler is a function from a server to its reply and the server that is left. Headers other
-- than Replay-Nonce, and the log, are not modelled.
use proxmox_license_proxy.Prelude.{
  ℕ, Text, bytes, equal, Bool, Option, none, some, List, [], ◌++◌, if◌then◌else◌,
}
use proxmox_license_proxy.Result.{Error, Result, ok, err}
use proxmox_license_proxy.Exec.{Exec}
use proxmox_license_proxy.Subscription.Status.{Status}
use proxmox_license_proxy.Subscription.Model.{License, Server, Account}
use proxmox_license_proxy.Registry.Store.{Codec, World}
use proxmox_license_proxy.App.Service.{Clock, State, on_world}
use proxmox_license_proxy.Acme.Nonces.{NonceStore, Readings, issue}
use proxmox_license_proxy.Acme.Jws.{Jose}
use proxmox_license_proxy.Config.{Net, AutoApproveSettings}

-- The form of a check, as far as it is read.

pub record VerifyForm : Type 0 where
  pub license_key : Text
  pub dir : Text
  pub check_token : Text

-- `body` is what io.ReadAll gives and `form` what ParseForm gives, where `none` is an error; `param`
-- is the parameter in the path.
pub record Request : Type 0 where
  pub tls : Bool
  pub forwarded_proto : Text
  pub host : Text
  pub path : Text
  pub authorization : Text
  pub remote_addr : Text
  pub param : Text
  pub body : Option Text
  pub form : Option VerifyForm

-- The readings of the clock while a request is handled, and the nonce that is drawn for its answer.
-- `clock` has one reading for each call of the service.
pub record Moment : Type 0 where
  pub clock : ℕ → Clock
  pub used : ℕ
  pub readings : Readings
  pub draw : Option Text

pub record SubscriptionDto : Type 0 where
  pub product : Text
  pub key : Text
  pub status : Status
  pub product_name : Text
  pub next_due_date : Text

-- `problems` has the products whose order failed, with the errors; the source has a map, where a
-- later error for a product replaces an earlier one.
pub record OrderReply : Type 0 where
  pub server_id : Text
  pub status : Text
  pub subscriptions : List SubscriptionDto
  pub pending : List Text
  pub problems : List (Text × Error)

pub record StatusReply : Type 0 where
  pub ready : Bool
  pub licenses : ℕ
  pub servers : ℕ
  pub pending : ℕ

pub data Body : Type 0 where
  empty : Body
  -- A fixed message, or that of an error.
  message : Text → Body
  fault : Error → Body
  -- A JSON object of strings.
  fields : List (Text × Text) → Body
  order : OrderReply → Body
  subscriptions : List SubscriptionDto → Body
  license : License → Body
  licenses : List License → Body
  servers : List Server → Body
  accounts : List Account → Body
  status : StatusReply → Body
  xml : Text → Body
  pem : Text → Body

-- `nonce` is the header Replay-Nonce.
pub record Reply : Type 0 where
  pub code : ℕ
  pub nonce : Option Text
  pub body : Body

pub record NewAccountReq : Type 0 where
  pub contact : Text
  pub server_id : Text

pub record NewOrderReq : Type 0 where
  pub server_id : Text
  pub products : List Text
  pub level : Text
  pub sockets : Text

-- encoding/json on the bodies of requests, where `none` is an error. Of a new-account request the
-- code ignores the error, so that there is always something in the struct.
pub record Json : Type 0 where
  pub new_account_req : Text → NewAccountReq
  pub new_order_req : Text → Option NewOrderReq
  pub revoke_req : Text → Option Text
  pub license : Text → Option License

-- The libraries that the server calls.
pub record Library : Type 1 where
  pub codec : Codec
  pub jose : Jose
  pub net : Net
  pub json : Json
  -- The digest of crypto/md5 in hexadecimal.
  pub md5_hex : Text → Text

-- What the handlers read of the settings.
pub record Options (net : Net) : Type 0 where
  pub auto_approve : AutoApproveSettings net
  pub admin_token : Text

module _ (lib : Library) where
  open lib use {codec}

  abbrev pub Content : Type 0
  Content = codec.Content

  pub record HttpServer : Type 0 where
    pub service : State Content
    pub nonces : NonceStore
    pub ready : Bool
    pub cert_pem : Text

  abbrev pub Handler : Type 0
  Handler = HttpServer → Reply × HttpServer

  -- A check in front of a handler: it may write a reply itself.
  pub data Checked (A : Type 0) : Type 0 where
    refused : Reply → Checked A
    passed : A → Checked A

  abbrev pub resume : {A : Type 0} → Checked A → HttpServer → (A → Handler) → Reply × HttpServer
  resume (refused r) s next = (r, s)
  resume (passed a) s next = next a s

  -- A call of the service, with what is done about an error and about a value.
  abbrev pub answered : {A : Type 0} → Result A → (Error → Handler) → (A → Handler) → Handler
  answered (err e) failed next = failed e
  answered (ok a) failed next = next a

  abbrev pub attempt :
      {A : Type 0} → Exec (State Content) A → (Error → Handler) → (A → Handler) → Handler
  attempt m failed next s =
      let (r, service) = m s.service in answered r failed next (record s { service = service })

  abbrev pub attempt_world :
      {A : Type 0} → Exec (World Content) A → (Error → Handler) → (A → Handler) → Handler
  attempt_world m = attempt (on_world codec m)

  -- `writeJSON` and `nethttp.Error`, which send no nonce.
  abbrev pub write : ℕ → Body → Handler
  write code body s = (record { code = code; nonce = none; body = body }, s)

  -- `freshNonce`, and then the answer.
  unfoldable pub write_fresh : Moment → ℕ → Body → Handler
  write_fresh m code body s =
      let (nonce, nonces) = issue m.readings m.draw s.nonces in
      (record { code = code; nonce = nonce; body = body }, record s { nonces = nonces })

  -- `problem`
  abbrev pub problem : Moment → ℕ → Body → Handler
  problem = write_fresh

  -- `baseURL`
  unfoldable pub base_url : Request → Text
  base_url r =
      let scheme = if r.tls then bytes "https" else bytes "http" in
      (if equal r.forwarded_proto [] then scheme else r.forwarded_proto) ++ (bytes "://" ++ r.host)

  -- `clientAddr`
  unfoldable pub client_addr : Text → lib.net.Addr
  client_addr remote =
      let host : Text = elim (lib.net.split_host remote) [ none ↦ remote | some h ↦ h ] in
      elim (lib.net.parse_addr host) [ none ↦ lib.net.no_addr | some a ↦ lib.net.unmap a ]
