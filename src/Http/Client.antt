-- ===== src/Http/Client.antt =====
-- internal/transport/httpapi/apiv1.go: the endpoints of the clients, which check a signed request.
pub mod Passing
pub mod Replay
pub mod Tallies
pub mod Orders
pub mod Revocation
use proxmox_license_proxy.Prelude.{
  ℕ, suc, ltb, true, false, Text, bytes, equal, not, ◌||◌, Bool, Option, none, some, List, [], ◌∷◌,
  ◌++◌, length, if◌then◌else◌,
}
use proxmox_license_proxy.Result.{Error, Result, ok, err, account_not_approved}
use proxmox_license_proxy.Subscription.Status.{revoked}
use proxmox_license_proxy.Subscription.Model.{License, Account}
use proxmox_license_proxy.Registry.Api
use proxmox_license_proxy.App.Service
use proxmox_license_proxy.App.Service.{State}
use proxmox_license_proxy.Acme.Jws.{Jwk, Verified}
use proxmox_license_proxy.Config.{allows}
use proxmox_license_proxy.Http.Server.{
  Request, Moment, SubscriptionDto, OrderReply, message, fault, fields, order, subscriptions, empty,
  NewAccountReq, NewOrderReq, Library, Options, Content, HttpServer, Handler, resume, attempt,
  attempt_world, write, write_fresh, problem, base_url, client_addr,
}
use proxmox_license_proxy.Http.Guards.{verify_jws}

abbrev pub dto_of : License → SubscriptionDto
dto_of l = record {
  product = l.product;
  key = l.key;
  status = l.status;
  product_name = l.product_name;
  next_due_date = l.next_due_date;
}

-- The subscriptions of an account among those of the registry.
unfoldable pub own_subscriptions : Text → List License → List SubscriptionDto
own_subscriptions thumbprint [] = []
own_subscriptions thumbprint (l ∷ ls) =
    let rest = own_subscriptions thumbprint ls in
    if equal l.account thumbprint then dto_of l ∷ rest else rest

-- What the orders of the products come to.
pub record Tally : Type 0 where
  pub issued : List SubscriptionDto
  pub pending : List Text
  pub problems : List (Text × Error)

unfoldable pub is_pending : Error → Bool
is_pending account_not_approved = true
is_pending _ = false

abbrev pub tally_one : Text → Result License → Tally → Tally
tally_one product (ok lic) t = record t { issued = dto_of lic ∷ t.issued }
tally_one product (err e) t =
    if is_pending e
    then record t { pending = product ∷ t.pending }
    else record t { problems = (product, e) ∷ t.problems }

abbrev pub tally : List (Text × Result License) → Tally
tally [] = record { issued = []; pending = []; problems = [] }
tally ((product, r) ∷ rs) = tally_one product r (tally rs)

-- `len(issued) == 0 || len(pending) > 0 || len(problems) > 0`
unfoldable pub order_status : Tally → Text
order_status t =
    if ltb (length t.issued) 1 || ltb 0 (length t.pending) || ltb 0 (length t.problems)
    then bytes "pending"
    else bytes "valid"

module _ (lib : Library) where
  open lib use {codec, json}

  -- `v1Directory`
  unfoldable pub directory : Request → Handler lib
  directory r =
      let base = base_url lib r ++ bytes "/api/v1" in
      write lib 200 (
        fields (
          (bytes "newNonce", base ++ bytes "/new-nonce")
          ∷ (bytes "newAccount", base ++ bytes "/new-account")
          ∷ (bytes "newOrder", base ++ bytes "/new-order")
          ∷ (bytes "subscriptions", base ++ bytes "/subscriptions")
          ∷ (bytes "revoke", base ++ bytes "/revoke")
          ∷ []))

  unfoldable pub new_nonce : Moment → Handler lib
  new_nonce m = write_fresh lib m 204 empty

  abbrev account_fields : Account → List (Text × Text)
  account_fields acc =
      (bytes "thumbprint", acc.thumbprint)
      ∷ (bytes "serverid", acc.server_id)
      ∷ (bytes "status", acc.status)
      ∷ []

  -- `v1NewAccount` behind the check of the request.
  unfoldable pub register_key :
      Options lib.net → Moment → Request → Verified → Option Jwk → Handler lib
  register_key options m r v none =
      problem lib m 400 (message (bytes "new-account must embed the account key (jwk)"))
  register_key options m r v (some jwk) =
      let req = json.new_account_req v.payload in
      attempt_world lib
        (Service.register_account codec (m.clock 0).now v.thumbprint jwk.x req.server_id req.contact
          (allows lib.net options.auto_approve (client_addr lib r.remote_addr)))
        (λ e. problem lib m 400 (fault e))
        (λ acc. write_fresh lib m 201 (fields (account_fields acc)))

  unfoldable pub new_account : Options lib.net → Moment → Request → Handler lib
  new_account options m r s =
      let (checked, s') = verify_jws lib m r s in
      resume lib checked s' λ v. register_key options m r v v.jwk

  -- The loop over the products; the n-th order reads the clock anew.
  unfoldable pub issue_all :
      Moment
      → Text
      → NewOrderReq
      → ℕ
      → List Text
      → State (Content lib)
      → List (Text × Result License) × State (Content lib)
  issue_all m thumbprint req n [] s = ([], s)
  issue_all m thumbprint req n (product ∷ products) s =
      let (r, s') =
        Service.issue_subscription codec (m.clock n)
          (record {
            thumbprint = thumbprint;
            server_id = req.server_id;
            product = product;
            level = req.level;
            sockets = req.sockets;
          })
          s in
      let (rs, s'') = issue_all m thumbprint req (suc n) products s' in ((product, r) ∷ rs, s'')

  abbrev pub order_reply : NewOrderReq → Tally → OrderReply
  order_reply req t = record {
    server_id = req.server_id;
    status = order_status t;
    subscriptions = t.issued;
    pending = t.pending;
    problems = t.problems;
  }

  -- `v1NewOrder` behind the check of the request.
  unfoldable pub place_order : Moment → Verified → Option NewOrderReq → Handler lib
  place_order m v none s = problem lib m 400 (message (bytes "invalid order payload")) s
  place_order m v (some req) s =
      if equal req.server_id [] || ltb (length req.products) 1
      then problem lib m 400 (message (bytes "serverid and at least one product are required")) s
      else let (rs, service) = issue_all m v.thumbprint req 0 req.products s.service in
        write_fresh lib m 200 (order (order_reply req (tally rs))) (record s { service = service })

  unfoldable pub new_order : Moment → Request → Handler lib
  new_order m r s =
      let (checked, s') = verify_jws lib m r s in
      resume lib checked s' λ v. place_order m v (json.new_order_req v.payload)

  unfoldable pub list_subscriptions : Moment → Request → Handler lib
  list_subscriptions m r s =
      let (checked, s') = verify_jws lib m r s in
      resume lib checked s' λ v.
        attempt_world lib (Api.list_licenses codec) (λ e. problem lib m 500 (fault e))
          (λ all. write_fresh lib m 200 (subscriptions (own_subscriptions v.thumbprint all)))

  -- `found && lic.Account == v.Thumbprint`
  unfoldable pub owned_by : Text → Option License → Bool
  owned_by thumbprint none = false
  owned_by thumbprint (some lic) = equal lic.account thumbprint

  unfoldable pub revoke_owned : Moment → Text → Handler lib
  revoke_owned m key =
      attempt_world lib (Service.revoke_subscription codec key) (λ e. problem lib m 500 (fault e))
        (λ _. write_fresh lib m 200 (fields ((bytes "key", key) ∷ (bytes "status", revoked) ∷ [])))

  unfoldable pub revoke_found : Moment → Verified → Text → Option License → Handler lib
  unfolding revoke_owned
  revoke_found m v key found s =
      if not (owned_by v.thumbprint found)
      then problem lib m 403 (message (bytes "subscription not found for this account")) s
      else revoke_owned m key s

  -- `v1Revoke` behind the decoding of the key.
  unfoldable pub revoke_key : Moment → Verified → Text → Handler lib
  unfolding revoke_found
  revoke_key m v key =
      attempt_world lib (Api.get_license codec key) (λ e. problem lib m 500 (fault e))
        (revoke_found m v key)

  -- The key of the payload; an empty one is none.
  unfoldable pub requested_key : Text → Option Text
  requested_key payload = elim (json.revoke_req payload) [
    | none ↦ none
    | some key ↦ if equal key [] then none else some key
  ]

  abbrev pub revoke_requested : Moment → Verified → Option Text → Handler lib
  revoke_requested m v none = problem lib m 400 (message (bytes "key is required"))
  revoke_requested m v (some key) = revoke_key m v key

  unfoldable pub revoke : Moment → Request → Handler lib
  unfolding revoke_key requested_key
  revoke m r s =
      let (checked, s') = verify_jws lib m r s in
      resume lib checked s' λ v. revoke_requested m v (requested_key v.payload)
