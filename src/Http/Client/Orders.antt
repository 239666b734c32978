-- ===== src/Http/Client/Orders.antt =====
-- What an order comes to.
use proxmox_license_proxy.Prelude.{
  ℕ, suc, Text, bytes, equal_iff, ltb, true, false, some, All, List, [], ◌∷◌, length, all, ◌≡◌, ◌≢◌,
  ◌⊎◌, inl, inr, refl, ap, arith,
}
use proxmox_license_proxy.Result.{Result, ok, err}
use proxmox_license_proxy.Subscription.Model.{License}
use proxmox_license_proxy.Registry.Store.Commit.{RoundTrips}
use proxmox_license_proxy.App.Service.{Clock, IssueInput, State, issue_subscription}
use proxmox_license_proxy.App.Service.Issue.{IsIssued, issue_subscription-IsIssued}
use proxmox_license_proxy.Acme.Jws.{Verified}
use proxmox_license_proxy.Http.Server.{
  Moment, NewOrderReq, Library, Content, HttpServer, Reply, OrderReply, order, write_fresh,
}
use proxmox_license_proxy.Http.Client.{tally, issue_all, order_reply, place_order}
use proxmox_license_proxy.Http.Client.Tallies.{is_issued, Listed, status-reads, tally-Listed}

nonempty : (ts : List Text) → ts ≢ [] → ltb (length ts) 1 ≡ false
nonempty [] h = absurd (h refl)
nonempty (t ∷ ts) h = ground arith

-- A license that was issued is of the account and of the product.
abbrev pub IsOwn : Text → Text × Result License → Type 0
IsOwn thumbprint (product, err e) = Unit
IsOwn thumbprint (product, ok lic) = (lic.account ≡ thumbprint) × (lic.product ≡ product)

module _ (lib : Library) (m : Moment) (v : Verified) (req : NewOrderReq) where
  open lib use {codec}

  abbrev order_of : Text → IssueInput
  order_of product = record {
    thumbprint = v.thumbprint;
    server_id = req.server_id;
    product = product;
    level = req.level;
    sockets = req.sockets;
  }

  abbrev pub results : ℕ → List Text → State (Content lib) → List (Text × Result License)
  results n products s = (issue_all lib m v.thumbprint req n products s).0

  results-length :
      (n : ℕ) (products : List Text) (s : State (Content lib))
      → length (results n products s) ≡ length products
  unfolding issue_all
  results-length n [] s = refl
  results-length n (p ∷ ps) s =
      let next = (issue_subscription codec (m.clock n) (order_of p) s).1 in
      ap suc (results-length (suc n) ps next)

  IsIssued-own :
      (clock : Clock) (p : Text) (s t : State (Content lib)) (lic : License)
      → IsIssued codec clock (order_of p) s t lic
      → (lic.account ≡ v.thumbprint) × (lic.product ≡ p)
  IsIssued-own clock p s t lic i = elim i.made [
    | inl u ↦ (u.owned, u.fits)
    | inr n ↦ (n.account, n.product)
  ]

  one-IsOwn :
      RoundTrips codec
      → (clock : Clock) (p : Text) (s t : State (Content lib)) (res : Result License)
      → issue_subscription codec clock (order_of p) s ≡ (res, t)
      → IsOwn v.thumbprint (p, res)
  one-IsOwn rt clock p s t (err e) h = tt
  one-IsOwn rt clock p s t (ok lic) h =
      IsIssued-own clock p s t lic (issue_subscription-IsIssued codec clock (order_of p) s rt h)

  results-IsOwn :
      RoundTrips codec
      → (n : ℕ) (products : List Text) (s : State (Content lib))
      → All (IsOwn v.thumbprint) (results n products s)
  unfolding issue_all
  results-IsOwn rt n [] s = tt
  results-IsOwn rt n (p ∷ ps) s =
      let one = issue_subscription codec (m.clock n) (order_of p) s in
      (one-IsOwn rt (m.clock n) p s one.1 one.0 refl, results-IsOwn rt (suc n) ps one.1)

  -- The orders of the products one after the other, each in the state that the last one left and with
  -- readings of the clock of its own.
  pub data InTurn
      : ℕ
        → List Text
        → State (Content lib)
        → List (Text × Result License)
        → State (Content lib)
        → Type 0 where
    no_more : (n : ℕ) (s : State (Content lib)) → InTurn n [] s [] s
    one_more :
        (n : ℕ) (p : Text) (ps : List Text) (s s' t : State (Content lib)) (r : Result License)
        (rs : List (Text × Result License))
        → issue_subscription codec (m.clock n) (order_of p) s ≡ (r, s')
        → InTurn (suc n) ps s' rs t
        → InTurn n (p ∷ ps) s ((p, r) ∷ rs) t

  issue_all-InTurn :
      (n : ℕ) (products : List Text) (s : State (Content lib))
      → InTurn n products s
          (issue_all lib m v.thumbprint req n products s).0
          (issue_all lib m v.thumbprint req n products s).1
  unfolding issue_all
  issue_all-InTurn n [] s = no_more n s
  issue_all-InTurn n (p ∷ ps) s =
      let one = issue_subscription codec (m.clock n) (order_of p) s in
      one_more n p ps s one.1 _ one.0 _ refl (issue_all-InTurn (suc n) ps one.1)

  -- The reply is made of one result for each product that was asked for.
  pub record Ordered (s t : HttpServer lib) (r : Reply) : Type 0 where
    pub results_of : List (Text × Result License)
    pub reply : OrderReply
    pub code : r.code ≡ 200
    pub body : r.body ≡ order reply
    pub in_turn : InTurn 0 req.products s.service results_of t.service
    pub own : All (IsOwn v.thumbprint) results_of
    pub server_id : reply.server_id ≡ req.server_id
    pub listed : Listed results_of reply.subscriptions reply.pending reply.problems
    pub status :
        ((reply.status ≡ bytes "valid") × (all is_issued results_of ≡ true))
        ⊎ ((reply.status ≡ bytes "pending") × (all is_issued results_of ≡ false))

  -- An order that names a host and a product runs IssueSubscription for each product in turn, and
  -- answers 200. Behind the id of the host, the reply shows the license of every product that was
  -- issued with its five fields, names every product that waits for the approval of the account, and
  -- keeps the error of every other one (before the map of the source merges those of one product),
  -- each list in the order of the products. Its status is "valid" where every product was issued and
  -- "pending" otherwise. Each license that was issued is of the account that signed and of the
  -- product that was asked for.
  pub place_order-Ordered :
      (s : HttpServer lib)
      → RoundTrips codec
      → req.server_id ≢ []
      → req.products ≢ []
      → Ordered s (place_order lib m v (some req) s).1 (place_order lib m v (some req) s).0
  unfolding place_order write_fresh
  place_order-Ordered s rt host some_product =
      let rs = results 0 req.products s.service in
      let given : length rs ≡ length req.products = results-length 0 req.products s.service in
      let named = equal_iff req.server_id [] in
      let many = nonempty req.products some_product in
      let left : (place_order lib m v (some req) s).1.service
          ≡ (issue_all lib m v.thumbprint req 0 req.products s.service).1 =
        ground (arith, named, many) in
      record {
        results_of = rs;
        reply = order_reply lib req (tally rs);
        code = ground (arith, named, many);
        body = ground (arith, named, many);
        in_turn = rw left (issue_all-InTurn 0 req.products s.service);
        own = results-IsOwn rt 0 req.products s.service;
        server_id = refl;
        listed = tally-Listed rs;
        status = status-reads rs (ground (arith, given, many));
      }
