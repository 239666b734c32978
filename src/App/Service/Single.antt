-- ===== src/App/Service/Single.antt =====
-- `IssueSubscription` never gives an account a second active license for a product.
use proxmox_license_proxy.Prelude.{
  Text, equal_iff, Bool, true, Bool-cases, not, Option, none, some, ◌≡◌, sym, ap, subst, ◌∙◌, inl,
  inr, arith, if◌then◌else◌,
}
use proxmox_license_proxy.Result.{Result, ok, err, account_not_approved}
use proxmox_license_proxy.Exec.{pure, fail, ◌>>=◌, >>=-leads}
use proxmox_license_proxy.Subscription.Status.{revoked}
use proxmox_license_proxy.Subscription.Key.{product_code}
use proxmox_license_proxy.Subscription.Model.{License, Registry, Account, active}
use proxmox_license_proxy.Registry.Operations.{get_account, set_license_status}
use proxmox_license_proxy.Registry.Store.{Codec, reading}
use proxmox_license_proxy.Registry.Store.Commit.{
  view, RoundTrips, Committed, Atomic, view-Committed,
}
use proxmox_license_proxy.Registry.Store.Reading.{reading-disk}
use proxmox_license_proxy.Registry.Api
use proxmox_license_proxy.App.Sockets.{needs_socket_upgrade}
use proxmox_license_proxy.App.Service.{
  Clock, IssueInput, State, held_license, is_approved, on_world, license_for_account_product,
  issue_held, issue_subscription,
}
use proxmox_license_proxy.App.Service.Steps.{held-reading, held-ReadStep}
use proxmox_license_proxy.App.Service.Holdings.{holdings-revoke, none_held, holdings-revoke_held}
use proxmox_license_proxy.App.Service.Room.{
  Found, AtMostOne, Room, AtMost, on_world-Atomic, mint-AtMost,
}

module _ (codec : Codec) (rt : RoundTrips codec) (t p : Text) (clock : Clock)
    (input : IssueInput) where
  open codec use {Content}

  -- Nothing is held for the order.
  none-Room :
      (reg : Registry)
      → AtMostOne t p reg
      → held_license input.thumbprint input.product none reg.licenses ≡ none
      → Room t p input reg
  none-Room reg h found = ground (
    arith,
    equal_iff input.thumbprint t,
    equal_iff input.product p,
    none_held input.thumbprint input.product reg.licenses found,
  )

  -- What is held for the order is revoked.
  revoked-Room :
      (reg : Registry) (lic : License)
      → AtMostOne t p reg
      → held_license input.thumbprint input.product none reg.licenses ≡ some lic
      → active lic ≡ true
      → Room t p input (set_license_status lic.key revoked reg).1
  unfolding set_license_status
  revoked-Room reg lic h found live = ground (
    arith,
    equal_iff input.thumbprint t,
    equal_iff input.product p,
    holdings-revoke t p lic.key reg.licenses,
    holdings-revoke_held input.thumbprint input.product none reg.licenses lic tt found live,
  )

  module _ (s : State Content) (reg : Registry) (v : view codec s.world ≡ ok reg)
      (h : AtMostOne t p reg) where
    here : AtMost codec t p s
    here = rw v h

    revoking :
        (lic : License) (u : State Content) (r : Result Bool)
        → held_license input.thumbprint input.product none reg.licenses ≡ some lic
        → active lic ≡ true
        → on_world codec (Api.set_license_status codec lic.key revoked) s ≡ (r, u)
        → Atomic codec (λ x. ok (set_license_status lic.key revoked x)) s.world r u.world
    unfolding Api.set_license_status
    revoking lic u r found live e = on_world-Atomic codec rt t p clock input _ s u r e

    after_revoking :
        (lic : License) (u : State Content) (a : Bool)
        → held_license input.thumbprint input.product none reg.licenses ≡ some lic
        → active lic ≡ true
        → Committed codec (λ x. ok (set_license_status lic.key revoked x)) s.world u.world a
        → Found (Room t p input) (view codec u.world)
    after_revoking lic u a found live c =
        rw (view-Committed codec rt c)
          (ground (arith, c.read, v, c.applied, revoked-Room reg lic h found live))

    issue_held-AtMost :
        (held : Option License)
        → held_license input.thumbprint input.product none reg.licenses ≡ held
        → AtMost codec t p (issue_held codec clock input held s).1
    unfolding issue_held fail pure
    issue_held-AtMost none found =
        mint-AtMost codec rt t p clock input s (rw v (none-Room reg h found))
    issue_held-AtMost (some lic) found = elim (Bool-cases (active lic)) [
      | inr idle ↦ rw idle here
      | inl live ↦ elim (Bool-cases (needs_socket_upgrade input.product input.sockets lic)) [
        | inr enough ↦ rw (live, enough) here
        | inl more ↦
            rw (live, more)
              (>>=-leads (AtMost codec t p)
                (on_world codec (Api.set_license_status codec lic.key revoked)) _ s
                (λ e u k. rw (revoking lic u (err e) found live k) here)
                (λ a u k.
                  mint-AtMost codec rt t p clock input u
                    (after_revoking lic u a found live (revoking lic u (ok a) found live k))))
      ]
    ]

  -- A read leaves what it found.
  on_world-disk :
      {A : Type 0} (get : Registry → A) (s u : State Content) (r : Result A)
      → on_world codec (reading codec get) s ≡ (r, u)
      → u.world.disk ≡ s.world.disk
  on_world-disk {A} get s u r e =
      ap (λ (x : Result A × State Content). x.1.world.disk) (sym e) ∙ reading-disk codec get s.world

  held-AtMost :
      (s : State Content)
      → AtMost codec t p s
      → (AtMost codec t p)
          ((on_world codec (license_for_account_product codec input.thumbprint input.product)
              >>= λ held. issue_held codec clock input held)
            s).1
  held-AtMost s h =
      >>=-leads (AtMost codec t p)
        (on_world codec (license_for_account_product codec input.thumbprint input.product)) _ s
        (λ e u k.
          rw
            (on_world-disk (λ reg. held_license input.thumbprint input.product none reg.licenses) s
              u (err e) (rw (held-reading codec input.thumbprint input.product s.world) at k))
            h)
        (λ held u k.
          let step = held-ReadStep codec input.thumbprint input.product k in
          issue_held-AtMost u step.read.registry (rw step.disk step.read.found)
            (subst (Found (AtMostOne t p)) step.read.found h) held (sym step.read.returned))

  -- An account that holds at most one active license for a product holds at most one behind every
  -- order, of any account for any product, whatever the outcome and whichever calls fail.
  pub issue_subscription-AtMostOne :
      (s : State Content)
      → Found (AtMostOne t p) (view codec s.world)
      → Found (AtMostOne t p) (view codec (issue_subscription codec clock input s).1.world)
  unfolding issue_subscription Api.get_account fail
  issue_subscription-AtMostOne s h = elim (Bool-cases (product_code input.product)) [
    | inr strange ↦ rw strange h
    | inl known ↦ rw known (
        >>=-leads (AtMost codec t p) (on_world codec (Api.get_account codec input.thumbprint)) _ s
          (λ e u k. rw (on_world-disk (get_account input.thumbprint) s u (err e) k) h)
          (λ acc u k.
            let left : AtMost codec t p u =
              rw (on_world-disk (get_account input.thumbprint) s u (ok acc) k) h in
            by_account acc u left))
  ]
    where
      by_account :
          (acc : Option Account) (u : State Content)
          → AtMost codec t p u
          → (AtMost codec t p)
              ((if not (is_approved acc)
                  then fail account_not_approved
                  else on_world codec
                      (license_for_account_product codec input.thumbprint input.product)
                    >>= λ held. issue_held codec clock input held)
                u).1
      by_account acc u left = elim (Bool-cases (is_approved acc)) [
        | inl approved_one ↦ rw approved_one (held-AtMost u left)
        | inr other ↦ rw other left
      ]
