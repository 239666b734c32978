-- ===== src/App/Service/Minting.antt =====
-- What `IssueSubscription` makes where it issues a new license.
use proxmox_license_proxy.Prelude.{
  Text, bytes, equal_refl, some, ◌++◌, ◌≡◌, refl, sym, ap, subst, arith,
}
use proxmox_license_proxy.Result.{Result, ok}
use proxmox_license_proxy.Exec.{pure, >>=-ok}
use proxmox_license_proxy.Subscription.Status.{approved}
use proxmox_license_proxy.Subscription.Key.{describe}
use proxmox_license_proxy.Subscription.Key.Reading.{IsGenerated, generate_key-IsGenerated}
use proxmox_license_proxy.Subscription.Model.{License, Registry}
use proxmox_license_proxy.Registry.Keyed.{find-put}
use proxmox_license_proxy.Registry.Operations.{license_key, get_license, add_license}
use proxmox_license_proxy.Registry.Store.{Codec, World}
use proxmox_license_proxy.Registry.Store.Commit.{view, RoundTrips, Committed, view-Committed}
use proxmox_license_proxy.Registry.Api
use proxmox_license_proxy.App.Service.{Clock, IssueInput, State, minted, draw_key, mint}
use proxmox_license_proxy.App.Service.Steps.{on_world-Committed}

module _ (codec : Codec) where
  open codec use {Content}

  -- The license is a new one: its key was generated for the request, and the registry that is left
  -- holds it under that key.
  pub record IsMinted (clock : Clock) (input : IssueInput) (after : State Content) (lic : License)
      : Type 0 where
    pub account : lic.account ≡ input.thumbprint
    pub server_id : lic.server_id ≡ input.server_id
    pub product : lic.product ≡ input.product
    pub is_approved : lic.status ≡ approved
    pub is_named :
        lic.product_name
        ≡ (describe lic.key).product_name
          ++ bytes " (LAB, proxmox-license-proxy - NOT FOR PRODUCTION)"
    pub registered : lic.reg_date ≡ clock.today
    pub due : lic.next_due_date ≡ clock.next_year
    pub generated : IsGenerated input.product input.level input.sockets lic.key
    pub registry : Registry
    pub found : view codec after.world ≡ ok registry
    pub stored : get_license lic.key registry ≡ some lic

  get_license-add : (l : License) (reg : Registry) → get_license l.key (add_license l reg) ≡ some l
  unfolding add_license
  get_license-add l reg = rw (find-put license_key l l.key reg.licenses, equal_refl l.key) refl

  stored_license :
      (l : License) {w w' : World Content}
      → RoundTrips codec
      → Committed codec (λ reg. ok (tt, add_license l reg)) w w' tt
      → (reg : Registry) × (view codec w' ≡ ok reg) × (get_license l.key reg ≡ some l)
  stored_license l rt c =
      let e : add_license l c.before ≡ c.after = ground (arith, c.applied) in
      (c.after, view-Committed codec rt c, rw (← e) (get_license-add l c.before))

  pub mint-IsMinted :
      (clock : Clock) (input : IssueInput) (s : State Content) {s' : State Content} {lic : License}
      → RoundTrips codec
      → mint codec clock input s ≡ (ok lic, s')
      → IsMinted clock input s' lic
  unfolding mint Api.add_license pure draw_key
  mint-IsMinted clock input s {s'} {lic} rt h =
      let drawn = >>=-ok _ _ s h in
      let added = >>=-ok _ _ drawn.middle drawn.second in
      let made = ap (λ (x : Result Text × State Content). x.0) drawn.first in
      let fresh = minted clock drawn.value input.product input.server_id input.thumbprint in
      let same : lic ≡ fresh = ground (arith, added.second) in
      let end : added.middle ≡ s' = ap (λ (x : Result License × State Content). x.1) added.second in
      let (reg, found, stored) = stored_license fresh rt (on_world-Committed codec _ added.first) in
      let left : IsMinted clock input added.middle fresh = record {
        account = refl;
        server_id = refl;
        product = refl;
        is_approved = refl;
        is_named = refl;
        registered = refl;
        due = refl;
        generated = generate_key-IsGenerated input.product input.level input.sockets _ made;
        registry = reg;
        found = found;
        stored = stored;
      } in
      subst (λ l. IsMinted clock input s' l) (sym same)
        (subst (λ t. IsMinted clock input t fresh) end left)
