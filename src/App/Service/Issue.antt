-- ===== src/App/Service/Issue.antt =====
-- Who gets a license by `IssueSubscription`, and which.
use proxmox_license_proxy.Prelude.{
  equal_iff, true, Bool-cases, not, Option, none, some, List, ◌∷◌, ◌++◌, ◌≡◌, refl, sym, ap, subst,
  ◌∙◌, ◌⊎◌, inl, inr, arith,
}
use proxmox_license_proxy.Result.{Result, ok}
use proxmox_license_proxy.Exec.{pure, fail, ◌>>=◌, >>=-ok, guard-ok}
use proxmox_license_proxy.Subscription.Status.{approved}
use proxmox_license_proxy.Subscription.Key.{product_code}
use proxmox_license_proxy.Subscription.Model.{License, Account, Registry, active}
use proxmox_license_proxy.Registry.Operations.{get_account}
use proxmox_license_proxy.Registry.Store.{Codec}
use proxmox_license_proxy.Registry.Store.Commit.{view, RoundTrips}
use proxmox_license_proxy.Registry.Api
use proxmox_license_proxy.App.Sockets.{needs_socket_upgrade, Covers, needs_socket_upgrade-Covers}
use proxmox_license_proxy.App.Service.{
  Clock, IssueInput, State, held_license, is_approved, on_world, license_for_account_product,
  issue_held, issue_subscription,
}
use proxmox_license_proxy.App.Service.Minting.{IsMinted, mint-IsMinted}
use proxmox_license_proxy.App.Service.Origin.{Belongs, held_license-Belongs, held_license-listed}
use proxmox_license_proxy.App.Service.Steps.{on_world-ReadStep, held-ReadStep}

approved_account :
    (o : Option Account)
    → is_approved o ≡ true
    → (a : Account) × (o ≡ some a) × (a.status ≡ approved)
unfolding is_approved
approved_account none h = cc
approved_account (some a) h = (a, refl, (equal_iff a.status approved).0 h)

module _ (codec : Codec) where
  open codec use {Content}

  -- The license is one that the account held for the product: it is in the file, active and enough
  -- for the sockets that are asked for, and the file is as it was.
  pub record IsReused (input : IssueInput) (before after : State Content) (lic : License)
      : Type 0 where
    pub registry : Registry
    pub found : view codec before.world ≡ ok registry
    pub earlier : List License
    pub later : List License
    pub listed : registry.licenses ≡ earlier ++ (lic ∷ later)
    pub unchanged : after.world.disk ≡ before.world.disk
    pub covers : Covers input.product input.sockets lic.key
    pub is_active : active lic ≡ true
    pub owned : lic.account ≡ input.thumbprint
    pub fits : lic.product ≡ input.product

  -- The account of the request is in the registry that was found, and APPROVED.
  pub record MayIssue (input : IssueInput) (before : State Content) : Type 0 where
    pub registry : Registry
    pub found : view codec before.world ≡ ok registry
    pub account : Account
    pub known : get_account input.thumbprint registry ≡ some account
    pub is_approved : account.status ≡ approved

  pub record IsIssued (clock : Clock) (input : IssueInput) (before after : State Content)
      (lic : License) : Type 0 where
    pub allowed : MayIssue input before
    pub known_product : product_code input.product ≡ true
    pub made : IsReused input before after lic ⊎ IsMinted codec clock input after lic

  issue_held-made :
      (clock : Clock) (input : IssueInput) (held : Option License) (s : State Content)
      {s' : State Content} {lic : License}
      → RoundTrips codec
      → Belongs input.thumbprint input.product held
      → (reg : Registry) → view codec s.world ≡ ok reg
      → held_license input.thumbprint input.product none reg.licenses ≡ held
      → issue_held codec clock input held s ≡ (ok lic, s')
      → IsReused input s s' lic ⊎ IsMinted codec clock input s' lic
  unfolding issue_held fail pure
  issue_held-made clock input none s rt b reg v e h = inr (mint-IsMinted codec clock input s rt h)
  issue_held-made clock input (some l) s {s'} {lic} rt b reg v e h =
      let (live, h₁) = guard-ok (not (active l)) _ _ s h in
      elim (Bool-cases (needs_socket_upgrade input.product input.sockets l)) [
        | inl more ↦
            let revoking = >>=-ok _ _ s (rw more at h₁) in
            inr (mint-IsMinted codec clock input revoking.middle rt revoking.second)
        | inr enough ↦
            let h₂ : (ok l, s) ≡ (ok lic, s') = rw enough at h₁ in
            let same : l ≡ lic = ground (arith, h₂) in
            let (earlier, later, listed) =
              held_license-listed input.thumbprint input.product reg.licenses l e in
            let end : s ≡ s' = ap (λ (x : Result License × State Content). x.1) h₂ in
            let left : IsReused input s s l = record {
              registry = reg;
              found = v;
              earlier = earlier;
              later = later;
              listed = listed;
              unchanged = refl;
              covers = needs_socket_upgrade-Covers input.product input.sockets l enough;
              is_active = ground (arith, live);
              owned = b.0;
              fits = b.1;
            } in
            inl
              (subst (λ x. IsReused input s s' x) same (subst (λ u. IsReused input s u l) end left))
      ]

  -- The world matters for its file alone.
  IsReused-from :
      {input : IssueInput} {s r s' : State Content} {lic : License}
      → r.world.disk ≡ s.world.disk
      → IsReused input r s' lic
      → IsReused input s s' lic
  IsReused-from e u = record {
    registry = u.registry;
    found = rw (← e) u.found;
    earlier = u.earlier;
    later = u.later;
    listed = u.listed;
    unchanged = u.unchanged ∙ e;
    covers = u.covers;
    is_active = u.is_active;
    owned = u.owned;
    fits = u.fits;
  }

  made_from :
      {clock : Clock} {input : IssueInput} {s r s' : State Content} {lic : License}
      → r.world.disk ≡ s.world.disk
      → IsReused input r s' lic ⊎ IsMinted codec clock input s' lic
      → IsReused input s s' lic ⊎ IsMinted codec clock input s' lic
  made_from e (inl u) = inl (IsReused-from e u)
  made_from e (inr m) = inr m

  -- Behind the check of the account.
  after_account :
      (clock : Clock) (input : IssueInput) (s : State Content) {s' : State Content} {lic : License}
      → RoundTrips codec
      → (do
        held ← on_world codec (license_for_account_product codec input.thumbprint input.product)
        issue_held codec clock input held)
          s
        ≡ (ok lic, s')
      → IsReused input s s' lic ⊎ IsMinted codec clock input s' lic
  after_account clock input s rt h =
      let looked = >>=-ok _ _ s h in
      let step = held-ReadStep codec input.thumbprint input.product looked.first in
      let reg = step.read.registry in
      made_from step.disk (
        issue_held-made clock input looked.value looked.middle rt
          (rw step.read.returned
            (held_license-Belongs input.thumbprint input.product none reg.licenses tt))
          reg (rw step.disk step.read.found) (sym step.read.returned) looked.second)

  -- A license that IssueSubscription returns was asked for by an account that the registry holds as
  -- APPROVED, and for one of the three products. It is either an active license of the registry for
  -- that account and product, with the file unchanged, whose key covers the sockets where a PVE order
  -- gives them in decimal digits that fit an int; or a new APPROVED lab license for that account, host
  -- and product, with the dates of the clock, stored under a freshly generated key.
  pub issue_subscription-IsIssued :
      (clock : Clock) (input : IssueInput) (s : State Content) {s' : State Content} {lic : License}
      → RoundTrips codec
      → issue_subscription codec clock input s ≡ (ok lic, s')
      → IsIssued clock input s s' lic
  unfolding issue_subscription Api.get_account
  issue_subscription-IsIssued clock input s {s'} {lic} rt h =
      let (known, h₁) = guard-ok (not (product_code input.product)) _ _ s h in
      let looked = >>=-ok _ _ s h₁ in
      let step = on_world-ReadStep codec (get_account input.thumbprint) looked.first in
      let (fit, h₂) = guard-ok (not (is_approved looked.value)) _ _ looked.middle looked.second in
      let (acc, found, status) = approved_account looked.value (ground (arith, fit)) in
      record {
        allowed = record {
          registry = step.read.registry;
          found = step.read.found;
          account = acc;
          known = sym step.read.returned ∙ found;
          is_approved = status;
        };
        known_product = ground (arith, known);
        made = made_from step.disk (after_account clock input looked.middle rt h₂);
      }
