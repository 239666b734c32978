-- ===== src/App/Service/Denied.antt =====
-- Which orders `IssueSubscription` answers with ErrSubscriptionRevoked.
use proxmox_license_proxy.Prelude.{
  Text, true, false, Bool-cases, Option, Option-cases, none, some, ◌≡◌, ◌≢◌, ◌↔◌, refl, sym, ap,
  ◌∙◌, inl, inr, arith,
}
use proxmox_license_proxy.Result.{Result, Result-cases, ok, err, subscription_revoked}
use proxmox_license_proxy.Exec.{Exec, continue, pure, fail, ◌>>=◌}
use proxmox_license_proxy.Subscription.Status.{revoked}
use proxmox_license_proxy.Subscription.Key.{Draw, drawn, read_failed, generate_key}
use proxmox_license_proxy.Subscription.Model.{License, Registry, active}
use proxmox_license_proxy.Registry.Store.{
  Codec, World, Calls, Disk, first_calls, parse_file, load_with, save, mutate,
}
use proxmox_license_proxy.Registry.Api
use proxmox_license_proxy.App.Sockets.{needs_socket_upgrade}
use proxmox_license_proxy.App.Service.{
  Clock, IssueInput, State, held_license, minted, on_world, draw_key, mint, issue_held,
  issue_subscription,
}
use proxmox_license_proxy.App.Service.Holdings.{has_any, holdings, denied_found, denied_held}
use proxmox_license_proxy.App.Service.Refusals.{Ready, after_read, issue_held_next}

-- The result is not ErrSubscriptionRevoked.

abbrev Other : {A : Type 0} → Result A → Type 0
Other r = r ≢ err subscription_revoked

continue-Other :
    {S A B : Type 0} (m : Exec S A) (f : A → Exec S B) (s : S)
    → Other (m s).0
    → ((a : A) (t : S) → Other (f a t).0)
    → Other ((m >>= f) s).0
unfolding ◌>>=◌
continue-Other {S} {A} m f s first rest = by_result (m s).0 (m s).1 first
  where
    by_result : (r : Result A) (t : S) → Other r → Other (continue r t f).0
    by_result (ok a) t h = rest a t
    by_result (err e) t h = λ k. h (ground (arith, k))

generate_key-Other :
    (product level sockets : Text) (d : Draw) → Other (generate_key product level sockets d)
unfolding generate_key
generate_key-Other product level sockets read_failed = ground arith
generate_key-Other product level sockets (drawn a b c d) = ground arith

module _ (codec : Codec) where
  open codec use {Content}

  load_with-Other : (c : Calls Content) (d : Disk Content) → Other (load_with codec c d)
  unfolding load_with parse_file
  load_with-Other c d = elim (Option-cases d.main) [
    | inl none_found ↦ ground arith
    | inr (content, found) ↦ elim (Option-cases (codec.unmarshal content)) [
      | inl bad ↦ ground arith
      | inr (reg, good) ↦ ground arith
    ]
  ]

  mutate-Other :
      {A : Type 0} (fn : Registry → A × Registry) (w : World Content)
      → Other (mutate codec (λ r. ok (fn r)) w).0
  unfolding mutate save
  mutate-Other fn w = elim (Result-cases (load_with codec (first_calls w.calls) w.disk)) [
    | inl (e, failed) ↦ ground (arith, failed, load_with-Other (first_calls w.calls) w.disk)
    | inr (reg, loaded) ↦ elim (Option-cases (codec.marshal (fn reg).1)) [
      | inl failed ↦ ground (arith, loaded, failed)
      | inr (content, encoded) ↦ ground (arith, loaded, encoded)
    ]
  ]

  mint-Other :
      (clock : Clock) (input : IssueInput) (s : State Content) → Other (mint codec clock input s).0
  unfolding mint draw_key pure Api.add_license
  mint-Other clock input s =
      continue-Other (draw_key codec input.product input.level input.sockets) _ s
        (generate_key-Other input.product input.level input.sockets _)
        λ key u.
          continue-Other
            (on_world codec (
              Api.add_license codec
                (minted clock key input.product input.server_id input.thumbprint)))
            _ u (mutate-Other _ u.world) λ a v. ground arith

  issue_held-Other :
      (clock : Clock) (input : IssueInput) (lic : License) (s : State Content)
      → active lic ≡ true
      → Other (issue_held codec clock input (some lic) s).0
  unfolding issue_held pure Api.set_license_status
  issue_held-Other clock input lic s live =
      elim (Bool-cases (needs_socket_upgrade input.product input.sockets lic)) [
        | inr enough ↦ rw (live, enough) (ground arith)
        | inl more ↦
            rw (live, more)
              (continue-Other (on_world codec (Api.set_license_status codec lic.key revoked)) _ s
                (mutate-Other _ s.world) λ a u. mint-Other clock input u)
      ]

  refused_held :
      (clock : Clock) (input : IssueInput) (held : Option License) (s : State Content)
      → (issue_held codec clock input held s).0 ≡ err subscription_revoked
      → (lic : License) × (held ≡ some lic) × (active lic ≡ false)
  unfolding issue_held
  refused_held clock input none s h = absurd (mint-Other clock input s h)
  refused_held clock input (some lic) s h = elim (Bool-cases (active lic)) [
    | inl live ↦ absurd (issue_held-Other clock input lic s live h)
    | inr denied ↦ (lic, refl, denied)
  ]

  module _ (clock : Clock) (input : IssueInput) (s : State Content) (reg : Registry)
      (ready : Ready codec input s reg) where
    denied_order :
        has_any input.thumbprint input.product reg.licenses ≡ true
        → holdings input.thumbprint input.product reg.licenses ≡ 0
        → issue_subscription codec clock input s
          ≡ (err subscription_revoked, after_read codec (after_read codec s))
    unfolding issue_held fail
    denied_order some_license none_active =
        let (lic, found, denied) =
          denied_found input.thumbprint input.product reg.licenses some_license none_active in
        issue_held_next codec clock input s reg ready ∙ rw found (rw denied refl)

    -- Where the calls of the store succeed, an order for a known product by an APPROVED account is
    -- refused with ErrSubscriptionRevoked exactly when the account has licenses for the product and
    -- none of them is active.
    pub issue_subscription-Denied :
        (issue_subscription codec clock input s).0 ≡ err subscription_revoked ↔ (
          (has_any input.thumbprint input.product reg.licenses ≡ true)
          × (holdings input.thumbprint input.product reg.licenses ≡ 0))
    issue_subscription-Denied = (
      (λ refused.
          let e =
            ap (λ (x : Result License × State Content). x.0)
              (sym (issue_held_next codec clock input s reg ready))
            ∙ refused in
          let (lic, found, denied) =
            refused_held clock input (held_license input.thumbprint input.product none reg.licenses)
              (after_read codec (after_read codec s)) e in
          denied_held input.thumbprint input.product reg.licenses lic found denied),
      (λ b. ap (λ (x : Result License × State Content). x.0) (denied_order b.0 b.1)),
    )
