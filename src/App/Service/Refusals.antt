-- ===== src/App/Service/Refusals.antt =====
-- What `IssueSubscription` answers where the calls of the store succeed.
use proxmox_license_proxy.Prelude.{equal_iff, Bool, true, none, some, ◌≡◌, refl, ap, ◌∙◌, arith}
use proxmox_license_proxy.Result.{Error, Result, ok, err}
use proxmox_license_proxy.Exec.{Exec, >>=-eq, outcome-eq, >>=-err}
use proxmox_license_proxy.Subscription.Status.{approved, revoked}
use proxmox_license_proxy.Subscription.Key.{product_code, generate_key}
use proxmox_license_proxy.Subscription.Model.{License, Account, Registry, active}
use proxmox_license_proxy.Registry.Operations.{get_account, set_license_status}
use proxmox_license_proxy.Registry.Store.{Codec, later_calls, reading}
use proxmox_license_proxy.Registry.Store.Commit.{view, mutate-Serves}
use proxmox_license_proxy.Registry.Store.Reliable.{Reliable, Reliable-first, All-later}
use proxmox_license_proxy.Registry.Api
use proxmox_license_proxy.App.Sockets.{needs_socket_upgrade}
use proxmox_license_proxy.App.Service.{
  Clock, IssueInput, State, held_license, is_approved, on_world, license_for_account_product,
  draw_key, first_draw, later_draws, mint, issue_held, issue_subscription,
}
use proxmox_license_proxy.App.Service.Steps.{held-reading}

module _ (codec : Codec) where
  open codec use {Content, marshal}

  -- The state after one more operation that reads.
  abbrev pub after_read : State Content → State Content
  after_read s = record s { world = record s.world { calls = later_calls s.world.calls } }

  pub on_world-reading :
      {A : Type 0} (get : Registry → A) (s : State Content) (reg : Registry)
      → Reliable codec s.world
      → view codec s.world ≡ ok reg
      → on_world codec (reading codec get) s ≡ (ok (get reg), after_read s)
  unfolding reading
  on_world-reading get s reg h v = ground (arith, Reliable-first codec s.world h)

  -- The request of an account that may issue comes to what is held for the product.
  pub record Ready (input : IssueInput) (s : State Content) (reg : Registry) : Type 0 where
    pub product_ok : product_code input.product ≡ true
    pub account : Account
    pub known : get_account input.thumbprint reg ≡ some account
    pub account_ok : account.status ≡ approved
    pub found : view codec s.world ≡ ok reg
    pub reliable : Reliable codec s.world

  module _ (clock : Clock) (input : IssueInput) (s : State Content) (reg : Registry)
      (ready : Ready input s reg) where
    ready_approved : is_approved (get_account input.thumbprint reg) ≡ true
    unfolding is_approved
    ready_approved = rw ready.known ((equal_iff ready.account.status approved).1 ready.account_ok)

    ready_held :
        on_world codec
          (license_for_account_product codec input.thumbprint input.product)
          (after_read s)
        ≡ (
          ok (held_license input.thumbprint input.product none reg.licenses),
          after_read (after_read s),
        )
    ready_held = rw (held-reading codec input.thumbprint input.product (after_read s).world) (
        on_world-reading (λ r. held_license input.thumbprint input.product none r.licenses)
          (after_read s) reg (All-later codec s.world.calls ready.reliable) ready.found)

    -- The order comes to what is held for the product.
    pub issue_held_next :
        issue_subscription codec clock input s
        ≡ issue_held codec clock input
            (held_license input.thumbprint input.product none reg.licenses)
            (after_read (after_read s))
    unfolding issue_subscription Api.get_account
    issue_held_next = rw ready.product_ok (
        rw
          (>>=-eq (on_world codec (reading codec (get_account input.thumbprint))) _
            (on_world-reading (get_account input.thumbprint) s reg ready.reliable ready.found))
          (rw ready_approved (>>=-eq _ _ ready_held)))

    module _ (lic : License) (e : Error) (content : Content)
        (held : held_license input.thumbprint input.product none reg.licenses ≡ some lic)
        (live : active lic ≡ true)
        (more : needs_socket_upgrade input.product input.sockets lic ≡ true)
        (failed : generate_key input.product input.level input.sockets (first_draw s.draws) ≡ err e)
        (encoded : marshal (set_license_status lic.key revoked reg).1 ≡ some content) where
      abbrev revoking : Exec (State Content) Bool
      revoking = on_world codec (Api.set_license_status codec lic.key revoked)

      abbrev ready_to_mint : State Content
      ready_to_mint = (revoking (after_read (after_read s))).1

      revoking_serves :
          ((revoking (after_read (after_read s))).0 ≡ ok (set_license_status lic.key revoked reg).0)
          × (ready_to_mint.world.disk.main ≡ some content)
      unfolding Api.set_license_status
      revoking_serves =
          mutate-Serves codec (λ r. ok (set_license_status lic.key revoked r))
            (after_read (after_read s)).world reg (set_license_status lic.key revoked reg).1
            (set_license_status lic.key revoked reg).0 content
            (Reliable-first codec (after_read (after_read s)).world (
              All-later codec (later_calls s.world.calls)
                (All-later codec s.world.calls ready.reliable)))
            ready.found refl encoded

      draw_fails :
          draw_key codec input.product input.level input.sockets ready_to_mint
          ≡ (err e, record ready_to_mint { draws = later_draws s.draws })
      unfolding draw_key
      draw_fails = rw failed refl

      failed_upgrade :
          issue_subscription codec clock input s
          ≡ (err e, record ready_to_mint { draws = later_draws s.draws })
      unfolding issue_held mint
      failed_upgrade =
          issue_held_next
          ∙ rw held (
              rw (live, more)
                (rw (>>=-eq _ _ (outcome-eq revoking (after_read (after_read s)) revoking_serves.0))
                  (>>=-err _ _ draw_fails)))

      -- An order that needs a larger PVE key, but for which no key can be generated (a number of
      -- sockets other than 1, 2, 4 and 8, say), returns the error of the generator, and leaves the
      -- license that the account had revoked in the registry file.
      pub issue_loses_license :
          ((issue_subscription codec clock input s).0 ≡ err e)
          × ((issue_subscription codec clock input s).1.world.disk.main ≡ some content)
      issue_loses_license = (
        ap (λ (x : Result License × State Content). x.0) failed_upgrade,
        ap (λ (x : Result License × State Content). x.1.world.disk.main) failed_upgrade
            ∙ revoking_serves.1,
      )
