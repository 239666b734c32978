-- ===== src/App/Service/Room.antt =====
-- A license is issued where the account holds none for the product.
use proxmox_license_proxy.Prelude.{◌+◌, ◌≤◌, Text, equal, Bool, ◌&&◌, ◌≡◌, ap, subst, arith}
use proxmox_license_proxy.Result.{Result, ok, err}
use proxmox_license_proxy.Exec.{pure, >>=-leads}
use proxmox_license_proxy.Subscription.Model.{Registry, active, is_denied}
use proxmox_license_proxy.Registry.Operations.{add_license}
use proxmox_license_proxy.Registry.Store.{Codec, World, mutate}
use proxmox_license_proxy.Registry.Store.Commit.{
  view, RoundTrips, Atomic, mutate-Atomic, view-Committed,
}
use proxmox_license_proxy.Registry.Api
use proxmox_license_proxy.App.Service.{Clock, IssueInput, State, minted, on_world, draw_key, mint}
use proxmox_license_proxy.App.Service.Holdings.{is_held, one_if, holdings, holdings-put}

-- What is said of a registry holds of the one that is found, if one is found.

abbrev pub Found : (Registry → Type 0) → Result Registry → Type 0
Found P (ok reg) = P reg
Found P (err e) = Unit

pub Found-map :
    {P Q : Registry → Type 0}
    → ((reg : Registry) → P reg → Q reg)
    → (r : Result Registry) → Found P r
    → Found Q r
Found-map f (ok reg) h = f reg h
Found-map f (err e) h = tt

-- The account holds at most one active license for the product.
abbrev pub AtMostOne : Text → Text → Registry → Type 0
AtMostOne t p reg = holdings t p reg.licenses ≤ 1

-- The order is one of this account for this product.
abbrev pub own : Text → Text → IssueInput → Bool
own t p input = equal input.thumbprint t && equal input.product p

-- One more license of the order fits in.
abbrev pub Room : Text → Text → IssueInput → Registry → Type 0
Room t p input reg = one_if (own t p input) + holdings t p reg.licenses ≤ 1

abbrev pub AtMost : (codec : Codec) → Text → Text → State codec.Content → Type 0
AtMost codec t p s = Found (AtMostOne t p) (view codec s.world)

module _ (codec : Codec) (rt : RoundTrips codec) (t p : Text) (clock : Clock)
    (input : IssueInput) where
  open codec use {Content}

  is_held-minted :
      (key : Text)
      → is_held t p (minted clock key input.product input.server_id input.thumbprint)
        ≡ own t p input
  unfolding active is_denied equal
  is_held-minted key = ground arith

  Room-add :
      (key : Text) (reg : Registry)
      → Room t p input reg
      → AtMostOne t p
          (add_license (minted clock key input.product input.server_id input.thumbprint) reg)
  unfolding add_license
  Room-add key reg h = ground (
    arith,
    is_held-minted key,
    holdings-put t p (minted clock key input.product input.server_id input.thumbprint) reg.licenses,
  )

  -- A mutation that fails leaves what it found.
  mutate-Found :
      {A : Type 0} (P Q : Registry → Type 0) (fn : Registry → Result (A × Registry))
      (w w' : World Content) (r : Result A)
      → ((reg : Registry) → P reg → Q reg)
      → ((reg reg' : Registry) (a : A) → P reg → fn reg ≡ ok (a, reg') → Q reg')
      → Found P (view codec w)
      → Atomic codec fn w r w'
      → Found Q (view codec w')
  mutate-Found P Q fn w w' (err e) keep step h same = Found-map keep _ (rw same h)
  mutate-Found P Q fn w w' (ok a) keep step h c =
      rw (view-Committed codec rt c) (step c.before c.after a (subst (Found P) c.read h) c.applied)

  pub on_world-Atomic :
      {A : Type 0} (fn : Registry → Result (A × Registry)) (s s' : State Content) (r : Result A)
      → on_world codec (mutate codec fn) s ≡ (r, s')
      → Atomic codec fn s.world r s'.world
  on_world-Atomic {A} fn s s' r e =
      subst (λ (x : Result A × State Content). Atomic codec fn s.world x.0 x.1.world) e
        (mutate-Atomic codec fn s.world)

  draw_key-world :
      (s u : State Content) (r : Result Text)
      → draw_key codec input.product input.level input.sockets s ≡ (r, u)
      → s.world ≡ u.world
  unfolding draw_key
  draw_key-world s u r e = ap (λ (x : Result Text × State Content). x.1.world) e

  -- Adding a license for which there is room.
  added-AtMost :
      (key : Text) (u v : State Content) (r : Result (Unit {0}))
      → Found (Room t p input) (view codec u.world)
      → on_world codec
          (Api.add_license codec (minted clock key input.product input.server_id input.thumbprint))
          u
        ≡ (r, v)
      → AtMost codec t p v
  unfolding Api.add_license
  added-AtMost key u v r room e =
      mutate-Found (Room t p input) (AtMostOne t p) _ u.world v.world r (λ reg h. omega arith)
        (λ reg reg' a h applied. let added = Room-add key reg h in ground (arith, applied)) room
        (on_world-Atomic _ u v r e)

  pub mint-AtMost :
      (s : State Content)
      → Found (Room t p input) (view codec s.world)
      → AtMost codec t p (mint codec clock input s).1
  unfolding mint pure
  mint-AtMost s room =
      >>=-leads (AtMost codec t p) (draw_key codec input.product input.level input.sockets) _ s
        (λ e u h.
          Found-map {P = (Room t p input)} {Q = AtMostOne t p} (λ reg k. omega arith) _
            (subst (λ w. Found (Room t p input) (view codec w)) (draw_key-world s u _ h) room))
        (λ key u h.
          let room_left : Found (Room t p input) (view codec u.world) =
            subst (λ w. Found (Room t p input) (view codec w)) (draw_key-world s u _ h) room in
          >>=-leads (AtMost codec t p) (on_world codec (Api.add_license codec _)) _ u
            (λ e v k. added-AtMost key u v _ room_left k)
            (λ a v k. added-AtMost key u v _ room_left k))
