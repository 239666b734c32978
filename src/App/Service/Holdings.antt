-- ===== src/App/Service/Holdings.antt =====
-- The active licenses that an account holds for a product.
use proxmox_license_proxy.Prelude.{
  ℕ, ◌+◌, ◌≤◌, Text, equal, equal_refl, Bool, true, false, Bool-cases, not, ◌&&◌, ◌||◌, Option,
  none, some, any, List, [], ◌∷◌, ◌≡◌, ◌≢◌, refl, inl, inr, arith, if◌then◌else◌,
}
use proxmox_license_proxy.Subscription.Status.{revoked}
use proxmox_license_proxy.Subscription.Model.{License, active, is_denied}
use proxmox_license_proxy.Registry.Keyed.{put, update}
use proxmox_license_proxy.Registry.Operations.{license_key, license_with_status}
use proxmox_license_proxy.App.Service.{held_license}

-- The license is an active one of this account for this product.

abbrev pub is_held : Text → Text → License → Bool
is_held thumbprint product l = equal l.account thumbprint && (equal l.product product && active l)

abbrev pub one_if : Bool → ℕ
one_if b = if b then 1 else 0

-- How many of them there are.
unfoldable pub holdings : Text → Text → List License → ℕ
holdings thumbprint product [] = 0
holdings thumbprint product (l ∷ ls) =
    one_if (is_held thumbprint product l) + holdings thumbprint product ls

module _ (t p : Text) where
  pub holdings-put :
      (lic : License) (ls : List License)
      → holdings t p (put license_key lic ls) ≤ one_if (is_held t p lic) + holdings t p ls
  unfolding holdings put
  holdings-put lic [] = omega arith
  holdings-put lic (l ∷ ls) = elim (Bool-cases (equal l.key lic.key)) [
    | inl same ↦ rw same (omega arith)
    | inr other ↦ rw other (omega (arith, holdings-put lic ls))
  ]

  -- A license that is revoked is not held.
  is_held-revoked : (l : License) → is_held t p (license_with_status revoked l) ≡ false
  unfolding active is_denied equal
  is_held-revoked l = ground arith

  pub holdings-revoke :
      (k : Text) (ls : List License)
      → holdings t p (update license_key (license_with_status revoked) k ls) ≤ holdings t p ls
  unfolding holdings update
  holdings-revoke k [] = omega arith
  holdings-revoke k (l ∷ ls) = elim (Bool-cases (equal l.key k)) [
    | inl same ↦ rw (same, is_held-revoked l) (omega (arith, holdings-revoke k ls))
    | inr other ↦ rw other (omega (arith, holdings-revoke k ls))
  ]

  some_found : (d : License) (ls : List License) → held_license t p (some d) ls ≢ none
  unfolding held_license
  some_found d [] = ground arith
  some_found d (l ∷ ls) = ground (arith, some_found d ls, some_found l ls)

  -- Where no license is found, none is held.
  pub none_held : (ls : List License) → held_license t p none ls ≡ none → holdings t p ls ≡ 0
  unfolding holdings held_license
  none_held [] h = refl
  none_held (l ∷ ls) h = ground (arith, none_held ls, some_found l ls)

  abbrev Idle : Option License → Type 0
  Idle none = Unit
  Idle (some d) = active d ≡ false

  -- Where an active license is found, a revocation of its key takes one away.
  pub holdings-revoke_held :
      (d : Option License) (ls : List License) (lic : License)
      → Idle d
      → held_license t p d ls ≡ some lic
      → active lic ≡ true
      → holdings t p (update license_key (license_with_status revoked) lic.key ls) + 1
        ≤ holdings t p ls
  unfolding holdings held_license update
  holdings-revoke_held none [] lic i h a = absurd (ground arith)
  holdings-revoke_held (some d) [] lic i h a = absurd (ground arith)
  holdings-revoke_held d (l ∷ ls) lic i h a =
      elim (Bool-cases (not (equal l.account t) || not (equal l.product p))) [
        | inl strange ↦
            let rest = holdings-revoke_held d ls lic i (rw strange at h) a in
            ground (arith, rest, is_held-revoked l)
        | inr own ↦ elim (Bool-cases (active l)) [
          | inl live ↦
              let same : l ≡ lic = ground (arith, h) in
              ground
                (arith, same, holdings-revoke lic.key ls, is_held-revoked l, equal_refl lic.key)
          | inr idle ↦
              let rest = holdings-revoke_held (some l) ls lic idle (rw (own, idle) at h) a in
              ground (arith, rest, is_held-revoked l)
        ]
      ]

  -- Some license is of this account for this product.
  abbrev pub has_any : List License → Bool
  has_any ls = any (λ l. equal l.account t && equal l.product p) ls

  idle_left :
      (d : License) (ls : List License)
      → active d ≡ false
      → holdings t p ls ≡ 0
      → (lic : License) × (held_license t p (some d) ls ≡ some lic) × (active lic ≡ false)
  unfolding held_license holdings
  idle_left d [] i h = (d, refl, i)
  idle_left d (l ∷ ls) i h = elim (Bool-cases (equal l.account t && equal l.product p)) [
    | inl own ↦
        let idle : active l ≡ false = ground (arith, own, h) in
        let (lic, found, denied) = idle_left l ls idle (ground (arith, own, idle, h)) in
        (lic, ground (arith, own, idle, found), denied)
    | inr strange ↦
        let (lic, found, denied) = idle_left d ls i (ground (arith, strange, h)) in
        (lic, ground (arith, strange, found), denied)
  ]

  -- Where there are licenses and none is held, a denied one is found.
  pub denied_found :
      (ls : List License)
      → has_any ls ≡ true
      → holdings t p ls ≡ 0
      → (lic : License) × (held_license t p none ls ≡ some lic) × (active lic ≡ false)
  unfolding held_license holdings
  denied_found [] a h = absurd (ground (arith, a))
  denied_found (l ∷ ls) a h = elim (Bool-cases (equal l.account t && equal l.product p)) [
    | inl own ↦
        let idle : active l ≡ false = ground (arith, own, h) in
        let (lic, found, denied) = idle_left l ls idle (ground (arith, own, idle, h)) in
        (lic, ground (arith, own, idle, found), denied)
    | inr strange ↦
        let (lic, found, denied) =
          denied_found ls (ground (arith, strange, a)) (ground (arith, strange, h)) in
        (lic, ground (arith, strange, found), denied)
  ]

  -- Where a denied license is found, none is held.
  found_denied :
      (d : Option License) (ls : List License) (lic : License)
      → held_license t p d ls ≡ some lic
      → active lic ≡ false
      → holdings t p ls ≡ 0
  unfolding held_license holdings
  found_denied d [] lic h i = refl
  found_denied d (l ∷ ls) lic h i =
      ground (arith, found_denied d ls lic, found_denied (some l) ls lic, h, i)

  nothing_found : (ls : List License) → has_any ls ≡ false → held_license t p none ls ≡ none
  unfolding held_license
  nothing_found [] a = refl
  nothing_found (l ∷ ls) a = ground (arith, nothing_found ls, a)

  pub denied_held :
      (ls : List License) (lic : License)
      → held_license t p none ls ≡ some lic
      → active lic ≡ false
      → (has_any ls ≡ true) × (holdings t p ls ≡ 0)
  denied_held ls lic h i = (ground (arith, nothing_found ls, h), found_denied none ls lic h i)
