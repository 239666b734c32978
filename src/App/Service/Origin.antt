-- ===== src/App/Service/Origin.antt =====
-- Where the license comes from that `licenseForAccountProduct` finds.
use proxmox_license_proxy.Prelude.{
  Text, equal, equal_iff, Bool-cases, not, ◌||◌, Option, none, some, List, [], ◌∷◌, ◌++◌, ◌≡◌, ap,
  ◌⊎◌, inl, inr, arith,
}
use proxmox_license_proxy.Subscription.Model.{License, active}
use proxmox_license_proxy.App.Service.{held_license}

-- A held license belongs to the account and the product.

abbrev pub Belongs : Text → Text → Option License → Type 0
Belongs thumbprint product none = Unit
Belongs thumbprint product (some l) = (l.account ≡ thumbprint) × (l.product ≡ product)

pub held_license-Belongs :
    (thumbprint product : Text) (denied : Option License) (ls : List License)
    → Belongs thumbprint product denied
    → Belongs thumbprint product (held_license thumbprint product denied ls)
unfolding held_license
held_license-Belongs t p denied [] h = h
held_license-Belongs t p denied (l ∷ ls) h = ground (
  arith,
  held_license-Belongs t p denied ls,
  held_license-Belongs t p (some l) ls,
  equal_iff l.account t,
  equal_iff l.product p,
)

-- The license comes from the list, or from where the search began.
Drawn : Option License → List License → License → Type 0
Drawn d ls lic =
    (d ≡ some lic)
    ⊎ ((earlier : List License) × (later : List License) × (ls ≡ earlier ++ (lic ∷ later)))

Drawn-more :
    (d : Option License) (l : License) (ls : List License) (lic : License)
    → Drawn d ls lic
    → Drawn d (l ∷ ls) lic
unfolding Drawn
Drawn-more d l ls lic (inl e) = inl e
Drawn-more d l ls lic (inr (earlier, later, e)) = inr (l ∷ earlier, later, ap (λ x. l ∷ x) e)

Drawn-some :
    (d : Option License) (l : License) (ls : List License) (lic : License)
    → Drawn (some l) ls lic
    → Drawn d (l ∷ ls) lic
unfolding Drawn
Drawn-some d l ls lic (inl e) =
    let same : l ≡ lic = ground (arith, e) in inr ([], ls, ap (λ x. x ∷ ls) same)
Drawn-some d l ls lic (inr (earlier, later, e)) = inr (l ∷ earlier, later, ap (λ x. l ∷ x) e)

held_license-Drawn :
    (t p : Text) (d : Option License) (ls : List License) (lic : License)
    → held_license t p d ls ≡ some lic
    → Drawn d ls lic
unfolding held_license Drawn
held_license-Drawn t p d [] lic h = inl h
held_license-Drawn t p d (l ∷ ls) lic h =
    elim (Bool-cases (not (equal l.account t) || not (equal l.product p))) [
      | inl strange ↦ Drawn-more d l ls lic (held_license-Drawn t p d ls lic (rw strange at h))
      | inr own ↦ elim (Bool-cases (active l)) [
        | inl live ↦ Drawn-some d l ls lic (inl (rw (own, live) at h))
        | inr idle ↦
            Drawn-some d l ls lic (held_license-Drawn t p (some l) ls lic (rw (own, idle) at h))
      ]
    ]

pub held_license-listed :
    (t p : Text) (ls : List License) (lic : License)
    → held_license t p none ls ≡ some lic
    → (earlier : List License) × (later : List License) × (ls ≡ earlier ++ (lic ∷ later))
unfolding Drawn
held_license-listed t p ls lic h = elim (held_license-Drawn t p none ls lic h) [
  | inl e ↦ absurd (ground (arith, e))
  | inr placed ↦ placed
]
