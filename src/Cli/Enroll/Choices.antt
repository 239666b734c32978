-- ===== src/Cli/Enroll/Choices.antt =====
-- What an enrolment asks for.
use proxmox_license_proxy.Prelude.{
  Text, equal, trim_space, ◌||◌, ◌&&◌, ◌==◌, not, Bool, Bool-cases, true, any, All, Option,
  Option-cases, some, List, [], ◌∷◌, ◌≡◌, refl, inl, inr, arith, if◌then◌else◌,
}
use proxmox_license_proxy.Result.{Result, ok, err}
use proxmox_license_proxy.Subscription.Key.{product_code}
use proxmox_license_proxy.Client.Detect.{
  Product, KnownProduct, known_products, product_of, all_products, detected, detect_products,
}
use proxmox_license_proxy.Cli.Enroll.{
  by_code, products_of, resolve_enroll_products, trim_slashes, has_scheme, checked_server,
  saved_server, installed_server, resolve_enroll_server,
}

abbrev pub IsSold : Product → Type 0
IsSold p = product_code p.code ≡ true

detected-IsSold :
    (look dir : Text → Bool) (ps : List KnownProduct)
    → All (λ p. IsSold (product_of p)) ps
    → All IsSold (detected look dir ps)
detected-IsSold look dir [] h = tt
detected-IsSold look dir (p ∷ ps) (h, hs) = elim (Bool-cases (any look p.bins || any dir p.dirs)) [
  | inl found ↦ rw found (h, detected-IsSold look dir ps hs)
  | inr missing ↦ rw missing (detected-IsSold look dir ps hs)
]

known_products-IsSold : All (λ p. IsSold (product_of p)) known_products
unfolding product_code equal
known_products-IsSold = (refl, (refl, (refl, tt)))

all_products-IsSold : All IsSold all_products
unfolding all_products product_code equal
all_products-IsSold = (refl, (refl, (refl, tt)))

by_code-IsSold :
    (code : Text) (ps : List Product) (p : Product)
    → All IsSold ps
    → by_code code ps ≡ some p
    → IsSold p
by_code-IsSold code [] p h e = absurd (ground arith)
by_code-IsSold code (q ∷ ps) p (h, hs) e = elim (Option-cases (by_code code ps)) [
  | inr (later, found) ↦ by_code-IsSold code ps p hs (ground (arith, found, e))
  | inl nothing ↦ ground (arith, nothing, e, h)
]

products_of-IsSold : (codes : List Text) → All IsSold (products_of codes)
unfolding products_of
products_of-IsSold [] = tt
products_of-IsSold (c ∷ cs) = elim (Option-cases (by_code (trim_space c) all_products)) [
  | inl unknown ↦ rw unknown (products_of-IsSold cs)
  | inr (p, found) ↦ rw found (
    by_code-IsSold (trim_space c) all_products p all_products-IsSold found,
    products_of-IsSold cs,
  )
]

-- Every product that an enrolment orders is one for which the proxy issues licenses, whatever is
-- detected and whatever is asked for.
pub resolve_enroll_products-IsSold :
    (look dir : Text → Bool) (codes : List Text)
    → All IsSold (resolve_enroll_products look dir codes)
unfolding resolve_enroll_products detect_products
resolve_enroll_products-IsSold look dir [] =
    detected-IsSold look dir known_products known_products-IsSold
resolve_enroll_products-IsSold look dir (c ∷ cs) = products_of-IsSold (c ∷ cs)

trim_slashes_idem : (s : Text) → trim_slashes (trim_slashes s) ≡ trim_slashes s
unfolding trim_slashes
trim_slashes_idem [] = refl
trim_slashes_idem (a ∷ s) = elim (Bool-cases (a == b'/' && equal (trim_slashes s) [])) [
  | inl cut ↦ rw cut refl
  | inr kept ↦ rw (kept, trim_slashes_idem s, kept) refl
]

abbrev pub IsServer : Text → Type 0
IsServer s = (has_scheme s ≡ true) × (trim_slashes s ≡ s)

checked_server-IsServer : (server s : Text) → checked_server server ≡ ok s → IsServer s
unfolding checked_server
checked_server-IsServer server s h =
    elim (Bool-cases (has_scheme (trim_slashes (trim_space server)))) [
      | inr bare ↦ absurd (ground (arith, h, bare))
      | inl whole ↦
          let e : trim_slashes (trim_space server) ≡ s = ground (arith, h, whole) in
          (rw (← e) whole, rw (← e) (trim_slashes_idem (trim_space server)))
    ]

-- The url of the server of an enrolment has a scheme, and no slash at its end, so that the paths
-- of the endpoints can be appended to it.
pub resolve_enroll_server-IsServer :
    (interactive : Bool) (saved : Result (Option Text)) (install : Result (Result (Option Text)))
    (server s : Text)
    → resolve_enroll_server interactive saved install server ≡ ok s
    → IsServer s
unfolding resolve_enroll_server
resolve_enroll_server-IsServer interactive saved install server s h =
    let reused = if equal server [] then saved_server saved else server in
    elim (Bool-cases (not (equal reused []))) [
      | inl given ↦ checked_server-IsServer reused s (rw given at h)
      | inr missing ↦ elim (Bool-cases (not interactive)) [
        | inl alone ↦ absurd (ground (arith, rw (missing, alone) at h))
        | inr asked ↦ by_install install (rw (missing, asked) at h)
      ]
    ]
  where
    by_install : (i : Result (Result (Option Text))) → installed_server i ≡ ok s → IsServer s
    by_install (err e) k = absurd (ground arith)
    by_install (ok found) k = checked_server-IsServer (saved_server found) s k
