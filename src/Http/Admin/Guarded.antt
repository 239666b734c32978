-- ===== src/Http/Admin/Guarded.antt =====
-- Nothing below /api/v1/admin happens without the token.
use proxmox_license_proxy.Prelude.{
  Text, equal, equal_iff, has_prefix, has_prefix-append, Bool, Bool-cases, true, false, not, [],
  ◌++◌, length, drop, ◌∷◌, ◌&&◌, equal_refl, ◌≡◌, ◌≢◌, ◌↔◌, ◌⊎◌, refl, ap, ◌∙◌, inl, inr, arith,
}
use proxmox_license_proxy.Http.Server.{Request, Library, Options, Reply, HttpServer}
use proxmox_license_proxy.Http.Guards.{bearer, require_admin}
use proxmox_license_proxy.Http.Admin.{AdminRoute, admin, admin_action}

module _ (lib : Library) (options : Options lib.net) where
  -- The request shows the token of the configuration, which has one.
  abbrev pub HasToken : Request → Type 0
  HasToken r = (options.admin_token ≢ []) × (r.authorization ≡ bearer ++ options.admin_token)

  drop-prefix : (s p : Text) → has_prefix s p ≡ true → s ≡ p ++ drop (length p) s
  unfolding has_prefix
  drop-prefix s [] h = refl
  drop-prefix [] (b ∷ p) h = cc
  drop-prefix (a ∷ s) (b ∷ p) h = ground (arith, drop-prefix s p)

  shows_token : Request → Bool
  shows_token r =
      not (equal options.admin_token [])
      && has_prefix r.authorization bearer
      && equal (drop (length bearer) r.authorization) options.admin_token

  shows_token_iff : (r : Request) → (shows_token r ≡ true) ↔ HasToken r
  unfolding shows_token
  shows_token_iff r = (
    λ h. ground (
      arith,
      equal_iff options.admin_token [],
      drop-prefix r.authorization bearer,
      equal_iff (drop (length bearer) r.authorization) options.admin_token,
    ),
    λ (given, shown). ground (
      arith,
      equal_iff options.admin_token [],
      ap (λ t. has_prefix t bearer) shown ∙ has_prefix-append bearer options.admin_token,
      ap (drop (length bearer)) shown,
      equal_refl options.admin_token,
    ),
  )

  -- The answer refuses the request, and nothing of the server has changed.
  pub record IsRefused (s s' : HttpServer lib) (r : Reply) : Type 0 where
    pub refusal : (r.code ≡ 401) ⊎ (r.code ≡ 403)
    pub unchanged : s' ≡ s

  admin-shown :
      (route : AdminRoute) (r : Request) (s : HttpServer lib)
      → shows_token r ≡ true
      → admin lib route options r s ≡ admin_action lib route r.param s
  unfolding admin require_admin shows_token
  admin-shown route r s h = ground arith

  admin-hidden :
      (route : AdminRoute) (r : Request) (s : HttpServer lib)
      → shows_token r ≡ false
      → IsRefused s (admin lib route options r s).1 (admin lib route options r s).0
  unfolding admin require_admin shows_token
  admin-hidden route r s h = record { refusal = ground arith; unchanged = ground arith }

  -- An endpoint below /api/v1/admin does its work exactly for a request whose Authorization header is
  -- "Bearer " and the configured token, where one is configured; any other request is answered 401
  -- or 403, and neither the registry nor the nonces are touched.
  pub admin-Guarded :
      (route : AdminRoute) (r : Request) (s : HttpServer lib)
      → (HasToken r × (admin lib route options r s ≡ admin_action lib route r.param s))
        ⊎ ((¬ HasToken r)
            × IsRefused s (admin lib route options r s).1 (admin lib route options r s).0)
  admin-Guarded route r s = elim (Bool-cases (shows_token r)) [
    | inl shown ↦ inl ((shows_token_iff r).0 shown, admin-shown route r s shown)
    | inr hidden ↦ inr (λ h. ground (arith, (shows_token_iff r).1 h), admin-hidden route r s hidden)
  ]
