-- ===== src/Http/Guards.antt =====
-- internal/transport/httpapi/apiv1.go: the checks in front of the handlers, of a signed request and
-- of an admin.
pub mod Reading
use proxmox_license_proxy.Prelude.{
  ℕ, Text, bytes, equal, has_prefix, not, ◌||◌, Bool, Option, none, some, [], ◌++◌, length, drop,
  if◌then◌else◌,
}
use proxmox_license_proxy.Result.{Error, Result, ok, err, unknown_account}
use proxmox_license_proxy.Subscription.Model.{Account}
use proxmox_license_proxy.Registry.Store.{World}
use proxmox_license_proxy.Registry.Api
use proxmox_license_proxy.Acme.Nonces.{consume}
use proxmox_license_proxy.Acme.Jws
use proxmox_license_proxy.Acme.Jws.{Verified, jwk_ed25519}
use proxmox_license_proxy.Http.Server.{
  Request, Moment, Body, message, fault, Reply, Library, Options, Content, HttpServer, Checked,
  refused, passed, write, problem, base_url,
}

-- Whether a text is `s` behind a prefix, as strings.HasPrefix and strings.TrimPrefix have it.
abbrev pub bearer : Text
bearer = bytes "Bearer "

-- `errors.Is(err, acme.ErrUnknownAccount)`
unfoldable pub jws_error_code : Error → ℕ
jws_error_code unknown_account = 401
jws_error_code _ = 400

module _ (lib : Library) where
  open lib use {codec, jose}

  abbrev account_key : Result (Option Account) → Option Text
  account_key (err e) = none
  account_key (ok none) = none
  account_key (ok (some acc)) =
      elim (jwk_ed25519 jose
        (record { kty = bytes "OKP"; crv = bytes "Ed25519"; x = acc.public_key })) [
          | err e ↦ none
          | ok pub_key ↦ some pub_key
        ]

  -- The key of an account that is known, whatever its status.
  unfoldable pub resolve_key : Text → World (Content lib) → Option Text × World (Content lib)
  resolve_key kid w = let (r, w') = Api.get_account codec kid w in (account_key r, w')

  -- What writes a reply and lets nothing pass.
  abbrev refuse : {A : Type 0} → Reply × HttpServer lib → Checked lib A × HttpServer lib
  refuse (r, s) = (refused r, s)

  -- The nonce is consumed before it is judged.
  unfoldable pub check_nonce :
      Moment → Verified → HttpServer lib → Checked lib Verified × HttpServer lib
  check_nonce m v s =
      let (fresh, nonces) = consume m.used v.header.nonce s.nonces in
      let s' = record s { nonces = nonces } in
      if fresh
      then (passed v, s')
      else refuse (problem lib m 400 (message (bytes "bad or expired nonce; fetch a new one")) s')

  unfoldable pub check_url :
      Moment → Request → Verified → HttpServer lib → Checked lib Verified × HttpServer lib
  check_url m r v s =
      if not (equal v.header.url (base_url lib r ++ r.path))
      then refuse (problem lib m 400 (message (bytes "JWS url does not match request")) s)
      else check_nonce m v s

  abbrev pub check_verified :
      Moment → Request → Result Verified → HttpServer lib → Checked lib Verified × HttpServer lib
  check_verified m r (err e) s = refuse (problem lib m (jws_error_code e) (fault e) s)
  check_verified m r (ok v) s = check_url m r v s

  abbrev pub check_body :
      Moment → Request → Option Text → HttpServer lib → Checked lib Verified × HttpServer lib
  check_body m r none s = refuse (problem lib m 400 (message (bytes "cannot read body")) s)
  check_body m r (some raw) s =
      let (v, w) = Jws.verify jose resolve_key raw s.service.world in
      check_verified m r v (record s { service = record s.service { world = w } })

  -- `verifyJWS`
  unfoldable pub verify_jws :
      Moment → Request → HttpServer lib → Checked lib Verified × HttpServer lib
  verify_jws m r s = check_body m r r.body s

  -- `requireAdmin`
  unfoldable pub require_admin :
      Options lib.net → Request → HttpServer lib → Checked lib (Unit {0}) × HttpServer lib
  require_admin options r s =
      if equal options.admin_token []
      then refuse (write lib 403 (message (bytes "admin API is disabled (set api.admin_token)")) s)
      else if not (has_prefix r.authorization bearer)
          || not (equal (drop (length bearer) r.authorization) options.admin_token)
      then refuse (write lib 401 (message (bytes "invalid admin token")) s)
      else (passed tt, s)
