-- ===== src/Http/Guards/Reading.antt =====
-- The check of a request does not write to the disk.
use proxmox_license_proxy.Prelude.{Text, Option, none, some, ◌≡◌, refl, ◌∙◌, arith}
use proxmox_license_proxy.Result.{Result, ok, err}
use proxmox_license_proxy.Exec.{lift, >>=-keeps}
use proxmox_license_proxy.Registry.Operations.{get_account}
use proxmox_license_proxy.Registry.Store.{World, Disk}
use proxmox_license_proxy.Registry.Store.Reading.{reading-disk}
use proxmox_license_proxy.Registry.Api
use proxmox_license_proxy.Acme.Jws
use proxmox_license_proxy.Acme.Jws.{
  Jose, Jwk, Verified, ProtectedHeader, read_header, check_signature, resolved, key_of_header,
}
use proxmox_license_proxy.Http.Server.{Request, Moment, Library, Content, HttpServer, write_fresh}
use proxmox_license_proxy.Http.Guards.{
  resolve_key, check_nonce, check_url, check_verified, check_body, verify_jws,
}

module _ {S D : Type 0} (jose : Jose) (resolve : Text → S → Option Text × S) (f : S → D)
    (keeps : (kid : Text) (s : S) → f (resolve kid s).1 ≡ f s) where
  resolved-keeps : (kid : Text) (s : S) → f (resolved jose resolve kid s).1 ≡ f s
  unfolding resolved
  resolved-keeps kid s = ground (arith, keeps kid s)

  key-keeps :
      (jwk : Option Jwk) (kid : Text) (s : S) → f (key_of_header jose resolve jwk kid s).1 ≡ f s
  unfolding key_of_header
  key-keeps none kid s = ground (arith, resolved-keeps kid s)
  key-keeps (some jwk) kid s = ground arith

  lift-keeps : {A : Type 0} (r : Result A) (s : S) → f (lift r s).1 ≡ f s
  unfolding lift
  lift-keeps r s = refl

  verify-keeps : (raw : Text) (s : S) → f (Jws.verify jose resolve raw s).1 ≡ f s
  unfolding Jws.verify
  verify-keeps raw s = >>=-keeps f (lift _) _ s (lift-keeps _ s) λ j t.
      >>=-keeps f (lift (read_header jose j)) _ t (lift-keeps _ t) λ header u.
        >>=-keeps f (key_of_header jose resolve header.jwk header.kid) _ u
          (key-keeps header.jwk header.kid u) λ key x. lift-keeps _ x

module _ (lib : Library) where
  open lib use {codec, jose}

  resolve_key-disk :
      (kid : Text) (w : World (Content lib)) → (resolve_key lib kid w).1.disk ≡ w.disk
  unfolding resolve_key Api.get_account
  resolve_key-disk kid w = reading-disk codec (get_account kid) w

  abbrev pub disk_of : HttpServer lib → Disk (Content lib)
  disk_of s = s.service.world.disk

  checked-disk :
      (m : Moment) (r : Request) (res : Result Verified) (s : HttpServer lib)
      → disk_of (check_verified lib m r res s).1 ≡ disk_of s
  unfolding check_url check_nonce write_fresh
  checked-disk m r (err e) s = refl
  checked-disk m r (ok v) s = ground arith

  body-disk :
      (m : Moment) (r : Request) (body : Option Text) (s : HttpServer lib)
      → disk_of (check_body lib m r body s).1 ≡ disk_of s
  unfolding write_fresh
  body-disk m r none s = refl
  body-disk m r (some raw) s =
      let ran = Jws.verify jose (resolve_key lib) raw s.service.world in
      checked-disk m r ran.0 (record s { service = record s.service { world = ran.1 } })
      ∙ verify-keeps jose (resolve_key lib) (λ w. w.disk) resolve_key-disk raw s.service.world

  pub verify_jws-disk :
      (m : Moment) (r : Request) (s : HttpServer lib) → disk_of (verify_jws lib m r s).1 ≡ disk_of s
  unfolding verify_jws
  verify_jws-disk m r s = body-disk m r r.body s
