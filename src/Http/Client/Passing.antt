-- ===== src/Http/Client/Passing.antt =====
-- What is known of a request that passes `verifyJWS`.
use proxmox_license_proxy.Prelude.{
  Text, equal_iff, true, Option, none, some, ◌≡◌, refl, sym, ap, ◌∙◌, ◌++◌, arith,
}
use proxmox_license_proxy.Result.{Result, ok, err}
use proxmox_license_proxy.Registry.Store.{World}
use proxmox_license_proxy.Acme.Nonces.{consume}
use proxmox_license_proxy.Acme.Jws
use proxmox_license_proxy.Acme.Jws.{Verified}
use proxmox_license_proxy.Acme.Jws.Authentic.{Authentic, verify-Authentic}
use proxmox_license_proxy.Http.Server.{
  Request, Moment, Library, Content, HttpServer, passed, write_fresh, base_url,
}
use proxmox_license_proxy.Http.Guards.{
  resolve_key, check_nonce, check_url, check_verified, check_body, verify_jws,
}

module _ (lib : Library) (m : Moment) (r : Request) where
  open lib use {codec, jose}

  -- The signature holds, the signed url is that of the request, and the nonce was outstanding and is
  -- consumed; beyond that only a read of the store has happened.
  pub record Passed (s t : HttpServer lib) (v : Verified) : Type 0 where
    pub raw : Text
    pub looked : World (Content lib)
    pub received : r.body ≡ some raw
    pub authentic : Authentic jose (resolve_key lib) raw s.service.world looked v
    pub url : v.header.url ≡ base_url lib r ++ r.path
    pub fresh : (consume m.used v.header.nonce s.nonces).0 ≡ true
    pub left : t ≡ record s {
      service = record s.service { world = looked };
      nonces = (consume m.used v.header.nonce s.nonces).1;
    }

  nonce-passed :
      (v w : Verified) (s t : HttpServer lib)
      → check_url lib m r w s ≡ (passed v, t)
      → (v ≡ w)
        × (v.header.url ≡ base_url lib r ++ r.path)
        × ((consume m.used v.header.nonce s.nonces).0 ≡ true)
        × (t ≡ record s { nonces = (consume m.used v.header.nonce s.nonces).1 })
  unfolding check_url check_nonce write_fresh
  nonce-passed v w s t h = ground (arith, equal_iff w.header.url (base_url lib r ++ r.path))

  verified-Passed :
      (s t : HttpServer lib) (v : Verified) (raw : Text) (res : Result Verified)
      (w : World (Content lib))
      → r.body ≡ some raw
      → Jws.verify jose (resolve_key lib) raw s.service.world ≡ (res, w)
      → check_verified lib m r res (record s { service = record s.service { world = w } })
        ≡ (passed v, t)
      → Passed s t v
  unfolding write_fresh
  verified-Passed s t v raw (err e) w b ran h = absurd (ground arith)
  verified-Passed s t v raw (ok x) w b ran h =
      let (same, url, fresh, left) =
        nonce-passed v x (record s { service = record s.service { world = w } }) t h in
      record {
        raw = raw;
        looked = w;
        received = b;
        authentic =
            verify-Authentic jose (resolve_key lib) raw s.service.world w v
              (ran ∙ ap (λ y. (ok y, w)) (sym same));
        url = url;
        fresh = fresh;
        left = left;
      }

  body-Passed :
      (s t : HttpServer lib) (v : Verified) (body : Option Text)
      → r.body ≡ body
      → check_body lib m r body s ≡ (passed v, t)
      → Passed s t v
  unfolding write_fresh
  body-Passed s t v none b h = absurd (ground arith)
  body-Passed s t v (some raw) b h =
      let ran = Jws.verify jose (resolve_key lib) raw s.service.world in
      verified-Passed s t v raw ran.0 ran.1 b refl h

  -- A request that passes `verifyJWS` carries a signature that holds by the key of its account or by
  -- the key that it embeds, was signed for the url of this request, and has a nonce that the server
  -- had outstanding, unexpired, and that is consumed. Beyond that only the store has been read.
  pub verify_jws-Passed :
      (s t : HttpServer lib) (v : Verified) → verify_jws lib m r s ≡ (passed v, t) → Passed s t v
  unfolding verify_jws
  verify_jws-Passed s t v h = body-Passed s t v r.body refl h
