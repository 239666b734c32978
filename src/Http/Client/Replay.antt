-- ===== src/Http/Client/Replay.antt =====
-- A request that was captured is of no use.
use proxmox_license_proxy.Prelude.{
  ℕ, Text, none, Option-cases, List, equal_refl, ◌≡◌, ◌≢◌, ap, ◌∙◌, inl, inr, arith, true,
}
use proxmox_license_proxy.Registry.Keyed.{find-remove}
use proxmox_license_proxy.Acme.Nonces.{NonceStore, consume}
use proxmox_license_proxy.Acme.Nonces.Single.{Event, run, times_issued, held, lookup, run_bound}
use proxmox_license_proxy.Acme.Jws.{Verified}
use proxmox_license_proxy.Http.Server.{Request, Moment, Library, HttpServer, passed}
use proxmox_license_proxy.Http.Guards.{verify_jws}
use proxmox_license_proxy.Http.Client.Passing.{verify_jws-Passed}

consumed-gone : (now : ℕ) (n : Text) (s : NonceStore) → lookup n (consume now n s).1.issued ≡ none
unfolding consume
consumed-gone now n s = elim (Option-cases (lookup n s.issued)) [
  | inl absent ↦ ground arith
  | inr (e, found) ↦ ground (arith, find-remove (λ e. e.nonce) n n s.issued, equal_refl n)
]

fresh-held :
    (now : ℕ) (n : Text) (s : NonceStore)
    → (consume now n s).0 ≡ true
    → held (lookup n s.issued) ≡ 1
unfolding consume
fresh-held now n s h = elim (Option-cases (lookup n s.issued)) [
  | inl absent ↦ absurd (ground arith)
  | inr (e, found) ↦ ground arith
]

-- Once a request has passed, no request with its nonce passes, at whatever time and whatever the
-- server has done in between with its nonces, if it has not issued that nonce again.
pub replay_refused :
    (lib : Library) (m m' : Moment) (r r' : Request) (s t u t' : HttpServer lib) (v v' : Verified)
    (es : List Event)
    → verify_jws lib m r s ≡ (passed v, t)
    → u.nonces ≡ run es t.nonces
    → times_issued v.header.nonce es ≡ 0
    → v'.header.nonce ≡ v.header.nonce
    → verify_jws lib m' r' u ≢ (passed v', t')
replay_refused lib m m' r r' s t u t' v v' es first between none_issued same second =
    let n = v.header.nonce in
    let p = verify_jws-Passed lib m r s t v first in
    let q = verify_jws-Passed lib m' r' u t' v' second in
    let gone : held (lookup n t.nonces.issued) ≡ 0 =
      ap (λ (x : HttpServer lib). held (lookup n x.nonces.issued)) p.left
      ∙ ap held (consumed-gone m.used n s.nonces) in
    let there : held (lookup v'.header.nonce u.nonces.issued) ≡ 1 =
      fresh-held m'.used v'.header.nonce u.nonces q.fresh in
    let there' : held (lookup n (run es t.nonces).issued) ≡ 1 = rw (same, between) at there in
    omega (arith, run_bound n es t.nonces)
