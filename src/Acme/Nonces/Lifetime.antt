-- ===== src/Acme/Nonces/Lifetime.antt =====
-- A nonce that was issued is accepted until it expires.
use proxmox_license_proxy.Prelude.{
  ℕ, ◌+◌, ◌≤◌, Text, equal, equal_refl, ltb, false, none, some, List, [], ◌∷◌, ◌≡◌, ap, arith,
}
use proxmox_license_proxy.Registry.Keyed.{find, find-put, find-remove}
use proxmox_license_proxy.Acme.Nonces.{
  Issued, NonceStore, Readings, collect, issue, use_found, consume,
}
use proxmox_license_proxy.Acme.Nonces.Single.{Event, issues, uses, after, run}

abbrev id : Issued → Text
id e = e.nonce

-- The event is not about the nonce, and its collection comes no later than the expiry.
abbrev pub Spares : Text → ℕ → Event → Type 0
Spares n expiry (issues at none) = Unit
Spares n expiry (issues at (some nonce)) = (equal nonce n ≡ false) × (at.collected ≤ expiry)
Spares n expiry (uses now nonce) = equal nonce n ≡ false

abbrev pub Spared : Text → ℕ → List Event → Type 0
Spared n expiry [] = Unit
Spared n expiry (e ∷ es) = Spares n expiry e × Spared n expiry es

find-collect :
    (now : ℕ) (n : Text) (es : List Issued) (e : Issued)
    → find id n es ≡ some e
    → now ≤ e.expires
    → find id n (collect now es) ≡ some e
unfolding find collect
find-collect now n [] e f l = absurd (ground arith)
find-collect now n (d ∷ es) e f l = ground (arith, find-collect now n es e)

after-Spares :
    (n : Text) (v : Event) (s : NonceStore) (e : Issued)
    → find id n s.issued ≡ some e
    → Spares n e.expires v
    → find id n (after v s).issued ≡ some e
unfolding issue consume
after-Spares n (issues at none) s e f h = f
after-Spares n (issues at (some nonce)) s e f (other, l) = ground (
  arith,
  find-put id (record { nonce = nonce; expires = at.issued + s.ttl }) n
      (collect at.collected s.issued),
  find-collect at.collected n s.issued e f l,
)
after-Spares n (uses now nonce) s e f other = ground (arith, find-remove id nonce n s.issued)

run-Spared :
    (n : Text) (es : List Event) (s : NonceStore) (e : Issued)
    → find id n s.issued ≡ some e
    → Spared n e.expires es
    → find id n (run es s).issued ≡ some e
run-Spared n [] s e f h = f
run-Spared n (v ∷ es) s e f (h, hs) = run-Spared n es (after v s) e (after-Spares n v s e f h) hs

-- A nonce that was issued is accepted exactly before its expiry, whatever the server did with other
-- nonces in between, if no collection in between read a clock that was past the expiry.
pub consume-issue :
    (n : Text) (at : Readings) (s : NonceStore) (es : List Event) (now : ℕ)
    → Spared n (at.issued + s.ttl) es
    → (consume now n (run es (issue at (some n) s).1)).0 ≡ ltb now (at.issued + s.ttl)
unfolding issue consume
consume-issue n at s es now h =
    let e : Issued = record { nonce = n; expires = at.issued + s.ttl } in
    let start = issue at (some n) s in
    let found : find id n start.1.issued ≡ some e =
      ground (arith, find-put id e n (collect at.collected s.issued), equal_refl n) in
    ap (λ o. (use_found now n o (run es start.1)).0) (run-Spared n es start.1 e found h)
