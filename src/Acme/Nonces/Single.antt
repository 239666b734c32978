-- ===== src/Acme/Nonces/Single.antt =====
-- A nonce is accepted at most once for each time that it was issued.
use proxmox_license_proxy.Prelude.{
  ℕ, ◌+◌, ◌≤◌, Text, equal, equal_iff, Bool, Option, none, some, Option-cases, List, [], ◌∷◌, inl,
  inr, arith, if◌then◌else◌,
}
use proxmox_license_proxy.Registry.Keyed.{find, find-put, find-remove}
use proxmox_license_proxy.Acme.Nonces.{
  Issued, NonceStore, new_nonce_store, Readings, collect, issue, consume,
}

-- What the server does with its nonces, in the order in which it holds the lock.

pub data Event : Type 0 where
  issues : Readings → Option Text → Event
  uses : ℕ → Text → Event

abbrev pub after : Event → NonceStore → NonceStore
after (issues at draw) s = (issue at draw s).1
after (uses now nonce) s = (consume now nonce s).1

abbrev pub run : List Event → NonceStore → NonceStore
run [] s = s
run (e ∷ es) s = run es (after e s)

abbrev count : Bool → ℕ
count b = if b then 1 else 0

-- Whether an event hands out the nonce, and whether it accepts it.
abbrev pub hands_out : Text → Event → ℕ
hands_out n (issues at none) = 0
hands_out n (issues at (some nonce)) = count (equal nonce n)
hands_out n (uses now nonce) = 0

abbrev pub accepts : Text → Event → NonceStore → ℕ
accepts n (issues at draw) s = 0
accepts n (uses now nonce) s = if equal nonce n then count (consume now nonce s).0 else 0

abbrev pub times_issued : Text → List Event → ℕ
times_issued n [] = 0
times_issued n (e ∷ es) = hands_out n e + times_issued n es

abbrev pub times_accepted : Text → List Event → NonceStore → ℕ
times_accepted n [] s = 0
times_accepted n (e ∷ es) s = accepts n e s + times_accepted n es (after e s)

abbrev pub held : Option Issued → ℕ
held none = 0
held (some e) = 1

abbrev pub lookup : Text → List Issued → Option Issued
lookup = find (λ e. e.nonce)

pub lookup-collect :
    (now : ℕ) (n : Text) (es : List Issued) → held (lookup n (collect now es)) ≤ held (lookup n es)
unfolding find collect
lookup-collect now n [] = ground arith
lookup-collect now n (e ∷ es) = ground (arith, lookup-collect now n es)

-- One event: what it accepts and leaves is bounded by what was there and what it hands out.
step_bound :
    (n : Text) (e : Event) (s : NonceStore)
    → accepts n e s + held (lookup n (after e s).issued) ≤ held (lookup n s.issued) + hands_out n e
unfolding issue consume
step_bound n (issues at none) s = ground arith
step_bound n (issues at (some nonce)) s = ground (
  arith,
  find-put (λ e. e.nonce) (record { nonce = nonce; expires = at.issued + s.ttl }) n
      (collect at.collected s.issued),
  lookup-collect at.collected n s.issued,
  equal_iff nonce n,
)
step_bound n (uses now nonce) s = elim (Option-cases (lookup nonce s.issued)) [
  | inl absent ↦ ground (arith, equal_iff nonce n)
  | inr (e, found) ↦ ground (arith, find-remove (λ e. e.nonce) nonce n s.issued, equal_iff nonce n)
]

pub run_bound :
    (n : Text) (es : List Event) (s : NonceStore)
    → times_accepted n es s + held (lookup n (run es s).issued)
      ≤ held (lookup n s.issued) + times_issued n es
run_bound n [] s = ground arith
run_bound n (e ∷ es) s = omega (arith, step_bound n e s, run_bound n es (after e s))

-- In whatever order a new store issues and consumes nonces, and whatever the clock and the generator
-- of random bytes give, a nonce is accepted at most as often as it was issued; with a nonce that is
-- issued once, at most one request is accepted.
pub times_accepted_lem :
    (ttl : ℕ) (n : Text) (es : List Event)
    → times_accepted n es (new_nonce_store ttl) ≤ times_issued n es
unfolding new_nonce_store find
times_accepted_lem ttl n es = omega (arith, run_bound n es (new_nonce_store ttl))
