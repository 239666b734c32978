-- ===== src/Acme/Nonces.antt =====
-- internal/acme/nonce.go: the replay nonces. The map from a nonce to its expiry is a list that is
-- keyed by the nonce; a time is a number of nanoseconds.
pub mod Single
pub mod Lifetime
use proxmox_license_proxy.Prelude.{
  ℕ, ◌+◌, Text, Bool, false, ltb, Option, none, some, List, [], ◌∷◌, if◌then◌else◌,
}
use proxmox_license_proxy.Registry.Keyed.{find, put, remove}

pub record Issued : Type 0 where
  pub nonce : Text
  pub expires : ℕ

pub record NonceStore : Type 0 where
  pub issued : List Issued
  pub ttl : ℕ

unfoldable pub new_nonce_store : ℕ → NonceStore
new_nonce_store ttl = record { issued = []; ttl = ttl }

-- The readings of the clock in one call of `Issue`: that of `gcLocked` and that of `Issue`.
pub record Readings : Type 0 where
  pub collected : ℕ
  pub issued : ℕ

-- `gcLocked`: drops the nonces with `now.After(exp)`.
unfoldable pub collect : ℕ → List Issued → List Issued
collect now [] = []
collect now (e ∷ es) = let rest = collect now es in if ltb e.expires now then rest else e ∷ rest

-- The nonce is the base64 of what crypto/rand gives, which may be nothing.
unfoldable pub issue : Readings → Option Text → NonceStore → Option Text × NonceStore
issue at none s = (none, s)
issue at (some nonce) s = (
  some nonce,
  record s {
    issued =
        put (λ e. e.nonce) (record { nonce = nonce; expires = at.issued + s.ttl })
          (collect at.collected s.issued);
  },
)

abbrev pub use_found : ℕ → Text → Option Issued → NonceStore → Bool × NonceStore
use_found now nonce none s = (false, s)
use_found now nonce (some e) s =
    (ltb now e.expires, record s { issued = remove (λ e. e.nonce) nonce s.issued })

-- `Use`: whether the nonce is accepted.
unfoldable pub consume : ℕ → Text → NonceStore → Bool × NonceStore
consume now nonce s = use_found now nonce (find (λ e. e.nonce) nonce s.issued) s
