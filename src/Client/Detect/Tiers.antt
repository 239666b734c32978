-- ===== src/Client/Detect/Tiers.antt =====
-- The number of sockets that a client asks for is one that a PVE key can have.
use proxmox_license_proxy.Prelude.{
  ℕ, ◌+◌, ◌≤◌, ◌<◌, Text, bytes, equal, true, false, some, [], ◌∷◌, ◌++◌, take, leb, Bool-cases,
  has_prefix, ◌≡◌, ◌⊎◌, inl, inr, refl, arith,
}
use proxmox_license_proxy.Result.{ok}
use proxmox_license_proxy.Subscription.Key.{
  pve, drawn, or_default, known_level, generate_key, key_sockets, socket_value, valid_sockets,
  product_code, lab_signature, hex_encode,
}
use proxmox_license_proxy.Subscription.Model.{License}
use proxmox_license_proxy.App.Sockets.{pos, atoi, needs_socket_upgrade}
use proxmox_license_proxy.Client.Detect.{pve_socket_tier}

-- `k` is the least of 1, 2, 4 and 8 that is at least `n`, or 8 where `n` is above.

pub record IsTier (n k : ℕ) : Type 0 where
  pub one_of : (k ≡ 1) ⊎ (k ≡ 2) ⊎ (k ≡ 4) ⊎ (k ≡ 8)
  pub enough : (n ≤ k) ⊎ ((k ≡ 8) × (8 < n))
  pub least : (k ≡ 1) ⊎ (k < n + n)

pub record TierKey (n : ℕ) (level : Text) (a b c d : ℕ) : Type 0 where
  pub key : Text
  pub made : generate_key pve level (pve_socket_tier (pos n)) (drawn a b c d) ≡ ok key
  pub tier : IsTier n (key_sockets key)
  pub kept :
      (lic : License)
      → needs_socket_upgrade pve (pve_socket_tier (pos n)) (record lic { key = key }) ≡ false

-- The digit stands for `k` sockets, in a key and as a number.
record ReadsAs (digit k : ℕ) : Type 0 where
  pub valid : valid_sockets (digit ∷ []) ≡ true
  pub value : socket_value digit ≡ k
  pub number : atoi (digit ∷ []) ≡ some (pos k)

record Tier (n : ℕ) : Type 0 where
  pub digit : ℕ
  pub sockets : ℕ
  pub text : pve_socket_tier (pos n) ≡ digit ∷ []
  pub reads : ReadsAs digit sockets
  pub fits : IsTier n sockets

one : ReadsAs b'1' 1
unfolding valid_sockets socket_value atoi equal
one = record { valid = refl; value = refl; number = refl }

two : ReadsAs b'2' 2
unfolding valid_sockets socket_value atoi equal
two = record { valid = refl; value = refl; number = refl }

four : ReadsAs b'4' 4
unfolding valid_sockets socket_value atoi equal
four = record { valid = refl; value = refl; number = refl }

eight : ReadsAs b'8' 8
unfolding valid_sockets socket_value atoi equal
eight = record { valid = refl; value = refl; number = refl }

Tier-of : (n : ℕ) → Tier n
unfolding pve_socket_tier
Tier-of n = elim (Bool-cases (leb n 1)) [
  | inl a ↦ record {
    digit = b'1';
    sockets = 1;
    text = rw a refl;
    reads = one;
    fits = record { one_of = inl refl; enough = inl (ground arith); least = inl refl };
  }
  | inr a ↦ elim (Bool-cases (leb n 2)) [
    | inl b ↦ record {
      digit = b'2';
      sockets = 2;
      text = rw (a, b) refl;
      reads = two;
      fits = record {
        one_of = inr (inl refl);
        enough = inl (ground arith);
        least = inr (ground arith);
      };
    }
    | inr b ↦ elim (Bool-cases (leb n 4)) [
      | inl c ↦ record {
        digit = b'4';
        sockets = 4;
        text = rw (a, b, c) refl;
        reads = four;
        fits = record {
          one_of = inr (inr (inl refl));
          enough = inl (ground arith);
          least = inr (ground arith);
        };
      }
      | inr c ↦ record {
        digit = b'8';
        sockets = 8;
        text = rw (a, b, c) refl;
        reads = eight;
        fits = record {
          one_of = inr (inr (inr refl));
          enough = ground arith;
          least = inr (ground arith);
        };
      }
    ]
  ]
]

-- A key with this digit and a level.
abbrev key_with : ℕ → Text → ℕ → ℕ → ℕ → ℕ → Text
key_with digit level a b c d =
    pve
    ++ (digit ∷ []
        ++ (or_default level (bytes "c")
            ++ (bytes "-" ++ (lab_signature ++ take 7 (hex_encode a b c d)))))

module _ (digit k : ℕ) (reads : ReadsAs digit k) (level : Text) (a b c d : ℕ) where
  key_with-made :
      known_level (or_default level (bytes "c")) ≡ true
      → generate_key pve level (digit ∷ []) (drawn a b c d) ≡ ok (key_with digit level a b c d)
  unfolding generate_key product_code equal
  key_with-made known = rw (known, reads.valid) refl

  key_with-sockets : key_sockets (key_with digit level a b c d) ≡ k
  unfolding key_sockets has_prefix equal
  key_with-sockets = ground (arith, reads.value)

  key_with-kept :
      (lic : License)
      → needs_socket_upgrade pve (digit ∷ []) (record lic { key = key_with digit level a b c d })
        ≡ false
  unfolding needs_socket_upgrade equal
  key_with-kept lic = ground (arith, reads.number, key_with-sockets)

-- For any number of sockets and a level that is known, every draw of random bytes gives a
-- key. The key has the least of 1, 2, 4 and 8 sockets that is enough, or 8 where none is, and a
-- license with it is not upgraded when the client orders again.
pub pve_socket_tier-TierKey :
    (n : ℕ) (level : Text) (a b c d : ℕ)
    → known_level (or_default level (bytes "c")) ≡ true
    → TierKey n level a b c d
pve_socket_tier-TierKey n level a b c d known =
    let t = Tier-of n in
    record {
      key = key_with t.digit level a b c d;
      made = rw (t.text) (key_with-made t.digit t.sockets t.reads level a b c d known);
      tier = rw (key_with-sockets t.digit t.sockets t.reads level a b c d) (t.fits);
      kept = λ lic. rw (t.text) (key_with-kept t.digit t.sockets t.reads level a b c d lic);
    }
