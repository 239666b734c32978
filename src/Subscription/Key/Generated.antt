-- ===== src/Subscription/Key/Generated.antt =====
-- What GenerateKey returns, and how the other functions of key.go read it.
use proxmox_license_proxy.Prelude.{
  ℕ, ◌/◌, ◌%◌, ◌<◌, Text, bytes, equal, equal_iff, true, false, [], ◌∷◌, ◌++◌, length, take, All,
  ◌≡◌, refl, ◌⊎◌, inl, inr, arith,
}
use proxmox_license_proxy.Result.{ok}
use proxmox_license_proxy.Subscription.Key.{
  is_hex, pve, pbs, pmg, product_code, level_name, lab_signature, default_sockets, valid_sockets,
  Draw, read_failed, drawn, hex_digit, hex_encode, or_default, known_level, generate_key,
}
use proxmox_license_proxy.Subscription.Key.Format.{IsLevel, IsSocketDigit, IsHex, is_hex-to}

hex_digit-IsHex : (n : ℕ) → n < 16 → IsHex (hex_digit n)
unfolding hex_digit is_hex
hex_digit-IsHex n h = is_hex-to (hex_digit n) (ground arith)

abbrev pub Seven : Text → Type 0
Seven hex = (length hex ≡ 7) × All IsHex hex

high-IsHex : (b : ℕ) → IsHex (hex_digit (b % 256 / 16))
high-IsHex b = hex_digit-IsHex (b % 256 / 16) (omega arith)

low-IsHex : (b : ℕ) → IsHex (hex_digit (b % 16))
low-IsHex b = hex_digit-IsHex (b % 16) (omega arith)

take-hex_encode : (a b c d : ℕ) → Seven (take 7 (hex_encode a b c d))
unfolding hex_encode
take-hex_encode a b c d = (
  refl,
  (
    high-IsHex a,
    (low-IsHex a, (high-IsHex b, (low-IsHex b, (high-IsHex c, (low-IsHex c, (high-IsHex d, tt)))))),
  ),
)

product_code-cases : (p : Text) → product_code p ≡ true → (p ≡ pve) ⊎ (p ≡ pbs) ⊎ (p ≡ pmg)
unfolding product_code
product_code-cases p h = ground (arith, equal_iff p pve, equal_iff p pbs, equal_iff p pmg)

known_level-byte : (l : Text) → known_level l ≡ true → (c : ℕ) × (l ≡ c ∷ []) × IsLevel c
unfolding known_level level_name equal
known_level-byte [] h = cc
known_level-byte (c ∷ []) h = (c, refl, ground arith)
known_level-byte (c ∷ d ∷ l) h = cc

valid_sockets-digit : (s : Text) → valid_sockets s ≡ true → (d : ℕ) × (s ≡ d ∷ []) × IsSocketDigit d
unfolding valid_sockets equal
valid_sockets-digit [] h = cc
valid_sockets-digit (d ∷ []) h = (d, refl, ground arith)
valid_sockets-digit (d ∷ e ∷ s) h = absurd (ground arith)

-- The key that stands for a product, a level and, for PVE, a number of sockets.
pub data Minted (product level sockets key : Text) : Type 0 where
  for_pve :
      (d l : ℕ) (hex : Text)
      → product ≡ pve
      → IsSocketDigit d
      → or_default sockets default_sockets ≡ d ∷ []
      → IsLevel l
      → or_default level (bytes "c") ≡ l ∷ []
      → Seven hex
      → key ≡ pve ++ d ∷ l ∷ b'-' ∷ (lab_signature ++ hex)
      → Minted product level sockets key
  for_pbs :
      (l : ℕ) (hex : Text)
      → product ≡ pbs
      → IsLevel l
      → or_default level (bytes "c") ≡ l ∷ []
      → Seven hex
      → key ≡ pbs ++ l ∷ b'-' ∷ (lab_signature ++ hex)
      → Minted product level sockets key
  for_pmg :
      (l : ℕ) (hex : Text)
      → product ≡ pmg
      → IsLevel l
      → or_default level (bytes "c") ≡ l ∷ []
      → Seven hex
      → key ≡ pmg ++ l ∷ b'-' ∷ (lab_signature ++ hex)
      → Minted product level sockets key

-- The key that `generate_key` puts together when nothing stands against it.
abbrev sockets_key : Text → Text → Text → Text → Text
sockets_key product n l hex = product ++ (n ++ (l ++ (bytes "-" ++ (lab_signature ++ hex))))

abbrev plain_key : Text → Text → Text → Text
plain_key product l hex = product ++ (l ++ (bytes "-" ++ (lab_signature ++ hex)))

abbrev random_part : ℕ → ℕ → ℕ → ℕ → Text
random_part a b c d = take 7 (hex_encode a b c d)

module _ (product level sockets : Text) (a b c d : ℕ) {key : Text} where
  module _ (made : generate_key product level sockets (drawn a b c d) ≡ ok key) where
    made-product_code : product_code product ≡ true
    unfolding generate_key
    made-product_code = ground arith

    made-known_level : known_level (or_default level (bytes "c")) ≡ true
    unfolding generate_key
    made-known_level = ground arith

    made_pve :
        equal product pve ≡ true
        → (valid_sockets (or_default sockets default_sockets) ≡ true)
          × (key
              ≡ sockets_key product
                  (or_default sockets default_sockets)
                  (or_default level (bytes "c"))
                  (random_part a b c d))
    unfolding generate_key
    made_pve e = ground arith

    made_plain :
        equal product pve ≡ false
        → key ≡ plain_key product (or_default level (bytes "c")) (random_part a b c d)
    unfolding generate_key
    made_plain e = ground arith

    -- Every key that is returned is one of the three forms.
    generated-Minted : Minted product level sockets key
    generated-Minted =
        let (l, le, lok) = known_level-byte _ made-known_level in
        let hex : Seven (random_part a b c d) = take-hex_encode a b c d in
        elim (product_code-cases product made-product_code) [
          | inl e ↦
              let (vs, ke) = made_pve ((equal_iff product pve).1 e) in
              let (n, ne, nok) = valid_sockets-digit _ vs in
              for_pve n l (random_part a b c d) e nok ne lok le hex (rw (ke, e, ne, le) refl)
          | inr (inl e) ↦
              let ke = made_plain (rw e (unfold equal in refl)) in
              for_pbs l (random_part a b c d) e lok le hex (rw (ke, e, le) refl)
          | inr (inr e) ↦
              let ke = made_plain (rw e (unfold equal in refl)) in
              for_pmg l (random_part a b c d) e lok le hex (rw (ke, e, le) refl)
        ]

pub generate_key-Minted :
    (product level sockets : Text) (draw : Draw) {key : Text}
    → generate_key product level sockets draw ≡ ok key
    → Minted product level sockets key
unfolding generate_key
generate_key-Minted product level sockets read_failed h = absurd (ground arith)
generate_key-Minted product level sockets (drawn a b c d) h =
    generated-Minted product level sockets a b c d h
