-- ===== src/App/Sockets.antt =====
-- internal/app/service.go: `needsSocketUpgrade`, with strconv.Atoi on a 64-bit platform.
use proxmox_license_proxy.Prelude.{
  ℕ, zero, suc, ◌+◌, ◌-◌, ◌*◌, Text, bytes, equal, Bool, false, not, ◌&&◌, ◌||◌, Option, none, some,
  [], ◌∷◌, leb, ltb, ◌==◌, all, true, Bool-cases, equal_iff, ◌≤◌, ◌<◌, ◌⊎◌, inl, inr, ◌≢◌, arith,
  ◌≡◌, refl, if◌then◌else◌,
}
use proxmox_license_proxy.Subscription.Key.{pve, key_sockets}
use proxmox_license_proxy.Subscription.Model.{License}

-- `negsuc n` is -(n + 1).

pub data ℤ : Type 0 where
  pos : ℕ → ℤ
  negsuc : ℕ → ℤ

abbrev negate : ℕ → ℤ
negate zero = pos zero
negate (suc n) = negsuc n

-- The value of a text of digits, read behind the value `n`.
digits_from : ℕ → Text → Option ℕ
digits_from n [] = some n
digits_from n (c ∷ s) =
    let rest = digits_from (n * 10 + (c - b'0')) s in
    if leb b'0' c && leb c b'9' then rest else none

unsigned : Text → Option ℕ
unfolding digits_from
unsigned [] = none
unsigned (c ∷ s) = digits_from 0 (c ∷ s)

abbrev max_int : ℕ
max_int = 9223372036854775807

abbrev in_range : ℕ → (ℕ → ℤ) → Option ℕ → Option ℤ
in_range most sign none = none
in_range most sign (some n) = if leb n most then some (sign n) else none

-- The error case is `none`.
unfoldable pub atoi : Text → Option ℤ
unfolding unsigned
atoi [] = none
atoi (c ∷ s) =
    if c == b'-'
    then in_range (max_int + 1) negate (unsigned s)
    else if c == b'+'
    then in_range max_int pos (unsigned s)
    else in_range max_int pos (unsigned (c ∷ s))

abbrev pub exceeds : Option ℤ → ℕ → Bool
exceeds (some (pos n)) have = ltb have n
exceeds _ have = false

unfoldable pub needs_socket_upgrade : Text → Text → License → Bool
needs_socket_upgrade product sockets lic =
    if not (equal product pve) || equal sockets []
    then false
    else exceeds (atoi sockets) (key_sockets lic.key)

-- The texts of decimal digits, and what they say.

abbrev pub is_decimal : Text → Bool
is_decimal s = all (λ c. leb b'0' c && leb c b'9') s

abbrev value_behind : ℕ → Text → ℕ
value_behind n [] = n
value_behind n (c ∷ s) = value_behind (10 * n + (c - b'0')) s

unfoldable pub decimal_value : Text → ℕ
decimal_value s = value_behind 0 s

-- The key is for the sockets that are asked for. A number is heeded in an order of PVE alone, where
-- it is given in decimal digits and no larger than an int.
abbrev pub Covers : Text → Text → Text → Type 0
Covers product sockets key =
    (product ≢ bytes "pve")
    ⊎ (sockets ≡ [])
    ⊎ (is_decimal sockets ≡ false)
    ⊎ (9223372036854775807 < decimal_value sockets)
    ⊎ (decimal_value sockets ≤ key_sockets key)

digits_from-value :
    (n : ℕ) (s : Text) → is_decimal s ≡ true → digits_from n s ≡ some (value_behind n s)
unfolding digits_from
digits_from-value n [] h = refl
digits_from-value n (c ∷ s) h = elim (Bool-cases (leb b'0' c && leb c b'9')) [
  | inl digit ↦
      let e : n * 10 + (c - b'0') ≡ 10 * n + (c - b'0') = omega arith in
      rw digit (rw e (digits_from-value (10 * n + (c - b'0')) s (ground (arith, h, digit))))
  | inr other ↦ absurd (ground (arith, h, other))
]

atoi-decimal_value :
    (c : ℕ) (s : Text)
    → is_decimal (c ∷ s) ≡ true
    → decimal_value (c ∷ s) ≤ max_int
    → atoi (c ∷ s) ≡ some (pos (decimal_value (c ∷ s)))
unfolding atoi decimal_value unsigned
atoi-decimal_value c s h most =
    let read = digits_from-value 0 (c ∷ s) h in
    let first : leb b'0' c ≡ true = ground (arith, h) in ground (arith, read, first, most)

pub needs_socket_upgrade-Covers :
    (product sockets : Text) (lic : License)
    → needs_socket_upgrade product sockets lic ≡ false
    → Covers product sockets lic.key
unfolding needs_socket_upgrade
needs_socket_upgrade-Covers product [] lic h = inr (inl refl)
needs_socket_upgrade-Covers product (c ∷ s) lic h = elim (Bool-cases (equal product pve)) [
  | inr other ↦ inl (ground (arith, other, equal_iff product pve))
  | inl own ↦ elim (Bool-cases (is_decimal (c ∷ s))) [
    | inr words ↦ inr (inr (inl words))
    | inl digits ↦ elim (Bool-cases (leb (decimal_value (c ∷ s)) max_int)) [
      | inr large ↦ inr (inr (inr (inl (ground (arith, large)))))
      | inl fits ↦
          let most : decimal_value (c ∷ s) ≤ max_int = ground (arith, fits) in
          let read = atoi-decimal_value c s digits most in
          let no_text : equal (c ∷ s) [] ≡ false = unfold equal in refl in
          inr (inr (inr (inr (ground (arith, h, own, read, no_text)))))
    ]
  ]
]

atoi_tests :
    (atoi (bytes "16") ≡ some (pos 16))
    × (atoi (bytes "-3") ≡ some (negsuc 2))
    × (atoi (bytes "1x") ≡ none)
    × (atoi (bytes "9223372036854775808") ≡ none)
unfolding atoi
atoi_tests = (refl, refl, refl, refl)
