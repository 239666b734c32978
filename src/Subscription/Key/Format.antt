-- ===== src/Subscription/Key/Format.antt =====
-- The key pattern `^(pve[1248][cbsp]|p(?:bs|mg)[cbsp])-[0-9a-f]{10}$` as a relation.
use mathlib.Core.Bool.{and-eq-true_iff}
use proxmox_license_proxy.Prelude.{
  ℕ, Text, bytes, true, [], ◌∷◌, ◌++◌, length, all, All, ◌≡◌, refl, sym, ap, subst, ◌↔◌, ◌⊎◌, inl,
  inr, arith,
}
use proxmox_license_proxy.Subscription.Key.{
  is_level, is_socket_digit, is_hex, hex_tail, level_tail, socket_tail, valid_key,
}

-- A character class: the byte is one of these.

abbrev pub OneOf : Text → ℕ → Type 0
OneOf [] c = ⊥
OneOf (x ∷ s) c = (c ≡ x) ⊎ OneOf s c

abbrev pub IsLevel : ℕ → Type 0
IsLevel = OneOf (bytes "cbsp")

abbrev pub IsSocketDigit : ℕ → Type 0
IsSocketDigit = OneOf (bytes "1248")

abbrev pub IsHex : ℕ → Type 0
IsHex = OneOf (bytes "0123456789abcdef")

-- The two alternatives before the dash.
pub data KeyPrefix (prefix : Text) : Type 0 where
  of_pve :
      (d l : ℕ)
      → IsSocketDigit d
      → IsLevel l
      → prefix ≡ bytes "pve" ++ d ∷ l ∷ []
      → KeyPrefix prefix
  of_pbs : (l : ℕ) → IsLevel l → prefix ≡ bytes "pbs" ++ l ∷ [] → KeyPrefix prefix
  of_pmg : (l : ℕ) → IsLevel l → prefix ≡ bytes "pmg" ++ l ∷ [] → KeyPrefix prefix

pub record MatchesKey (key : Text) : Type 0 where
  pub prefix : Text
  pub hex : Text
  pub splits : key ≡ prefix ++ (b'-' ∷ hex)
  pub prefixed : KeyPrefix prefix
  pub ten : length hex ≡ 10
  pub digits : All IsHex hex

pub is_level_iff : (c : ℕ) → (is_level c ≡ true) ↔ IsLevel c
unfolding is_level
is_level_iff c = ground arith

pub is_socket_digit_iff : (c : ℕ) → (is_socket_digit c ≡ true) ↔ IsSocketDigit c
unfolding is_socket_digit
is_socket_digit_iff c = ground arith

pub is_hex-to : (c : ℕ) → is_hex c ≡ true → IsHex c
unfolding is_hex
is_hex-to c h = ground arith

is_hex-from : (c : ℕ) → IsHex c → is_hex c ≡ true
unfolding is_hex
is_hex-from c h = ground arith

all-is_hex_iff : (s : Text) → (all is_hex s ≡ true) ↔ All IsHex s
all-is_hex_iff [] = ((λ _. tt), (λ _. refl))
all-is_hex_iff (c ∷ s) = ground (arith, is_hex-to c, is_hex-from c, all-is_hex_iff s)

record HexTail (rest : Text) : Type 0 where
  hex : Text
  dashed : rest ≡ b'-' ∷ hex
  ten : length hex ≡ 10
  digits : All IsHex hex

hex_tail-to : (rest : Text) → hex_tail rest ≡ true → HexTail rest
unfolding hex_tail
hex_tail-to [] h = cc
hex_tail-to (c ∷ hex) h = record {
  hex = hex;
  dashed = ground arith;
  ten = ground arith;
  digits = (all-is_hex_iff hex).0 (ground arith);
}

hex_tail-from : (hex : Text) → length hex ≡ 10 → All IsHex hex → hex_tail (b'-' ∷ hex) ≡ true
unfolding hex_tail
hex_tail-from hex t d = ground (arith, (all-is_hex_iff hex).1 d)

-- The level, the dash and the digits behind a product, or a product with its sockets.
record LevelTail (rest : Text) : Type 0 where
  level : ℕ
  hex : Text
  level_ok : IsLevel level
  splits : rest ≡ level ∷ b'-' ∷ hex
  ten : length hex ≡ 10
  digits : All IsHex hex

level_tail-to : (rest : Text) → level_tail rest ≡ true → LevelTail rest
unfolding level_tail
level_tail-to [] h = cc
level_tail-to (l ∷ rest) h =
    let (here, later) = (and-eq-true_iff (is_level l) (hex_tail rest)).0 h in
    let t = hex_tail-to rest later in
    record {
      level = l;
      hex = t.hex;
      level_ok = (is_level_iff l).0 here;
      splits = ap (◌∷◌ l) t.dashed;
      ten = t.ten;
      digits = t.digits;
    }

level_tail-from :
    (l : ℕ) (hex : Text)
    → IsLevel l
    → length hex ≡ 10
    → All IsHex hex
    → level_tail (l ∷ b'-' ∷ hex) ≡ true
unfolding level_tail
level_tail-from l hex h t d = rw ((is_level_iff l).1 h) (hex_tail-from hex t d)

pve-to : (rest : Text) → socket_tail rest ≡ true → MatchesKey (bytes "pve" ++ rest)
unfolding socket_tail
pve-to [] h = cc
pve-to (d ∷ rest) h =
    let (here, later) = (and-eq-true_iff (is_socket_digit d) (level_tail rest)).0 h in
    let t = level_tail-to rest later in
    record {
      prefix = bytes "pve" ++ d ∷ t.level ∷ [];
      hex = t.hex;
      splits = ap (λ r. bytes "pve" ++ d ∷ r) t.splits;
      prefixed = of_pve d t.level ((is_socket_digit_iff d).0 here) t.level_ok refl;
      ten = t.ten;
      digits = t.digits;
    }

pbs-to : (rest : Text) → level_tail rest ≡ true → MatchesKey (bytes "pbs" ++ rest)
pbs-to rest h =
    let t = level_tail-to rest h in
    record {
      prefix = bytes "pbs" ++ t.level ∷ [];
      hex = t.hex;
      splits = ap (λ r. bytes "pbs" ++ r) t.splits;
      prefixed = of_pbs t.level t.level_ok refl;
      ten = t.ten;
      digits = t.digits;
    }

pmg-to : (rest : Text) → level_tail rest ≡ true → MatchesKey (bytes "pmg" ++ rest)
pmg-to rest h =
    let t = level_tail-to rest h in
    record {
      prefix = bytes "pmg" ++ t.level ∷ [];
      hex = t.hex;
      splits = ap (λ r. bytes "pmg" ++ r) t.splits;
      prefixed = of_pmg t.level t.level_ok refl;
      ten = t.ten;
      digits = t.digits;
    }

-- What the tests on the first three bytes say.
abbrev Starts : ℕ → ℕ → ℕ → Text → Type 0
Starts p a b rest =
    ((p ∷ a ∷ b ∷ [] ≡ bytes "pve") × (socket_tail rest ≡ true))
    ⊎ ((p ∷ a ∷ b ∷ [] ≡ bytes "pbs") × (level_tail rest ≡ true))
    ⊎ ((p ∷ a ∷ b ∷ [] ≡ bytes "pmg") × (level_tail rest ≡ true))

valid_key-Starts :
    (p a b : ℕ) (rest : Text) → valid_key (p ∷ a ∷ b ∷ rest) ≡ true → Starts p a b rest
unfolding valid_key
valid_key-Starts p a b rest h = ground arith

matches_three : (p a b : ℕ) (rest : Text) → Starts p a b rest → MatchesKey (p ∷ a ∷ b ∷ rest)
matches_three p a b rest (inl (e, h)) = subst (λ s. MatchesKey (s ++ rest)) (sym e) (pve-to rest h)
matches_three p a b rest (inr (inl (e, h))) =
    subst (λ s. MatchesKey (s ++ rest)) (sym e) (pbs-to rest h)
matches_three p a b rest (inr (inr (e, h))) =
    subst (λ s. MatchesKey (s ++ rest)) (sym e) (pmg-to rest h)

pub valid_key-MatchesKey : (key : Text) → valid_key key ≡ true → MatchesKey key
valid_key-MatchesKey [] h = unfold valid_key in cc
valid_key-MatchesKey (p ∷ []) h = unfold valid_key in cc
valid_key-MatchesKey (p ∷ a ∷ []) h = unfold valid_key in cc
valid_key-MatchesKey (p ∷ a ∷ b ∷ rest) h = matches_three p a b rest (valid_key-Starts p a b rest h)

valid_prefix :
    (prefix hex : Text)
    → KeyPrefix prefix
    → length hex ≡ 10
    → All IsHex hex
    → valid_key (prefix ++ (b'-' ∷ hex)) ≡ true
unfolding valid_key socket_tail
valid_prefix prefix hex (of_pve d l s h e) t q =
    rw (e, (is_socket_digit_iff d).1 s, level_tail-from l hex h t q) refl
valid_prefix prefix hex (of_pbs l h e) t q = rw (e, level_tail-from l hex h t q) refl
valid_prefix prefix hex (of_pmg l h e) t q = rw (e, level_tail-from l hex h t q) refl

-- ValidKey accepts exactly the texts that the key pattern matches: one of the three products, the
-- sockets of a PVE key, a level, a dash and ten lower-case hexadecimal digits.
pub valid_key_iff : (key : Text) → (valid_key key ≡ true) ↔ MatchesKey key
valid_key_iff key = (
  valid_key-MatchesKey key,
  λ m. rw m.splits (valid_prefix m.prefix m.hex m.prefixed m.ten m.digits),
)
