-- ===== src/Prelude/Strings.antt =====
-- Go strings as lists of bytes, and what the program uses of the packages strings and unicode.
use Prim.Native.Nat.{ℕ, zero, suc, ◌+◌, ◌-◌}
use Prim.Native.Char.{code}
use Prim.Native.String.{String}
use mathlib.Core.Path.{◌≡◌, refl}
use mathlib.Core.Logic.{◌↔◌}
use mathlib.Core.Bool.{Bool, true, false, ◌&&◌, ◌||◌}
use mathlib.Core.Option
use mathlib.Core.Option.{Option, none, some}
use mathlib.Core.List.{List, [], ◌∷◌, ◌++◌, reverse}
use native.Mathlib.Omega.{arith}
use proxmox_license_proxy.Prelude.Tests.{leb, ◌==◌, if◌then◌else◌}
use proxmox_license_proxy.Prelude.Lists.{length, drop}

abbrev pub Text : Type 0
Text = List ℕ

-- The bytes of a literal, which is ASCII throughout.
abbrev pub bytes : String → Text
bytes String.[] = []
bytes (String.◌∷◌ c s) = code c ∷ bytes s

-- s == t
unfoldable pub equal : Text → Text → Bool
equal [] [] = true
equal [] (b ∷ t) = false
equal (a ∷ s) [] = false
equal (a ∷ s) (b ∷ t) = a == b && equal s t

pub equal_iff : (s t : Text) → (equal s t ≡ true) ↔ (s ≡ t)
unfolding equal
equal_iff [] [] = ground arith
equal_iff [] (b ∷ t) = ground arith
equal_iff (a ∷ s) [] = ground arith
equal_iff (a ∷ s) (b ∷ t) = ground (arith, equal_iff s t)

pub equal_refl : (s : Text) → equal s s ≡ true
equal_refl s = (equal_iff s s).1 refl

-- strings.HasPrefix(s, prefix)
unfoldable pub has_prefix : Text → Text → Bool
has_prefix s [] = true
has_prefix [] (b ∷ p) = false
has_prefix (a ∷ s) (b ∷ p) = a == b && has_prefix s p

pub has_prefix-append : (p s : Text) → has_prefix (p ++ s) p ≡ true
unfolding has_prefix
has_prefix-append [] [] = refl
has_prefix-append [] (a ∷ s) = refl
has_prefix-append (b ∷ p) s = ground (arith, has_prefix-append p s)

-- strings.IndexByte(s, b), where `none` is -1
unfoldable pub index_byte : Text → ℕ → Option ℕ
index_byte [] b = none
index_byte (a ∷ s) b = if a == b then some 0 else Option.map suc (index_byte s b)

-- unicode.IsSpace of the rune that a text begins with, as the number of its bytes (0 if it is no
-- space): the ASCII spaces, U+0085, U+00A0, U+1680, U+2000..200A, U+2028, U+2029, U+202F, U+205F
-- and U+3000.
is_ascii_space : ℕ → Bool
is_ascii_space a = a == 32 || leb 9 a && leb a 13

is_space_2 : ℕ → ℕ → Bool
is_space_2 a b = a == 0xc2 && (b == 0x85 || b == 0xa0)

is_space_3 : ℕ → ℕ → ℕ → Bool
is_space_3 a b c =
    a == 0xe1 && b == 0x9a && c == 0x80
    || a == 0xe2 && b == 0x80 && (leb 0x80 c && leb c 0x8a || c == 0xa8 || c == 0xa9 || c == 0xaf)
    || a == 0xe2 && b == 0x81 && c == 0x9f
    || a == 0xe3 && b == 0x80 && c == 0x80

unfoldable pub leading_space : Text → ℕ
unfolding is_ascii_space is_space_2 is_space_3
leading_space [] = 0
leading_space (a ∷ []) = if is_ascii_space a then 1 else 0
leading_space (a ∷ b ∷ []) = if is_ascii_space a then 1 else if is_space_2 a b then 2 else 0
leading_space (a ∷ b ∷ c ∷ _) =
    if is_ascii_space a then 1 else if is_space_2 a b then 2 else if is_space_3 a b c then 3 else 0

-- The same for the last rune of a text that is given from its end.
unfoldable pub trailing_space : Text → ℕ
unfolding is_ascii_space is_space_2 is_space_3
trailing_space [] = 0
trailing_space (a ∷ []) = if is_ascii_space a then 1 else 0
trailing_space (b ∷ a ∷ []) = if is_ascii_space b then 1 else if is_space_2 a b then 2 else 0
trailing_space (c ∷ b ∷ a ∷ _) =
    if is_ascii_space c then 1 else if is_space_2 b c then 2 else if is_space_3 a b c then 3 else 0

-- Drops what `width` says until it says 0; the fuel is the length of the text.
unfoldable pub trim_by : (Text → ℕ) → ℕ → Text → Text
trim_by width zero s = s
trim_by width (suc fuel) s = elim (width s) [
  | zero ↦ s
  | suc n ↦ trim_by width fuel (drop (suc n) s)
]

-- strings.TrimSpace(s)
unfoldable pub trim_space : Text → Text
unfolding trim_by leading_space trailing_space
trim_space s =
    let left = trim_by leading_space (length s) s in
    reverse (trim_by trailing_space (length left) (reverse left))

-- strings.ToUpper and strings.ToLower where the result is compared with ASCII words: the letters
-- outside ASCII that turn into ASCII ones are U+0131 and U+017F, and U+0130 and U+212A. Other bytes
-- outside ASCII stay as they are.
upper_byte : ℕ → ℕ
upper_byte a = if leb b'a' a && leb a b'z' then a - 32 else a

lower_byte : ℕ → ℕ
lower_byte a = if leb b'A' a && leb a b'Z' then a + 32 else a

unfoldable pub to_upper : Text → Text
unfolding upper_byte
to_upper [] = []
to_upper (a ∷ []) = upper_byte a ∷ []
to_upper (a ∷ b ∷ s) =
    let dotless = b'I' ∷ to_upper s in
    let long_s = b'S' ∷ to_upper s in
    let plain = upper_byte a ∷ to_upper (b ∷ s) in
    if a == 0xc4 && b == 0xb1 then dotless else if a == 0xc5 && b == 0xbf then long_s else plain

unfoldable pub to_lower : Text → Text
unfolding lower_byte
to_lower [] = []
to_lower (a ∷ []) = lower_byte a ∷ []
to_lower (a ∷ b ∷ []) =
    if a == 0xc4 && b == 0xb0 then b'i' ∷ [] else lower_byte a ∷ lower_byte b ∷ []
to_lower (a ∷ b ∷ c ∷ s) =
    let dotted = b'i' ∷ to_lower (c ∷ s) in
    let kelvin = b'k' ∷ to_lower s in
    let plain = lower_byte a ∷ to_lower (b ∷ c ∷ s) in
    if a == 0xc4 && b == 0xb0
    then dotted
    else if a == 0xe2 && b == 0x84 && c == 0xaa
    then kelvin
    else plain

-- strings.Split(s, sep) for a separator of one byte
abbrev pub cons_first : ℕ → List Text → List Text
cons_first a [] = (a ∷ []) ∷ []
cons_first a (l ∷ ls) = (a ∷ l) ∷ ls

unfoldable pub split : Text → ℕ → List Text
split [] sep = [] ∷ []
split (a ∷ s) sep = let rest = split s sep in if a == sep then [] ∷ rest else cons_first a rest

-- strings.Join(parts, sep)
unfoldable pub join : List Text → Text → Text
join [] sep = []
join (l ∷ []) sep = l
join (l ∷ m ∷ ls) sep = l ++ (sep ++ join (m ∷ ls) sep)

spaces_gone : trim_space (bytes " \ta b\n " ++ 0xc2 ∷ 0xa0 ∷ []) ≡ bytes "a b"
unfolding trim_space
spaces_gone = refl

upper_words : to_upper (bytes "regi" ++ 0xc5 ∷ 0xbf ∷ bytes "tered") ≡ bytes "REGISTERED"
unfolding to_upper
upper_words = refl

lines_split : split (bytes "a\n\nb\n") b'\n' ≡ bytes "a" ∷ [] ∷ bytes "b" ∷ [] ∷ []
unfolding split
lines_split = refl
