-- ===== src/Subscription/Key.antt =====
-- internal/subscription/key.go: the format of the keys, lab keys, and what a key says.
pub mod Format
pub mod Generated
pub mod Reading
use proxmox_license_proxy.Prelude.{
  ℕ, zero, suc, ◌+◌, ◌-◌, ◌/◌, ◌%◌, Text, bytes, equal, has_prefix, index_byte, trim_space, Bool,
  true, false, not, ◌&&◌, ◌||◌, Option, none, some, List, [], ◌∷◌, ◌++◌, length, get_elem?, take,
  drop, all, ltb, leb, ◌==◌, if◌then◌else◌,
}
use proxmox_license_proxy.Result.{
  Result, ok, err, unknown_product, unknown_level, unknown_sockets, random_failed,
}

-- The character classes [cbsp], [1248] and [0-9a-f] of the key pattern.
unfoldable pub is_level : ℕ → Bool
is_level c = c == b'c' || c == b'b' || c == b's' || c == b'p'

unfoldable pub is_socket_digit : ℕ → Bool
is_socket_digit d = d == b'1' || d == b'2' || d == b'4' || d == b'8'

unfoldable pub is_hex : ℕ → Bool
is_hex c = leb b'0' c && leb c b'9' || leb b'a' c && leb c b'f'

-- The parts of `^(pve[1248][cbsp]|p(?:bs|mg)[cbsp])-[0-9a-f]{10}$` from its end.
unfoldable pub hex_tail : Text → Bool
hex_tail [] = false
hex_tail (c ∷ hex) = c == b'-' && length hex == 10 && all is_hex hex

unfoldable pub level_tail : Text → Bool
level_tail [] = false
level_tail (l ∷ rest) = is_level l && hex_tail rest

unfoldable pub socket_tail : Text → Bool
socket_tail [] = false
socket_tail (d ∷ rest) = is_socket_digit d && level_tail rest

unfoldable pub valid_key : Text → Bool
valid_key (p ∷ a ∷ b ∷ rest) =
    p == b'p'
    && (a == b'v' && b == b'e' && socket_tail rest
        || (a == b'b' && b == b's' || a == b'm' && b == b'g') && level_tail rest)
valid_key _ = false

abbrev pub pve : Text
pve = bytes "pve"

abbrev pub pbs : Text
pbs = bytes "pbs"

abbrev pub pmg : Text
pmg = bytes "pmg"

-- productNames[product], "" where the map has no entry
unfoldable pub product_name : Text → Text
product_name product =
    if equal product pve
    then bytes "Proxmox VE"
    else if equal product pbs
    then bytes "Proxmox Backup Server"
    else if equal product pmg
    then bytes "Proxmox Mail Gateway"
    else []

-- levelNames[level]
unfoldable pub level_name : ℕ → Text
level_name c =
    if c == b'c'
    then bytes "Community"
    else if c == b'b'
    then bytes "Basic"
    else if c == b's'
    then bytes "Standard"
    else if c == b'p'
    then bytes "Premium"
    else []

abbrev pub lab_signature : Text
lab_signature = bytes "1ab"

abbrev pub lab_marker : Text
lab_marker = bytes "(LAB, proxmox-license-proxy - NOT FOR PRODUCTION)"

unfoldable pub product_code : Text → Bool
product_code p = equal p pve || equal p pbs || equal p pmg

abbrev pub default_sockets : Text
default_sockets = bytes "1"

unfoldable pub valid_sockets : Text → Bool
valid_sockets s =
    equal s (bytes "1") || equal s (bytes "2") || equal s (bytes "4") || equal s (bytes "8")

-- What rand.Read leaves in a buffer of four bytes.
pub data Draw : Type 0 where
  read_failed : Draw
  drawn : ℕ → ℕ → ℕ → ℕ → Draw

-- hex.EncodeToString
unfoldable pub hex_digit : ℕ → ℕ
hex_digit n = if ltb n 10 then b'0' + n else b'a' + (n - 10)

abbrev hex_byte : ℕ → Text → Text
hex_byte b rest = hex_digit (b % 256 / 16) ∷ hex_digit (b % 16) ∷ rest

unfoldable pub hex_encode : ℕ → ℕ → ℕ → ℕ → Text
hex_encode a b c d = hex_byte a (hex_byte b (hex_byte c (hex_byte d [])))

-- level == "" is read as "c", and sockets == "" as "1".
abbrev pub or_default : Text → Text → Text
or_default s default = if equal s [] then default else s

-- len(level) == 1 && levelNames[level[0]] != ""
unfoldable pub known_level : Text → Bool
known_level (c ∷ []) = not (equal (level_name c) [])
known_level _ = false

unfoldable pub generate_key : Text → Text → Text → Draw → Result Text
generate_key product level sockets draw =
    let l = or_default level (bytes "c") in
    let n = or_default sockets default_sockets in
    if not (product_code product)
    then err (unknown_product product)
    else if not (known_level l)
    then err (unknown_level l)
    else elim draw [
      | read_failed ↦ err random_failed
      | drawn a b c d ↦
          let hex_part = lab_signature ++ take 7 (hex_encode a b c d) in
          if equal product pve
          then if not (valid_sockets n)
            then err (unknown_sockets n)
            else ok (product ++ (n ++ (l ++ (bytes "-" ++ hex_part))))
          else ok (product ++ (l ++ (bytes "-" ++ hex_part)))
    ]

unfoldable pub socket_value : ℕ → ℕ
socket_value c =
    if c == b'1'
    then 1
    else if c == b'2'
    then 2
    else if c == b'4'
    then 4
    else if c == b'8'
    then 8
    else 0

unfoldable pub key_sockets : Text → ℕ
unfolding socket_value
key_sockets key =
    if not (has_prefix key pve) || ltb (length key) 4
    then 0
    else elim (get_elem? key 3) [ none ↦ 0 | some c ↦ socket_value c ]

unfoldable pub is_lab_key : Text → Bool
is_lab_key key = elim (index_byte key b'-') [
  | none ↦ false
  | some i ↦ has_prefix (drop (i + 1) key) lab_signature
]

pub record Description : Type 0 where
  pub product : Text
  pub product_name : Text
  pub level : Text

-- levelNames[key[i-1]]; the index is in range wherever `describe` takes it.
abbrev level_at : Text → ℕ → Text
level_at key i = elim (get_elem? key (i - 1)) [ none ↦ [] | some c ↦ level_name c ]

abbrev product_title : Text → Text
product_title product =
    let name = product_name product in if equal name [] then bytes "Proxmox" else name

abbrev no_description : Description
no_description = record { product = []; product_name = bytes "Proxmox Subscription"; level = [] }

unfoldable pub describe : Text → Description
describe key = elim (index_byte key b'-') [
  | none ↦ no_description
  | some i ↦ if ltb i 4 then no_description else record {
    product = take 3 key;
    product_name =
        trim_space
          (product_title (take 3 key) ++ (bytes " " ++ (level_at key i ++ bytes " Subscription")));
    level = level_at key i;
  }
]
