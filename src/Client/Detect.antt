-- ===== src/Client/Detect.antt =====
-- internal/client/detect.go: the products and the sockets of a host.
pub mod Tiers
use proxmox_license_proxy.Prelude.{
  ℕ, ◌+◌, Text, bytes, equal, has_prefix, index_byte, trim_space, split, newline, Bool, true, false,
  ◌||◌, Option, none, some, List, [], ◌∷◌, ◌++◌, map, length, drop, any, leb, ◌==◌, ◌≡◌, refl,
  if◌then◌else◌,
}
use proxmox_license_proxy.Result.{Result, ok, err, no_set_command, io_failed}
use proxmox_license_proxy.App.Sockets.{ℤ, pos, negsuc}

pub record Product : Type 0 where
  pub code : Text
  pub name : Text
  pub set_command : List Text

-- An entry of `knownProducts`.
pub record KnownProduct : Type 0 where
  pub code : Text
  pub name : Text
  pub bins : List Text
  pub dirs : List Text
  pub set : List Text

abbrev pub known_products : List KnownProduct
known_products =
    record {
      code = bytes "pve";
      name = bytes "Proxmox VE";
      bins = bytes "pvesubscription" ∷ [];
      dirs = bytes "/etc/pve" ∷ [];
      set = bytes "pvesubscription" ∷ bytes "set" ∷ [];
    }
    ∷ record {
      code = bytes "pbs";
      name = bytes "Proxmox Backup Server";
      bins = bytes "proxmox-backup-manager" ∷ [];
      dirs = bytes "/etc/proxmox-backup" ∷ [];
      set = bytes "proxmox-backup-manager" ∷ bytes "subscription" ∷ bytes "set" ∷ [];
    }
    ∷ record {
      code = bytes "pmg";
      name = bytes "Proxmox Mail Gateway";
      bins = bytes "pmgsubscription" ∷ [];
      dirs = bytes "/etc/pmg" ∷ [];
      set = bytes "pmgsubscription" ∷ bytes "set" ∷ [];
    }
    ∷ []

abbrev pub product_of : KnownProduct → Product
product_of p = record { code = p.code; name = p.name; set_command = p.set }

-- `AllProducts`
unfoldable pub all_products : List Product
all_products = map product_of known_products

-- `detectProducts`: which tools are on the path and which directories exist are given.
abbrev pub detected : (Text → Bool) → (Text → Bool) → List KnownProduct → List Product
detected look dir [] = []
detected look dir (p ∷ ps) =
    let rest = detected look dir ps in
    if any look p.bins || any dir p.dirs then product_of p ∷ rest else rest

unfoldable pub detect_products : (Text → Bool) → (Text → Bool) → List Product
detect_products look dir = detected look dir known_products

-- strings.Cut(line, ":"), as far as what stands behind the colon.
abbrev pub after_colon : Text → Option Text
after_colon line = elim (index_byte line b':') [ none ↦ none | some i ↦ some (drop (i + 1) line) ]

-- The key of one line, in `ids`, where a line has one.
abbrev pub physical_id : Text → Option Text
physical_id line =
    if has_prefix line (bytes "physical id")
    then elim (after_colon line) [ none ↦ none | some v ↦ some (trim_space v) ]
    else none

-- The map `ids` as the list of its keys.
abbrev pub put_id : Option Text → List Text → List Text
put_id none ids = ids
put_id (some v) ids = if any (equal v) ids then ids else v ∷ ids

unfoldable pub socket_ids : List Text → List Text → List Text
socket_ids [] ids = ids
socket_ids (l ∷ ls) ids = socket_ids ls (put_id (physical_id l) ids)

-- `DetectSockets` of /proc/cpuinfo, where `none` is a failed read.
unfoldable pub detect_sockets : Option Text → ℕ × Bool
unfolding socket_ids
detect_sockets none = (1, false)
detect_sockets (some content) =
    let n = length (socket_ids (split content newline) []) in
    if n == 0 then (1, false) else (n, true)

abbrev pub at_most : ℤ → ℕ → Bool
at_most (pos n) k = leb n k
at_most (negsuc n) k = true

-- `PVESocketTier`
unfoldable pub pve_socket_tier : ℤ → Text
pve_socket_tier sockets =
    if at_most sockets 1
    then bytes "1"
    else if at_most sockets 2
    then bytes "2"
    else if at_most sockets 4
    then bytes "4"
    else bytes "8"

-- `SetKey`: `run` says whether a command line succeeds.
unfoldable pub set_key : (List Text → Bool) → Product → Text → Result (Unit {0})
set_key run p key = elim p.set_command [
  | [] ↦ err (no_set_command p.code)
  | c ∷ args ↦ if run ((c ∷ args) ++ key ∷ []) then ok tt else err io_failed
]

detect_tests :
    (detect_sockets (some (bytes "physical id : 0\nphysical id : 1\nphysical id\t: 0\ncpu : 3"))
      ≡ (2, true))
    × (detect_sockets (some (bytes "cpu : 3")) ≡ (1, false))
    × (pve_socket_tier (pos 3) ≡ bytes "4")
unfolding detect_sockets pve_socket_tier split index_byte has_prefix trim_space equal
detect_tests = (refl, refl, refl)
