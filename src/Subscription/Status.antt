-- ===== src/Subscription/Status.antt =====
-- internal/subscription/status.go. A `Status` is a string, as in the source: a registry file may
-- hold any text there.
pub mod Parse
use proxmox_license_proxy.Prelude.{
  Text, bytes, equal, Bool, ◌||◌, trim_space, to_upper, if◌then◌else◌,
}
use proxmox_license_proxy.Result.{Result, ok, err, invalid_status}

abbrev pub Status : Type 0
Status = Text

abbrev pub approved : Status
approved = bytes "APPROVED"

abbrev pub pending : Status
pending = bytes "PENDING"

abbrev pub blocked : Status
blocked = bytes "BLOCKED"

abbrev pub failed : Status
failed = bytes "FAILED"

abbrev pub rejected : Status
rejected = bytes "REJECTED"

abbrev pub registered : Status
registered = bytes "REGISTERED"

abbrev pub revoked : Status
revoked = bytes "REVOKED"

unfoldable pub is_valid : Status → Bool
is_valid s =
    equal s approved
    || equal s pending
    || equal s blocked
    || equal s failed
    || equal s rejected
    || equal s registered
    || equal s revoked

unfoldable pub parse_status : Text → Result Status
parse_status raw =
    let s = to_upper (trim_space raw) in if is_valid s then ok s else err (invalid_status raw)
