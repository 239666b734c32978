-- ===== src/Subscription/Status/Parse.antt =====
-- What ParseStatus accepts.
use proxmox_license_proxy.Prelude.{
  Text, equal, equal_iff, true, trim_space, to_upper, ◌≡◌, refl, sym, ◌⊎◌, inl, inr, ◌↔◌, subst,
  arith,
}
use proxmox_license_proxy.Result.{ok}
use proxmox_license_proxy.Subscription.Status.{
  Status, approved, pending, blocked, failed, rejected, registered, revoked, is_valid, parse_status,
}

-- One of the seven statuses of the source.

abbrev pub IsKnown : Status → Type 0
IsKnown s =
    (s ≡ approved)
    ⊎ (s ≡ pending)
    ⊎ (s ≡ blocked)
    ⊎ (s ≡ failed)
    ⊎ (s ≡ rejected)
    ⊎ (s ≡ registered)
    ⊎ (s ≡ revoked)

pub is_valid_iff : (s : Status) → (is_valid s ≡ true) ↔ IsKnown s
unfolding is_valid
is_valid_iff s = ground (
  arith,
  equal_iff s approved,
  equal_iff s pending,
  equal_iff s blocked,
  equal_iff s failed,
  equal_iff s rejected,
  equal_iff s registered,
  equal_iff s revoked,
)

abbrev Reparses : Status → Type 0
Reparses s = parse_status s ≡ ok s

IsKnown-Reparses : (s : Status) → IsKnown s → Reparses s
unfolding parse_status is_valid equal to_upper trim_space
IsKnown-Reparses s (inl e) = subst Reparses (sym e) refl
IsKnown-Reparses s (inr (inl e)) = subst Reparses (sym e) refl
IsKnown-Reparses s (inr (inr (inl e))) = subst Reparses (sym e) refl
IsKnown-Reparses s (inr (inr (inr (inl e)))) = subst Reparses (sym e) refl
IsKnown-Reparses s (inr (inr (inr (inr (inl e))))) = subst Reparses (sym e) refl
IsKnown-Reparses s (inr (inr (inr (inr (inr (inl e)))))) = subst Reparses (sym e) refl
IsKnown-Reparses s (inr (inr (inr (inr (inr (inr e)))))) = subst Reparses (sym e) refl

parsed_valid : (raw s : Text) → parse_status raw ≡ ok s → is_valid s ≡ true
unfolding parse_status
parsed_valid raw s h = ground arith

-- A status that ParseStatus returns is one of the seven, and parses to itself.
pub parse_status-IsKnown :
    (raw s : Text) → parse_status raw ≡ ok s → IsKnown s × (parse_status s ≡ ok s)
parse_status-IsKnown raw s h =
    let known = (is_valid_iff s).0 (parsed_valid raw s h) in (known, IsKnown-Reparses s known)
