-- ===== src/Subscription/Model.antt =====
-- internal/subscription/license.go, server.go and account.go: what the registry file holds.
use proxmox_license_proxy.Prelude.{Text, equal, Bool, not, ◌||◌, List, []}
use proxmox_license_proxy.Subscription.Status.{Status, revoked, blocked, rejected, failed}

pub record License : Type 0 where
  pub key : Text
  pub product : Text
  pub product_name : Text
  pub reg_date : Text
  pub next_due_date : Text
  pub status : Status
  pub server_id : Text
  pub account : Text

-- `License.Active`, by the status
unfoldable pub is_denied : Status → Bool
is_denied s = equal s revoked || equal s blocked || equal s rejected || equal s failed

unfoldable pub active : License → Bool
active l = not (is_denied l.status)

pub record Server : Type 0 where
  pub server_id : Text
  pub key : Text
  pub product : Text
  pub status : Status
  pub first_seen : Text
  pub last_seen : Text
  pub note : Text

pub record Account : Type 0 where
  pub thumbprint : Text
  pub public_key : Text
  pub server_id : Text
  pub contact : Text
  pub status : Status
  pub created_at : Text

pub record Registry : Type 0 where
  pub licenses : List License
  pub servers : List Server
  pub accounts : List Account

abbrev pub empty_registry : Registry
empty_registry = record { licenses = []; servers = []; accounts = [] }
