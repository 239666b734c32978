-- ===== src/Registry/Operations.antt =====
-- internal/registry/store.go: what the closure of each operation does to the registry in memory.
-- The Boolean beside the new registry is the `found` or `removed` of the source.
pub mod Invariant
pub mod Hosts
use proxmox_license_proxy.Prelude.{
  Text, equal, Bool, ◌&&◌, Option, none, some, List, [], ◌∷◌, if◌then◌else◌,
}
use proxmox_license_proxy.Subscription.Status.{Status, pending, approved}
use proxmox_license_proxy.Subscription.Model.{License, Server, Account, Registry}
use proxmox_license_proxy.Registry.Keyed.{find, has, put, remove, update}

abbrev pub license_key : License → Text
license_key l = l.key

abbrev pub server_key : Server → Text
server_key s = s.server_id

abbrev pub account_key : Account → Text
account_key a = a.thumbprint

abbrev pub get_license : Text → Registry → Option License
get_license key reg = find license_key key reg.licenses

abbrev pub get_server : Text → Registry → Option Server
get_server id reg = find server_key id reg.servers

abbrev pub get_account : Text → Registry → Option Account
get_account thumbprint reg = find account_key thumbprint reg.accounts

-- The first license of this host and product.
unfoldable pub license_for : Text → Text → List License → Option License
license_for server_id product [] = none
license_for server_id product (l ∷ ls) =
    let later = license_for server_id product ls in
    if equal l.server_id server_id && equal l.product product then some l else later

unfoldable pub add_license : License → Registry → Registry
add_license l reg = record reg { licenses = put license_key l reg.licenses }

unfoldable pub remove_license : Text → Registry → Bool × Registry
remove_license key reg = (
  has license_key key reg.licenses,
  record reg { licenses = remove license_key key reg.licenses },
)

abbrev pub with_due : Text → License → License
with_due due l = record l { next_due_date = due }

unfoldable pub set_due : Text → Text → Registry → Bool × Registry
set_due key due reg = (
  has license_key key reg.licenses,
  record reg { licenses = update license_key (with_due due) key reg.licenses },
)

abbrev pub license_with_status : Status → License → License
license_with_status s l = record l { status = s }

unfoldable pub set_license_status : Text → Status → Registry → Bool × Registry
set_license_status key s reg = (
  has license_key key reg.licenses,
  record reg { licenses = update license_key (license_with_status s) key reg.licenses },
)

unfoldable pub upsert_account : Account → Registry → Registry
upsert_account a reg = record reg { accounts = put account_key a reg.accounts }

abbrev pub account_with_status : Status → Account → Account
account_with_status s a = record a { status = s }

unfoldable pub set_account_status : Text → Status → Registry → Bool × Registry
set_account_status thumbprint s reg = (
  has account_key thumbprint reg.accounts,
  record reg { accounts = update account_key (account_with_status s) thumbprint reg.accounts },
)

-- What a contact leaves in the entry of a known host.
unfoldable pub refresh : Text → Text → Text → Bool → Server → Server
refresh now key product auto_approve s = record s {
  last_seen = now;
  key = if equal key [] then s.key else key;
  product = if equal product [] then s.product else product;
  status = if auto_approve && equal s.status pending then approved else s.status;
}

-- The entry of a host that is not known yet.
unfoldable pub new_server : Text → Text → Text → Text → Bool → Server
new_server now server_id key product auto_approve = record {
  server_id = server_id;
  key = key;
  product = product;
  status = if auto_approve then approved else pending;
  first_seen = now;
  last_seen = now;
  note = [];
}

-- The entry after the contact, which the source calls `current`.
unfoldable pub contact : Text → Text → Text → Text → Bool → Option Server → Server
contact now server_id key product auto_approve none =
    new_server now server_id key product auto_approve
contact now server_id key product auto_approve (some s) = refresh now key product auto_approve s

unfoldable pub upsert_server : Text → Text → Text → Text → Bool → Registry → Server × Registry
unfolding contact
upsert_server now server_id key product auto_approve reg =
    let known = find server_key server_id reg.servers in
    let current = contact now server_id key product auto_approve known in
    (current, record reg { servers = put server_key current reg.servers })

abbrev pub server_with_status : Status → Server → Server
server_with_status s srv = record srv { status = s }

unfoldable pub set_server_status : Text → Status → Registry → Bool × Registry
set_server_status id s reg = (
  has server_key id reg.servers,
  record reg { servers = update server_key (server_with_status s) id reg.servers },
)

abbrev pub server_with_note : Text → Server → Server
server_with_note note srv = record srv { note = note }

unfoldable pub set_server_note : Text → Text → Registry → Bool × Registry
set_server_note id note reg = (
  has server_key id reg.servers,
  record reg { servers = update server_key (server_with_note note) id reg.servers },
)

unfoldable pub remove_server : Text → Registry → Bool × Registry
remove_server id reg =
    (has server_key id reg.servers, record reg { servers = remove server_key id reg.servers })
