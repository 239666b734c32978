-- ===== src/Registry/Operations/Invariant.antt =====
-- The keys of the registry stay distinct, whatever is done to it, and each operation changes only
-- the entry that it names.
use proxmox_license_proxy.Prelude.{
  Text, equal, Bool, Option, none, some, List, [], ◌∷◌, ◌≡◌, refl, if◌then◌else◌,
}
use proxmox_license_proxy.Subscription.Status.{Status}
use proxmox_license_proxy.Subscription.Model.{License, Server, Account, Registry}
use proxmox_license_proxy.Registry.Keyed.{
  Distinct, find-put, find-remove, find-update, map_found, put-Distinct, remove-Distinct,
  update-Distinct,
}
use proxmox_license_proxy.Registry.Operations.{
  license_key, server_key, account_key, get_license, get_server, add_license, remove_license,
  with_due, set_due, license_with_status, set_license_status, upsert_account, account_with_status,
  set_account_status, contact, upsert_server, server_with_status, set_server_status,
  server_with_note, set_server_note, remove_server,
}

-- The operations of the store that change the registry.

pub data Change : Type 0 where
  adding_license : License → Change
  removing_license : Text → Change
  setting_due : Text → Text → Change
  setting_license_status : Text → Status → Change
  upserting_account : Account → Change
  setting_account_status : Text → Status → Change
  upserting_server : Text → Text → Text → Text → Bool → Change
  setting_server_status : Text → Status → Change
  setting_server_note : Text → Text → Change
  removing_server : Text → Change

pub apply : Change → Registry → Registry
apply (adding_license l) reg = add_license l reg
apply (removing_license k) reg = (remove_license k reg).1
apply (setting_due k due) reg = (set_due k due reg).1
apply (setting_license_status k s) reg = (set_license_status k s reg).1
apply (upserting_account a) reg = upsert_account a reg
apply (setting_account_status t s) reg = (set_account_status t s reg).1
apply (upserting_server now id k p auto) reg = (upsert_server now id k p auto reg).1
apply (setting_server_status id s) reg = (set_server_status id s reg).1
apply (setting_server_note id note) reg = (set_server_note id note reg).1
apply (removing_server id) reg = (remove_server id reg).1

pub apply_all : List Change → Registry → Registry
apply_all [] reg = reg
apply_all (c ∷ cs) reg = apply_all cs (apply c reg)

pub record IsKeyed (reg : Registry) : Type 0 where
  pub licenses_ok : Distinct license_key reg.licenses
  pub servers_ok : Distinct server_key reg.servers
  pub accounts_ok : Distinct account_key reg.accounts

module _ (reg : Registry) (v : IsKeyed reg) where
  with_licenses :
      (ls : List License) → Distinct license_key ls → IsKeyed (record reg { licenses = ls })
  with_licenses ls d = record {
    licenses_ok = d;
    servers_ok = v.servers_ok;
    accounts_ok = v.accounts_ok;
  }

  with_servers : (ss : List Server) → Distinct server_key ss → IsKeyed (record reg { servers = ss })
  with_servers ss d = record {
    licenses_ok = v.licenses_ok;
    servers_ok = d;
    accounts_ok = v.accounts_ok;
  }

  with_accounts :
      (az : List Account) → Distinct account_key az → IsKeyed (record reg { accounts = az })
  with_accounts az d = record {
    licenses_ok = v.licenses_ok;
    servers_ok = v.servers_ok;
    accounts_ok = d;
  }

apply-IsKeyed : (c : Change) (reg : Registry) → IsKeyed reg → IsKeyed (apply c reg)
unfolding apply add_license remove_license set_due set_license_status upsert_account
    set_account_status upsert_server set_server_status set_server_note remove_server
apply-IsKeyed (adding_license l) reg v =
    with_licenses reg v _ (put-Distinct license_key l reg.licenses v.licenses_ok)
apply-IsKeyed (removing_license k) reg v =
    with_licenses reg v _ (remove-Distinct license_key k reg.licenses v.licenses_ok)
apply-IsKeyed (setting_due k due) reg v =
    with_licenses reg v _
      (update-Distinct license_key (with_due due) (λ l. refl) k reg.licenses v.licenses_ok)
apply-IsKeyed (setting_license_status k s) reg v =
    with_licenses reg v _
      (update-Distinct license_key (license_with_status s) (λ l. refl) k reg.licenses v.licenses_ok)
apply-IsKeyed (upserting_account a) reg v =
    with_accounts reg v _ (put-Distinct account_key a reg.accounts v.accounts_ok)
apply-IsKeyed (setting_account_status t s) reg v =
    with_accounts reg v _
      (update-Distinct account_key (account_with_status s) (λ a. refl) t reg.accounts v.accounts_ok)
apply-IsKeyed (upserting_server now id k p auto) reg v =
    with_servers reg v _ (
      put-Distinct server_key (contact now id k p auto (get_server id reg)) reg.servers
        v.servers_ok)
apply-IsKeyed (setting_server_status id s) reg v =
    with_servers reg v _
      (update-Distinct server_key (server_with_status s) (λ x. refl) id reg.servers v.servers_ok)
apply-IsKeyed (setting_server_note id note) reg v =
    with_servers reg v _
      (update-Distinct server_key (server_with_note note) (λ x. refl) id reg.servers v.servers_ok)
apply-IsKeyed (removing_server id) reg v =
    with_servers reg v _ (remove-Distinct server_key id reg.servers v.servers_ok)

-- From a registry with distinct keys, no sequence of operations makes two licenses with one key,
-- two hosts with one server id, or two accounts with one thumbprint.
pub apply_all-IsKeyed :
    (cs : List Change) (reg : Registry) → IsKeyed reg → IsKeyed (apply_all cs reg)
unfolding apply_all
apply_all-IsKeyed [] reg v = v
apply_all-IsKeyed (c ∷ cs) reg v = apply_all-IsKeyed cs (apply c reg) (apply-IsKeyed c reg v)

-- The license under a key after an operation, by the license under it before.
pub license_after : Change → Text → Option License → Option License
license_after (adding_license l) k before = if equal l.key k then some l else before
license_after (removing_license j) k before = if equal j k then none else before
license_after (setting_due j due) k before =
    if equal j k then map_found (with_due due) before else before
license_after (setting_license_status j s) k before =
    if equal j k then map_found (license_with_status s) before else before
license_after _ k before = before

-- What a lookup by key finds after an operation, for every operation: an added license replaces the
-- one of its key, a removed one is gone, a change of date or status is made to the license of that
-- key alone, and operations on hosts and accounts change no license.
pub get_license-apply :
    (c : Change) (k : Text) (reg : Registry)
    → get_license k (apply c reg) ≡ license_after c k (get_license k reg)
unfolding apply license_after add_license remove_license set_due set_license_status upsert_account
    set_account_status upsert_server set_server_status set_server_note remove_server
get_license-apply (adding_license l) k reg = find-put license_key l k reg.licenses
get_license-apply (removing_license j) k reg = find-remove license_key j k reg.licenses
get_license-apply (setting_due j due) k reg =
    find-update license_key (with_due due) (λ l. refl) j k reg.licenses
get_license-apply (setting_license_status j s) k reg =
    find-update license_key (license_with_status s) (λ l. refl) j k reg.licenses
get_license-apply _ k reg = refl
