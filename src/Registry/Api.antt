-- ===== src/Registry/Api.antt =====
-- internal/registry/store.go: the methods of `Store`, each over a `World`.
use proxmox_license_proxy.Prelude.{Text, Bool, Option, List}
use proxmox_license_proxy.Result.{Result, ok}
use proxmox_license_proxy.Subscription.Status.{Status}
use proxmox_license_proxy.Subscription.Model.{License, Server, Account}
use proxmox_license_proxy.Registry.Operations
use proxmox_license_proxy.Registry.Store.{Codec, World, reading, mutate}

module _ (codec : Codec) where
  open codec use {Content}

  abbrev Action : Type 0 → Type 0
  Action A = World Content → Result A × World Content

  unfoldable pub list_licenses : Action (List License)
  list_licenses = reading codec (λ reg. reg.licenses)

  unfoldable pub get_license : Text → Action (Option License)
  get_license key = reading codec (Operations.get_license key)

  unfoldable pub get_license_for : Text → Text → Action (Option License)
  get_license_for server_id product =
      reading codec (λ reg. Operations.license_for server_id product reg.licenses)

  unfoldable pub add_license : License → Action (Unit {0})
  add_license l = mutate codec (λ reg. ok (tt, Operations.add_license l reg))

  unfoldable pub remove_license : Text → Action Bool
  remove_license key = mutate codec (λ reg. ok (Operations.remove_license key reg))

  unfoldable pub set_due : Text → Text → Action Bool
  set_due key due = mutate codec (λ reg. ok (Operations.set_due key due reg))

  unfoldable pub set_license_status : Text → Status → Action Bool
  set_license_status key s = mutate codec (λ reg. ok (Operations.set_license_status key s reg))

  unfoldable pub upsert_account : Account → Action (Unit {0})
  upsert_account a = mutate codec (λ reg. ok (tt, Operations.upsert_account a reg))

  unfoldable pub get_account : Text → Action (Option Account)
  get_account thumbprint = reading codec (Operations.get_account thumbprint)

  unfoldable pub list_accounts : Action (List Account)
  list_accounts = reading codec (λ reg. reg.accounts)

  unfoldable pub set_account_status : Text → Status → Action Bool
  set_account_status thumbprint s =
      mutate codec (λ reg. ok (Operations.set_account_status thumbprint s reg))

  -- `now` is the time of the call in RFC 3339.
  unfoldable pub upsert_server : Text → Text → Text → Text → Bool → Action Server
  upsert_server now server_id key product auto_approve =
      mutate codec (λ reg. ok (Operations.upsert_server now server_id key product auto_approve reg))

  unfoldable pub list_servers : Action (List Server)
  list_servers = reading codec (λ reg. reg.servers)

  unfoldable pub set_server_status : Text → Status → Action Bool
  set_server_status id s = mutate codec (λ reg. ok (Operations.set_server_status id s reg))

  unfoldable pub set_server_note : Text → Text → Action Bool
  set_server_note id note = mutate codec (λ reg. ok (Operations.set_server_note id note reg))

  unfoldable pub remove_server : Text → Action Bool
  remove_server id = mutate codec (λ reg. ok (Operations.remove_server id reg))
