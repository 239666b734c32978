-- ===== src/Tests/Stores.antt =====
-- The store at concrete inputs.
use proxmox_license_proxy.Prelude.{bytes, equal, false, Option, some, [], ◌∷◌, ◌≡◌, refl}
use proxmox_license_proxy.Result.{ok}
use proxmox_license_proxy.Subscription.Status.{revoked}
use proxmox_license_proxy.Subscription.Model.{Registry}
use proxmox_license_proxy.Registry.Keyed.{has}
use proxmox_license_proxy.Registry.Operations.{get_license, add_license, upsert_server}
use proxmox_license_proxy.Registry.Operations.Invariant.{
  adding_license, removing_license, setting_license_status, apply, apply_all, IsKeyed,
  license_after, apply_all-IsKeyed, get_license-apply,
}
use proxmox_license_proxy.Registry.Operations.Hosts.{Contacted, upsert_server-Contacted}
use proxmox_license_proxy.Registry.Store.{fine, World, mutate, parse_file}
use proxmox_license_proxy.Registry.Store.Commit.{Atomic, mutate-Atomic, mutate-Serves}
use proxmox_license_proxy.Tests.Fixtures.{memory_codec, held, registry, world, fine-Serves}

abbrev broken : World (Option Registry)
broken = record world { calls = record fine { rename = false } ∷ [] }

mutate-Atomic_example :
    Atomic memory_codec
      (λ reg. ok (tt, add_license held reg))
      broken
      (mutate memory_codec (λ reg. ok (tt, add_license held reg)) broken).0
      (mutate memory_codec (λ reg. ok (tt, add_license held reg)) broken).1
mutate-Atomic_example = mutate-Atomic memory_codec (λ reg. ok (tt, add_license held reg)) broken

mutate-Serves_example :
    ((mutate memory_codec (λ reg. ok (tt, add_license held reg)) world).0 ≡ ok tt)
    × ((mutate memory_codec (λ reg. ok (tt, add_license held reg)) world).1.disk.main
        ≡ some (some (add_license held registry)))
mutate-Serves_example =
    mutate-Serves memory_codec (λ reg. ok (tt, add_license held reg)) world registry
      (add_license held registry) tt (some (add_license held registry)) fine-Serves
      (unfold parse_file in refl) refl refl

registry-IsKeyed : IsKeyed registry
unfolding equal has
registry-IsKeyed = record {
  licenses_ok = (refl, (refl, tt));
  servers_ok = (refl, tt);
  accounts_ok = (refl, (refl, tt));
}

apply_all-IsKeyed_example :
    IsKeyed (apply_all (adding_license held ∷ removing_license held.key ∷ []) registry)
apply_all-IsKeyed_example =
    apply_all-IsKeyed (adding_license held ∷ removing_license held.key ∷ []) registry
      registry-IsKeyed

get_license-apply_example :
    get_license held.key (apply (setting_license_status held.key revoked) registry)
    ≡ license_after
        (setting_license_status held.key revoked)
        held.key
        (get_license held.key registry)
get_license-apply_example =
    get_license-apply (setting_license_status held.key revoked) held.key registry

upsert_server-Contacted_example :
    Contacted
      (bytes "now")
      (bytes "H2")
      false
      registry
      (upsert_server (bytes "now") (bytes "H2") held.key (bytes "pve") false registry).1
      (upsert_server (bytes "now") (bytes "H2") held.key (bytes "pve") false registry).0
upsert_server-Contacted_example =
    upsert_server-Contacted (bytes "now") (bytes "H2") held.key (bytes "pve") false registry
