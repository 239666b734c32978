-- ===== src/Tests/Commands.antt =====
-- The commands, and orders, over small registries.
use proxmox_license_proxy.Prelude.{
  Text, bytes, equal, equal_iff, Bool, true, false, ◌&&◌, Option, none, some, List, [], ◌∷◌,
  index_byte, has_prefix, trim_space, to_upper, ◌≡◌, refl, arith, if◌then◌else◌,
}
use proxmox_license_proxy.Result.{ok}
use proxmox_license_proxy.Exec.{pure, lift, ◌>>=◌, outcome-eq}
use proxmox_license_proxy.Subscription.Status.{approved, pending, parse_status, is_valid}
use proxmox_license_proxy.Subscription.Key.{
  valid_key, socket_tail, is_socket_digit, level_tail, is_level, hex_tail, is_hex, is_lab_key,
  describe, level_name, product_name,
}
use proxmox_license_proxy.App.Dates.{default_date, valid_date}
use proxmox_license_proxy.Subscription.Model.{License, Server, Registry, active, is_denied}
use proxmox_license_proxy.Registry.Keyed.{has, put}
use proxmox_license_proxy.Registry.Store.{World, parse_file, mutate, reading, load, save}
use proxmox_license_proxy.Registry.Store.Commit.{view}
use proxmox_license_proxy.Registry.Store.Reliable.{Ready}
use proxmox_license_proxy.Registry.Api
use proxmox_license_proxy.App.Service
use proxmox_license_proxy.App.Service.{IssueInput, license_of_input, issue_subscription}
use proxmox_license_proxy.App.Service.Holdings.{holdings}
use proxmox_license_proxy.App.Service.Room.{Found, AtMostOne}
use proxmox_license_proxy.App.Service.Single.{issue_subscription-AtMostOne}
use proxmox_license_proxy.Cli.{Terminal}
use proxmox_license_proxy.Cli.Servers.{apply_server_status}
use proxmox_license_proxy.Cli.Servers.Approval.{Decided, apply_server_status-Decided}
use proxmox_license_proxy.Cli.Licenses.{ListCodec, license_export, license_import, import_each}
use proxmox_license_proxy.Cli.Licenses.Import.{Unowned, license_import-Unowned}
use proxmox_license_proxy.Tests.Fixtures.{
  host, memory_codec, memory_codec-RoundTrips, memory_codec-Encodes, registry, world, state, held,
  clock,
}

abbrev order : IssueInput
order = record {
  thumbprint = bytes "T1";
  server_id = bytes "H1";
  product = bytes "pve";
  level = bytes "c";
  sockets = bytes "4";
}

issue_subscription-AtMostOne_example :
    Found
      (AtMostOne (bytes "T1") (bytes "pve"))
      (view memory_codec (issue_subscription memory_codec clock order state).1.world)
unfolding parse_file holdings equal active is_denied
issue_subscription-AtMostOne_example =
    issue_subscription-AtMostOne memory_codec memory_codec-RoundTrips (bytes "T1") (bytes "pve")
      clock order state (omega arith)

abbrev terminal : Terminal
terminal = record {
  interactive = false;
  pick = λ os. ok [];
  pick_many = λ os. ok os;
  input = ok [];
  line = [];
}

abbrev waiting : Server
waiting = record host { server_id = bytes "H2"; status = pending }

abbrev two_hosts : Registry
two_hosts = record registry { servers = host ∷ waiting ∷ [] }

abbrev hosts_world : World (Option Registry)
hosts_world = record world { disk = record world.disk { main = some (some two_hosts) } }

two_hosts-Ready : Ready memory_codec hosts_world two_hosts
unfolding parse_file
two_hosts-Ready = record { reliable = tt; found = refl }

apply_server_status-Decided_example :
    ((apply_server_status memory_codec terminal approved [] true (bytes "ok") hosts_world).0
      ≡ ok tt)
    × Decided memory_codec memory_codec-RoundTrips memory_codec-Encodes approved
        (bytes "ok")
        two_hosts
        (apply_server_status memory_codec terminal approved [] true (bytes "ok") hosts_world).1
unfolding has equal
apply_server_status-Decided_example =
    apply_server_status-Decided memory_codec memory_codec-RoundTrips memory_codec-Encodes approved
      (bytes "ok") terminal [] hosts_world two_hosts two_hosts-Ready (refl, (refl, tt))

-- A codec that knows one list.
abbrev is_held : License → Bool
is_held l =
    equal l.key held.key
    && (equal l.product held.product
        && (equal l.product_name held.product_name
            && (equal l.reg_date held.reg_date
                && (equal l.next_due_date held.next_due_date
                    && (equal l.status held.status
                        && (equal l.server_id held.server_id && equal l.account held.account))))))

is_held-eq : (l : License) → is_held l ≡ true → held ≡ l
is_held-eq l e = ground (
  arith,
  equal_iff l.key held.key,
  equal_iff l.product held.product,
  equal_iff l.product_name held.product_name,
  equal_iff l.reg_date held.reg_date,
  equal_iff l.next_due_date held.next_due_date,
  equal_iff l.status held.status,
  equal_iff l.server_id held.server_id,
  equal_iff l.account held.account,
)

abbrev marshal_held : List License → Option Text
marshal_held (l ∷ []) = if is_held l then some (bytes "held") else none
marshal_held _ = none

abbrev lists : ListCodec
lists = record { marshal = marshal_held; unmarshal = λ t. some (held ∷ []) }

lists_trip :
    (ls : List License) (text : Text) → marshal_held ls ≡ some text → lists.unmarshal text ≡ some ls
lists_trip [] text h = absurd (ground arith)
lists_trip (l ∷ []) text h = ground (arith, is_held-eq l)
lists_trip (l ∷ m ∷ ls) text h = absurd (ground arith)

abbrev one_license : Registry
one_license = record registry { licenses = held ∷ [] }

abbrev license_world : World (Option Registry)
license_world = record world { disk = record world.disk { main = some (some one_license) } }

license_found : view memory_codec license_world ≡ ok one_license
unfolding parse_file
license_found = refl

held_exported : license_export memory_codec lists license_world ≡ (ok (bytes "held"), license_world)
unfolding license_export Api.list_licenses reading load parse_file equal lift ◌>>=◌
held_exported = refl

held_imported :
    (license_import memory_codec lists clock (some (bytes "held")) license_world).0 ≡ ok tt
unfolding license_import import_each Service.add_license license_of_input valid_key socket_tail
    is_socket_digit level_tail is_level hex_tail is_hex is_lab_key index_byte has_prefix
    parse_status is_valid to_upper default_date valid_date lift pure ◌>>=◌ trim_space
    Api.add_license put mutate save describe level_name product_name equal parse_file
held_imported = refl

license_import-Unowned_example :
    Unowned memory_codec held.key
      (license_import memory_codec lists clock (some (bytes "held")) license_world).1
    × Unit {0}
license_import-Unowned_example =
    license_import-Unowned memory_codec memory_codec-RoundTrips clock lists license_world
      one_license (bytes "held") lists_trip license_found held_exported
      (outcome-eq (license_import memory_codec lists clock (some (bytes "held"))) license_world
        held_imported)
