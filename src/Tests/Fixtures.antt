-- ===== src/Tests/Fixtures.antt =====
-- A registry, a codec that keeps registries as they are, and worlds over it.
use proxmox_license_proxy.Prelude.{bytes, false, Option, none, some, [], ◌∷◌, refl}
use proxmox_license_proxy.Subscription.Status.{approved, blocked, revoked}
use proxmox_license_proxy.Subscription.Key.{drawn}
use proxmox_license_proxy.Subscription.Model.{License, Server, Account, Registry}
use proxmox_license_proxy.Registry.Store.Reliable.{Encodes}
use proxmox_license_proxy.Registry.Store.{Codec, Calls, fine, World}
use proxmox_license_proxy.Registry.Store.Commit.{RoundTrips, Serves}
use proxmox_license_proxy.App.Service.{Clock, State}

-- A file holds a registry, or something that is none.

abbrev pub memory_codec : Codec
memory_codec = record {
  Content = Option Registry;
  marshal = λ reg. some (some reg);
  unmarshal = λ c. c;
}

pub memory_codec-Encodes : Encodes memory_codec
memory_codec-Encodes reg = (some reg, refl)

pub memory_codec-RoundTrips : RoundTrips memory_codec
memory_codec-RoundTrips reg content e = cc

abbrev pub held : License
held = record {
  key = bytes "pve1c-1ab0000000";
  product = bytes "pve";
  product_name = bytes "Proxmox VE Community Subscription";
  reg_date = bytes "2026-01-01";
  next_due_date = bytes "2027-01-01";
  status = approved;
  server_id = bytes "H1";
  account = bytes "T1";
}

abbrev pub withdrawn : License
withdrawn = record held { key = bytes "pbsc-1ab0000001"; product = bytes "pbs"; status = revoked }

abbrev pub account : Account
account = record {
  thumbprint = bytes "T1";
  public_key = bytes "K1";
  server_id = bytes "H1";
  contact = [];
  status = approved;
  created_at = bytes "2026-01-01T00:00:00Z";
}

abbrev pub bad_account : Account
bad_account = record account { thumbprint = bytes "T2"; status = blocked }

abbrev pub host : Server
host = record {
  server_id = bytes "H1";
  key = bytes "pbsc-1ab0000001";
  product = bytes "pbs";
  status = approved;
  first_seen = bytes "2026-01-01T00:00:00Z";
  last_seen = bytes "2026-01-02T00:00:00Z";
  note = [];
}

abbrev pub registry : Registry
registry = record {
  licenses = held ∷ withdrawn ∷ [];
  servers = host ∷ [];
  accounts = account ∷ bad_account ∷ [];
}

abbrev pub world : World (Option Registry)
world = record { disk = record { main = some (some registry); bak = none; tmp = none }; calls = [] }

abbrev pub state : State (Option Registry)
state = record { world = world; draws = drawn 1 2 3 4 ∷ [] }

abbrev pub clock : Clock
clock = record {
  now = bytes "2026-02-01T00:00:00Z";
  today = bytes "2026-02-01";
  next_year = bytes "2027-02-01";
}

-- One call of the store whose read fails.
abbrev pub unreadable : Calls (Option Registry)
unreadable = record fine { read = false }

pub fine-Serves : Serves memory_codec fine
fine-Serves = record {
  mkdir_ok = refl;
  lock_ok = refl;
  read_ok = refl;
  tmp_ok = refl;
  chmod_ok = refl;
  rename_ok = refl;
}
