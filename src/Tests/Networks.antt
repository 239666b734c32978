-- ===== src/Tests/Networks.antt =====
-- Browsing at concrete entries.
use proxmox_license_proxy.Prelude.{ℕ, bytes, ◌==◌, false, some, List, [], ◌∷◌}
use proxmox_license_proxy.Discovery.{Addresses, ServiceEntry, browse}
use proxmox_license_proxy.Discovery.Usable.{Browsed, browse-Browsed}

-- An address is a number, and 1 is the host itself.
abbrev addresses : Addresses
addresses = record {
  Raw = ℕ;
  Addr = ℕ;
  from_slice = λ n. some n;
  unmap = λ n. n;
  same = λ m n. m == n;
  is_loopback = λ n. n == 1;
  is_link_local_unicast = λ n. false;
  is_link_local_multicast = λ n. false;
  is_multicast = λ n. false;
  is_unspecified = λ n. n == 0;
}

abbrev proxy : ServiceEntry addresses
proxy = record {
  instance_name = bytes "proxy";
  host_name = bytes "proxy.local.";
  port = 443;
  texts = [];
  v4 = 1 ∷ 7 ∷ 7 ∷ [];
  v6 = 0 ∷ 8 ∷ [];
}

abbrev entries : List (ServiceEntry addresses)
entries = proxy ∷ record proxy { v4 = 9 ∷ [] } ∷ record proxy { instance_name = bytes "other" } ∷ []

browse-Browsed_example : Browsed addresses entries (browse addresses entries)
browse-Browsed_example = browse-Browsed addresses entries
