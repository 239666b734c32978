-- ===== src/Discovery.antt =====
-- internal/discovery/discovery.go: the servers that are found on the network, from the entries that
-- mDNS reports until the time is over.
pub mod Naming
pub mod Usable
use proxmox_license_proxy.Prelude.{
  ℕ, Text, bytes, equal, ltb, ◌==◌, ◌||◌, Bool, true, false, Option, none, some, List, [], ◌∷◌,
  ◌++◌, any, if◌then◌else◌,
}

-- What the code calls of net/netip. `from_slice` is AddrFromSlice, and `same` is `==`.
pub record Addresses : Type 1 where
  pub Raw : Type 0
  pub Addr : Type 0
  pub from_slice : Raw → Option Addr
  pub unmap : Addr → Addr
  pub same : Addr → Addr → Bool
  pub is_loopback : Addr → Bool
  pub is_link_local_unicast : Addr → Bool
  pub is_link_local_multicast : Addr → Bool
  pub is_multicast : Addr → Bool
  pub is_unspecified : Addr → Bool

-- s < t
unfoldable pub less : Text → Text → Bool
less s [] = false
less [] (b ∷ t) = true
less (a ∷ s) (b ∷ t) = let rest = less s t in if a == b then rest else ltb a b

module _ (net : Addresses) where
  open net use {Raw, Addr}

  -- What a resolver reports.
  pub record ServiceEntry : Type 0 where
    pub instance_name : Text
    pub host_name : Text
    pub port : ℕ
    pub texts : List Text
    pub v4 : List Raw
    pub v6 : List Raw

  pub record Found : Type 0 where
    pub instance_name : Text
    pub host : Text
    pub port : ℕ
    pub ips : List Addr
    pub texts : List Text

  -- `Scheme`
  unfoldable pub scheme : Found → Text
  scheme f = if any (λ t. equal t (bytes "tls=http")) f.texts then bytes "http" else bytes "https"

  abbrev pub contains_addr : List Addr → Addr → Bool
  contains_addr s a = any (λ x. net.same x a) s

  -- An address that a client cannot connect to across the network.
  unfoldable pub is_useless : Addr → Bool
  is_useless a =
      net.is_loopback a
      || net.is_link_local_unicast a
      || net.is_link_local_multicast a
      || net.is_multicast a
      || net.is_unspecified a

  -- One round of the loop of `addIPs`.
  abbrev pub add_addr : Option Addr → List Addr → List Addr
  add_addr none ips = ips
  add_addr (some a) ips =
      if is_useless (net.unmap a)
      then ips
      else if contains_addr ips (net.unmap a)
      then ips
      else ips ++ net.unmap a ∷ []

  unfoldable pub add_ips : List Raw → List Addr → List Addr
  add_ips [] ips = ips
  add_ips (raw ∷ raws) ips = add_ips raws (add_addr (net.from_slice raw) ips)

  abbrev pub with_ips : ServiceEntry → Found → Found
  with_ips e f = record f { ips = add_ips e.v6 (add_ips e.v4 f.ips) }

  -- The map `byInstance`, as the list of its values, with one more entry.
  unfoldable pub announce : ServiceEntry → List Found → List Found
  announce e [] =
      with_ips e (record {
        instance_name = e.instance_name;
        host = e.host_name;
        port = e.port;
        ips = [];
        texts = e.texts;
      })
      ∷ []
  announce e (f ∷ fs) =
      let rest = f ∷ announce e fs in
      if equal f.instance_name e.instance_name then with_ips e f ∷ fs else rest

  unfoldable pub announce_all : List ServiceEntry → List Found → List Found
  announce_all [] fs = fs
  announce_all (e ∷ es) fs = announce_all es (announce e fs)

  -- sort.Slice by the instance; no two values have one.
  unfoldable pub insert : Found → List Found → List Found
  insert f [] = f ∷ []
  insert f (g ∷ gs) =
      let rest = g ∷ insert f gs in
      if less f.instance_name g.instance_name then f ∷ (g ∷ gs) else rest

  unfoldable pub sort : List Found → List Found
  sort [] = []
  sort (f ∷ fs) = insert f (sort fs)

  -- `Browse`, for the entries that are reported.
  unfoldable pub browse : List ServiceEntry → List Found
  unfolding announce_all sort
  browse entries = sort (announce_all entries [])
