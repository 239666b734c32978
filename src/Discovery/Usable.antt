-- ===== src/Discovery/Usable.antt =====
-- Which servers are found, and with which addresses.
use proxmox_license_proxy.Prelude.{
  Text, equal, ◌∙◌, Bool-cases, false, All, Option, none, some, List, [], ◌∷◌, ◌++◌, ◌≡◌, inl, inr,
  arith,
}
use proxmox_license_proxy.Registry.Keyed.{has}
use proxmox_license_proxy.Discovery.{
  Addresses, less, ServiceEntry, Found, contains_addr, is_useless, add_addr, add_ips, with_ips,
  announce, announce_all, insert, sort, browse,
}
use proxmox_license_proxy.Discovery.Naming.{
  named, OneEach, is_reported, announce_all-OneEach, named-sort, sort-OneEach, named-announce_all,
}

module _ (net : Addresses) where
  open net use {Raw, Addr}

  -- An address that a client can connect to across the network.
  abbrev pub IsUsable : Addr → Type 0
  IsUsable a =
      (net.is_loopback a ≡ false)
      × (net.is_link_local_unicast a ≡ false)
      × (net.is_link_local_multicast a ≡ false)
      × (net.is_multicast a ≡ false)
      × (net.is_unspecified a ≡ false)

  is_useless-IsUsable : (a : Addr) → is_useless net a ≡ false → IsUsable a
  unfolding is_useless
  is_useless-IsUsable a h = ground (arith, h)

  abbrev AllUsable : List Addr → Type 0
  AllUsable ips = All IsUsable ips

  -- No address is behind one that is the same.
  abbrev Single : List Addr → Type 0
  Single [] = Unit
  Single (a ∷ ips) = All (λ b. net.same a b ≡ false) ips × Single ips

  -- What is said of the addresses of a server.
  pub record IsReachable (f : Found net) : Type 0 where
    pub usable : AllUsable f.ips
    pub single : Single f.ips

  append-AllUsable :
      (ips : List Addr) (a : Addr) → AllUsable ips → IsUsable a → AllUsable (ips ++ a ∷ [])
  append-AllUsable [] a h u = (u, tt)
  append-AllUsable (b ∷ ips) a (h, hs) u = (h, append-AllUsable ips a hs u)

  append-differs :
      (b : Addr) (ips : List Addr) (a : Addr)
      → All (λ x. net.same b x ≡ false) ips
      → net.same b a ≡ false
      → All (λ x. net.same b x ≡ false) (ips ++ a ∷ [])
  append-differs b [] a h d = (d, tt)
  append-differs b (x ∷ ips) a (h, hs) d = (h, append-differs b ips a hs d)

  append-Single :
      (ips : List Addr) (a : Addr)
      → Single ips
      → contains_addr net ips a ≡ false
      → Single (ips ++ a ∷ [])
  append-Single [] a h n = (tt, tt)
  append-Single (b ∷ ips) a (h, hs) n =
      (append-differs b ips a h (ground arith), append-Single ips a hs (ground arith))

  add_addr-kept :
      (o : Option Addr) (ips : List Addr)
      → AllUsable ips × Single ips
      → AllUsable (add_addr net o ips) × Single (add_addr net o ips)
  add_addr-kept none ips h = h
  add_addr-kept (some a) ips (u, s) = elim (Bool-cases (is_useless net (net.unmap a))) [
    | inl useless ↦ rw useless (u, s)
    | inr useful ↦ elim (Bool-cases (contains_addr net ips (net.unmap a))) [
      | inl known ↦ rw (useful, known) (u, s)
      | inr fresh ↦
          rw (useful, fresh)
            (
              append-AllUsable ips (net.unmap a) u (is_useless-IsUsable (net.unmap a) useful),
              append-Single ips (net.unmap a) s fresh,
            )
    ]
  ]

  add_ips-kept :
      (raws : List Raw) (ips : List Addr)
      → AllUsable ips × Single ips
      → AllUsable (add_ips net raws ips) × Single (add_ips net raws ips)
  unfolding add_ips
  add_ips-kept [] ips h = h
  add_ips-kept (raw ∷ raws) ips h =
      add_ips-kept raws (add_addr net (net.from_slice raw) ips)
        (add_addr-kept (net.from_slice raw) ips h)

  with_ips-IsReachable :
      (e : ServiceEntry net) (f : Found net) → IsReachable f → IsReachable (with_ips net e f)
  with_ips-IsReachable e f h =
      let (u, s) =
        add_ips-kept e.v6 (add_ips net e.v4 f.ips) (add_ips-kept e.v4 f.ips (h.usable, h.single)) in
      record { usable = u; single = s }

  announce-IsReachable :
      (e : ServiceEntry net) (fs : List (Found net))
      → All IsReachable fs
      → All IsReachable (announce net e fs)
  unfolding announce
  announce-IsReachable e [] h = (with_ips-IsReachable e _ (record { usable = tt; single = tt }), tt)
  announce-IsReachable e (f ∷ fs) (h, hs) =
      elim (Bool-cases (equal f.instance_name e.instance_name)) [
        | inl same ↦ rw same (with_ips-IsReachable e f h, hs)
        | inr other ↦ rw other (h, announce-IsReachable e fs hs)
      ]

  announce_all-IsReachable :
      (es : List (ServiceEntry net)) (fs : List (Found net))
      → All IsReachable fs
      → All IsReachable (announce_all net es fs)
  unfolding announce_all
  announce_all-IsReachable [] fs h = h
  announce_all-IsReachable (e ∷ es) fs h =
      announce_all-IsReachable es (announce net e fs) (announce-IsReachable e fs h)

  insert-IsReachable :
      (f : Found net) (fs : List (Found net))
      → IsReachable f
      → All IsReachable fs
      → All IsReachable (insert net f fs)
  unfolding insert
  insert-IsReachable f [] h hs = (h, tt)
  insert-IsReachable f (g ∷ gs) h (k, ks) =
      elim (Bool-cases (less f.instance_name g.instance_name)) [
        | inl before ↦ rw before (h, (k, ks))
        | inr behind ↦ rw behind (k, insert-IsReachable f gs h ks)
      ]

  sort-IsReachable : (fs : List (Found net)) → All IsReachable fs → All IsReachable (sort net fs)
  unfolding sort
  sort-IsReachable [] h = tt
  sort-IsReachable (f ∷ fs) (h, hs) = insert-IsReachable f (sort net fs) h (sort-IsReachable fs hs)

  browse-AllReachable : (entries : List (ServiceEntry net)) → All IsReachable (browse net entries)
  unfolding browse
  browse-AllReachable entries =
      sort-IsReachable (announce_all net entries []) (announce_all-IsReachable entries [] tt)

  -- What is said of the servers that are found.
  pub record Browsed (entries : List (ServiceEntry net)) (fs : List (Found net)) : Type 0 where
    pub reported : (k : Text) → named net k fs ≡ is_reported net k entries
    pub one_each : OneEach net fs
    pub reachable : All IsReachable fs

  -- Whatever entries are reported, the servers that are found are those of which an entry is
  -- reported, each once. No address of theirs is one of the host itself, of its link or of a group,
  -- or unspecified, and no server has one address twice.
  pub browse-Browsed : (entries : List (ServiceEntry net)) → Browsed entries (browse net entries)
  unfolding browse has
  browse-Browsed entries = record {
    reported = λ k.
        named-sort net k (announce_all net entries [])
        ∙ ground (arith, named-announce_all net k entries []);
    one_each =
        sort-OneEach net (announce_all net entries []) (announce_all-OneEach net entries [] tt);
    reachable = browse-AllReachable entries;
  }
