-- ===== src/Registry/Operations/Hosts.antt =====
-- Auto-registration of hosts: what UpsertServer makes of a contact.
use mathlib.Core.Bool.{true≢false}
use proxmox_license_proxy.Prelude.{
  Text, equal, equal_iff, Bool, true, false, Option, none, some, Bool-cases, ◌≡◌, ◌≢◌, refl, sym,
  ◌∙◌, ◌⊎◌, inl, inr, arith,
}
use proxmox_license_proxy.Subscription.Status.{Status, pending, approved}
use proxmox_license_proxy.Subscription.Model.{Server, Registry}
use proxmox_license_proxy.Registry.Keyed.{find-put, HasId, find-HasId}
use proxmox_license_proxy.Registry.Operations.{
  server_key, get_server, refresh, new_server, contact, upsert_server,
}

-- The status that a host has after a contact, by its entry before.

pub data Decided (auto_approve : Bool) : Option Server → Status → Type 0 where
  registered_pending : auto_approve ≡ false → Decided auto_approve none pending
  registered_approved : auto_approve ≡ true → Decided auto_approve none approved
  upgraded :
      (s : Server)
      → auto_approve ≡ true
      → s.status ≡ pending
      → Decided auto_approve (some s) approved
  kept :
      (s : Server)
      → (auto_approve ≡ false) ⊎ (s.status ≢ pending)
      → Decided auto_approve (some s) s.status

-- The parts of an entry that a contact of a known host leaves alone.
abbrev pub KeepsHistory : Option Server → Server → Type 0
KeepsHistory none current = current.first_seen ≡ current.last_seen
KeepsHistory (some s) current = (current.first_seen ≡ s.first_seen) × (current.note ≡ s.note)

pub record Contacted (now server_id : Text) (auto_approve : Bool) (before after : Registry)
    (current : Server) : Type 0 where
  pub named : current.server_id ≡ server_id
  pub seen : current.last_seen ≡ now
  pub decided : Decided auto_approve (get_server server_id before) current.status
  pub history : KeepsHistory (get_server server_id before) current
  pub stored : get_server server_id after ≡ some current
  pub others : (id : Text) → id ≢ server_id → get_server id after ≡ get_server id before
  pub licenses_kept : after.licenses ≡ before.licenses
  pub accounts_kept : after.accounts ≡ before.accounts

module _ (now server_id key product : Text) where
  contact-Decided :
      (auto : Bool) (o : Option Server)
      → Decided auto o (contact now server_id key product auto o).status
  unfolding contact new_server refresh
  contact-Decided true none = registered_approved refl
  contact-Decided false none = registered_pending refl
  contact-Decided false (some s) = kept s (inl refl)
  contact-Decided true (some s) = elim (Bool-cases (equal s.status pending)) [
    | inl e ↦ rw e (upgraded s refl ((equal_iff s.status pending).0 e))
    | inr ne ↦ rw ne (kept s (inr (λ e. true≢false (sym ((equal_iff s.status pending).1 e) ∙ ne))))
  ]

  contact-KeepsHistory :
      (auto : Bool) (o : Option Server) → KeepsHistory o (contact now server_id key product auto o)
  unfolding contact new_server refresh
  contact-KeepsHistory auto none = refl
  contact-KeepsHistory auto (some s) = (refl, refl)

  contact-seen :
      (auto : Bool) (o : Option Server) → (contact now server_id key product auto o).last_seen ≡ now
  unfolding contact new_server refresh
  contact-seen auto none = refl
  contact-seen auto (some s) = refl

  contact-named :
      (auto : Bool) (o : Option Server)
      → HasId server_key server_id o
      → (contact now server_id key product auto o).server_id ≡ server_id
  unfolding contact new_server refresh
  contact-named auto none h = refl
  contact-named auto (some s) h = h

-- After a contact the registry holds one entry of the host, with the time of the contact. A new
-- host is APPROVED if it comes from a trusted network and PENDING if not; a PENDING host is
-- APPROVED from a trusted network; any other status stays, so that auto-approval never overrides
-- the decision of an operator. What was first seen and noted stays, and so do the other hosts, the
-- licenses and the accounts.
pub upsert_server-Contacted :
    (now server_id key product : Text) (auto_approve : Bool) (reg : Registry)
    → Contacted now server_id auto_approve reg
        (upsert_server now server_id key product auto_approve reg).1
        (upsert_server now server_id key product auto_approve reg).0
upsert_server-Contacted now server_id key product auto reg =
    let known = get_server server_id reg in
    let current = contact now server_id key product auto known in
    let named : current.server_id ≡ server_id =
      contact-named now server_id key product auto known
        (find-HasId server_key server_id reg.servers) in
    unfold upsert_server in
    record {
      named = named;
      seen = contact-seen now server_id key product auto known;
      decided = contact-Decided now server_id key product auto known;
      history = contact-KeepsHistory now server_id key product auto known;
      stored =
          rw (find-put server_key current server_id reg.servers)
            (ground (arith, named, equal_iff current.server_id server_id));
      others = λ id ne.
          rw (find-put server_key current id reg.servers)
            (ground (arith, named, ne, equal_iff current.server_id id));
      licenses_kept = refl;
      accounts_kept = refl;
    }
