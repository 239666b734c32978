-- ===== src/Cli/Servers/Marking.antt =====
-- What the loop of `server approve --all` makes of the hosts of a registry.
use proxmox_license_proxy.Prelude.{
  Text, equal, equal_iff, equal_refl, Bool-cases, inl, inr, true, false, any, All, Option, none,
  some, List, [], ◌∷◌, ◌≡◌, refl, ◌∙◌, arith, if◌then◌else◌,
}
use proxmox_license_proxy.Subscription.Status.{Status, pending}
use proxmox_license_proxy.Subscription.Model.{Server, Registry}
use proxmox_license_proxy.Registry.Keyed.{
  find, has, update, map_found, Distinct, find-update, has-update,
}
use proxmox_license_proxy.Registry.Operations.{
  server_key, server_with_status, server_with_note, set_server_status, set_server_note,
}
use proxmox_license_proxy.Cli.Servers.{pending_ids}

-- The registry behind the loop over these hosts.

abbrev pub mark : Status → Text → Text → Registry → Registry
mark status note id reg =
    let chosen = (set_server_status id status reg).1 in
    if equal note [] then chosen else (set_server_note id note chosen).1

abbrev pub set_all : Status → Text → List Text → Registry → Registry
set_all status note [] reg = reg
set_all status note (id ∷ ids) reg = set_all status note ids (mark status note id reg)

-- The host has the status, and the note if there is one.
abbrev pub marked : Status → Text → Server → Server
marked status note s = record s { status = status; note = if equal note [] then s.note else note }

-- So it is with a host that was waiting for a decision.
abbrev pub decided : Status → Text → Server → Server
decided status note s = if equal s.status pending then marked status note s else s

module _ (status : Status) (note : Text) (k : Text) where
  find-mark :
      (id : Text) (reg : Registry)
      → find server_key k (mark status note id reg).servers ≡ (
          if equal id k
          then map_found (marked status note) (find server_key k reg.servers)
          else find server_key k reg.servers)
  unfolding set_server_status set_server_note
  find-mark id reg = ground (
    arith,
    find-update server_key (server_with_status status) (λ s. refl) id k reg.servers,
    find-update server_key (server_with_note note) (λ s. refl) id k
        (update server_key (server_with_status status) id reg.servers),
  )

  set_twice :
      (o : Option Server)
      → map_found (marked status note) (map_found (marked status note) o)
        ≡ map_found (marked status note) o
  set_twice none = refl
  set_twice (some s) = ground arith

  pub find-set_all :
      (ids : List Text) (reg : Registry)
      → find server_key k (set_all status note ids reg).servers ≡ (
          if any (λ id. equal id k) ids
          then map_found (marked status note) (find server_key k reg.servers)
          else find server_key k reg.servers)
  find-set_all [] reg = refl
  find-set_all (id ∷ ids) reg = ground (
    arith,
    find-set_all ids (mark status note id reg),
    find-mark id reg,
    set_twice (find server_key k reg.servers),
  )

  not_pending :
      (ls : List Server)
      → has server_key k ls ≡ false
      → any (λ id. equal id k) (pending_ids ls) ≡ false
  unfolding has
  not_pending [] h = refl
  not_pending (s ∷ ss) h = ground (arith, not_pending ss)

  -- Of hosts with different ids, the pending ones are decided.
  pub find-decided :
      (ls : List Server)
      → Distinct server_key ls
      → (if any (λ id. equal id k) (pending_ids ls)
          then map_found (marked status note) (find server_key k ls)
          else find server_key k ls)
        ≡ map_found (decided status note) (find server_key k ls)
  unfolding find
  find-decided [] d = refl
  find-decided (s ∷ ss) (h, d) =
      ground (arith, find-decided ss d, not_pending ss, equal_iff s.server_id k)

has-mark :
    (status : Status) (note k id : Text) (reg : Registry)
    → has server_key id (mark status note k reg).servers ≡ has server_key id reg.servers
unfolding set_server_status set_server_note
has-mark status note k id reg = ground (
  arith,
  has-update server_key (server_with_status status) (λ s. refl) k id reg.servers,
  has-update server_key (server_with_note note) (λ s. refl) k id
      (update server_key (server_with_status status) k reg.servers),
)

-- The hosts that the loop is for are all in the registry.
abbrev pub Listed : List Text → List Server → Type 0
Listed ids ss = All (λ id. has server_key id ss ≡ true) ids

Listed-more :
    (s : Server) (ids : List Text) (ss : List Server) → Listed ids ss → Listed ids (s ∷ ss)
unfolding has
Listed-more s [] ss h = tt
Listed-more s (id ∷ ids) ss (h, hs) = (ground arith, Listed-more s ids ss hs)

pub pending_ids-Listed : (ss : List Server) → Listed (pending_ids ss) ss
unfolding has
pending_ids-Listed [] = tt
pending_ids-Listed (s ∷ ss) = elim (Bool-cases (equal s.status pending)) [
  | inl waits ↦
      rw waits (ground (arith, equal_refl s.server_id), Listed-more s _ ss (pending_ids-Listed ss))
  | inr other ↦ rw other (Listed-more s _ ss (pending_ids-Listed ss))
]

pub Listed-mark :
    (status : Status) (note k : Text) (reg : Registry) (ids : List Text)
    → Listed ids reg.servers
    → Listed ids (mark status note k reg).servers
Listed-mark status note k reg [] h = tt
Listed-mark status note k reg (id ∷ ids) (h, hs) =
    (has-mark status note k id reg ∙ h, Listed-mark status note k reg ids hs)

pub set_all-rest :
    (status : Status) (note : Text) (ids : List Text) (reg : Registry)
    → ((set_all status note ids reg).licenses ≡ reg.licenses)
      × ((set_all status note ids reg).accounts ≡ reg.accounts)
unfolding set_server_status set_server_note
set_all-rest status note [] reg = (refl, refl)
set_all-rest status note (id ∷ ids) reg =
    ground (arith, set_all-rest status note ids (mark status note id reg))
