-- ===== src/Cli/Servers.antt =====
-- internal/cli/server.go: the commands on hosts.
pub mod Marking
pub mod Approval
use proxmox_license_proxy.Prelude.{
  Text, equal, not, Bool, true, false, List, [], ◌∷◌, if◌then◌else◌,
}
use proxmox_license_proxy.Result.{Result, ok, err, nothing_given, not_found}
use proxmox_license_proxy.Exec.{Exec, pure, fail, lift, ◌>>=◌, ◌>>◌}
use proxmox_license_proxy.Subscription.Status.{Status, pending, blocked}
use proxmox_license_proxy.Subscription.Model.{Server}
use proxmox_license_proxy.Registry.Store.{Codec, World}
use proxmox_license_proxy.Registry.Api
use proxmox_license_proxy.Cli.{Terminal, confirm}

-- The hosts that `selectHosts` offers: those whose status is another one.
abbrev pub offered : Status → List Server → List Text
offered exclude [] = []
offered exclude (s ∷ ss) =
    let rest = offered exclude ss in if equal s.status exclude then rest else s.server_id ∷ rest

-- The picker of one host: none is picked where the answer is empty.
abbrev pub one_picked : Text → List Text
one_picked one = if equal one [] then [] else one ∷ []

abbrev pub picked : Terminal → Bool → List Text → Result (List Text)
picked term multi [] = ok []
picked term true (o ∷ os) = term.pick_many (o ∷ os)
picked term false (o ∷ os) = elim (term.pick (o ∷ os)) [
  | err e ↦ err e
  | ok one ↦ ok (one_picked one)
]

abbrev pub pending_servers : List Server → List Server
pending_servers [] = []
pending_servers (s ∷ ss) =
    let rest = pending_servers ss in if equal s.status pending then s ∷ rest else rest

abbrev pub pending_ids : List Server → List Text
pending_ids [] = []
pending_ids (s ∷ ss) =
    let rest = pending_ids ss in if equal s.status pending then s.server_id ∷ rest else rest

module _ (codec : Codec) where
  open codec use {Content}

  abbrev pub Command : Type 0 → Type 0
  Command A = Exec (World Content) A

  -- `selectHosts`
  unfoldable pub select_hosts : Terminal → Status → Bool → Command (List Text)
  select_hosts term exclude multi = do
    servers ← Api.list_servers codec
    lift (picked term multi (offered exclude servers))

  -- `server pending`, as the hosts that it prints.
  unfoldable pub server_pending : Command (List Server)
  server_pending = do servers ← Api.list_servers codec; pure (pending_servers servers)

  -- One round of the loop of `applyServerStatus`.
  unfoldable pub set_one : Status → Text → Text → Command (Unit {0})
  set_one status note id = do
    found ← Api.set_server_status codec id status
    if not found
        then fail (not_found id)
        else if equal note []
        then pure tt
        else Api.set_server_note codec id note >> pure tt

  unfoldable pub set_each : Status → Text → List Text → Command (Unit {0})
  set_each status note [] = pure tt
  set_each status note (id ∷ ids) = set_one status note id >> set_each status note ids

  abbrev set_given : Status → Text → List Text → Command (Unit {0})
  set_given status note [] = fail nothing_given
  set_given status note (id ∷ ids) = set_each status note (id ∷ ids)

  abbrev set_named : Terminal → Status → Text → List Text → Command (Unit {0})
  set_named term status note [] =
      if term.interactive
      then select_hosts term status true >>= set_given status note
      else fail nothing_given
  set_named term status note (id ∷ ids) = set_each status note (id ∷ ids)

  -- `applyServerStatus`
  unfoldable pub apply_server_status :
      Terminal → Status → List Text → Bool → Text → Command (Unit {0})
  apply_server_status term status ids true note = do
    servers ← Api.list_servers codec
    set_each status note (pending_ids servers)
  apply_server_status term status ids false note = set_named term status note ids

  abbrev removed_host : Terminal → Bool → Text → Command (Unit {0})
  removed_host term assume_yes id = do
    lift (confirm term assume_yes)
    removed ← Api.remove_server codec id
    if not removed then fail (not_found id) else pure tt

  abbrev remove_picked : Terminal → Bool → List Text → Command (Unit {0})
  remove_picked term assume_yes [] = pure tt
  remove_picked term assume_yes (id ∷ ids) = removed_host term assume_yes id

  -- `server rm`, which offers the hosts with any status but the empty one.
  unfoldable pub server_remove : Terminal → Bool → List Text → Command (Unit {0})
  server_remove term assume_yes (id ∷ []) = removed_host term assume_yes id
  server_remove term assume_yes args =
      if term.interactive
      then select_hosts term [] false >>= remove_picked term assume_yes
      else fail nothing_given

  -- `server approve` and `server reject`, with their status.
  unfoldable pub server_approval : Terminal → Status → List Text → Bool → Text → Command (Unit {0})
  unfolding apply_server_status
  server_approval term status args all note = apply_server_status term status args all note

  -- `server block`
  unfoldable pub server_block : Terminal → List Text → Text → Command (Unit {0})
  unfolding apply_server_status
  server_block term args note = apply_server_status term blocked args false note
