-- ===== src/Cli/Servers/Approval.antt =====
-- What `server approve --all` does.
use proxmox_license_proxy.Prelude.{
  Text, equal, Bool-cases, inl, inr, true, List, [], ◌∷◌, ◌≡◌, refl, ◌∙◌, arith,
}
use proxmox_license_proxy.Result.{ok}
use proxmox_license_proxy.Exec.{pure, >>=-eq, outcome-eq}
use proxmox_license_proxy.Subscription.Status.{Status}
use proxmox_license_proxy.Subscription.Model.{Registry}
use proxmox_license_proxy.Registry.Keyed.{find, has, map_found, Distinct}
use proxmox_license_proxy.Registry.Operations.{server_key, set_server_status, set_server_note}
use proxmox_license_proxy.Registry.Store.{Codec, World}
use proxmox_license_proxy.Registry.Store.Commit.{view, RoundTrips}
use proxmox_license_proxy.Registry.Store.Reliable.{Encodes, Ready, mutate-Ready, reading-Ready}
use proxmox_license_proxy.Registry.Api
use proxmox_license_proxy.Cli.{Terminal}
use proxmox_license_proxy.Cli.Servers.{pending_ids, set_one, set_each, apply_server_status}
use proxmox_license_proxy.Cli.Servers.Marking.{
  mark, set_all, decided, find-set_all, find-decided, Listed, pending_ids-Listed, Listed-mark,
  set_all-rest,
}

module _ (codec : Codec) (rt : RoundTrips codec) (en : Encodes codec) (status : Status)
    (note : Text) where
  open codec use {Content}

  status_set :
      (id : Text) (w : World Content) (reg : Registry)
      → Ready codec w reg
      → has server_key id reg.servers ≡ true
      → ((Api.set_server_status codec id status w).0 ≡ ok true)
        × Ready codec
            (Api.set_server_status codec id status w).1
            (set_server_status id status reg).1
  unfolding Api.set_server_status set_server_status
  status_set id w reg h listed =
      mutate-Ready codec (λ x. ok (set_server_status id status x)) w reg
        (set_server_status id status reg).1 true rt en h (ground (arith, listed))

  note_set :
      (id : Text) (w : World Content) (reg : Registry)
      → Ready codec w reg
      → ((Api.set_server_note codec id note w).0 ≡ ok (set_server_note id note reg).0)
        × Ready codec (Api.set_server_note codec id note w).1 (set_server_note id note reg).1
  unfolding Api.set_server_note
  note_set id w reg h =
      mutate-Ready codec (λ x. ok (set_server_note id note x)) w reg (set_server_note id note reg).1
        (set_server_note id note reg).0 rt en h refl

  set_one-Ready :
      (id : Text) (w : World Content) (reg : Registry)
      → Ready codec w reg
      → has server_key id reg.servers ≡ true
      → ((set_one codec status note id w).0 ≡ ok tt)
        × Ready codec (set_one codec status note id w).1 (mark status note id reg)
  unfolding set_one pure
  set_one-Ready id w reg h listed =
      let (done, left) = status_set id w reg h listed in
      let chosen = (set_server_status id status reg).1 in
      let w' = (Api.set_server_status codec id status w).1 in
      rw
        (>>=-eq (Api.set_server_status codec id status) _
          (outcome-eq (Api.set_server_status codec id status) w done))
        (elim (Bool-cases (equal note [])) [
          | inl empty ↦ rw empty (refl, left)
          | inr given ↦
              let (noted, left') = note_set id w' chosen left in
              rw given (
                rw
                  (>>=-eq (Api.set_server_note codec id note) _
                    (outcome-eq (Api.set_server_note codec id note) w' noted))
                  (refl, left'))
        ])

  set_each-Ready :
      (ids : List Text) (w : World Content) (reg : Registry)
      → Ready codec w reg
      → Listed ids reg.servers
      → ((set_each codec status note ids w).0 ≡ ok tt)
        × Ready codec (set_each codec status note ids w).1 (set_all status note ids reg)
  unfolding set_each pure
  set_each-Ready [] w reg h listed = (refl, h)
  set_each-Ready (id ∷ ids) w reg h (l, ls) =
      let (done, left) = set_one-Ready id w reg h l in
      let rest =
        set_each-Ready ids (set_one codec status note id w).1 (mark status note id reg) left
          (Listed-mark status note id reg ids ls) in
      rw
        (>>=-eq (set_one codec status note id) _ (outcome-eq (set_one codec status note id) w done))
        rest

  -- What is left where the hosts that waited have the status and the note.
  pub record Decided (reg : Registry) (w : World Content) : Type 0 where
    pub registry : Registry
    pub found : view codec w ≡ ok registry
    pub hosts :
        (k : Text)
        → find server_key k registry.servers
          ≡ map_found (decided status note) (find server_key k reg.servers)
    pub licenses : registry.licenses ≡ reg.licenses
    pub accounts : registry.accounts ≡ reg.accounts

  -- Where the calls of the store succeed, every registry can be encoded and no two hosts have one
  -- id, the command for all hosts succeeds: every host that was PENDING has the status, and the
  -- note if that is not empty; nothing else of it changes, nor do the other hosts, the licenses and
  -- the accounts.
  pub apply_server_status-Decided :
      (term : Terminal) (args : List Text) (w : World Content) (reg : Registry)
      → Ready codec w reg
      → Distinct server_key reg.servers
      → ((apply_server_status codec term status args true note w).0 ≡ ok tt)
        × Decided reg (apply_server_status codec term status args true note w).1
  unfolding apply_server_status Api.list_servers
  apply_server_status-Decided term args w reg h d =
      let (listed, looked) = reading-Ready codec (λ x. x.servers) w reg h in
      let ids = pending_ids reg.servers in
      let after = set_all status note ids reg in
      let w' = (Api.list_servers codec w).1 in
      let (done, left) = set_each-Ready ids w' reg looked (pending_ids-Listed reg.servers) in
      rw (>>=-eq (Api.list_servers codec) _ (outcome-eq (Api.list_servers codec) w listed)) (
        done,
        record {
          registry = after;
          found = left.found;
          hosts =
              λ k. find-set_all status note k ids reg ∙ find-decided status note k reg.servers d;
          licenses = (set_all-rest status note ids reg).0;
          accounts = (set_all-rest status note ids reg).1;
        },
      )
