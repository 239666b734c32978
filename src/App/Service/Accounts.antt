-- ===== src/App/Service/Accounts.antt =====
-- Registration of ACME accounts.
use proxmox_license_proxy.Prelude.{
  Text, equal_iff, Bool, true, false, Option, none, some, [], ◌≡◌, ◌≢◌, refl, arith, if◌then◌else◌,
}
use proxmox_license_proxy.Result.{Result, ok}
use proxmox_license_proxy.Exec.{◌>>=◌}
use proxmox_license_proxy.Subscription.Status.{approved, pending}
use proxmox_license_proxy.Subscription.Model.{Account, Registry}
use proxmox_license_proxy.Registry.Operations.{get_account, upsert_account}
use proxmox_license_proxy.Registry.Store.{Codec, World, first_calls, later_calls, reading}
use proxmox_license_proxy.Registry.Store.Commit.{view, Serves, mutate-Serves}
use proxmox_license_proxy.Registry.Store.Reading.{reading_serves}
use proxmox_license_proxy.Registry.Api
use proxmox_license_proxy.App.Service.{refreshed_account, known_account, register_account}

module _ (codec : Codec) (now thumbprint public_key server_id contact : Text)
    (auto_approve : Bool) where
  open codec use {Content, marshal}

  -- The account as the request describes it.
  abbrev pub requested : Account
  requested = record {
    thumbprint = thumbprint;
    public_key = public_key;
    server_id = server_id;
    contact = contact;
    status = if auto_approve then approved else pending;
    created_at = now;
  }

  abbrev pub registering : World Content → Result Account × World Content
  registering = register_account codec now thumbprint public_key server_id contact auto_approve

  known_account_reads :
      (w : World Content) (reg : Registry)
      → (first_calls w.calls).read ≡ true
      → view codec w ≡ ok reg
      → (known_account codec thumbprint w).0 ≡ get_account thumbprint reg
  unfolding known_account Api.get_account
  known_account_reads w reg r v =
      ground (arith, reading_serves codec (get_account thumbprint) w reg r v)

  known_account_unread :
      (w : World Content)
      → (first_calls w.calls).read ≡ false
      → (known_account codec thumbprint w).0 ≡ none
  unfolding known_account Api.get_account reading
  known_account_unread w r = ground arith

  after_lookup :
      (w : World Content) (found : Option Account) (reg : Registry) (content : Content)
      → thumbprint ≢ []
      → public_key ≢ []
      → (known_account codec thumbprint w).0 ≡ found
      → Serves codec (first_calls (later_calls w.calls))
      → view codec w ≡ ok reg
      → marshal (upsert_account (refreshed_account requested found) reg) ≡ some content
      → ((registering w).0 ≡ ok (refreshed_account requested found))
        × ((registering w).1.disk.main ≡ some content)
  unfolding register_account Api.upsert_account Api.get_account reading ◌>>=◌
  after_lookup w found reg content t p looked serves v encoded =
      let w' = record w { calls = later_calls w.calls } in
      let done =
        mutate-Serves codec (λ r. ok (tt, upsert_account (refreshed_account requested found) r)) w'
          reg (upsert_account (refreshed_account requested found) reg) tt content serves v refl
          encoded in
      rw looked (ground (arith, done.0, done.1, equal_iff thumbprint [], equal_iff public_key []))

  -- What a registration makes of the account that is known.
  abbrev pub AsDecided : Option Account → Account → Type 0
  AsDecided none acc = acc ≡ requested
  AsDecided (some existing) acc =
      (acc.thumbprint ≡ thumbprint)
      × (acc.public_key ≡ public_key)
      × (acc.server_id ≡ server_id)
      × (acc.contact ≡ contact)
      × (acc.status ≡ existing.status)
      × (acc.created_at ≡ existing.created_at)

  refreshed-AsDecided :
      (known : Option Account) → AsDecided known (refreshed_account requested known)
  refreshed-AsDecided none = refl
  refreshed-AsDecided (some existing) = (refl, refl, refl, refl, refl, refl)

  -- The account that a registration leaves, by the one that is known.
  pub record Registers (w : World Content) (known : Option Account) (content : Content)
      : Type 0 where
    pub account : Account
    pub result : (registering w).0 ≡ ok account
    pub decided : AsDecided known account
    pub stored : (registering w).1.disk.main ≡ some content

  -- Where the calls of the store succeed, a registration with a key succeeds and is stored: a known
  -- account keeps its status and its time of creation, whatever network it registers from, and takes
  -- the key, the host and the contact of the request; an unknown one is made as requested, APPROVED
  -- from a trusted network and PENDING else.
  pub register_account-Registers :
      (w : World Content) (reg : Registry) (content : Content)
      → thumbprint ≢ []
      → public_key ≢ []
      → (first_calls w.calls).read ≡ true
      → Serves codec (first_calls (later_calls w.calls))
      → view codec w ≡ ok reg
      → marshal (upsert_account (refreshed_account requested (get_account thumbprint reg)) reg)
        ≡ some content
      → Registers w (get_account thumbprint reg) content
  register_account-Registers w reg content t p read serves v encoded =
      let (result, stored) =
        after_lookup w (get_account thumbprint reg) reg content t p
          (known_account_reads w reg read v) serves v encoded in
      record {
        account = refreshed_account requested (get_account thumbprint reg);
        result = result;
        decided = refreshed-AsDecided (get_account thumbprint reg);
        stored = stored;
      }

  -- The error of the lookup is dropped: where its read fails and the next operation succeeds, a
  -- registration gives the account the status of a new one, whatever the registry holds of it. So
  -- an account that an operator blocked is APPROVED from a trusted network.
  pub register_account_forgets :
      (w : World Content) (reg : Registry) (content : Content)
      → thumbprint ≢ []
      → public_key ≢ []
      → (first_calls w.calls).read ≡ false
      → Serves codec (first_calls (later_calls w.calls))
      → view codec w ≡ ok reg
      → marshal (upsert_account requested reg) ≡ some content
      → ((registering w).0 ≡ ok requested) × ((registering w).1.disk.main ≡ some content)
  register_account_forgets w reg content t p unread serves v encoded =
      after_lookup w none reg content t p (known_account_unread w unread) serves v encoded
