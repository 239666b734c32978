-- ===== src/App/Service.antt =====
-- internal/app/service.go: licenses, accounts and issuance.
--
-- A service runs over the world of the store and the draws of crypto/rand that are to come; what it
-- reads of the clock is an argument. The dates of one call come from several calls of time.Now, and
-- nothing relates them.
pub mod Steps
pub mod Accounts
pub mod Minting
pub mod Issue
pub mod Refusals
pub mod Holdings
pub mod Origin
pub mod Denied
pub mod Room
pub mod Single
use proxmox_license_proxy.Prelude.{
  Text, bytes, equal, Bool, true, false, not, ◌&&◌, ◌||◌, Option, none, some, List, [], ◌∷◌, ◌++◌,
  if◌then◌else◌,
}
use proxmox_license_proxy.Result
use proxmox_license_proxy.Result.{
  Result, ok, err, key_required, account_incomplete, account_not_approved, subscription_revoked,
  invalid_key, not_lab_key, bad_reg_date, bad_due_date, unknown_product,
}
use proxmox_license_proxy.Exec.{Exec, pure, fail, lift, ◌>>=◌, ◌>>◌}
use proxmox_license_proxy.Subscription.Status.{Status, approved, pending, revoked, parse_status}
use proxmox_license_proxy.Subscription.Key.{
  valid_key, is_lab_key, describe, lab_marker, product_code, Draw, read_failed, generate_key,
}
use proxmox_license_proxy.Subscription.Model.{License, Account, active}
use proxmox_license_proxy.Registry.Store.{Codec, World}
use proxmox_license_proxy.Registry.Api
use proxmox_license_proxy.App.Dates.{default_date}
use proxmox_license_proxy.App.Sockets.{needs_socket_upgrade}

-- time.Now in RFC 3339, and as a date today and in a year.
pub record Clock : Type 0 where
  pub now : Text
  pub today : Text
  pub next_year : Text

pub record AddLicenseInput : Type 0 where
  pub key : Text
  pub product : Text
  pub product_name : Text
  pub status_raw : Text
  pub reg_date : Text
  pub next_due_date : Text
  pub force : Bool

pub record IssueInput : Type 0 where
  pub thumbprint : Text
  pub server_id : Text
  pub product : Text
  pub level : Text
  pub sockets : Text

abbrev or_given : Text → Text → Text
or_given given default = if equal given [] then default else given

-- The checks and defaults of `AddLicense`, up to the call of the store.
unfoldable pub license_of_input : Clock → AddLicenseInput → Result License
license_of_input clock input =
    if equal input.key []
    then err key_required
    else if not input.force && not (valid_key input.key)
    then err (invalid_key input.key)
    else if not (is_lab_key input.key)
    then err (not_lab_key input.key)
    else Result.◌>>=◌
        (if equal input.status_raw [] then ok approved else parse_status input.status_raw)
        λ status. Result.◌>>=◌ (default_date bad_reg_date input.reg_date clock.today) λ reg_date.
          Result.◌>>=◌ (default_date bad_due_date input.next_due_date clock.next_year) λ due_date.
            ok (record {
              key = input.key;
              product = or_given input.product (describe input.key).product;
              product_name = or_given input.product_name (describe input.key).product_name;
              reg_date = reg_date;
              next_due_date = due_date;
              status = status;
              server_id = [];
              account = [];
            })

-- The license that is made for a generated key.
abbrev pub minted : Clock → Text → Text → Text → Text → License
minted clock key product server_id account = record {
  key = key;
  product = product;
  product_name = (describe key).product_name ++ (bytes " " ++ lab_marker);
  reg_date = clock.today;
  next_due_date = clock.next_year;
  status = approved;
  server_id = server_id;
  account = account;
}

-- The status and the creation time of an account that is known are kept.
abbrev pub refreshed_account : Account → Option Account → Account
refreshed_account acc none = acc
refreshed_account acc (some existing) = record acc {
  created_at = existing.created_at;
  status = existing.status;
}

-- `lic.Account == thumbprint && lic.Product == product`: the first active one, or else the last.
unfoldable pub held_license : Text → Text → Option License → List License → Option License
held_license thumbprint product denied [] = denied
held_license thumbprint product denied (l ∷ ls) =
    let skip = held_license thumbprint product denied ls in
    let later = held_license thumbprint product (some l) ls in
    if not (equal l.account thumbprint) || not (equal l.product product)
    then skip
    else if active l
    then some l
    else later

unfoldable pub is_approved : Option Account → Bool
is_approved none = false
is_approved (some acc) = equal acc.status approved

abbrev pub first_draw : List Draw → Draw
first_draw [] = read_failed
first_draw (d ∷ _) = d

abbrev pub later_draws : List Draw → List Draw
later_draws [] = []
later_draws (_ ∷ ds) = ds

pub record State (C : Type 0) : Type 0 where
  pub world : World C
  pub draws : List Draw

module _ (codec : Codec) where
  open codec use {Content}

  abbrev pub on_world : {A : Type 0} → Exec (World Content) A → Exec (State Content) A
  on_world m s = let (r, w) = m s.world in (r, record s { world = w })

  -- A draw is used up where `generate_key` gets as far as its call of rand.Read; it is taken here
  -- whether or not it does.
  unfoldable pub draw_key : Text → Text → Text → Exec (State Content) Text
  draw_key product level sockets s = (
    generate_key product level sockets (first_draw s.draws),
    record s { draws = later_draws s.draws },
  )

  unfoldable pub add_license : Clock → AddLicenseInput → Exec (World Content) License
  add_license clock input = do
    lic ← lift (license_of_input clock input)
    Api.add_license codec lic
    pure lic

  -- `store` says whether the license is persisted.
  unfoldable pub generate_license : Clock → Text → Text → Text → Bool → Exec (State Content) License
  generate_license clock product level sockets store = do
    key ← draw_key product level sockets
    let lic = minted clock key product [] []
    if store then on_world (Api.add_license codec lic) >> pure lic else pure lic

  -- `existing, ok, _ := s.store.GetAccount(thumbprint)`: an error is taken for an unknown account.
  unfoldable pub known_account : Text → World Content → Option Account × World Content
  known_account thumbprint w =
      let (r, w') = Api.get_account codec thumbprint w in
      (elim r [ ok found ↦ found | err _ ↦ none ], w')

  unfoldable pub register_account :
      Text → Text → Text → Text → Text → Bool → Exec (World Content) Account
  unfolding known_account
  register_account now thumbprint public_key server_id contact auto_approve w =
      if equal thumbprint [] || equal public_key []
      then (err account_incomplete, w)
      else let (existing, w') = known_account thumbprint w in
        let acc =
          refreshed_account
            (record {
              thumbprint = thumbprint;
              public_key = public_key;
              server_id = server_id;
              contact = contact;
              status = if auto_approve then approved else pending;
              created_at = now;
            })
            existing in
        (do Api.upsert_account codec acc; pure acc) w'

  unfoldable pub license_for_account_product : Text → Text → Exec (World Content) (Option License)
  license_for_account_product thumbprint product = do
    all ← Api.list_licenses codec
    pure (held_license thumbprint product none all)

  -- From `subscription.GenerateKey` to the end.
  unfoldable pub mint : Clock → IssueInput → Exec (State Content) License
  mint clock input = do
    key ← draw_key input.product input.level input.sockets
    let lic = minted clock key input.product input.server_id input.thumbprint
    on_world (Api.add_license codec lic)
    pure lic

  -- What is done about the license that the account holds for the product.
  unfoldable pub issue_held : Clock → IssueInput → Option License → Exec (State Content) License
  issue_held clock input none = mint clock input
  issue_held clock input (some lic) =
      if not (active lic)
      then fail subscription_revoked
      else if not (needs_socket_upgrade input.product input.sockets lic)
      then pure lic
      else on_world (Api.set_license_status codec lic.key revoked) >> mint clock input

  unfoldable pub issue_subscription : Clock → IssueInput → Exec (State Content) License
  issue_subscription clock input =
      if not (product_code input.product) then fail (unknown_product input.product) else do
        acc ← on_world (Api.get_account codec input.thumbprint)
        if not (is_approved acc) then fail account_not_approved else do
          held ← on_world (license_for_account_product input.thumbprint input.product)
          issue_held clock input held

  unfoldable pub revoke_subscription : Text → Exec (World Content) Bool
  revoke_subscription key = Api.set_license_status codec key revoked
