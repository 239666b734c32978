-- ===== src/Cli/Licenses.antt =====
-- internal/cli/license.go: the commands on subscriptions.
pub mod Import
use proxmox_license_proxy.Prelude.{
  Text, bytes, equal, not, ◌&&◌, ◌||◌, Bool, true, false, Option, none, some, List, [], ◌∷◌, map,
  if◌then◌else◌,
}
use proxmox_license_proxy.Result
use proxmox_license_proxy.Result.{
  Result, ok, err, nothing_given, not_found, bad_due, not_encoded, not_decoded, io_failed,
}
use proxmox_license_proxy.Exec.{Exec, pure, fail, lift, ◌>>=◌, ◌>>◌}
use proxmox_license_proxy.Subscription.Key.{pve, pbs, pmg}
use proxmox_license_proxy.Subscription.Model.{License}
use proxmox_license_proxy.Registry.Store.{Codec, World}
use proxmox_license_proxy.Registry.Operations.{license_key}
use proxmox_license_proxy.Registry.Api
use proxmox_license_proxy.Acme.Jws.{or_error}
use proxmox_license_proxy.App.Dates.{valid_date}
use proxmox_license_proxy.App.Service
use proxmox_license_proxy.App.Service.{Clock, AddLicenseInput, State, on_world}
use proxmox_license_proxy.Cli.{Terminal, confirm}

-- The flags of `generate`, with whether they are set.
pub record GenerateFlags : Type 0 where
  pub product : Text
  pub level : Text
  pub sockets : Text
  pub product_set : Bool
  pub level_set : Bool
  pub sockets_set : Bool

abbrev pub gen_products : List Text
gen_products = pve ∷ pbs ∷ pmg ∷ []

abbrev pub gen_levels : List Text
gen_levels = bytes "c" ∷ bytes "b" ∷ bytes "s" ∷ bytes "p" ∷ []

abbrev pub gen_sockets : List Text
gen_sockets = bytes "1" ∷ bytes "2" ∷ bytes "4" ∷ bytes "8" ∷ []

abbrev pub default_to : Text → Text → Text
default_to given default = if equal given [] then default else given

abbrev ask : Terminal → Bool → Text → List Text → Result Text
ask term given value options = if not given && term.interactive then term.pick options else ok value

-- The question for the sockets, which is for PVE alone.
unfoldable pub gen_sockets_of : Terminal → GenerateFlags → Text → Result Text
gen_sockets_of term flags product =
    if not (equal product pve)
    then ok []
    else Result.◌>>=◌ (ask term flags.sockets_set flags.sockets gen_sockets)
        λ sockets. ok (default_to sockets (bytes "1"))

-- `resolveGenChoices`: the product, the level and the sockets.
unfoldable pub resolve_gen_choices : Terminal → GenerateFlags → Result (Text × Text × Text)
resolve_gen_choices term flags =
    Result.◌>>=◌ (ask term flags.product_set flags.product gen_products) λ picked.
      Result.◌>>=◌ (ask term flags.level_set flags.level gen_levels) λ level.
        let product = default_to picked pve in
        Result.◌>>=◌ (gen_sockets_of term flags product)
          λ sockets. ok (product, default_to level (bytes "c"), sockets)

-- The flags of `add`.
pub record AddFlags : Type 0 where
  pub product : Text
  pub name : Text
  pub due : Text
  pub status : Text
  pub force : Bool

abbrev pub input_of_flags : AddFlags → Text → AddLicenseInput
input_of_flags flags key = record {
  key = key;
  product = flags.product;
  product_name = flags.name;
  status_raw = flags.status;
  reg_date = [];
  next_due_date = flags.due;
  force = flags.force;
}

-- What `import` passes on of a license.
abbrev pub input_of_license : License → AddLicenseInput
input_of_license lic = record {
  key = lic.key;
  product = lic.product;
  product_name = lic.product_name;
  status_raw = lic.status;
  reg_date = lic.reg_date;
  next_due_date = lic.next_due_date;
  force = false;
}

-- encoding/json on lists of licenses, where `none` is an error.
pub record ListCodec : Type 0 where
  pub marshal : List License → Option Text
  pub unmarshal : Text → Option (List License)

abbrev key_picked : Terminal → List Text → Result Text
key_picked term [] = ok []
key_picked term (k ∷ ks) = term.pick (k ∷ ks)

abbrev key_argument : Terminal → List Text → Result Text
key_argument term (key ∷ []) = ok key
key_argument term args = if term.interactive then term.input else ok []

module _ (codec : Codec) where
  open codec use {Content}

  abbrev pub Command : Type 0 → Type 0
  Command A = Exec (World Content) A

  -- `selectLicenseKey`, which returns the empty text where there is nothing to pick from.
  unfoldable pub select_license_key : Terminal → Command Text
  select_license_key term = do
    licenses ← Api.list_licenses codec
    lift (key_picked term (map license_key licenses))

  -- `resolveLicenseKeyArg`
  unfoldable pub resolve_license_key_arg : Terminal → List Text → Command Text
  resolve_license_key_arg term (key ∷ []) = pure key
  resolve_license_key_arg term args =
      if term.interactive then select_license_key term else fail nothing_given

  -- `subscription add`
  unfoldable pub license_add : Clock → Terminal → AddFlags → List Text → Command License
  license_add clock term flags args = do
    key ← lift (key_argument term args)
    if equal key []
        then fail nothing_given
        else Service.add_license codec clock (input_of_flags flags key)

  -- `subscription generate`
  unfoldable pub license_generate :
      Clock → Terminal → GenerateFlags → Bool → Exec (State Content) License
  license_generate clock term flags assume_yes = do
    (product, level, sockets) ← lift (resolve_gen_choices term flags)
    lift (confirm term assume_yes)
    Service.generate_license codec clock product level sockets true

  -- `subscription show`, where `none` is that nothing was picked.
  unfoldable pub license_show : Terminal → List Text → Command (Option License)
  license_show term args = do
    key ← resolve_license_key_arg term args
    if equal key [] then pure none else do
      lic ← Api.get_license codec key
      elim lic [ none ↦ fail (not_found key) | some l ↦ pure (some l) ]

  -- `subscription rm`
  unfoldable pub license_remove : Terminal → Bool → List Text → Command (Unit {0})
  license_remove term assume_yes args = do
    key ← resolve_license_key_arg term args
    if equal key [] then pure tt else do
      lift (confirm term assume_yes)
      removed ← Api.remove_license codec key
      if not removed then fail (not_found key) else pure tt

  -- `subscription set-due`
  unfoldable pub license_set_due : Terminal → Text → List Text → Command (Unit {0})
  license_set_due term flag args = do
    key ← resolve_license_key_arg term args
    if equal key [] then pure tt else do
      due ← lift (if equal flag [] && term.interactive then term.input else ok flag)
      if equal due []
          then fail nothing_given
          else if not (valid_date due)
          then fail (bad_due due)
          else do
            found ← Api.set_due codec key due
            if not found then fail (not_found key) else pure tt

  -- `subscription export`: the text that is printed or written.
  unfoldable pub license_export : ListCodec → Command Text
  license_export lists = do
    licenses ← Api.list_licenses codec
    lift (or_error not_encoded (lists.marshal licenses))

  -- The loop of `import`, for which one reading of the clock stands.
  unfoldable pub import_each : Clock → List License → Command (Unit {0})
  import_each clock [] = pure tt
  import_each clock (lic ∷ lics) =
      Service.add_license codec clock (input_of_license lic) >> import_each clock lics

  -- `subscription import` of a named file, where `none` is a read that fails.
  unfoldable pub license_import : ListCodec → Clock → Option Text → Command (Unit {0})
  license_import lists clock file = do
    content ← lift (or_error io_failed file)
    licenses ← lift (or_error not_decoded (lists.unmarshal content))
    import_each clock licenses
