-- ===== src/Cli/Licenses/Import.antt =====
-- What `import` makes of the owners of licenses.
use proxmox_license_proxy.Prelude.{
  Text, equal, equal_refl, Bool-cases, not, ◌&&◌, Option, none, some, List, [], ◌∷◌, All, ◌≡◌, refl,
  ap, subst, ◌∙◌, inl, inr, arith, if◌then◌else◌,
}
use proxmox_license_proxy.Result.{
  Error, Result, ok, not_encoded, not_decoded, io_failed, key_required, invalid_key, not_lab_key,
  bad_reg_date, bad_due_date, >>=-returned, guard-returned,
}
use proxmox_license_proxy.Exec.{lift, pure, >>=-ok, lift-ok}
use proxmox_license_proxy.Subscription.Status.{approved, parse_status}
use proxmox_license_proxy.App.Dates.{default_date}
use proxmox_license_proxy.Subscription.Key.{valid_key, is_lab_key}
use proxmox_license_proxy.Subscription.Model.{License, Registry}
use proxmox_license_proxy.Registry.Keyed.{find-put}
use proxmox_license_proxy.Registry.Operations.{license_key, get_license, add_license}
use proxmox_license_proxy.Registry.Store.{Codec, World}
use proxmox_license_proxy.Registry.Store.Commit.{
  view, RoundTrips, Committed, mutate-ok, view-Committed,
}
use proxmox_license_proxy.Registry.Store.Reading.{reading-ok}
use proxmox_license_proxy.Registry.Api
use proxmox_license_proxy.App.Service
use proxmox_license_proxy.App.Service.{Clock, AddLicenseInput, license_of_input}
use proxmox_license_proxy.Acme.Jws.{or_error}
use proxmox_license_proxy.Cli.Licenses.{
  ListCodec, input_of_license, import_each, license_import, license_export,
}

license_of_input-unowned :
    (clock : Clock) (input : AddLicenseInput) {l : License}
    → license_of_input clock input ≡ ok l
    → (l.key ≡ input.key) × (l.account ≡ []) × (l.server_id ≡ [])
unfolding license_of_input
license_of_input-unowned clock input h =
    let (_, h₁) = guard-returned (equal input.key []) key_required _ h in
    let (_, h₂) =
      guard-returned (not input.force && not (valid_key input.key)) (invalid_key input.key) _ h₁ in
    let (_, h₃) = guard-returned (not (is_lab_key input.key)) (not_lab_key input.key) _ h₂ in
    let (status, _, h₄) =
      >>=-returned
        (if equal input.status_raw [] then ok approved else parse_status input.status_raw) _ h₃ in
    let (reg_date, _, h₅) =
      >>=-returned (default_date bad_reg_date input.reg_date clock.today) _ h₄ in
    let (due_date, _, h₆) =
      >>=-returned (default_date bad_due_date input.next_due_date clock.next_year) _ h₅ in
    (ground (arith, h₆), ground (arith, h₆), ground (arith, h₆))

or_error-ok : {A : Type 0} (e : Error) (o : Option A) {a : A} → or_error e o ≡ ok a → o ≡ some a
or_error-ok e none h = absurd (ground arith)
or_error-ok e (some b) h = ground (arith, h)

-- The registry has a license with this key, which belongs to no account and no host.
pub record Unowned (codec : Codec) (key : Text) (w : World codec.Content) : Type 0 where
  pub registry : Registry
  pub license : License
  pub found : view codec w ≡ ok registry
  pub stored : get_license key registry ≡ some license
  pub no_account : license.account ≡ []
  pub no_host : license.server_id ≡ []

module _ (codec : Codec) (rt : RoundTrips codec) (clock : Clock) where
  open codec use {Content}

  record Adds (key : Text) (w w' : World Content) : Type 0 where
    pub license : License
    pub keyed : license.key ≡ key
    pub no_account : license.account ≡ []
    pub no_host : license.server_id ≡ []
    pub stored : Committed codec (λ reg. ok (tt, add_license license reg)) w w' tt

  add_license-Adds :
      (input : AddLicenseInput) (w : World Content) {w' : World Content} {l : License}
      → Service.add_license codec clock input w ≡ (ok l, w')
      → Adds input.key w w'
  unfolding Service.add_license Api.add_license pure
  add_license-Adds input w {w'} h =
      let made = >>=-ok (lift (license_of_input clock input)) _ w h in
      let (valid, same) = lift-ok (license_of_input clock input) w made.first in
      let (k, a, s) = license_of_input-unowned clock input valid in
      let added = >>=-ok (Api.add_license codec made.value) _ made.middle made.second in
      let end : added.middle ≡ w' = ap (λ (x : Result License × World Content). x.1) added.second in
      record {
        license = made.value;
        keyed = k;
        no_account = a;
        no_host = s;
        stored = rw same at (
            subst
              (λ v. Committed codec (λ reg. ok (tt, add_license made.value reg)) made.middle v tt)
              end (on_mutate made.value made.middle added.middle added.first));
      }
    where
      on_mutate :
          (lic : License) (v v' : World Content)
          → Api.add_license codec lic v ≡ (ok tt, v')
          → Committed codec (λ reg. ok (tt, add_license lic reg)) v v' tt
      on_mutate lic v v' e =
          subst (λ u. Committed codec (λ reg. ok (tt, add_license lic reg)) v u tt)
            (ap (λ (x : Result (Unit {0}) × World Content). x.1) e)
            (mutate-ok codec (λ reg. ok (tt, add_license lic reg)) v
              (ap (λ (x : Result (Unit {0}) × World Content). x.0) e))

  added-find :
      (lic : License) (k : Text) {w w' : World Content}
      → (c : Committed codec (λ reg. ok (tt, add_license lic reg)) w w' tt)
      → get_license k c.after ≡ (if equal lic.key k then some lic else get_license k c.before)
  unfolding add_license
  added-find lic k c =
      let e : add_license lic c.before ≡ c.after = ground (arith, c.applied) in
      rw (← e) (find-put license_key lic k c.before.licenses)

  Adds-Unowned : {key : Text} {w w' : World Content} → Adds key w w' → Unowned codec key w'
  Adds-Unowned {key} a = record {
    registry = a.stored.after;
    license = a.license;
    found = view-Committed codec rt a.stored;
    stored = added-find a.license key a.stored ∙ ground (arith, a.keyed, equal_refl key);
    no_account = a.no_account;
    no_host = a.no_host;
  }

  Adds-keeps :
      {key : Text} (k : Text) {w w' : World Content}
      → Adds key w w'
      → Unowned codec k w
      → Unowned codec k w'
  Adds-keeps k a u = elim (Bool-cases (equal a.license.key k)) [
    | inl same ↦ record {
      registry = a.stored.after;
      license = a.license;
      found = view-Committed codec rt a.stored;
      stored = added-find a.license k a.stored ∙ rw same refl;
      no_account = a.no_account;
      no_host = a.no_host;
    }
    | inr other ↦
        let e : u.registry ≡ a.stored.before = ground (arith, u.found, a.stored.read) in
        record {
          registry = a.stored.after;
          license = u.license;
          found = view-Committed codec rt a.stored;
          stored = added-find a.license k a.stored ∙ rw (other, ← e) u.stored;
          no_account = u.no_account;
          no_host = u.no_host;
        }
  ]

  -- Where the loop ends, what was unowned is, and so is every license of the list.
  record Imported (ls : List License) (w w' : World Content) : Type 0 where
    pub kept : (k : Text) → Unowned codec k w → Unowned codec k w'
    pub unowned : All (λ lic. Unowned codec lic.key w') ls

  import_each-Imported :
      (ls : List License) (w : World Content) {w' : World Content}
      → import_each codec clock ls w ≡ (ok tt, w')
      → Imported ls w w'
  unfolding import_each pure
  import_each-Imported [] w h =
      let same = ap (λ (x : Result (Unit {0}) × World Content). x.1) h in
      record { kept = λ k u. subst (λ v. Unowned codec k v) same u; unowned = tt }
  import_each-Imported (lic ∷ lics) w h =
      let step = >>=-ok (Service.add_license codec clock (input_of_license lic)) _ w h in
      let adds = add_license-Adds (input_of_license lic) w step.first in
      let rest = import_each-Imported lics step.middle step.second in
      record {
        kept = λ k u. rest.kept k (Adds-keeps k adds u);
        unowned = (rest.kept lic.key (Adds-Unowned adds), rest.unowned);
      }

  -- Where an export and an import of the exported text into the same registry succeed, no license
  -- of the registry belongs to an account or a host any more.
  pub license_import-Unowned :
      (lists : ListCodec) (w : World Content) {w₁ w₂ : World Content} (reg : Registry)
      (exported : Text)
      → ((ls : List License) (text : Text)
          → lists.marshal ls ≡ some text
          → lists.unmarshal text ≡ some ls)
      → view codec w ≡ ok reg
      → license_export codec lists w ≡ (ok exported, w₁)
      → license_import codec lists clock (some exported) w₁ ≡ (ok tt, w₂)
      → All (λ lic. Unowned codec lic.key w₂) reg.licenses
  unfolding license_export license_import Api.list_licenses
  license_import-Unowned lists w {w₁} reg exported trips found out back =
      let listed = >>=-ok (Api.list_licenses codec) _ w out in
      let read =
        reading-ok codec (λ r. r.licenses) w
          (ap (λ (x : Result (List License) × World Content). x.0) listed.first) in
      let (written, _) =
        lift-ok (or_error not_encoded (lists.marshal listed.value)) listed.middle listed.second in
      let opened = >>=-ok (lift (or_error io_failed (some exported))) _ w₁ back in
      let (given, _) = lift-ok (or_error io_failed (some exported)) w₁ opened.first in
      let parsed =
        >>=-ok (lift (or_error not_decoded (lists.unmarshal opened.value))) _ opened.middle
          opened.second in
      let (decoded, _) =
        lift-ok (or_error not_decoded (lists.unmarshal opened.value)) opened.middle parsed.first in
      let text : exported ≡ opened.value = ground (arith, given) in
      let same : parsed.value ≡ reg.licenses = ground (
        arith,
        or_error-ok not_encoded (lists.marshal listed.value) written,
        or_error-ok not_decoded (lists.unmarshal opened.value) decoded,
        text,
        trips listed.value exported,
        read.returned,
        read.found,
        found,
      ) in
      rw (← same) (import_each-Imported parsed.value parsed.middle parsed.second).unowned
