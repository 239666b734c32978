-- ===== src/App/Service/Steps.antt =====
-- Calls of the store as steps of the service.
use proxmox_license_proxy.Prelude.{Text, Option, none, ◌≡◌, sym, ap, subst, ◌∙◌, arith}
use proxmox_license_proxy.Result.{Result, ok}
use proxmox_license_proxy.Exec.{◌>>=◌}
use proxmox_license_proxy.Subscription.Model.{License, Registry}
use proxmox_license_proxy.Registry.Store.{Codec, World, mutate, reading}
use proxmox_license_proxy.Registry.Store.Commit.{Committed, mutate-ok}
use proxmox_license_proxy.Registry.Store.Reading.{ReadFrom, reading-disk, reading-ok}
use proxmox_license_proxy.Registry.Api
use proxmox_license_proxy.App.Service.{State, held_license, on_world, license_for_account_product}

module _ (codec : Codec) where
  open codec use {Content}

  -- A mutation of the store that succeeds, as a step of the service.
  pub on_world-Committed :
      {A : Type 0} (fn : Registry → Result (A × Registry)) {s s' : State Content} {a : A}
      → on_world codec (mutate codec fn) s ≡ (ok a, s')
      → Committed codec fn s.world s'.world a
  on_world-Committed {A} fn {s} {a} e =
      subst (λ w. Committed codec fn s.world w a)
        (ap (λ (x : Result A × State Content). x.1.world) e)
        (mutate-ok codec fn s.world (ap (λ (x : Result A × State Content). x.0) e))

  -- A read of the store that succeeds, as a step of the service.
  pub record ReadStep {A : Type 0} (get : Registry → A) (s s' : State Content) (a : A)
      : Type 0 where
    pub read : ReadFrom codec get s.world a
    pub disk : s'.world.disk ≡ s.world.disk

  pub on_world-ReadStep :
      {A : Type 0} (get : Registry → A) {s s' : State Content} {a : A}
      → on_world codec (reading codec get) s ≡ (ok a, s')
      → ReadStep get s s' a
  on_world-ReadStep {A} get {s} e = record {
    read = reading-ok codec get s.world (ap (λ (x : Result A × State Content). x.0) e);
    disk =
        ap (λ (x : Result A × State Content). x.1.world.disk) (sym e)
        ∙ reading-disk codec get s.world;
  }

  pub held-reading :
      (thumbprint product : Text) (w : World Content)
      → license_for_account_product codec thumbprint product w
        ≡ reading codec (λ reg. held_license thumbprint product none reg.licenses) w
  unfolding license_for_account_product Api.list_licenses reading ◌>>=◌
  held-reading thumbprint product w = ground arith

  pub held-ReadStep :
      (thumbprint product : Text) {s s' : State Content} {held : Option License}
      → on_world codec (license_for_account_product codec thumbprint product) s ≡ (ok held, s')
      → ReadStep (λ reg. held_license thumbprint product none reg.licenses) s s' held
  held-ReadStep thumbprint product {s} {s'} {held} e =
      on_world-ReadStep (λ reg. held_license thumbprint product none reg.licenses)
        (rw (held-reading thumbprint product s.world) at e)
