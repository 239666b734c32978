-- ===== src/Cli/Accounts.antt =====
-- internal/cli/account.go: the commands on accounts.
use proxmox_license_proxy.Prelude.{Text, equal, not, List, [], ◌∷◌, if◌then◌else◌}
use proxmox_license_proxy.Result.{Result, ok, nothing_given, not_found}
use proxmox_license_proxy.Exec.{Exec, pure, fail, lift, ◌>>=◌}
use proxmox_license_proxy.Subscription.Status.{Status}
use proxmox_license_proxy.Subscription.Model.{Account}
use proxmox_license_proxy.Registry.Store.{Codec, World}
use proxmox_license_proxy.Registry.Api
use proxmox_license_proxy.Cli.{Terminal}

-- The accounts that `selectAccount` offers: those whose status is another one.

abbrev pub offered : Status → List Account → List Text
offered exclude [] = []
offered exclude (a ∷ az) =
    let rest = offered exclude az in if equal a.status exclude then rest else a.thumbprint ∷ rest

abbrev pub picked : Terminal → List Text → Result Text
picked term [] = ok []
picked term (o ∷ os) = term.pick (o ∷ os)

module _ (codec : Codec) where
  open codec use {Content}

  abbrev Command : Type 0 → Type 0
  Command A = Exec (World Content) A

  -- `selectAccount`, which returns the empty text where there is nothing to pick from.
  unfoldable pub select_account : Terminal → Status → Command Text
  select_account term exclude = do
    accounts ← Api.list_accounts codec
    lift (picked term (offered exclude accounts))

  abbrev set_status : Status → Text → Command (Unit {0})
  set_status status thumb = do
    found ← Api.set_account_status codec thumb status
    if not found then fail (not_found thumb) else pure tt

  -- `accountStatusCmd`
  unfoldable pub account_status : Terminal → Status → List Text → Command (Unit {0})
  account_status term status (thumb ∷ []) = set_status status thumb
  account_status term status args = if not term.interactive then fail nothing_given else do
    thumb ← select_account term status
    if equal thumb [] then pure tt else set_status status thumb
