-- ===== src/Cli.antt =====
-- internal/cli: the commands. A command is an action over the store; what it prints is not modelled,
-- and what its prompts return is given by a Terminal.
pub mod Servers
pub mod Accounts
pub mod Licenses
pub mod Enroll
use proxmox_license_proxy.Prelude.{
  Text, bytes, equal, Bool, ◌||◌, trim_space, to_lower, List, if◌then◌else◌,
}
use proxmox_license_proxy.Result.{Result, ok, err, aborted}

-- `interactive` is `interactiveTTY()`. The pickers are given the values that they offer; `line` is
-- what ReadString reads for a confirmation.
pub record Terminal : Type 0 where
  pub interactive : Bool
  pub pick : List Text → Result Text
  pub pick_many : List Text → Result (List Text)
  pub input : Result Text
  pub line : Text

-- `confirm`
unfoldable pub confirm : Terminal → Bool → Result (Unit {0})
confirm term assume_yes =
    let answer = to_lower (trim_space term.line) in
    if assume_yes
    then ok tt
    else if equal answer (bytes "y") || equal answer (bytes "yes")
    then ok tt
    else err aborted
