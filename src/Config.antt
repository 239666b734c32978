-- ===== src/Config.antt =====
-- internal/config: the configuration as it is read (config.go), the settings that the program works
-- with (model.go), and the conversion between them (convert.go).
pub mod Trusted
pub mod Valid
use proxmox_license_proxy.Prelude.{
  ℕ, Text, bytes, equal, Bool, true, false, not, ◌&&◌, ◌||◌, Option, none, some, List, [], ◌∷◌,
  ◌++◌, any, trim_space, to_lower, if◌then◌else◌,
}
use proxmox_license_proxy.Result.{
  Result, ok, err, ◌>>=◌, no_listen, no_registry_file, files_missing, no_networks, invalid_cidr,
  invalid_tls_mode, invalid_ip, unknown_log_level,
}

-- What the code calls of net and net/netip. `none` is an error.
pub record Net : Type 1 where
  pub Addr : Type 0
  pub Prefix : Type 0
  pub no_addr : Addr
  pub is_valid : Addr → Bool
  pub unmap : Addr → Addr
  pub parse_addr : Text → Option Addr
  pub parse_prefix : Text → Option Prefix
  pub masked : Prefix → Prefix
  pub contains : Prefix → Addr → Bool
  -- The host of net.SplitHostPort.
  pub split_host : Text → Option Text

-- The configuration as viper reads it.

pub record AutoApprove : Type 0 where
  pub enabled : Bool
  pub private : Bool
  pub networks : List Text

pub record Tls : Type 0 where
  pub mode : Text
  pub cert : Text
  pub key : Text
  pub names : List Text

pub record Hosts : Type 0 where
  pub file : Text
  pub ip : Text
  pub names : List Text

pub record Offline : Type 0 where
  pub private_key : Text
  pub public_key : Text

pub record Config : Type 0 where
  pub listen : Text
  pub log_level : Text
  pub registry_file : Text
  pub tls : Tls
  pub hosts : Hosts
  pub offline : Offline
  pub auto_approve : AutoApprove
  pub admin_token : Text

-- The settings. A TLS mode is a string in the source.

abbrev pub tls_mode_auto : Text
tls_mode_auto = bytes "auto"

abbrev pub tls_mode_files : Text
tls_mode_files = bytes "files"

abbrev pub tls_mode_http : Text
tls_mode_http = bytes "http"

pub data Level : Type 0 where
  level_debug level_info level_warn level_error : Level

unfoldable pub parse_log_level : Text → Result Level
parse_log_level raw =
    let s = to_lower (trim_space raw) in
    if equal s [] || equal s (bytes "info")
    then ok level_info
    else if equal s (bytes "debug")
    then ok level_debug
    else if equal s (bytes "warn") || equal s (bytes "warning")
    then ok level_warn
    else if equal s (bytes "error")
    then ok level_error
    else err (unknown_log_level raw)

abbrev pub names_or_default : List Text → List Text
names_or_default [] = bytes "shop.proxmox.com" ∷ []
names_or_default (n ∷ ns) = n ∷ ns

unfoldable pub tls_mode : Text → Text
tls_mode raw = let mode = to_lower (trim_space raw) in if equal mode [] then tls_mode_auto else mode

-- `TLS.toDomain`
unfoldable pub tls_to_domain : Tls → Result Tls
unfolding tls_mode
tls_to_domain t =
    let mode = tls_mode t.mode in
    let settings : Tls = record {
      mode = mode;
      cert = t.cert;
      key = t.key;
      names = names_or_default t.names;
    } in
    if equal mode tls_mode_auto || equal mode tls_mode_http
    then ok settings
    else if equal mode tls_mode_files
    then if equal t.cert [] || equal t.key [] then err files_missing else ok settings
    else err (invalid_tls_mode t.mode)

abbrev pub private_networks : List Text
private_networks =
    bytes "10.0.0.0/8"
    ∷ bytes "172.16.0.0/12"
    ∷ bytes "192.168.0.0/16"
    ∷ bytes "169.254.0.0/16"
    ∷ bytes "127.0.0.0/8"
    ∷ bytes "::1/128"
    ∷ bytes "fc00::/7"
    ∷ bytes "fe80::/10"
    ∷ []

module _ (net : Net) where
  open net use {Addr, Prefix, no_addr, is_valid, unmap, parse_addr, parse_prefix, masked, contains}

  pub record AutoApproveSettings : Type 0 where
    pub enabled : Bool
    pub networks : List Prefix

  pub record HostsSettings : Type 0 where
    pub file : Text
    pub ip : Addr
    pub names : List Text

  pub record Settings : Type 0 where
    pub listen : Text
    pub log_level : Level
    pub registry_file : Text
    pub tls : Tls
    pub hosts : HostsSettings
    pub offline : Offline
    pub auto_approve : AutoApproveSettings
    pub admin_token : Text

  -- `AutoApproveSettings.Allows`
  unfoldable pub allows : AutoApproveSettings → Addr → Bool
  allows a addr =
      if not a.enabled || not (is_valid addr)
      then false
      else any (λ n. contains n (unmap addr)) a.networks

  unfoldable pub parse_networks : List Text → Result (List Prefix)
  parse_networks [] = ok []
  parse_networks (c ∷ cs) =
      let rest = parse_networks cs in
      elim (parse_prefix (trim_space c)) [
        | none ↦ err (invalid_cidr c)
        | some p ↦ rest >>= λ ps. ok (masked p ∷ ps)
      ]

  abbrev pub cidrs_of : AutoApprove → List Text
  cidrs_of a = (if a.private then private_networks else []) ++ a.networks

  abbrev pub trusted_networks : List Text → Result AutoApproveSettings
  trusted_networks [] = err no_networks
  trusted_networks (c ∷ cs) =
      parse_networks (c ∷ cs) >>= λ networks. ok (record { enabled = true; networks = networks })

  -- `AutoApprove.toDomain`
  unfoldable pub auto_approve_to_domain : AutoApprove → Result AutoApproveSettings
  unfolding parse_networks
  auto_approve_to_domain a =
      if not a.enabled
      then ok (record { enabled = false; networks = [] })
      else trusted_networks (cidrs_of a)

  abbrev pub ip_of : Text → Result Addr
  ip_of raw =
      if equal raw []
      then ok no_addr
      else elim (parse_addr raw) [ none ↦ err (invalid_ip raw) | some addr ↦ ok addr ]

  -- `Hosts.toDomain`
  unfoldable pub hosts_to_domain : Hosts → Result HostsSettings
  hosts_to_domain h = ip_of h.ip >>= λ ip. ok (record {
    file = if equal h.file [] then bytes "/etc/hosts" else h.file;
    ip = ip;
    names = names_or_default h.names;
  })

  -- `Config.ToSettings`
  unfoldable pub to_settings : Config → Result Settings
  to_settings c =
      if equal c.listen []
      then err no_listen
      else if equal c.registry_file []
      then err no_registry_file
      else do
        level ← parse_log_level c.log_level
        tls ← tls_to_domain c.tls
        hosts ← hosts_to_domain c.hosts
        auto_approve ← auto_approve_to_domain c.auto_approve
        ok (record {
          listen = c.listen;
          log_level = level;
          registry_file = c.registry_file;
          tls = tls;
          hosts = hosts;
          offline = c.offline;
          auto_approve = auto_approve;
          admin_token = trim_space c.admin_token;
        })
