-- ===== src/Config/Valid.antt =====
-- What the settings satisfy that the conversion returns.
use proxmox_license_proxy.Prelude.{
  Text, equal, equal_iff, [], List, ◌∷◌, trim_space, ◌≡◌, ◌≢◌, ◌⊎◌, arith,
}
use proxmox_license_proxy.Result.{ok, >>=-returned, guard-returned}
use proxmox_license_proxy.Config.{
  Net, Tls, Hosts, HostsSettings, ip_of, Config, Settings, tls_mode_auto, tls_mode_files,
  tls_mode_http, tls_mode, names_or_default, tls_to_domain, hosts_to_domain, to_settings,
  parse_log_level, auto_approve_to_domain,
}

-- The mode is one of the three, and files are named where they are needed.

abbrev pub ModeOk : Tls → Type 0
ModeOk t =
    (t.mode ≡ tls_mode_auto)
    ⊎ (t.mode ≡ tls_mode_http)
    ⊎ ((t.mode ≡ tls_mode_files) × (t.cert ≢ []) × (t.key ≢ []))

names-nonempty : (ns : List Text) → names_or_default ns ≢ []
names-nonempty [] = ground arith
names-nonempty (n ∷ ns) = ground arith

tls-ModeOk : (t t' : Tls) → tls_to_domain t ≡ ok t' → ModeOk t'
unfolding tls_to_domain
tls-ModeOk t t' h = ground (
  arith,
  equal_iff (tls_mode t.mode) tls_mode_auto,
  equal_iff (tls_mode t.mode) tls_mode_http,
  equal_iff (tls_mode t.mode) tls_mode_files,
  equal_iff t.cert [],
  equal_iff t.key [],
)

-- What is required of the settings.
pub record IsValid (net : Net) (c : Config) (s : Settings net) : Type 0 where
  pub listen : s.listen ≢ []
  pub registry_file : s.registry_file ≢ []
  pub tls : ModeOk s.tls
  pub tls_names : s.tls.names ≢ []
  pub hosts_names : s.hosts.names ≢ []
  pub hosts_file : s.hosts.file ≢ []
  pub token : s.admin_token ≡ trim_space c.admin_token

tls-names : (t t' : Tls) → tls_to_domain t ≡ ok t' → t'.names ≢ []
unfolding tls_to_domain
tls-names t t' h = ground (arith, names-nonempty t.names)

hosts-named :
    (net : Net) (h : Hosts) (s : HostsSettings net)
    → hosts_to_domain net h ≡ ok s
    → (s.names ≢ []) × (s.file ≢ [])
unfolding hosts_to_domain
hosts-named net h s e =
    let (ip, _, same) = >>=-returned (ip_of net h.ip) _ e in
    ground (arith, names-nonempty h.names, equal_iff h.file [])

-- Settings that a configuration converts to have an address to listen on, a registry file, names
-- for the certificate and for the hosts file, a TLS mode that is one of the three, with both files
-- where these are needed, and the token without the spaces around it.
pub to_settings-IsValid :
    (net : Net) (c : Config) (s : Settings net) → to_settings net c ≡ ok s → IsValid net c s
unfolding to_settings
to_settings-IsValid net c s h =
    let (listening, h₁) = guard-returned (equal c.listen []) _ _ h in
    let (kept, h₂) = guard-returned (equal c.registry_file []) _ _ h₁ in
    let (level, _, h₃) = >>=-returned (parse_log_level c.log_level) _ h₂ in
    let (tls, tls_ok, h₄) = >>=-returned (tls_to_domain c.tls) _ h₃ in
    let (hosts, hosts_ok, h₅) = >>=-returned (hosts_to_domain net c.hosts) _ h₄ in
    let (auto_approve, _, same) = >>=-returned (auto_approve_to_domain net c.auto_approve) _ h₅ in
    let (named, placed) = hosts-named net c.hosts hosts hosts_ok in
    record {
      listen = ground (arith, same, listening, equal_iff c.listen []);
      registry_file = ground (arith, same, kept, equal_iff c.registry_file []);
      tls = ground (arith, same, tls-ModeOk c.tls tls tls_ok);
      tls_names = ground (arith, same, tls-names c.tls tls tls_ok);
      hosts_names = ground (arith, same, named);
      hosts_file = ground (arith, same, placed);
      token = ground (arith, same);
    }
