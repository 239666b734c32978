-- ===== src/Cli/Enroll.antt =====
-- internal/cli/client_enroll.go: the enrolment of a host. The trust in the certificate and the edit
-- of the hosts file between the order and the installation of the keys are not modelled.
pub mod Choices
use proxmox_license_proxy.Prelude.{
  ℕ, Text, bytes, equal, has_prefix, trim_space, to_upper, to_lower, split, not, ◌&&◌, ◌||◌, ◌==◌,
  Bool, true, false, Option, none, some, List, [], ◌∷◌, ◌++◌, map, any, if◌then◌else◌,
}
use proxmox_license_proxy.Result.{Result, ok, err, no_server, invalid_server}
use proxmox_license_proxy.Exec.{Exec, pure, ◌>>=◌, ◌>>◌}
use proxmox_license_proxy.Subscription.Key.{pve}
use proxmox_license_proxy.App.Sockets.{pos}
use proxmox_license_proxy.Acme.Jws.{Jose}
use proxmox_license_proxy.Client.Detect.{
  Product, all_products, detect_products, detect_sockets, pve_socket_tier, set_key,
}
use proxmox_license_proxy.Client.Acme
use proxmox_license_proxy.Client.Acme.{Session}
use proxmox_license_proxy.Client.Messages.{
  ClientJson, Transport, AccountResult, OrderResult, IssuedSubscription,
}

pub record EnrollFlags : Type 0 where
  pub server : Text
  pub key_path : Text
  pub server_id : Text
  pub products : List Text
  pub level : Text
  pub sockets : Text
  pub contact : Text
  pub no_set : Bool
  pub no_redirect : Bool
  pub ip : Text

-- Which flags are given, and os.LookupEnv.
pub record Environment : Type 0 where
  pub changed : Text → Bool
  pub lookup : Text → Option Text

-- strings.ReplaceAll(name, "-", "_")
abbrev underscored : Text → Text
underscored [] = []
underscored (a ∷ s) = (if a == b'-' then b'_' else a) ∷ underscored s

abbrev pub env_name : Text → Text
env_name name = bytes "PMOX_ENROLL_" ++ to_upper (underscored name)

abbrev or_old : Option Text → Text → Text
or_old none old = old
or_old (some v) old = v

unfoldable pub set_str : Environment → Text → Text → Text
set_str env name old = if env.changed name then old else or_old (env.lookup (env_name name)) old

abbrev says_yes : Text → Bool
says_yes v =
    let answer = to_lower (trim_space v) in
    equal answer (bytes "1")
    || equal answer (bytes "true")
    || equal answer (bytes "yes")
    || equal answer (bytes "on")

abbrev or_yes : Option Text → Bool → Bool
or_yes none old = old
or_yes (some v) old = if says_yes v then true else old

-- A variable can switch a flag on, but not off.
unfoldable pub set_bool : Environment → Text → Bool → Bool
set_bool env name old = if env.changed name then old else or_yes (env.lookup (env_name name)) old

-- The codes between commas that are not blank.
abbrev pub codes_of : List Text → List Text
codes_of [] = []
codes_of (f ∷ fs) =
    let rest = codes_of fs in let code = trim_space f in if equal code [] then rest else code ∷ rest

abbrev or_codes : Option Text → List Text → List Text
or_codes none old = old
or_codes (some v) old = if equal (trim_space v) [] then old else codes_of (split v b',')

unfoldable pub set_products : Environment → List Text → List Text
set_products env old =
    if env.changed (bytes "products")
    then old
    else or_codes (env.lookup (bytes "PMOX_ENROLL_PRODUCTS")) old

-- `applyEnrollEnvDefaults`
unfoldable pub apply_enroll_env_defaults : Environment → EnrollFlags → EnrollFlags
apply_enroll_env_defaults env f = record {
  server = set_str env (bytes "server") f.server;
  key_path = set_str env (bytes "account-key") f.key_path;
  server_id = set_str env (bytes "serverid") f.server_id;
  products = set_products env f.products;
  level = set_str env (bytes "level") f.level;
  sockets = set_str env (bytes "sockets") f.sockets;
  contact = set_str env (bytes "contact") f.contact;
  no_set = set_bool env (bytes "no-set") f.no_set;
  no_redirect = set_bool env (bytes "no-redirect") f.no_redirect;
  ip = set_str env (bytes "ip") f.ip;
}

-- The product with this code, as the map `byCode` has it.
abbrev pub by_code : Text → List Product → Option Product
by_code code [] = none
by_code code (p ∷ ps) =
    let later = by_code code ps in
    elim later [ some q ↦ some q | none ↦ if equal p.code code then some p else none ]

abbrev or_skip : Option Product → List Product → List Product
or_skip none ps = ps
or_skip (some p) ps = p ∷ ps

unfoldable pub products_of : List Text → List Product
products_of [] = []
products_of (c ∷ cs) = or_skip (by_code (trim_space c) all_products) (products_of cs)

-- `resolveEnrollProducts`, with what `DetectProducts` looks at.
unfoldable pub resolve_enroll_products : (Text → Bool) → (Text → Bool) → List Text → List Product
resolve_enroll_products look dir [] = detect_products look dir
resolve_enroll_products look dir (c ∷ cs) = products_of (c ∷ cs)

-- strings.TrimRight(s, "/")
unfoldable pub trim_slashes : Text → Text
trim_slashes [] = []
trim_slashes (a ∷ s) =
    let rest = trim_slashes s in if a == b'/' && equal rest [] then [] else a ∷ rest

abbrev pub has_scheme : Text → Bool
has_scheme s = has_prefix s (bytes "http://") || has_prefix s (bytes "https://")

unfoldable pub checked_server : Text → Result Text
checked_server server =
    let s = trim_slashes (trim_space server) in
    if has_scheme s then ok s else err (invalid_server s)

-- The server behind what `RedirectIP` returns, or "".
abbrev pub saved_server : Result (Option Text) → Text
saved_server (err e) = []
saved_server (ok none) = []
saved_server (ok (some ip)) = if equal ip [] then [] else bytes "https://" ++ ip

abbrev pub installed_server : Result (Result (Option Text)) → Result Text
installed_server (err e) = err e
installed_server (ok saved) = checked_server (saved_server saved)

-- `resolveEnrollServer`: `saved` is what `RedirectIP` returns, and `install` the outcome of the
-- installation with what `RedirectIP` returns behind it.
unfoldable pub resolve_enroll_server :
    Bool → Result (Option Text) → Result (Result (Option Text)) → Text → Result Text
unfolding checked_server
resolve_enroll_server interactive saved install server =
    let reused = if equal server [] then saved_server saved else server in
    if not (equal reused [])
    then checked_server reused
    else if not interactive
    then err no_server
    else installed_server install

-- `hostServerID`: the two files of the system, where `none` is an error.
unfoldable pub host_server_id : Option Text → Option Text → Text
host_server_id machine_id hostname =
    let fallback = or_old hostname (bytes "unknown") in
    elim machine_id [
      | none ↦ fallback
      | some content ↦ if equal (trim_space content) [] then fallback else trim_space content
    ]

-- The sockets to order, with the content of /proc/cpuinfo.
unfoldable pub enroll_sockets : Option Text → List Text → Text → Text
enroll_sockets cpuinfo codes sockets =
    let (n, known) = detect_sockets cpuinfo in
    if equal sockets [] && any (λ c. equal c pve) codes && known
    then pve_socket_tier (pos n)
    else sockets

module _ (jose : Jose) (json : ClientJson) {S : Type 0} (transport : Transport S) where
  -- From `c.Directory` to `c.Order` of `runClientEnroll`.
  unfoldable pub enroll_order :
      Text → Text → List Text → Text → Text → Exec (Session S) (AccountResult × OrderResult)
  enroll_order server_id contact codes level sockets = do
    Acme.directory jose json transport
    acc ← Acme.register jose json transport server_id contact
    order ← Acme.order jose json transport server_id codes level sockets
    pure (acc, order)

-- The loop over the issued keys: which of them are installed, with the outcome.
unfoldable pub install_keys :
    (List Text → Bool)
    → Bool
    → List Product
    → List IssuedSubscription
    → List (Text × Result (Unit {0}))
install_keys run no_set products [] = []
install_keys run no_set products (sub ∷ subs) =
    let rest = install_keys run no_set products subs in
    let installed : List (Text × Result (Unit {0})) = elim (by_code sub.product products) [
      | none ↦ rest
      | some p ↦ (sub.key, set_key run p sub.key) ∷ rest
    ] in
    if no_set then rest else installed
