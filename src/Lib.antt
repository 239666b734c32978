-- ===== src/Lib.antt =====
-- proxmox-license-proxy emulates the endpoint by which Proxmox products check a subscription. This
-- library models its core and proves what the core promises.
--
-- How the program works. A Proxmox host posts its key, its server id and a challenge to the proxy;
-- the service registers the host in a registry file and answers "active" or "invalid". Operators
-- approve and block hosts and ACME accounts, and add, revoke and remove licenses. An approved
-- account orders licenses for itself.
--
-- The files, by the part of the repository that they model:
-- * Subscription (internal/subscription): Status has the statuses as texts and ParseStatus; Key has
--   ValidKey, GenerateKey, KeySockets, IsLabKey and Describe; Model has the records of the registry
--   file and License.Active; Response has RenderXML.
-- * Registry (internal/registry/store.go): Keyed has the loops over a list with keys; Operations has
--   the closures of the operations on a registry in memory; Store has Load, save and mutate over the
--   registry file, its backup and its temporary file; Api has the methods of Store; Migration
--   has MigrateLegacy of migrate.go over a file system.
-- * App (internal/app/service.go): Dates has defaultDate, Sockets needsSocketUpgrade, Service the
--   licenses, accounts and issuance, and Verify the check of a host.
-- * Acme (internal/acme): Nonces has the store of the replay nonces, Jws the signing and the
--   verification of requests.
-- * Config (internal/config): the conversion of the configuration to settings, and who is trusted.
-- * Http (internal/transport/httpapi): Server has the requests, the replies and what the handlers
--   share; Guards has verifyJWS and requireAdmin; Client and Admin have the handlers of apiv1.go,
--   and Management those of server.go.
-- * Hosts (internal/hosts/hosts.go): the managed block of the hosts file; File has the operations.
-- * Client (internal/client): Detect has the products and sockets of a host, Acme the calls of the
--   proxy with what they send and receive in Messages, AccountKey the file with the key of the
--   account, and Install that of the binary.
-- * Discovery (internal/discovery): what Browse makes of the entries that mDNS reports.
-- * Cli (internal/cli): the commands on hosts, accounts and subscriptions (server.go, account.go,
--   license.go) as actions over the store, with what the prompts return in a Terminal; Enroll
--   has the enrolment of client_enroll.go, but for the trust in the certificate.
-- * Result and Exec have errors as values and actions over a state; Prelude has the shared names,
--   with Go strings as lists of bytes; Tests has concrete inputs.
--
-- How it is modelled. A text is its bytes, and what the code uses of strings, strconv, time, regexp
-- and encoding/hex is defined on bytes (time.Parse for the one layout, Atoi for 64 bits, ToUpper as
-- far as its result is compared with ASCII words). A status is any text, since the registry file may
-- hold any. A World is the disk and what the operating system answers in each operation to come, so
-- a theorem over every world is a theorem about every failure. Each mutation is one step, for the
-- file lock is exclusive. There is no fuel but in TrimSpace, which has the length of its text.
--
-- A handler is a function from the server to its reply and the server that is left; it runs without
-- another between its steps. The source runs handlers at the same time, where each call of the store
-- and of the nonces is atomic, so that theorems on one such call or on a sequence of them hold there
-- too, and theorems on a whole handler are about one that runs alone.
--
-- Parameters: encoding/json as a Codec, with the hypothesis RoundTrips (what is written is read back,
-- which holds for texts of valid UTF-8) where a theorem needs it; MD5 as a function; the random bytes
-- and the readings of the clock as values; base64, JSON, SHA-256 and Ed25519 of the requests as a
-- record Jose, with the hypothesis KeyPair (what is written is read back, and the public key verifies
-- what its private half signs) where a client signs; net and net/netip as the records Net
-- and Addresses; the HTTP of the client as a Transport, its JSON as ClientJson and ListCodec, PEM and
-- PKCS#8 as a KeyCodec; path/filepath as Paths; the prompts as a Terminal.
--
-- Not modelled: directories, permissions and the contents of the lock file; the wording of errors;
-- the router, TLS and the log of the server; the loading of the configuration; the
-- making of certificates, the release check and the announcement by mDNS, which call libraries; of the
-- command line the printing, the dialogues of setup and doctor, serving and the rollback of a client.
pub mod Prelude
pub mod Result
pub mod Subscription
pub mod Exec
pub mod Registry
pub mod Acme
pub mod App
pub mod Config
pub mod Http
pub mod Hosts
pub mod Client
pub mod Cli
pub mod Discovery
mod Tests
