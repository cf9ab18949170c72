-- ===== src/Certs/Defs.antt =====
-- internal/certs/manager.go: Manager, NewManager, TLSConfig, reload and Watch.
use istio_forward_proxy.Base.{
  ℕ, Bool, ◌||◌, List, [], ◌∷◌, Option, none, some, Bytes, codes, String, if◌then◌else◌,
}

-- tls.Certificate: the chain's first certificate and the others, with the private key left out.
pub record KeyPair : Type 0 where
  pub first : Bytes
  pub others : List Bytes

-- What is read of x509.Certificate.
pub record Leaf : Type 0 where
  pub subject : Bytes
  pub not_after : ℕ

-- The answers of the file system and of the packages tls and x509 at the time of one reload:
-- filepath.Join, tls.LoadX509KeyPair (whose chain is not empty when it succeeds),
-- x509.ParseCertificate, os.ReadFile, and AppendCertsFromPEM, with the pool that it fills.
pub record Os : Type 0 where
  pub join : Bytes → Bytes → Bytes
  pub load_key_pair : Bytes → Bytes → Option KeyPair
  pub parse_certificate : Bytes → Option Leaf
  pub read_file : Bytes → Option Bytes
  pub pool_of_pem : Bytes → Option (List Bytes)

-- tls.VersionTLS12
abbrev pub version_tls12 : ℕ
version_tls12 = 0x0303

-- The tls.Config that reload builds.
pub record Config : Type 0 where
  pub certificate : KeyPair
  pub leaf : Leaf
  pub root_cas : List Bytes
  pub min_version : ℕ

-- Manager; `current` is `none` for nil.
pub record Manager : Type 0 where
  pub dir : Bytes
  pub current : Option Config

-- The errors of reload.
pub data LoadError : Type 0 where
  load_keypair parse_leaf read_ca no_ca : LoadError

-- The messages that have been logged, the newest first.
abbrev pub Log : Type 0
Log = List String

pub record Reloaded : Type 0 where
  pub error : Option LoadError
  pub manager : Manager
  pub log : Log

abbrev pub failed : LoadError → Manager → Log → Reloaded
failed e m log = record { error = some e; manager = m; log = log }

-- reload
unfoldable pub reload : Os → Manager → Log → Reloaded
reload os m log =
    let cert_path = os.join m.dir (codes "tls.crt") in
    let key_path = os.join m.dir (codes "tls.key") in
    let ca_path = os.join m.dir (codes "ca.crt") in
    elim (os.load_key_pair cert_path key_path) [
      | none ↦ failed load_keypair m log
      | some cert ↦ elim (os.parse_certificate cert.first) [
        | none ↦ failed parse_leaf m log
        | some leaf ↦ elim (os.read_file ca_path) [
          | none ↦ failed read_ca m log
          | some ca_pem ↦ elim (os.pool_of_pem ca_pem) [
            | none ↦ failed no_ca m log
            | some pool ↦ record {
              error = none;
              manager = record m {
                current = some (record {
                  certificate = cert;
                  leaf = leaf;
                  root_cas = pool;
                  min_version = version_tls12;
                });
              };
              log = "loaded client certificates" ∷ log;
            }
          ]
        ]
      ]
    ]

abbrev pub manager_unless : Option LoadError → Manager → Option Manager
manager_unless (some e) m = none
manager_unless none m = some m

-- NewManager
unfoldable pub new_manager : Os → Bytes → Log → Option Manager × Log
new_manager os dir log =
    let r = reload os (record { dir = dir; current = none }) log in
    (manager_unless r.error r.manager, r.log)

-- TLSConfig
unfoldable pub tls_config : Manager → Option Config
tls_config m = m.current

-- The bits of fsnotify.Op.
pub record Op : Type 0 where
  pub create : Bool
  pub write : Bool
  pub remove : Bool
  pub rename : Bool
  pub chmod : Bool

-- What the select of Watch receives; an event comes with the state of the files at its time.
pub data Signal : Type 0 where
  context_done events_closed errors_closed watch_error : Signal
  event : Op → Os → Signal

-- The mask that Watch tests.
unfoldable pub is_relevant : Op → Bool
is_relevant op = op.create || op.write || op.remove || op.rename

abbrev pub log_error : Option LoadError → Log → Log
log_error none log = log
log_error (some e) log = "failed to reload certificates" ∷ log

-- The body of the case for an event.
unfoldable pub on_event : Op → Os → Manager → Log → Manager × Log
on_event op os m log =
    let r = reload os m ("cert file event" ∷ log) in
    if is_relevant op then (r.manager, log_error r.error r.log) else (m, log)

-- The loop of Watch over what it receives.
unfoldable pub watch_loop : List Signal → Manager → Log → Manager × Log
watch_loop [] m log = (m, log)
watch_loop (context_done ∷ signals) m log = (m, log)
watch_loop (events_closed ∷ signals) m log = (m, log)
watch_loop (errors_closed ∷ signals) m log = (m, log)
watch_loop (watch_error ∷ signals) m log = watch_loop signals m ("fsnotify error" ∷ log)
watch_loop (event op os ∷ signals) m log =
    let (m', log') = on_event op os m log in watch_loop signals m' log'

-- Watch: whether fsnotify.NewWatcher and the watcher's Add succeed, and what it then receives.
unfoldable pub watch : Bool → Bool → List Signal → Manager → Log → Manager × Log
watch created added signals m log =
    if created
    then if added
      then watch_loop signals m ("watching certificate directory" ∷ log)
      else (m, "failed to watch cert dir" ∷ log)
    else (m, "failed to create fsnotify watcher" ∷ log)
