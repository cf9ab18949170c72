-- ===== src/Main/Startup.antt =====
-- cmd/main.go: main, from the configuration to the end of the process.
use istio_forward_proxy.Base.{
  ℕ, Bool, true, false, not, List, [], ◌∷◌, ◌++◌, Option, none, some, String, Bytes, map,
  if◌then◌else◌,
}
use istio_forward_proxy.Certs.Defs.{Os, Manager, Log, new_manager}
use istio_forward_proxy.ServiceEntry.Defs.{Watcher}
use istio_forward_proxy.ServiceEntry.Running.{Kube, watcher_for}
use istio_forward_proxy.Proxy.Handler.{Handler, Duration}
use istio_forward_proxy.Main.Settings.{Level, parse_log_level}
use istio_forward_proxy.Main.Flags.{Config, CommandLine, parse_flags}

-- The goroutines that main starts, and the two servers.
pub data Routine : Type 0 where
  watch_certs run_acl serve_metrics serve_proxy : Routine

pub data Server : Type 0 where
  metrics_server proxy_server : Server

-- What main does: a line of slog, `go`, signal.Notify, cancel, Shutdown, and the end of the process
-- with its status.
pub data Action : Type 0 where
  said : String → Action
  started : Routine → Action
  notified cancelled : Action
  shut_down : Server → Action
  exited : ℕ → Action

-- The newest first.
abbrev pub Actions : Type 0
Actions = List Action

-- What the servers are made of.
pub record Running : Type 0 where
  pub level : Level
  pub manager : Option Manager
  pub handler : Handler
  pub metrics_addr : Bytes
  pub listen_addr : Bytes
  pub read_timeout : Duration
  pub write_timeout : Duration

abbrev pub says : Log → Actions
says log = map said log

-- `if cfg.mtlsEnabled`: no result where main exits, or the certificate manager, `none` for nil.
unfoldable pub start_certs : Os → Config → Actions → Option (Option Manager) × Actions
start_certs os cfg tr =
    let (made, log) = new_manager os cfg.cert_dir [] in
    if not cfg.mtls_enabled then (some none, tr) else elim made [
      | none ↦ (none, exited 1 ∷ said "failed to initialize certificate manager" ∷ (says log ++ tr))
      | some m ↦ (some (some m), started watch_certs ∷ (says log ++ tr))
    ]

abbrev pub is_made : Option Manager → Bool
is_made none = false
is_made (some m) = true

-- The proxy.Handler literal
unfoldable pub handler_for : Config → Option Manager → Watcher → Handler
handler_for cfg manager acl = record {
  upstream_proxy = cfg.upstream_proxy;
  upstream_auth = cfg.upstream_auth;
  has_cert_manager = is_made manager;
  acl = acl;
  extra_headers = cfg.extra_headers;
  dial_timeout = cfg.dial_timeout;
  idle_timeout = cfg.idle_timeout;
  tls_enabled = cfg.mtls_enabled;
  insecure_skip_verify = cfg.insecure_skip_verify;
  trust_xfcc_header = cfg.trust_xfcc_header;
}

-- main from the ServiceEntry watcher to signal.Notify.
unfoldable pub start_servers : Kube → Config → Option Manager → Actions → Option Running × Actions
start_servers kube cfg manager tr = elim (watcher_for kube) [
  | none ↦ (none, exited 1 ∷ said "failed to initialize ServiceEntry watcher" ∷ tr)
  | some w ↦ (
    some (record {
      level = parse_log_level cfg.log_level;
      manager = manager;
      handler = handler_for cfg manager w;
      metrics_addr = cfg.metrics_addr;
      listen_addr = cfg.listen_addr;
      read_timeout = cfg.read_timeout;
      write_timeout = cfg.write_timeout;
    }),
    notified ∷ started serve_proxy ∷ started serve_metrics ∷ started run_acl ∷ tr,
  )
]

abbrev pub bind_started {ℓ κ} :
    {A : Type ℓ} {B : Type κ}
    → Option A × Actions
    → (A → Actions → Option B × Actions)
    → Option B × Actions
bind_started (none, tr) k = (none, tr)
bind_started (some a, tr) k = k a tr

-- main with its configuration, up to its `select`.
unfoldable pub start : Os → Kube → Config → Actions → Option Running × Actions
start os kube cfg tr =
    bind_started (start_certs os cfg (said "starting istio-forward-proxy" ∷ tr))
      (λ manager. start_servers kube cfg manager)

-- parseFlags with its os.Exit(2), and main up to its `select`.
unfoldable pub launch :
    Os → Kube → (Bytes → Bytes) → List Bytes → CommandLine → Option Running × Actions
launch os kube getenv environ flags = elim (parse_flags getenv environ flags) [
  | none ↦ (none, exited 2 ∷ said "UPSTREAM_PROXY / --upstream is required" ∷ [])
  | some cfg ↦ start os kube cfg []
]

-- What happens to main while it waits: a ListenAndServe that fails, with another error than
-- ErrServerClosed, or SIGINT or SIGTERM.
pub data Incident : Type 0 where
  metrics_failed proxy_failed signalled : Incident

-- The `select` of main, and the goroutines of the servers: whether main goes on, and its actions.
unfoldable pub await_end : List Incident → Actions → Bool × Actions
await_end [] tr = (false, tr)
await_end (metrics_failed ∷ is) tr = await_end is (said "metrics server failed" ∷ tr)
await_end (proxy_failed ∷ is) tr =
    (true, said "context cancelled" ∷ cancelled ∷ said "proxy server failed" ∷ tr)
await_end (signalled ∷ is) tr = (true, said "shutdown signal received" ∷ tr)

-- main behind its `select`: the shutdown, the deferred calls, and the return from main.
unfoldable pub finish : Actions → Actions
finish tr =
    exited 0
    ∷ cancelled
    ∷ said "shutdown complete"
    ∷ shut_down metrics_server
    ∷ shut_down proxy_server
    ∷ tr

-- The whole of main, as far as the incidents take it.
unfoldable pub serve_until : List Incident → Option Running × Actions → Actions
serve_until is (none, tr) = tr
serve_until is (some running, tr) =
    let (ended, tr') = await_end is tr in if ended then finish tr' else tr'
