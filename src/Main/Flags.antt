-- ===== src/Main/Flags.antt =====
-- cmd/main.go: parseFlags, and the configuration that it makes.
use istio_forward_proxy.Base.{
  ℕ, ◌*◌, Bool, true, false, List, [], Option, none, some, Bytes, codes, is_empty, Map,
  if◌then◌else◌,
}
use istio_forward_proxy.Proxy.Handler.{Duration, duration}
use istio_forward_proxy.Main.Settings.{env_or, env_or_bool, extra_headers}

-- config
pub record Config : Type 0 where
  pub listen_addr : Bytes
  pub metrics_addr : Bytes
  pub upstream_proxy : Bytes
  pub upstream_auth : Bytes
  pub cert_dir : Bytes
  pub log_level : Bytes
  pub extra_headers : Map Bytes
  pub dial_timeout : Duration
  pub idle_timeout : Duration
  pub read_timeout : Duration
  pub write_timeout : Duration
  pub mtls_enabled : Bool
  pub insecure_skip_verify : Bool
  pub trust_xfcc_header : Bool

-- What flag.Parse reads from a command line that it accepts: the value of each flag that is given.
pub record CommandLine : Type 0 where
  pub listen : Option Bytes
  pub metrics : Option Bytes
  pub upstream : Option Bytes
  pub upstream_auth : Option Bytes
  pub cert_dir : Option Bytes
  pub log_level : Option Bytes
  pub mtls : Option Bool
  pub insecure_skip_verify : Option Bool
  pub trust_xfcc_header : Option Bool
  pub dial_timeout : Option Duration
  pub idle_timeout : Option Duration
  pub read_timeout : Option Duration
  pub write_timeout : Option Duration

-- A variable of the package flag: the value that is given, or the default.
abbrev pub given {ℓ} : {A : Type ℓ} → Option A → A → A
given none default = default
given (some a) default = a

-- time.Second
abbrev pub second : ℕ
second = 1_000_000_000

-- The variables of parseFlags behind flag.Parse; the argument is os.Getenv.
unfoldable pub flag_config : (Bytes → Bytes) → CommandLine → Config
flag_config getenv flags = record {
  listen_addr = given flags.listen (env_or (getenv (codes "LISTEN_ADDR")) (codes ":3128"));
  metrics_addr = given flags.metrics (env_or (getenv (codes "METRICS_ADDR")) (codes ":9090"));
  upstream_proxy = given flags.upstream (env_or (getenv (codes "UPSTREAM_PROXY")) []);
  upstream_auth = given flags.upstream_auth (env_or (getenv (codes "UPSTREAM_AUTH")) []);
  cert_dir = given flags.cert_dir (env_or (getenv (codes "CERT_DIR")) (codes "/etc/proxy/certs"));
  log_level = given flags.log_level (env_or (getenv (codes "LOG_LEVEL")) (codes "info"));
  mtls_enabled = given flags.mtls (env_or_bool (getenv (codes "MTLS_ENABLED")) true);
  insecure_skip_verify =
      given flags.insecure_skip_verify (env_or_bool (getenv (codes "INSECURE_SKIP_VERIFY")) false);
  trust_xfcc_header =
      given flags.trust_xfcc_header (env_or_bool (getenv (codes "TRUST_XFCC_HEADER")) false);
  dial_timeout = given flags.dial_timeout (duration (10 * second));
  idle_timeout = given flags.idle_timeout (duration (90 * second));
  read_timeout = given flags.read_timeout (duration (60 * second));
  write_timeout = given flags.write_timeout (duration (60 * second));
  extra_headers = [];
}

-- parseFlags, `none` for os.Exit(2); the arguments are os.Getenv, os.Environ() and the flags.
unfoldable pub parse_flags : (Bytes → Bytes) → List Bytes → CommandLine → Option Config
parse_flags getenv environ flags =
    let cfg = flag_config getenv flags in
    if is_empty cfg.upstream_proxy
    then none
    else some (record cfg { extra_headers = extra_headers environ cfg.extra_headers })
