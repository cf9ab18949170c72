-- ===== src/Main/Launches.antt =====
-- Starts and ends of the process at concrete inputs.
use istio_forward_proxy.Proxy.Handler.{duration}
use istio_forward_proxy.Base.{List}
use istio_forward_proxy.Base.{
  true, false, [], ◌∷◌, ◌++◌, Option, none, some, Bytes, codes, ◌≡◌, refl, equal, if◌then◌else◌,
  ◌&&◌,
}
use istio_forward_proxy.Base.{
  ◌≢◌, lookup, last_index_byte, index_byte, contains, to_lower, is_ascii, trim_suffix, has_prefix,
  has_suffix, insert,
}
use istio_forward_proxy.Certs.Defs.{version_tls12, Op, Os, new_manager, reload}
use istio_forward_proxy.Proxy.Samples.{env, same, listing, plain}
use istio_forward_proxy.ServiceEntry.Running.{Kube, watcher_for, load_kube_config}
use istio_forward_proxy.Main.Settings.{env_or, env_or_bool}
use istio_forward_proxy.Main.Flags.{CommandLine, flag_config, parse_flags}
use istio_forward_proxy.Main.Startup.{
  watch_certs, run_acl, serve_metrics, serve_proxy, metrics_server, proxy_server, metrics_failed,
  proxy_failed, launch, start, start_certs, start_servers, serve_until, Running, Actions, await_end,
  finish,
}
use istio_forward_proxy.Main.Starting.{routines, exits, asked_mtls}
use istio_forward_proxy.Main.Outcome.{Launched, launch-Launched}
use istio_forward_proxy.Main.Life.{Happening, callback, cache_synced, certs_event, happen, live}
use istio_forward_proxy.Main.Life.Steps.{callbacks, syncs}
use istio_forward_proxy.Main.Life.Safety.{IsReady, live-IsReady, live-IsListed}
use istio_forward_proxy.Main.Settings.{level_info, extra_headers, parse_log_level}
use istio_forward_proxy.Main.Startup.{handler_for}
use istio_forward_proxy.ServiceEntry.Defs.{
  new_watcher, rebuild, build, allow_host, allow_name, match_wildcards, port_allowed, lists_port,
  normalize, add_entries, add_hosts, add_host, entry_of, added, handle_event, mark_synced,
}
use istio_forward_proxy.ServiceEntry.Spec.{IsListed}
use istio_forward_proxy.ServiceEntry.History.{latest}
use istio_forward_proxy.Net.{
  net_split_host_port, split_host_port, parse_uint, default_port_for_scheme,
}
use istio_forward_proxy.Proxy.Headers.{build_upstream_request}
use istio_forward_proxy.Proxy.Forward.{
  forward_target, handle_http_forward, forward, attempt, conclude, reply, copy_header, copy_values,
}
use istio_forward_proxy.Proxy.Connect.{serve_http}
use istio_forward_proxy.Proxy.Views.{contacts, select}
use istio_forward_proxy.Proxy.Gate.{target}
use istio_forward_proxy.Main.Ending.{shutdowns, is_told, is_running, serve_until-exits}

-- Files that hold a certificate.
abbrev files : Os
files = record {
  join = λ dir name. dir ++ b'/' ∷ name;
  load_key_pair = λ cert key. some (record { first = cert; others = [] });
  parse_certificate = λ der. some (record { subject = der; not_after = 1 });
  read_file = λ path. some path;
  pool_of_pem = λ pem. some (pem ∷ []);
}

abbrev no_files : Os
no_files = record files { read_file = λ path. none }

abbrev cluster : Kube
cluster = record { in_cluster_config = some []; client_config = none; accepts = λ cfg. true }

abbrev no_cluster : Kube
no_cluster = record cluster { in_cluster_config = none }

abbrev environment : Bytes → Bytes
environment name = if equal name (codes "UPSTREAM_PROXY") then codes "squid.corp:3129" else []

abbrev no_flags : CommandLine
no_flags = record {
  listen = none;
  metrics = none;
  upstream = none;
  upstream_auth = none;
  cert_dir = none;
  log_level = none;
  mtls = none;
  insecure_skip_verify = none;
  trust_xfcc_header = none;
  dial_timeout = none;
  idle_timeout = none;
  read_timeout = none;
  write_timeout = none;
}

abbrev plain_flags : CommandLine
plain_flags = record no_flags { mtls = some false }

abbrev launched : Os → Kube → CommandLine → Option Running × Actions
launched os kube flags = launch os kube environment [] flags

launch_tests :
    (routines (launched files cluster no_flags).1
      ≡ serve_proxy ∷ serve_metrics ∷ run_acl ∷ watch_certs ∷ [])
    × (routines (launched no_files cluster plain_flags).1
        ≡ serve_proxy ∷ serve_metrics ∷ run_acl ∷ [])
    × (exits (launched no_files cluster no_flags).1 ≡ 1 ∷ [])
    × (exits (launched files no_cluster no_flags).1 ≡ 1 ∷ [])
    × (exits (launch files cluster (λ name. []) [] no_flags).1 ≡ 2 ∷ [])
unfolding launch start start_certs start_servers parse_flags flag_config env_or env_or_bool equal
    new_manager reload watcher_for load_kube_config routines exits
launch_tests = (refl, refl, refl, refl, refl)

launch-Launched_example :
    Launched same env []
      (codes "example.com")
      443
      (asked_mtls environment no_flags)
      (launched files cluster no_flags)
launch-Launched_example =
    launch-Launched same env [] (codes "example.com") 443 files cluster environment [] no_flags

serve_until-exits_example :
    (exits (serve_until (metrics_failed ∷ proxy_failed ∷ []) (launched files cluster no_flags)) ≡ (
      if is_running (launched files cluster no_flags).0
        && is_told (metrics_failed ∷ proxy_failed ∷ [])
      then 0 ∷ exits (launched files cluster no_flags).1
      else exits (launched files cluster no_flags).1))
    × (shutdowns
          (serve_until (metrics_failed ∷ proxy_failed ∷ []) (launched files cluster no_flags))
        ≡ (if is_running (launched files cluster no_flags).0
              && is_told (metrics_failed ∷ proxy_failed ∷ [])
            then metrics_server ∷ proxy_server ∷ shutdowns (launched files cluster no_flags).1
            else shutdowns (launched files cluster no_flags).1))
serve_until-exits_example =
    serve_until-exits (metrics_failed ∷ proxy_failed ∷ []) (launched files cluster no_flags)

ended_by_failure :
    exits (serve_until (metrics_failed ∷ proxy_failed ∷ []) (launched files cluster no_flags))
    ≡ 0 ∷ []
unfolding launch start start_certs start_servers parse_flags flag_config env_or env_or_bool equal
    new_manager reload watcher_for load_kube_config exits serve_until await_end finish
ended_by_failure = refl

abbrev ready_proxy : Running
ready_proxy = record {
  level = level_info;
  manager = some (record {
    dir = codes "/etc/proxy/certs";
    current = some (record {
      certificate = record { first = codes "/etc/proxy/certs/tls.crt"; others = [] };
      leaf = record { subject = codes "/etc/proxy/certs/tls.crt"; not_after = 1 };
      root_cas = codes "/etc/proxy/certs/ca.crt" ∷ [];
      min_version = version_tls12;
    });
  });
  handler = record {
    upstream_proxy = codes "squid.corp:3129";
    upstream_auth = [];
    has_cert_manager = true;
    acl = new_watcher;
    extra_headers = [];
    dial_timeout = duration 10_000_000_000;
    idle_timeout = duration 90_000_000_000;
    tls_enabled = true;
    insecure_skip_verify = false;
    trust_xfcc_header = false;
  };
  metrics_addr = codes ":9090";
  listen_addr = codes ":3128";
  read_timeout = duration 60_000_000_000;
  write_timeout = duration 60_000_000_000;
}

starts_ready : (launch files cluster environment [] no_flags).0 ≡ some ready_proxy
unfolding launch start start_certs start_servers parse_flags flag_config env_or env_or_bool equal
    new_manager reload watcher_for load_kube_config handler_for extra_headers parse_log_level
starts_ready = refl

abbrev rename : Op
rename = record { create = false; write = false; remove = false; rename = true; chmod = false }

abbrev life : List Happening
life = callback (added (some listing)) ∷ cache_synced ∷ certs_event rename no_files ∷ []

live-IsReady_example :
    IsReady (asked_mtls environment no_flags) (syncs life) env [] (live same life ready_proxy)
live-IsReady_example =
    live-IsReady same files cluster environment [] no_flags ready_proxy starts_ready life env []

reaches_upstream :
    contacts (serve_http env (live same life ready_proxy).handler plain []) ≢ contacts []
unfolding serve_http handle_http_forward build_upstream_request forward attempt conclude reply
    contacts select forward_target default_port_for_scheme split_host_port net_split_host_port
    parse_uint last_index_byte index_byte contains equal allow_host allow_name normalize to_lower
    is_ascii trim_suffix rebuild build add_entries add_hosts add_host has_prefix has_suffix insert
    lookup new_watcher match_wildcards port_allowed lists_port entry_of copy_header copy_values live
    happen handle_event mark_synced
reaches_upstream e = cc

live-IsListed_example : IsListed same (latest (callbacks life) []) (target plain).0 (target plain).1
live-IsListed_example =
    live-IsListed same files cluster environment [] no_flags ready_proxy starts_ready life env plain
      [] refl reaches_upstream
