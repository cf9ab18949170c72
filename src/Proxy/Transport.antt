-- ===== src/Proxy/Transport.antt =====
-- internal/proxy/handler.go: upstreamTransport, buildTransport and dialForTransport.
pub mod Secure
mod Tests
use istio_forward_proxy.Base.{
  ℕ, Bool, true, false, List, [], ◌∷◌, Option, none, some, Bytes, codes, if◌then◌else◌,
}
use istio_forward_proxy.Proxy.Effects.{Trace}
use istio_forward_proxy.Proxy.Handler.{Handler, Env, Duration}
use istio_forward_proxy.Proxy.Dial.{dial_upstream, wrap_idle_timeout}

-- A hook that dials, in the surroundings of its call: no connection on an error, or one that is wrapped in an idleTimeoutConn or not.
abbrev pub Hook : Type 0
Hook = Env → Trace → Option Bool × Trace

-- What buildTransport sets of an http.Transport; a hook is `none` for nil.
pub record Transport : Type 0 where
  pub proxy_scheme : Bytes
  pub proxy_host : Bytes
  pub max_idle_conns_per_host : ℕ
  pub idle_conn_timeout : Duration
  pub dial_context : Option Hook
  pub dial_tls_context : Option Hook

-- maxIdleUpstreamConnsPerHost
abbrev pub max_idle_upstream_conns_per_host : ℕ
max_idle_upstream_conns_per_host = 32

-- dialForTransport
unfoldable pub dial_for_transport : Handler → Hook
dial_for_transport h env tr =
    let (dialed, tr') = dial_upstream env h tr in
    if dialed then (some (wrap_idle_timeout h.idle_timeout), tr') else (none, tr')

-- buildTransport
unfoldable pub build_transport : Handler → Transport
build_transport h =
    let scheme = if h.tls_enabled then codes "https" else codes "http" in
    let t : Transport = record {
      proxy_scheme = scheme;
      proxy_host = h.upstream_proxy;
      max_idle_conns_per_host = max_idle_upstream_conns_per_host;
      idle_conn_timeout = h.idle_timeout;
      dial_context = none;
      dial_tls_context = none;
    } in
    if h.tls_enabled
    then record t { dial_tls_context = some (dial_for_transport h) }
    else record t { dial_context = some (dial_for_transport h) }

-- transportOnce and transport
pub record Cell : Type 0 where
  pub done : Bool
  pub transport : Option Transport

-- The fields of a new Handler.
abbrev pub unused : Cell
unused = record { done = false; transport = none }

-- upstreamTransport: what it returns, and the cell behind the call.
unfoldable pub upstream_transport : Handler → Cell → Option Transport × Cell
upstream_transport h c =
    let built : Cell = record { done = true; transport = some (build_transport h) } in
    if c.done then (c.transport, c) else (built.transport, built)
