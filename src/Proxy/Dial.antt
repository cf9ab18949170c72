-- ===== src/Proxy/Dial.antt =====
-- internal/proxy/handler.go: dialUpstream, wrapIdleTimeout and writeHeader.
use istio_forward_proxy.Base.{
  zero, suc, Bool, true, false, not, List, [], ◌∷◌, ◌++◌, Option, none, some, Bytes, codes, take,
  if◌then◌else◌,
}
use istio_forward_proxy.Net.{net_split_host_port}
use istio_forward_proxy.Proxy.Effects.{
  Trace, Proc, Peer, upstream, Effect, connected, handshake, sent, close,
}
use istio_forward_proxy.Proxy.Handler.{Handler, Env, Duration, negative, duration}

-- The host that net.SplitHostPort gives; it is empty on an error, which is ignored.
abbrev pub server_name : Option (Bytes × Bytes) → Bytes
server_name none = []
server_name (some (host, port)) = host

-- dialUpstream: whether there is a connection, and the trace.
unfoldable pub dial_upstream : Env → Handler → Trace → Bool × Trace
dial_upstream env h tr =
    let name = server_name (net_split_host_port h.upstream_proxy) in
    let tried = handshake name h.insecure_skip_verify ∷ connected ∷ tr in
    if not env.dial_succeeds
    then (false, tr)
    else if not h.tls_enabled
    then (true, connected ∷ tr)
    else if not h.has_cert_manager
    then (false, close upstream ∷ connected ∷ tr)
    else if env.handshake_succeeds
    then (true, tried)
    else (false, close upstream ∷ tried)

-- wrapIdleTimeout: whether the connection is wrapped in an idleTimeoutConn.
unfoldable pub wrap_idle_timeout : Duration → Bool
wrap_idle_timeout (negative n) = false
wrap_idle_timeout (duration zero) = false
wrap_idle_timeout (duration (suc n)) = true

-- One Write on a connection: whether it succeeded.
unfoldable pub write_conn : Env → Peer → Bytes → Trace → Bool × Trace
write_conn env peer b tr = elim (env.write_fault peer b tr) [
  | none ↦ (true, sent peer b ∷ tr)
  | some n ↦ (false, sent peer (take n b) ∷ tr)
]

-- `if _, err := …; err != nil { … return }`: on a failure the handler adds some effects and returns.
abbrev pub or_return : Bool × Trace → List Effect → Option (Unit {0}) × Trace
or_return (true, tr) failed = (some tt, tr)
or_return (false, tr) failed = (none, failed ++ tr)

-- A Write whose failure ends the handler.
unfoldable pub write_or_return : Env → Peer → Bytes → Proc (Unit {0})
write_or_return env peer b tr = or_return (write_conn env peer b tr) []

-- The bytes of a call of writeHeader.
abbrev pub header_line : Bytes → Bytes → Bytes
header_line name value = name ++ (codes ": " ++ (value ++ codes "\r\n"))
