-- ===== src/Main/Admin.antt =====
-- cmd/main.go: isLoopback and the handlers of metricsMux.
use istio_forward_proxy.Base.{
  Bool, false, not, ◌∷◌, Option, none, some, Bytes, codes, if◌then◌else◌,
}
use istio_forward_proxy.Net.{net_split_host_port}
use istio_forward_proxy.ServiceEntry.Defs.{Watcher, is_synced}
use istio_forward_proxy.ServiceEntry.Dump.{Json, payload}
use istio_forward_proxy.Proxy.Effects.{Trace, set_header, write_header, write_body, http_error}

-- The host of an address, or the address itself where it does not split.
abbrev pub host_of : Bytes → Option (Bytes × Bytes) → Bytes
host_of addr none = addr
host_of addr (some (host, port)) = host

abbrev pub loopback_of : Option Bool → Bool
loopback_of none = false
loopback_of (some b) = b

-- isLoopback; the argument is net.ParseIP with the address's method IsLoopback, `none` for nil.
unfoldable pub is_loopback : (Bytes → Option Bool) → Bytes → Bool
is_loopback parse_ip remote_addr =
    loopback_of (parse_ip (host_of remote_addr (net_split_host_port remote_addr)))

-- /healthz
unfoldable pub healthz : Trace → Trace
healthz tr = write_body (codes "ok") ∷ write_header 200 ∷ tr

-- /readyz
unfoldable pub readyz : Watcher → Trace → Trace
readyz w tr =
    if not (is_synced w)
    then http_error (codes "ServiceEntry cache not synced") 503 tr
    else write_body (codes "ready") ∷ write_header 200 ∷ tr

abbrev pub allowlist_refusal : Bytes
allowlist_refusal =
    codes "forbidden: /debug/allowlist is only accessible via kubectl exec or kubectl port-forward"

-- DumpJSON; `encode` is what an indenting json.Encoder writes for a value.
unfoldable pub dump_json : (Json → Bytes) → Watcher → Trace → Trace
dump_json encode w tr = write_body (encode (payload w)) ∷ tr

-- /debug/allowlist
unfoldable pub debug_allowlist :
    (Bytes → Option Bool) → (Json → Bytes) → Bytes → Watcher → Trace → Trace
debug_allowlist parse_ip encode remote_addr w tr =
    if not (is_loopback parse_ip remote_addr)
    then http_error allowlist_refusal 403 tr
    else dump_json encode w (set_header (codes "Content-Type") (codes "application/json") ∷ tr)
