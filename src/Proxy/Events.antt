-- ===== src/Proxy/Events.antt =====
-- internal/proxy/handler.go: the audit events that the two handlers build.
use istio_forward_proxy.Base.{ℕ, [], Bytes, String}
use istio_forward_proxy.Http.Message.{Request}
use istio_forward_proxy.Audit
use istio_forward_proxy.Audit.{Event, Method}
use istio_forward_proxy.Proxy.Effects.{Trace}
use istio_forward_proxy.Proxy.Handler.{Handler, Env, elapsed_ms}
use istio_forward_proxy.Proxy.Identity.{spiffe_from_request}

module _ (env : Env) (h : Handler) (r : Request) (method : Method) (target : Bytes × ℕ) where
  -- The event of denyForward and of denyConnect.
  unfoldable pub denied_event : String → Trace → Event
  denied_event reason tr = record {
    timestamp = env.now tr;
    client_addr = r.remote_addr;
    spiffe = spiffe_from_request env.parse_url h r;
    method = method;
    target_host = target.0;
    target_port = target.1;
    upstream_proxy = [];
    decision = Audit.deny;
    deny_reason = reason;
    status = 403;
    bytes_in = 0;
    bytes_out = 0;
    duration_ms = 0;
  }

  -- The event at the end of handleHTTPForward and of handleConnect.
  unfoldable pub allowed_event : ℕ → ℕ → ℕ → ℕ → Trace → Event
  allowed_event start status bytes_in bytes_out tr = record {
    timestamp = start;
    client_addr = r.remote_addr;
    spiffe = spiffe_from_request env.parse_url h r;
    method = method;
    target_host = target.0;
    target_port = target.1;
    upstream_proxy = h.upstream_proxy;
    decision = Audit.allow;
    deny_reason = "";
    status = status;
    bytes_in = bytes_in;
    bytes_out = bytes_out;
    duration_ms = elapsed_ms env start tr;
  }
