-- ===== src/Audit.antt =====
-- internal/audit/audit.go: the audit event, New, the line that Log emits and HostPortFromAddr.
use istio_forward_proxy.Base.{ℕ, String, List, [], ◌∷◌, ◌++◌, none, some, Bytes}
use istio_forward_proxy.Net.{net_split_host_port}

-- The string constants "HTTP-FORWARD" and "CONNECT" of the field Method.
pub data Method : Type 0 where
  http_forward connect : Method

-- The string constants "allow" and "deny" of the field Decision.
pub data Decision : Type 0 where
  allow deny : Decision

pub record Event : Type 0 where
  pub timestamp : ℕ
  pub client_addr : Bytes
  pub spiffe : Bytes
  pub method : Method
  pub target_host : Bytes
  pub target_port : ℕ
  pub upstream_proxy : Bytes
  pub decision : Decision
  pub deny_reason : String
  pub status : ℕ
  pub bytes_in : ℕ
  pub bytes_out : ℕ
  pub duration_ms : ℕ

abbrev pub method_name : Method → String
method_name http_forward = "HTTP-FORWARD"
method_name connect = "CONNECT"

abbrev pub decision_name : Decision → String
decision_name allow = "allow"
decision_name deny = "deny"

-- The value of one attribute of a log line.
pub data Value : Type 0 where
  time number : ℕ → Value
  bytes : Bytes → Value
  text : String → Value

pub record Line : Type 0 where
  pub message : String
  pub attributes : List (String × Value)

-- Logger, by the attributes that its slog.Logger adds to every line.
pub record Logger : Type 0 where
  pub attributes : List (String × Value)

-- New; the argument has the attributes of the slog.Logger.
unfoldable pub new_logger : List (String × Value) → Logger
new_logger attributes = record { attributes = attributes ++ ("component", text "audit") ∷ [] }

-- Log
unfoldable pub log : Logger → Event → Line
log l e = record {
  message = "egress";
  attributes =
      l.attributes
      ++ ("ts", time e.timestamp)
        ∷ ("client_addr", bytes e.client_addr)
        ∷ ("spiffe", bytes e.spiffe)
        ∷ ("method", text (method_name e.method))
        ∷ ("target_host", bytes e.target_host)
        ∷ ("target_port", number e.target_port)
        ∷ ("upstream_proxy", bytes e.upstream_proxy)
        ∷ ("decision", text (decision_name e.decision))
        ∷ ("deny_reason", text e.deny_reason)
        ∷ ("status", number e.status)
        ∷ ("bytes_in", number e.bytes_in)
        ∷ ("bytes_out", number e.bytes_out)
        ∷ ("duration_ms", number e.duration_ms)
        ∷ [];
}

-- HostPortFromAddr; the argument is addr.String().
unfoldable pub host_port_from_addr : Bytes → Bytes × Bytes
host_port_from_addr addr = elim (net_split_host_port addr) [
  | none ↦ (addr, [])
  | some (host, port) ↦ (host, port)
]
