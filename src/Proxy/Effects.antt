-- ===== src/Proxy/Effects.antt =====
-- What a handler does, as a trace of effects with the newest first, and the monad of the handlers:
-- a step reads the trace so far, extends it, and goes on with a value or has returned (`none`).
use istio_forward_proxy.Base.{ℕ, Bool, List, ◌∷◌, ◌++◌, Option, none, some, String, Bytes, codes}
use istio_forward_proxy.Http.Message.{Request}
use istio_forward_proxy.Audit.{Event}

-- The label `method` of requestsTotal: "HTTP" and "CONNECT".
pub data Flow : Type 0 where
  http connect : Flow

-- The label `decision` of requestsTotal.
pub data Outcome : Type 0 where
  bad_request allow deny upstream_error upstream_rejected : Outcome

-- The label `direction` of bytesTransferred.
pub data Direction : Type 0 where
  client_to_upstream upstream_to_client : Direction

-- The two ends of a tunnel.
pub data Peer : Type 0 where
  client upstream : Peer

pub data Effect : Type 0 where
  -- a line of slog, by its message
  log_line : String → Effect
  -- requestsTotal, activeConnections, upstreamDialErrors, bytesTransferred
  count_request : Flow → Outcome → Effect
  active_inc active_dec dial_error : Effect
  add_bytes : Direction → ℕ → Effect
  audit : Event → Effect
  -- the http.ResponseWriter
  set_header add_header : Bytes → Bytes → Effect
  del_header : Bytes → Effect
  write_header : ℕ → Effect
  write_body : Bytes → Effect
  hijacked : Effect
  -- http.Transport
  round_trip : Request → Effect
  close_body : Effect
  -- connections: a dial that succeeded, a handshake by server name, bytes that were sent
  connected : Effect
  handshake : Bytes → Bool → Effect
  sent : Peer → Bytes → Effect
  close_write close : Peer → Effect

abbrev pub Trace : Type 0
Trace = List Effect

abbrev pub Proc : Type 0 → Type 0
Proc A = Trace → Option A × Trace

abbrev pub bind_result : {A B : Type 0} → Option A × Trace → (A → Proc B) → Option B × Trace
bind_result (none, tr) f = (none, tr)
bind_result (some a, tr) f = f a tr

infixl 5 ◌>>=◌ ◌>>◌
abbrev pub ◌>>=◌ : {A B : Type 0} → Proc A → (A → Proc B) → Proc B
◌>>=◌ m f tr = bind_result (m tr) f

abbrev pub ◌>>◌ : {B : Type 0} → Proc (Unit {0}) → Proc B → Proc B
◌>>◌ m k tr = bind_result (m tr) (λ _. k)

-- A call of a function that always returns.
abbrev pub perform : (Trace → Trace) → Proc (Unit {0})
perform f tr = (some tt, f tr)

-- `defer`: the effects of the deferred calls come last, whichever way the body ends.
abbrev pub deferring : List Effect → Proc (Unit {0}) → Proc (Unit {0})
deferring cleanup m tr = let (o, tr') = m tr in (o, cleanup ++ tr')

-- http.Error(w, message, code)
unfoldable pub http_error : Bytes → ℕ → Trace → Trace
http_error message code tr =
    write_body (message ++ codes "\n")
    ∷ write_header code
    ∷ set_header (codes "X-Content-Type-Options") (codes "nosniff")
    ∷ set_header (codes "Content-Type") (codes "text/plain; charset=utf-8")
    ∷ del_header (codes "Content-Length")
    ∷ tr
