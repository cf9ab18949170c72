-- ===== src/Proxy/Handler.antt =====
-- internal/proxy/handler.go: the configuration of a Handler, and what its surroundings answer.
use istio_forward_proxy.Base.{ℕ, ◌-◌, ◌/◌, Bool, List, Option, Bytes, Map}
use istio_forward_proxy.Http.Message.{Url, Request, Response}
use istio_forward_proxy.ServiceEntry.Defs.{Watcher}
use istio_forward_proxy.Proxy.Effects.{Trace, Peer, Direction}

-- A time.Duration; only its sign and its size matter.
pub data Duration : Type 0 where
  negative : ℕ → Duration
  duration : ℕ → Duration

pub record Handler : Type 0 where
  pub upstream_proxy : Bytes
  pub upstream_auth : Bytes
  -- whether CertManager is not nil
  pub has_cert_manager : Bool
  pub acl : Watcher
  -- a map: `range` visits it in some order, which is that of the list
  pub extra_headers : Map Bytes
  pub dial_timeout : Duration
  pub idle_timeout : Duration
  pub tls_enabled : Bool
  pub insecure_skip_verify : Bool
  pub trust_xfcc_header : Bool

-- What Transport.RoundTrip does: the sizes of the reads that it makes of the request's body, the
-- response or an error, and how many bytes of the response's body io.Copy then moves.
pub record Exchange : Type 0 where
  pub body_reads : List ℕ
  pub response : Option Response
  pub copied : ℕ

-- What http.ReadResponse reads from the upstream: the response's head, and the bytes behind it
-- that its bufio.Reader has taken from the connection as well.
pub record ConnectResponse : Type 0 where
  pub status_code : ℕ
  pub status : Bytes
  pub read_ahead : Bytes

-- The surroundings of one request. Each answer may depend on all that has happened so far.
-- `unicode_lower` and `parse_url` are strings.ToLower outside ASCII and net/url.Parse.
pub record Env : Type 0 where
  pub unicode_lower : Bytes → Bytes
  pub parse_url : Bytes → Option Url
  -- the clock, in nanoseconds
  pub now : Trace → ℕ
  pub round_trip_result : Request → Trace → Exchange
  pub is_hijacker : Bool
  pub hijack_succeeds : Bool
  pub dial_succeeds : Bool
  pub handshake_succeeds : Bool
  -- `none`: a write of these bytes succeeds; `some n`: it fails behind n of them
  pub write_fault : Peer → Bytes → Trace → Option ℕ
  pub read_connect_response : Trace → Option ConnectResponse
  -- clientBuf: nil, or the bytes that it holds
  pub client_buffered : Option Bytes
  -- the chunks that the two copy loops of the tunnel relay, as they interleave
  pub relayed : List (Direction × Bytes)

-- time.Since(start).Milliseconds()
abbrev pub elapsed_ms : Env → ℕ → Trace → ℕ
elapsed_ms env start tr = (env.now tr - start) / 1_000_000
