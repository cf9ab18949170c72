-- ===== src/Lib.antt =====
-- A model of istio-forward-proxy, the forward proxy that sends a mesh's outbound requests to an
-- upstream proxy if a ServiceEntry lists their target.
--
-- The parts, and how they work together:
-- * internal/serviceentry/watcher.go and handlers.go are ServiceEntry. A Watcher keeps the
--   allowlist; each callback of the informer (`handle_event`) rebuilds it from the ServiceEntries
--   that the lister returns (`rebuild`), and the handlers ask `allow_host` (AllowHost). The
--   children: Defs has the state and the operations, one step for each method that holds the lock;
--   Running has loadKubeConfig, NewWatcher (`watcher_for`) and Run (`run_watcher`); Dump has the
--   payload of DumpJSON, and Dump/Reader reads it back. Spec says what they promise, on the listing
--   alone; Refinement ties them together; Safety, Coverage and Order say when a host is let through;
--   Names is about spellings of a host; Invariant and History are about runs.
-- * internal/proxy/handler.go is Proxy. `serve_http` (ServeHTTP) gives a request to `handle_connect`
--   (handleConnect, in Connect) or to `handle_http_forward` (handleHTTPForward, in Forward). Both
--   ask the Watcher, build audit events (Events), and take the caller's identity from Identity
--   (spiffeFromRequest). Headers is buildUpstreamRequest and isHopByHop, Dial is dialUpstream,
--   wrapIdleTimeout and writeHeader, and Transport is upstreamTransport, buildTransport and
--   dialForTransport. Tunnel is tunnel as a function of the chunks that it relays, which keeps how
--   often CloseWrite is called on each side, and not when. Goroutines is tunnel as its two
--   goroutines do it, a call at a time, each with its CloseWrite at its own end, and with the
--   deadlines that the methods Read and Write of idleTimeoutConn set; Goroutines/Refinement ties it
--   to Tunnel. Handler has the configuration and what the surroundings answer, Effects the trace,
--   Views and Recorded what is read off it; Gate is about requests that the allowlist refuses.
-- * internal/certs/manager.go is Certs: Defs has Manager, `new_manager`, `tls_config`, `reload` and
--   `watch`, Reload and Watching the proofs. The dials ask it for a configuration whenever TLS is on.
-- * internal/audit/audit.go is Audit: the event, the Logger, and the line that Log emits.
-- * cmd/main.go is Main: Settings has envOr, envOrBool, parseLogLevel, headerNameFromEnv and the
--   loop that reads the extra headers, which become the handler's; Flags has config and parseFlags;
--   Startup has main, from the configuration (`launch`, `start`) to the wait for its end and the
--   shutdown (`serve_until`), and makes the Manager, the Watcher and the Handler of the other parts;
--   Life has the process that has started its servers: the callbacks, the end of the first wait and
--   the events on the certificate files change the Watcher and the Manager that its requests share.
--   Admin has isLoopback and the endpoints of metricsMux. Starting, Outcome, Ending, HeaderNames
--   and Readiness are the proofs.
-- * Net has splitHostPort and defaultPortForScheme, with net.SplitHostPort and strconv.ParseUint;
--   Http has what the handlers use of net/http: header maps and messages.
-- * Base passes on the library's names and has byte strings, association lists and their lemmas.
--
-- State and effects. A handler changes no state of its own: it appends effects (metrics, audit
-- events, calls of the ResponseWriter, bytes on connections) to a trace with the newest first, and
-- a body with early returns is a `Proc`, which goes on or has returned. Deferred calls come last on
-- every path. What the code does not decide is a field of `Env`: the clock, the answers of
-- http.Transport and of the network, which bytes a write transmits, net/url.Parse and the part of
-- strings.ToLower outside ASCII; each may depend on the whole trace before it. The map ExtraHeaders
-- is a list in the order in which `range` visits it, and so are header maps; the theorems hold for
-- every order. Within a request, the two goroutines of tunnel are the chunks that they relay, in the
-- order of their interleaving, which is any list; by themselves they are the step relation `Step`,
-- whose steps are those of the goroutines, of the two connections and of the clock, in any order.
-- The start of the process is a function of what the flags, the environment, the files and the
-- cluster answer; what happens later is a list of incidents, as it is for the watch of the
-- certificates and the informer. Log lines that a goroutine of main writes before its work are left
-- out.
--
-- Numbers and bounds. Ports are natural numbers; `parse_uint` refuses what exceeds 32 bits, as
-- strconv.ParseUint does. Counters of bytes, which are int64, and times in nanoseconds are natural
-- numbers: no request moves 2 ^ 63 bytes or runs for 2 ^ 63 nanoseconds. All loops are structural
-- recursion but that of `decimal`, which has fuel for one digit more than the number has units.
--
-- Not modelled: how http.Transport uses and pools its connections, the routing of ServeMux and the
-- servers of net/http, /metrics, what the package flag makes of a command line, how encoding/json
-- and slog write values down, and the cluster client; `rebuild` takes what the lister returned, and
-- `reload` what the files hold and what the packages tls and x509 make of them. WriteHeader
-- of net/http panics for a status below 100, which the model lets through. The read and write
-- timeouts of the server and the dial timeout are kept in the configuration and bound nothing in
-- the model.
pub mod Base
pub mod Net
pub mod Http
pub mod Audit
pub mod Certs
pub mod ServiceEntry
pub mod Proxy
pub mod Main
