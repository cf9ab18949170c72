-- ===== src/Proxy/Forward.antt =====
-- internal/proxy/handler.go: handleHTTPForward and denyForward.
pub mod Replies
pub mod Responses
pub mod Audited
pub mod Balance
use istio_forward_proxy.Base.{
  ℕ, Bool, true, false, not, ◌||◌, List, [], ◌∷◌, ◌++◌, Option, none, some, String, Bytes, codes,
  is_empty, take, length, Map, if◌then◌else◌,
}
use istio_forward_proxy.Net.{split_host_port, default_port_for_scheme}
use istio_forward_proxy.Http.Header.{Header}
use istio_forward_proxy.Http.Message.{Request, Response, Url}
use istio_forward_proxy.Audit
use istio_forward_proxy.Audit.{Event, http_forward}
use istio_forward_proxy.ServiceEntry.Defs.{allow_host}
use istio_forward_proxy.Proxy.Effects.{
  Effect, Trace, Flow, http, bad_request, allow, deny, upstream_error, client_to_upstream,
  upstream_to_client, log_line, count_request, active_inc, active_dec, dial_error, add_bytes, audit,
  add_header, write_header, write_body, round_trip, close_body, http_error,
}
use istio_forward_proxy.Proxy.Handler.{Handler, Env, Exchange, elapsed_ms}
use istio_forward_proxy.Proxy.Headers.{is_hop_by_hop, build_upstream_request, Built, count_reads}
use istio_forward_proxy.Proxy.Events.{denied_event, allowed_event}

-- The reason that both handlers give to denyForward and denyConnect.
abbrev pub not_listed : String
not_listed = "host_not_in_service_entry_allowlist"

-- The host and the port that the ACL is asked about.
unfoldable pub forward_target : Request → Bytes × ℕ
forward_target r = split_host_port r.url.host (default_port_for_scheme r.url.scheme)

-- denyForward
unfoldable pub deny_forward : Env → Handler → Request → Bytes × ℕ → String → Trace → Trace
deny_forward env h r target reason tr =
    http_error (codes "forbidden: " ++ codes reason) 403
      (count_request http deny ∷ audit (denied_event env h r http_forward target reason tr) ∷ tr)

-- The inner loop over the values of one response header.
unfoldable pub copy_values : Bytes → List Bytes → Trace → Trace
copy_values k [] tr = tr
copy_values k (v ∷ vs) tr = copy_values k vs (add_header k v ∷ tr)

-- The loop over the response's headers.
unfoldable pub copy_header : (Bytes → Bytes) → Header → Trace → Trace
copy_header unicode_lower [] tr = tr
copy_header unicode_lower ((k, vs) ∷ header) tr =
    copy_header unicode_lower header
      (if is_hop_by_hop unicode_lower k then tr else copy_values k vs tr)

-- handleHTTPForward behind a RoundTrip that returned a response.
unfoldable pub reply : Env → Handler → Request → ℕ → Bytes × ℕ → Response → ℕ → Trace → Trace
reply env h r start target resp copied tr =
    let n = length (take copied resp.body) in
    let moved =
      add_bytes upstream_to_client n
      ∷ write_body (take copied resp.body)
      ∷ write_header resp.status_code
      ∷ copy_header env.unicode_lower resp.header tr in
    close_body
    ∷ count_request http allow
    ∷ audit (allowed_event env h r http_forward target start resp.status_code n 0 moved)
    ∷ moved

-- The round trip, and the bytes that it took from the request's body.
unfoldable pub attempt : Built → List ℕ → Trace → Trace
attempt built body_reads tr =
    let tried = round_trip built.request ∷ tr in
    if built.counted then add_bytes client_to_upstream (count_reads body_reads) ∷ tried else tried

-- handleHTTPForward behind the round trip: its error, or its response and how much is copied.
unfoldable pub conclude :
    Env → Handler → Request → ℕ → Bytes × ℕ → ℕ → Option Response → Trace → Trace
conclude env h r start target copied none tr =
    count_request http upstream_error
    ∷ http_error (codes "upstream unavailable") 502
        (log_line "upstream round trip failed" ∷ dial_error ∷ tr)
conclude env h r start target copied (some resp) tr = reply env h r start target resp copied tr

-- handleHTTPForward from the round trip on; activeConnections.Dec is deferred.
unfoldable pub forward : Env → Handler → Request → ℕ → Bytes × ℕ → Built → Trace → Trace
forward env h r start target built tr =
    let x = env.round_trip_result built.request (active_inc ∷ tr) in
    active_dec
    ∷ conclude env h r start target x.copied x.response
        (attempt built x.body_reads (active_inc ∷ tr))

-- handleHTTPForward
unfoldable pub handle_http_forward : Env → Handler → Request → Trace → Trace
handle_http_forward env h r tr =
    let (host, port) = forward_target r in
    if is_empty r.url.scheme || is_empty r.url.host
    then count_request http bad_request
      ∷ http_error (codes "proxy request requires absolute URI") 400 tr
    else if not (allow_host env.unicode_lower h.acl host port).0
    then deny_forward env h r (host, port) not_listed tr
    else elim (build_upstream_request env.unicode_lower h r) [
      | none ↦
          count_request http upstream_error
          ∷ http_error (codes "bad request") 502 (log_line "building upstream request failed" ∷ tr)
      | some built ↦ forward env h r (env.now tr) (host, port) built tr
    ]
