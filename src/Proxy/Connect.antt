-- ===== src/Proxy/Connect.antt =====
-- internal/proxy/handler.go: handleConnect, denyConnect and ServeHTTP.
pub mod Quiet
pub mod Measures
pub mod Balance
pub mod Delivery
pub mod Completion
pub mod Audited
pub mod Tunnels
pub mod Counts
pub mod Tallies
pub mod Answers
pub mod Served
use istio_forward_proxy.Base.{
  ℕ, zero, suc, ◌+◌, ◌/◌, ◌%◌, Bool, true, false, not, List, [], ◌∷◌, ◌++◌, Option, none, some,
  String, Bytes, codes, equal, is_empty, Map, ◌==◌, if◌then◌else◌,
}
use istio_forward_proxy.Net.{split_host_port, decimal}
use istio_forward_proxy.Http.Message.{Request}
use istio_forward_proxy.Audit
use istio_forward_proxy.Audit.{Event}
use istio_forward_proxy.ServiceEntry.Defs.{allow_host}
use istio_forward_proxy.Proxy.Effects.{
  Effect, Trace, Proc, ◌>>=◌, ◌>>◌, perform, deferring, Flow, connect, allow, deny, upstream_error,
  upstream_rejected, client_to_upstream, upstream_to_client, client, upstream, log_line,
  count_request, active_inc, active_dec, dial_error, add_bytes, audit, hijacked, close, http_error,
  close_body,
}
use istio_forward_proxy.Proxy.Handler.{Handler, Env, ConnectResponse, elapsed_ms}
use istio_forward_proxy.Proxy.Events.{denied_event, allowed_event}
use istio_forward_proxy.Proxy.Dial.{
  dial_upstream, wrap_idle_timeout, or_return, write_conn, write_or_return, header_line,
}
use istio_forward_proxy.Proxy.Tunnel.{tunnel, bytes_in, bytes_out}
use istio_forward_proxy.Proxy.Forward.{not_listed, handle_http_forward}

-- denyConnect
unfoldable pub deny_connect : Env → Handler → Request → Bytes × ℕ → String → Trace → Trace
deny_connect env h r target reason tr =
    http_error (codes "forbidden: " ++ codes reason) 403 (
      count_request connect deny ∷ audit (denied_event env h r Audit.connect target reason tr) ∷ tr)

abbrev pub bad_gateway : Bytes
bad_gateway = codes "HTTP/1.1 502 Bad Gateway\r\n\r\n"

abbrev pub established : Bytes
established = codes "HTTP/1.1 200 Connection established\r\n\r\n"

abbrev pub connect_line : Bytes → Bytes
connect_line host = codes "CONNECT " ++ (host ++ codes " HTTP/1.1\r\n")

-- fmt.Fprintf(clientConn, "HTTP/1.1 %d %s\r\n\r\n", resp.StatusCode, resp.Status)
abbrev pub rejection : ConnectResponse → Bytes
rejection resp =
    codes "HTTP/1.1 "
    ++ (decimal resp.status_code ++ (codes " " ++ (resp.status ++ codes "\r\n\r\n")))

module _ (env : Env) (h : Handler) (r : Request) where
  -- A Write whose error is dropped.
  unfoldable pub write_ignored : Bytes → Trace → Trace
  write_ignored b tr = (write_conn env client b tr).1

  -- The write of the request line, whose failure is logged.
  unfoldable pub write_connect : Proc (Unit {0})
  write_connect tr =
      or_return (write_conn env upstream (connect_line r.host) tr)
        (log_line "write CONNECT failed" ∷ [])

  -- The loop over ExtraHeaders.
  unfoldable pub write_extra : Map Bytes → Proc (Unit {0})
  write_extra [] = perform (λ tr. tr)
  write_extra ((name, value) ∷ extra) = do
    write_or_return env upstream (header_line name value)
    write_extra extra

  unfoldable pub write_auth : Proc (Unit {0})
  write_auth tr =
      if is_empty h.upstream_auth
      then (some tt, tr)
      else write_or_return env upstream (header_line (codes "Proxy-Authorization") h.upstream_auth)
          tr

  -- The request that asks the upstream for the tunnel.
  unfoldable pub send_request : Proc (Unit {0})
  send_request = do
    write_connect
    write_or_return env upstream (header_line (codes "Host") r.host)
    write_auth
    write_extra h.extra_headers
    write_or_return env upstream (codes "\r\n")

  -- From http.ReadResponse to the test of the status code.
  unfoldable pub await_response : Proc (Unit {0})
  await_response tr = elim (env.read_connect_response tr) [
    | none ↦ (
      none,
      count_request connect upstream_error
          ∷ write_ignored bad_gateway (log_line "read upstream CONNECT response failed" ∷ tr),
    )
    | some resp ↦ if resp.status_code == 200 then (some tt, close_body ∷ tr) else (
      none,
      count_request connect upstream_rejected
          ∷ write_ignored (rejection resp) (log_line "upstream CONNECT rejected" ∷ close_body ∷ tr),
    )
  ]

  -- What the client has sent behind its request goes to the upstream.
  unfoldable pub flush_buffered : Proc (Unit {0})
  flush_buffered tr = elim env.client_buffered [
    | none ↦ (some tt, tr)
    | some b ↦ if is_empty b then (some tt, tr) else write_or_return env upstream b tr
  ]

  -- The tunnel and what is recorded behind it.
  unfoldable pub run_tunnel : ℕ → Bytes × ℕ → Trace → Trace
  run_tunnel start target tr =
      let relayed =
        add_bytes upstream_to_client (bytes_in env.relayed)
        ∷ add_bytes client_to_upstream (bytes_out env.relayed)
        ∷ tunnel (wrap_idle_timeout h.idle_timeout) env.relayed tr in
      count_request connect allow
      ∷ audit (
          allowed_event env h r Audit.connect target start 200 (bytes_in env.relayed)
            (bytes_out env.relayed) relayed)
      ∷ relayed

  -- handleConnect with a connection to the upstream, up to its end.
  unfoldable pub converse : ℕ → Bytes × ℕ → Proc (Unit {0})
  converse start target = do
    send_request
    await_response
    write_or_return env client established
    flush_buffered
    perform (run_tunnel start target)

  -- handleConnect once the client's connection is hijacked.
  unfoldable pub connect_hijacked : ℕ → Bytes × ℕ → Proc (Unit {0})
  connect_hijacked start target tr =
      let (dialed, tr') = dial_upstream env h tr in
      if dialed
      then deferring (close upstream ∷ active_dec ∷ []) (converse start target) (active_inc ∷ tr')
      else (
        none,
        count_request connect upstream_error
            ∷ write_ignored bad_gateway (log_line "upstream dial failed" ∷ dial_error ∷ tr'),
      )

  -- handleConnect
  unfoldable pub handle_connect : Trace → Trace
  handle_connect tr =
      let (host, port) = split_host_port r.host 443 in
      if not (allow_host env.unicode_lower h.acl host port).0
      then deny_connect env h r (host, port) not_listed tr
      else if not env.is_hijacker
      then http_error (codes "hijacking not supported") 500 tr
      else if not env.hijack_succeeds
      then log_line "hijack failed" ∷ tr
      else (deferring (close client ∷ []) (connect_hijacked (env.now tr) (host, port))
          (hijacked ∷ tr)).1

  -- ServeHTTP
  unfoldable pub serve_http : Trace → Trace
  serve_http tr =
      if equal r.method (codes "CONNECT") then handle_connect tr else handle_http_forward env h r tr
