-- ===== src/Proxy/Connect/Completion.antt =====
-- A CONNECT that reaches its tunnel has sent the whole request and relayed both ways.
use istio_forward_proxy.Base.{
  ℕ, Bool, true, false, List, [], ◌∷◌, ◌++◌, Option, none, some, Bytes, codes, is_empty, Map, ◌≡◌,
  refl, if◌then◌else◌, Bool-cases, Option-cases, inl, inr, ◌==◌,
}
use istio_forward_proxy.Http.Message.{Request}
use istio_forward_proxy.Proxy.Effects.{
  close_body, Trace, ◌>>◌, perform, client, upstream, Direction, client_to_upstream,
  upstream_to_client, sent,
}
use istio_forward_proxy.Proxy.Handler.{Handler, Env, ConnectResponse}
use istio_forward_proxy.Proxy.Dial.{write_or_return, header_line, wrap_idle_timeout}
use istio_forward_proxy.Proxy.Tunnel.{relay, tunnel}
use istio_forward_proxy.Proxy.Connect.{
  write_connect, write_extra, write_auth, send_request, await_response, flush_buffered, run_tunnel,
  converse, connect_line, established,
}
use istio_forward_proxy.Proxy.Connect.Delivery.{
  Delivered, Delivered-none, Delivered-trans, Sends, Sends-bind, Sends-or_return, Delivered-sent,
  extra_lines, auth_line, connect_request, buffered, chunks_to_upstream, chunks_to_client,
}
use istio_forward_proxy.Proxy.Views.{sent_to_upstream, sent_to_client}

module _ (env : Env) (h : Handler) (r : Request) where
  Sends-write_upstream : (b : Bytes) → Sends (write_or_return env upstream b) b []
  unfolding write_or_return
  Sends-write_upstream b tr ends = Sends-or_return env upstream b [] tr ends

  Sends-write_client : (b : Bytes) → Sends (write_or_return env client b) [] b
  unfolding write_or_return
  Sends-write_client b tr ends = Sends-or_return env client b [] tr ends

  Sends-write_connect : Sends (write_connect env h r) (connect_line r.host) []
  unfolding write_connect
  Sends-write_connect tr ends = Sends-or_return env upstream (connect_line r.host) _ tr ends

  Sends-write_extra : (extra : Map Bytes) → Sends (write_extra env h r extra) (extra_lines extra) []
  unfolding write_extra extra_lines
  Sends-write_extra [] = λ tr ends. Delivered-none tr
  Sends-write_extra ((name, value) ∷ extra) =
      Sends-bind (write_or_return env upstream (header_line name value)) (write_extra env h r extra)
        (header_line name value) [] (extra_lines extra) []
        (Sends-write_upstream (header_line name value)) (Sends-write_extra extra)

  Sends-write_auth : Sends (write_auth env h r) (auth_line h.upstream_auth) []
  unfolding write_auth
  Sends-write_auth = auth h.upstream_auth
    where
      auth :
          (s : Bytes)
          → Sends
              (λ tr.
                if is_empty s
                then (some tt, tr)
                else write_or_return env upstream (header_line (codes "Proxy-Authorization") s) tr)
              (auth_line s)
              []
      auth [] tr ends = Delivered-none tr
      auth (c ∷ s) tr ends = Sends-write_upstream _ tr ends

  Sends-send_request : Sends (send_request env h r) (connect_request h r) []
  unfolding send_request
  Sends-send_request =
      let host = write_or_return env upstream (header_line (codes "Host") r.host) in
      let finish = write_or_return env upstream (codes "\r\n") in
      let extra = write_extra env h r h.extra_headers in
      let auth = write_auth env h r in
      Sends-bind (write_connect env h r) (host >> (auth >> (extra >> finish))) _ [] _ []
        Sends-write_connect
        (Sends-bind host (auth >> (extra >> finish)) _ [] _ [] (Sends-write_upstream _) (
          Sends-bind auth (extra >> finish) _ [] _ [] Sends-write_auth (
            Sends-bind extra finish _ [] _ [] (Sends-write_extra h.extra_headers)
              (Sends-write_upstream _))))

  await_failed :
      (tr : Trace) → env.read_connect_response tr ≡ none → (await_response env h r tr).0 ≡ none
  unfolding await_response
  await_failed tr failed = rw (failed, await_response) refl

  await_rejected :
      (tr : Trace) (resp : ConnectResponse)
      → env.read_connect_response tr ≡ some resp
      → (resp.status_code == 200) ≡ false
      → (await_response env h r tr).0 ≡ none
  unfolding await_response
  await_rejected tr resp read other = rw (read, await_response) (rw other refl)

  body_closed : (tr : Trace) → Delivered [] [] tr (close_body ∷ tr)
  unfolding sent_to_upstream sent_to_client
  body_closed tr =
      let d = Delivered-none tr in record { to_upstream = d.to_upstream; to_client = d.to_client }

  Sends-await_response : Sends (await_response env h r) [] []
  Sends-await_response tr ends = elim (Option-cases (env.read_connect_response tr)) [
    | inl failed ↦ absurd (ends (await_failed tr failed))
    | inr (resp, read) ↦ elim (Bool-cases (resp.status_code == 200)) [
      | inl fine ↦ unfold await_response in rw (read, await_response) (rw fine (body_closed tr))
      | inr rejected ↦ absurd (ends (await_rejected tr resp read rejected))
    ]
  ]

  Sends-flush_buffered : Sends (flush_buffered env h r) (buffered env.client_buffered) []
  unfolding flush_buffered
  Sends-flush_buffered = flush env.client_buffered
    where
      flush :
          (o : Option Bytes)
          → Sends
              (λ tr. elim o [
                | none ↦ (some tt, tr)
                | some b ↦ if is_empty b then (some tt, tr) else write_or_return env upstream b tr
              ])
              (buffered o)
              []
      flush none tr ends = Delivered-none tr
      flush (some []) tr ends = Delivered-none tr
      flush (some (c ∷ b)) tr ends = Sends-write_upstream (c ∷ b) tr ends

Delivered-relay :
    (chunks : List (Direction × Bytes)) (tr : Trace)
    → Delivered (chunks_to_upstream chunks) (chunks_to_client chunks) tr (relay chunks tr)
unfolding relay chunks_to_upstream chunks_to_client
Delivered-relay [] tr = Delivered-none tr
Delivered-relay ((client_to_upstream, b) ∷ cs) tr =
    Delivered-trans b [] _ _ tr (sent upstream b ∷ tr) _ (Delivered-sent upstream b tr)
      (Delivered-relay cs (sent upstream b ∷ tr))
Delivered-relay ((upstream_to_client, b) ∷ cs) tr =
    Delivered-trans [] b _ _ tr (sent client b ∷ tr) _ (Delivered-sent client b tr)
      (Delivered-relay cs (sent client b ∷ tr))

pub Delivered-tunnel :
    (wrapped : Bool) (chunks : List (Direction × Bytes)) (tr : Trace)
    → Delivered (chunks_to_upstream chunks) (chunks_to_client chunks) tr (tunnel wrapped chunks tr)
unfolding tunnel sent_to_upstream sent_to_client
Delivered-tunnel true chunks tr = Delivered-relay chunks tr
Delivered-tunnel false chunks tr =
    let d = Delivered-relay chunks tr in
    record { to_upstream = d.to_upstream; to_client = d.to_client }

module _ (env : Env) (h : Handler) (r : Request) (start : ℕ) (target : Bytes × ℕ) where
  Sends-run_tunnel :
      Sends
        (perform (run_tunnel env h r start target))
        (chunks_to_upstream env.relayed)
        (chunks_to_client env.relayed)
  unfolding run_tunnel sent_to_upstream sent_to_client
  Sends-run_tunnel tr ends =
      let d = Delivered-tunnel (wrap_idle_timeout h.idle_timeout) env.relayed tr in
      record { to_upstream = d.to_upstream; to_client = d.to_client }

  -- A conversation that reaches the end of its tunnel has sent the upstream the request for the
  -- tunnel with all its header lines, what the client had sent ahead and the client's chunks, in
  -- this order and nothing else; and the client the line that the tunnel stands and the upstream's
  -- chunks.
  pub Sends-converse :
      Sends
        (converse env h r start target)
        (connect_request h r ++ (buffered env.client_buffered ++ chunks_to_upstream env.relayed))
        (established ++ chunks_to_client env.relayed)
  unfolding converse
  Sends-converse =
      let told = write_or_return env client established in
      let flush = flush_buffered env h r in
      let run = perform (run_tunnel env h r start target) in
      Sends-bind (send_request env h r) (await_response env h r >> (told >> (flush >> run))) _ [] _
        _ (Sends-send_request env h r)
        (Sends-bind (await_response env h r) (told >> (flush >> run)) [] [] _ _
          (Sends-await_response env h r)
          (Sends-bind told (flush >> run) [] _ _ _ (Sends-write_client env h r established)
            (Sends-bind flush run _ [] _ _ (Sends-flush_buffered env h r) Sends-run_tunnel)))
