-- ===== src/Proxy/Connect/Tunnels.antt =====
-- When a CONNECT runs to the end of its tunnel, and what it has then sent.
use istio_forward_proxy.Base.{
  ℕ, Bool, true, false, not, ◌&&◌, ◌||◌, List, [], ◌∷◌, ◌++◌, Option, none, some, Bytes, codes,
  is_empty, Map, ◌≡◌, ◌≢◌, refl, ap, ◌∙◌, if◌then◌else◌, Bool-cases, Option-cases, inl, inr, arith,
  ◌==◌,
}
use istio_forward_proxy.Http.Message.{Request}
use istio_forward_proxy.Proxy.Effects.{
  Trace, Proc, ◌>>◌, bind_result, perform, client, upstream, Peer, Effect, hijacked, active_inc,
  active_dec, close, deferring,
}
use istio_forward_proxy.Proxy.Handler.{Handler, Env, ConnectResponse}
use istio_forward_proxy.Proxy.Dial.{
  dial_upstream, or_return, write_conn, write_or_return, header_line,
}
use istio_forward_proxy.Proxy.Connect.{
  handle_connect, connect_hijacked, converse, run_tunnel, send_request, write_connect, write_auth,
  write_extra, await_response, flush_buffered, established,
}
use istio_forward_proxy.Proxy.Connect.Delivery.{
  Delivered, connect_request, buffered, chunks_to_upstream, chunks_to_client, write_conn_fine,
}
use istio_forward_proxy.Proxy.Connect.Completion.{Sends-converse}
use istio_forward_proxy.Proxy.Connect.Audited.{connect_target, connect_allowed, tunnels, is_some}
use istio_forward_proxy.Proxy.Views.{sent_to_upstream, sent_to_client}

-- Surroundings in which nothing fails: the connection is hijacked, the upstream is dialed and
-- answers 200, every write succeeds, and with TLS there is a certificate manager and a handshake.
pub record IsFaultless (env : Env) (h : Handler) : Type 0 where
  pub hijacker : env.is_hijacker ≡ true
  pub hijacks : env.hijack_succeeds ≡ true
  pub dials : env.dial_succeeds ≡ true
  pub shakes : (not h.tls_enabled || env.handshake_succeeds) ≡ true
  pub certified : (not h.tls_enabled || h.has_cert_manager) ≡ true
  pub writes : (p : Peer) (b : Bytes) (tr : Trace) → env.write_fault p b tr ≡ none
  pub answers :
      (tr : Trace)
      → (resp : ConnectResponse) × (env.read_connect_response tr ≡ some resp)
        × ((resp.status_code == 200) ≡ true)

abbrev Ends : Proc (Unit {0}) → Type 0
Ends m = (tr : Trace) → (m tr).0 ≡ some tt

Ends-after :
    (w : Option (Unit {0}) × Trace) (k : Proc (Unit {0}))
    → w.0 ≡ some tt
    → Ends k
    → (bind_result w (λ _. k)).0 ≡ some tt
Ends-after (none, tr) k p q = cc
Ends-after (some u, tr) k p q = q tr

Ends-bind : (m k : Proc (Unit {0})) → Ends m → Ends k → Ends (m >> k)
Ends-bind m k p q tr = Ends-after (m tr) k (p tr) q

all_three :
    (a b : Bool) (o : Option (Unit {0}))
    → a ≡ true
    → b ≡ true
    → o ≡ some tt
    → (a && (b && is_some o)) ≡ true
all_three a b o p q e = ground arith

-- The one way through the tests of handleConnect that reaches a tunnel.
only_taken :
    (P : Trace → Type 0) (a b c : Bool) (o : Option (Unit {0})) (denied unable failed taken : Trace)
    → a ≡ true
    → (b && (c && is_some o)) ≡ true
    → (o ≢ none → P taken)
    → P (if not a then denied else if not b then unable else if not c then failed else taken)
only_taken P true true true (some u) denied unable failed taken p q k = k (ground arith)
only_taken P true true true none denied unable failed taken p q k = cc q
only_taken P true true false o denied unable failed taken p q k = cc q
only_taken P true false c o denied unable failed taken p q k = cc q
only_taken P false b c o denied unable failed taken p q k = cc p

module _ (env : Env) (h : Handler) (r : Request) (fine : IsFaultless env h) where
  Ends-or_return :
      (p : Peer) (b : Bytes) (failed : List Effect) (tr : Trace)
      → (or_return (write_conn env p b tr) failed).0 ≡ some tt
  Ends-or_return p b failed tr = rw (write_conn_fine env p b tr (fine.writes p b tr)) refl

  Ends-write_or_return : (p : Peer) (b : Bytes) → Ends (write_or_return env p b)
  unfolding write_or_return
  Ends-write_or_return p b tr = Ends-or_return p b [] tr

  Ends-write_connect : Ends (write_connect env h r)
  unfolding write_connect
  Ends-write_connect tr = Ends-or_return upstream _ _ tr

  Ends-write_extra : (extra : Map Bytes) → Ends (write_extra env h r extra)
  unfolding write_extra
  Ends-write_extra [] = λ tr. refl
  Ends-write_extra ((name, value) ∷ extra) =
      Ends-bind (write_or_return env upstream (header_line name value)) (write_extra env h r extra)
        (Ends-write_or_return upstream (header_line name value)) (Ends-write_extra extra)

  Ends-write_auth : Ends (write_auth env h r)
  unfolding write_auth
  Ends-write_auth tr = elim (Bool-cases (is_empty h.upstream_auth)) [
    | inl e ↦ rw e refl
    | inr e ↦ rw e (Ends-write_or_return upstream _ tr)
  ]

  Ends-await_response : Ends (await_response env h r)
  unfolding await_response
  Ends-await_response tr =
      let (resp, read, ok) = fine.answers tr in rw (read, await_response) (rw ok refl)

  Ends-flush_buffered : Ends (flush_buffered env h r)
  unfolding flush_buffered
  Ends-flush_buffered tr = elim (Option-cases env.client_buffered) [
    | inl empty ↦ rw (empty, flush_buffered) refl
    | inr (b, held) ↦ elim (Bool-cases (is_empty b)) [
      | inl e ↦ rw (held, flush_buffered) (rw e refl)
      | inr e ↦ rw (held, flush_buffered) (rw e (Ends-write_or_return upstream b tr))
    ]
  ]

  Ends-send_request : Ends (send_request env h r)
  unfolding send_request
  Ends-send_request =
      let host = write_or_return env upstream (header_line (codes "Host") r.host) in
      let finish = write_or_return env upstream (codes "\r\n") in
      let extra = write_extra env h r h.extra_headers in
      let auth = write_auth env h r in
      Ends-bind (write_connect env h r) (host >> (auth >> (extra >> finish))) Ends-write_connect (
        Ends-bind host (auth >> (extra >> finish)) (Ends-write_or_return upstream _) (
          Ends-bind auth (extra >> finish) Ends-write_auth (
            Ends-bind extra finish (Ends-write_extra h.extra_headers)
              (Ends-write_or_return upstream _))))

  Ends-converse : (start : ℕ) (target : Bytes × ℕ) → Ends (converse env h r start target)
  unfolding converse
  Ends-converse start target =
      let told = write_or_return env client established in
      let flush = flush_buffered env h r in
      let run = perform (run_tunnel env h r start target) in
      Ends-bind (send_request env h r) (await_response env h r >> (told >> (flush >> run)))
        Ends-send_request
        (Ends-bind (await_response env h r) (told >> (flush >> run)) Ends-await_response (
          Ends-bind told (flush >> run) (Ends-write_or_return client established)
            (Ends-bind flush run Ends-flush_buffered (λ tr. refl))))

  dials : (tr : Trace) → (dial_upstream env h tr).0 ≡ true
  unfolding dial_upstream
  dials tr = ground (arith, fine.dials, fine.shakes, fine.certified)

  hijacked_ends :
      (start : ℕ) (target : Bytes × ℕ) (tr : Trace)
      → (connect_hijacked env h r start target tr).0 ≡ some tt
  unfolding connect_hijacked
  hijacked_ends start target tr = rw (dials tr) (Ends-converse start target _)

  -- Where nothing fails, every test of handleConnect behind the ACL is passed.
  pub faultless-tunnels : (tr : Trace) → tunnels env h r tr ≡ true
  unfolding tunnels
  faultless-tunnels tr =
      all_three env.is_hijacker env.hijack_succeeds _ fine.hijacker fine.hijacks
        (hijacked_ends (env.now tr) (connect_target r) (hijacked ∷ tr))

module _ (env : Env) (h : Handler) (r : Request) where
  dial_sends_upstream :
      (tr : Trace) → sent_to_upstream (dial_upstream env h tr).1 ≡ sent_to_upstream tr
  unfolding dial_upstream sent_to_upstream
  dial_sends_upstream tr = ground arith

  dial_sends_client : (tr : Trace) → sent_to_client (dial_upstream env h tr).1 ≡ sent_to_client tr
  unfolding dial_upstream sent_to_client
  dial_sends_client tr = ground arith

  hijacked_goes :
      (start : ℕ) (target : Bytes × ℕ) (tr : Trace)
      → (dial_upstream env h tr).0 ≡ true
      → connect_hijacked env h r start target tr
        ≡ deferring
            (close upstream ∷ active_dec ∷ [])
            (converse env h r start target)
            (active_inc ∷ (dial_upstream env h tr).1)
  unfolding connect_hijacked
  hijacked_goes start target tr dialed = rw dialed refl

  hijacked_fails :
      (start : ℕ) (target : Bytes × ℕ) (tr : Trace)
      → (dial_upstream env h tr).0 ≡ false
      → (connect_hijacked env h r start target tr).0 ≡ none
  unfolding connect_hijacked
  hijacked_fails start target tr failed = rw failed refl

  -- What the upstream and the client must have received.
  abbrev pub upstream_bytes : Bytes
  upstream_bytes =
      connect_request h r ++ (buffered env.client_buffered ++ chunks_to_upstream env.relayed)

  abbrev pub client_bytes : Bytes
  client_bytes = established ++ chunks_to_client env.relayed

  hijacked-Delivered :
      (start : ℕ) (target : Bytes × ℕ) (tr : Trace)
      → (connect_hijacked env h r start target (hijacked ∷ tr)).0 ≢ none
      → Delivered upstream_bytes client_bytes tr
          (close client ∷ (connect_hijacked env h r start target (hijacked ∷ tr)).1)
  hijacked-Delivered start target tr ends =
      elim (Bool-cases (dial_upstream env h (hijacked ∷ tr)).0) [
        | inr failed ↦ absurd (ends (hijacked_fails start target (hijacked ∷ tr) failed))
        | inl dialed ↦
            let goes = hijacked_goes start target (hijacked ∷ tr) dialed in
            let opened = active_inc ∷ (dial_upstream env h (hijacked ∷ tr)).1 in
            let d = Sends-converse env h r start target opened (rw goes at ends) in
            rw goes (
              unfold sent_to_upstream sent_to_client in
              record {
                to_upstream =
                    d.to_upstream
                    ∙ ap (λ s. s ++ upstream_bytes) (dial_sends_upstream (hijacked ∷ tr));
                to_client =
                    d.to_client ∙ ap (λ s. s ++ client_bytes) (dial_sends_client (hijacked ∷ tr));
              })
      ]

  -- A permitted CONNECT that runs to the end of its tunnel has sent the upstream the request for
  -- the tunnel with all its header lines, what the client had sent ahead and the client's chunks, in
  -- this order and nothing else; and the client the line that the tunnel stands and the upstream's
  -- chunks, and nothing else.
  pub handle_connect-Delivered :
      (tr : Trace)
      → connect_allowed env h r ≡ true
      → tunnels env h r tr ≡ true
      → Delivered upstream_bytes client_bytes tr (handle_connect env h r tr)
  unfolding handle_connect tunnels
  handle_connect-Delivered tr allowed through =
      only_taken (Delivered upstream_bytes client_bytes tr) (connect_allowed env h r)
        env.is_hijacker env.hijack_succeeds _ _ _ _ _ allowed through
        (hijacked-Delivered (env.now tr) (connect_target r) tr)
