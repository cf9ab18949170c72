-- ===== src/Proxy/Connect/Quiet.antt =====
-- Effects that the steps of handleConnect do not have: a step is quiet for a selection of effects if
-- it adds none of them, however it ends.
use istio_forward_proxy.Base.{
  Bool, true, false, List, [], ◌∷◌, Option, none, some, String, Bytes, codes, is_empty, Map, ◌≡◌,
  refl, ◌∙◌, Bool-cases, Option-cases, inl, inr, ◌==◌,
}
use istio_forward_proxy.Http.Message.{Request}
use istio_forward_proxy.Proxy.Effects.{
  Effect, Trace, Proc, ◌>>◌, bind_result, Flow, Outcome, Peer, Direction, count_request, log_line,
  sent, close_write, close_body, upstream,
}
use istio_forward_proxy.Proxy.Handler.{Handler, Env}
use istio_forward_proxy.Proxy.Dial.{or_return, write_conn, write_or_return, header_line}
use istio_forward_proxy.Proxy.Tunnel.{relay, tunnel}
use istio_forward_proxy.Proxy.Connect.{
  write_ignored, write_connect, write_extra, write_auth, send_request, await_response,
  flush_buffered,
}
use istio_forward_proxy.Proxy.Views.{select}

-- The selection holds no write, no log line and no half-close.
pub record Ignores {ℓ} {A : Type ℓ} (f : Effect → Option A) : Type ℓ where
  pub of_sent : (p : Peer) (b : Bytes) → f (sent p b) ≡ none
  pub of_log : (s : String) → f (log_line s) ≡ none
  pub of_close_write : (p : Peer) → f (close_write p) ≡ none
  pub of_close_body : f close_body ≡ none

module _ {ℓ} {A : Type ℓ} (f : Effect → Option A) where
  abbrev pub Quiet : Proc (Unit {0}) → Type ℓ
  Quiet m = (tr : Trace) → select f (m tr).1 ≡ select f tr

  Quiet-after :
      (r : Option (Unit {0}) × Trace) (k : Proc (Unit {0}))
      → Quiet k
      → select f (bind_result r (λ _. k)).1 ≡ select f r.1
  Quiet-after (none, tr) k q = refl
  Quiet-after (some u, tr) k q = q tr

  pub Quiet-bind : (m k : Proc (Unit {0})) → Quiet m → Quiet k → Quiet (m >> k)
  Quiet-bind m k p q tr = Quiet-after (m tr) k q ∙ p tr

pub select-skip {ℓ} :
    {A : Type ℓ} (f : Effect → Option A) (e : Effect) (tr : Trace)
    → f e ≡ none
    → select f (e ∷ tr) ≡ select f tr
unfolding select
select-skip f e tr skipped = rw skipped refl

module _ {ℓ} {A : Type ℓ} (f : Effect → Option A) (ig : Ignores f) where
  write_conn_quiet :
      (env : Env) (p : Peer) (b : Bytes) (tr : Trace)
      → select f (write_conn env p b tr).1 ≡ select f tr
  unfolding write_conn select
  write_conn_quiet env p b tr = elim (Option-cases (env.write_fault p b tr)) [
    | inl fine ↦ rw (fine, write_conn) (rw (ig.of_sent p b) refl)
    | inr (n, failed) ↦ rw (failed, write_conn) (rw (ig.of_sent p _) refl)
  ]

  or_return_quiet : (w : Bool × Trace) → select f (or_return w []).1 ≡ select f w.1
  or_return_quiet (true, tr) = refl
  or_return_quiet (false, tr) = refl

  or_return_logs :
      (w : Bool × Trace) (s : String) → select f (or_return w (log_line s ∷ [])).1 ≡ select f w.1
  unfolding select
  or_return_logs (true, tr) s = refl
  or_return_logs (false, tr) s = rw (ig.of_log s) refl

  pub write_or_return-Quiet : (env : Env) (p : Peer) (b : Bytes) → Quiet f (write_or_return env p b)
  unfolding write_or_return
  write_or_return-Quiet env p b tr =
      or_return_quiet (write_conn env p b tr) ∙ write_conn_quiet env p b tr

  pub relay_quiet :
      (chunks : List (Direction × Bytes)) (tr : Trace) → select f (relay chunks tr) ≡ select f tr
  unfolding relay select
  relay_quiet [] tr = refl
  relay_quiet ((d, chunk) ∷ chunks) tr =
      rw (relay_quiet chunks (sent _ chunk ∷ tr), ig.of_sent _ chunk) refl

  pub tunnel_quiet :
      (wrapped : Bool) (chunks : List (Direction × Bytes)) (tr : Trace)
      → select f (tunnel wrapped chunks tr) ≡ select f tr
  unfolding tunnel select
  tunnel_quiet true chunks tr = relay_quiet chunks tr
  tunnel_quiet false chunks tr =
      rw (ig.of_close_write _, ig.of_close_write _) (relay_quiet chunks tr)

  module _ (env : Env) (h : Handler) (r : Request) where
    pub write_ignored_quiet :
        (b : Bytes) (tr : Trace) → select f (write_ignored env h r b tr) ≡ select f tr
    unfolding write_ignored
    write_ignored_quiet b tr = write_conn_quiet env _ b tr

    write_connect-Quiet : Quiet f (write_connect env h r)
    unfolding write_connect
    write_connect-Quiet tr = or_return_logs (write_conn env _ _ tr) _ ∙ write_conn_quiet env _ _ tr

    write_extra-Quiet : (extra : Map Bytes) → Quiet f (write_extra env h r extra)
    unfolding write_extra
    write_extra-Quiet [] = λ tr. refl
    write_extra-Quiet ((name, value) ∷ extra) =
        Quiet-bind f (write_or_return env upstream (header_line name value))
          (write_extra env h r extra) (write_or_return-Quiet env upstream (header_line name value))
          (write_extra-Quiet extra)

    write_auth-Quiet : Quiet f (write_auth env h r)
    unfolding write_auth
    write_auth-Quiet tr = elim (Bool-cases (is_empty h.upstream_auth)) [
      | inl e ↦ rw e refl
      | inr e ↦ rw e (write_or_return-Quiet env _ _ tr)
    ]

    pub send_request-Quiet : Quiet f (send_request env h r)
    unfolding send_request
    send_request-Quiet =
        let host = write_or_return env upstream (header_line (codes "Host") r.host) in
        let finish = write_or_return env upstream (codes "\r\n") in
        let extra = write_extra env h r h.extra_headers in
        let auth = write_auth env h r in
        Quiet-bind f (write_connect env h r) (host >> (auth >> (extra >> finish)))
          write_connect-Quiet
          (Quiet-bind f host (auth >> (extra >> finish)) (write_or_return-Quiet env _ _) (
            Quiet-bind f auth (extra >> finish) write_auth-Quiet (
              Quiet-bind f extra finish (write_extra-Quiet h.extra_headers)
                (write_or_return-Quiet env _ _))))

    pub flush_buffered-Quiet : Quiet f (flush_buffered env h r)
    unfolding flush_buffered
    flush_buffered-Quiet tr = elim (Option-cases env.client_buffered) [
      | inl empty ↦ rw (empty, flush_buffered) refl
      | inr (b, held) ↦ elim (Bool-cases (is_empty b)) [
        | inl e ↦ rw (held, flush_buffered) (rw e refl)
        | inr e ↦ rw (held, flush_buffered) (rw e (write_or_return-Quiet env upstream b tr))
      ]
    ]

    -- The steps that count a request, for a selection that holds no count either.
    module _ (of_count : (w : Flow) (o : Outcome) → f (count_request w o) ≡ none) where
      pub turned_down_quiet :
          (w : Flow) (o : Outcome) (b : Bytes) (s : String) (tr : Trace)
          → select f (count_request w o ∷ write_ignored env h r b (log_line s ∷ tr)) ≡ select f tr
      turned_down_quiet w o b s tr =
          select-skip f (count_request w o) _ (of_count w o)
          ∙ write_ignored_quiet b (log_line s ∷ tr)
          ∙ select-skip f (log_line s) tr (ig.of_log s)

      pub await_response-Quiet : Quiet f (await_response env h r)
      unfolding await_response
      await_response-Quiet tr = elim (Option-cases (env.read_connect_response tr)) [
        | inl failed ↦ rw (failed, await_response) (turned_down_quiet _ _ _ _ tr)
        | inr (resp, read) ↦ elim (Bool-cases (resp.status_code == 200)) [
          | inl fine ↦
              rw (read, await_response) (rw fine (select-skip f close_body tr ig.of_close_body))
          | inr rejected ↦
              rw (read, await_response)
                (rw rejected (
                  turned_down_quiet _ _ _ _ (close_body ∷ tr)
                  ∙ select-skip f close_body tr ig.of_close_body))
        ]
      ]
