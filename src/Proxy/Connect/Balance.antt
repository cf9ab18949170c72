-- ===== src/Proxy/Connect/Balance.antt =====
-- Whatever happens to a CONNECT, what it opens it closes: the gauge of active connections goes down
-- as often as up, and each connection to the upstream and each hijacked one is closed.
use istio_forward_proxy.Base.{
  ℕ, ◌+◌, ◌∷◌, Option, Bytes, String, codes, ◌≡◌, ap, ◌∙◌, if◌then◌else◌, Bool-cases, inl, inr,
  if_ind, length, arith,
}
use istio_forward_proxy.Net.{split_host_port}
use istio_forward_proxy.Http.Message.{Request}
use istio_forward_proxy.Proxy.Effects.{
  Effect, Trace, perform, ◌>>◌, client, upstream, active_inc, active_dec, hijacked, close,
  http_error, log_line, dial_error,
}
use istio_forward_proxy.Proxy.Handler.{Handler, Env}
use istio_forward_proxy.Proxy.Dial.{dial_upstream, write_or_return}
use istio_forward_proxy.Proxy.Forward.{not_listed}
use istio_forward_proxy.Proxy.Connect.{
  handle_connect, deny_connect, connect_hijacked, converse, run_tunnel, send_request,
  await_response, flush_buffered, established,
}
use istio_forward_proxy.Proxy.Connect.Quiet.{
  Quiet, Quiet-bind, select-skip, write_or_return-Quiet, tunnel_quiet, send_request-Quiet,
  await_response-Quiet, flush_buffered-Quiet, turned_down_quiet,
}
use istio_forward_proxy.Proxy.Connect.Measures.{
  IsAside, inc_of, dec_of, dial_of, close_upstream_of, hijack_of, close_client_of, inc-IsAside,
  dec-IsAside, dial-IsAside, close_upstream-IsAside, hijack-IsAside, close_client-IsAside,
}
use istio_forward_proxy.Proxy.Views.{select, prepend}

select-again {ℓ} :
    {A : Type ℓ} (f : Effect → Option A) (e : Effect) (tr tr' : Trace)
    → select f tr ≡ select f tr'
    → select f (e ∷ tr) ≡ select f (e ∷ tr')
unfolding select
select-again f e tr tr' same = ap (prepend (f e)) same

-- The effects of a hijacked request outside its conversation with the two sides.
unfoldable pub summary : Env → Handler → Trace → Trace
summary env h tr =
    let (dialed, tr') = dial_upstream env h tr in
    if dialed then close upstream ∷ active_dec ∷ active_inc ∷ tr' else dial_error ∷ tr'

module _ {ℓ} {A : Type ℓ} (f : Effect → Option A) (aside : IsAside f) (env : Env) (h : Handler)
    (r : Request) where
  run_tunnel_quiet :
      (start : ℕ) (target : Bytes × ℕ) (tr : Trace)
      → select f (run_tunnel env h r start target tr) ≡ select f tr
  unfolding run_tunnel
  run_tunnel_quiet start target tr =
      select-skip f _ _ (aside.of_count _ _)
      ∙ select-skip f _ _ (aside.of_audit _)
      ∙ select-skip f _ _ (aside.of_bytes _ _)
      ∙ select-skip f _ _ (aside.of_bytes _ _)
      ∙ tunnel_quiet f aside.ignores _ env.relayed tr

  converse-Quiet : (start : ℕ) (target : Bytes × ℕ) → Quiet f (converse env h r start target)
  unfolding converse
  converse-Quiet start target =
      let told = write_or_return env client established in
      let flush = flush_buffered env h r in
      let run = perform (run_tunnel env h r start target) in
      Quiet-bind f (send_request env h r) (await_response env h r >> (told >> (flush >> run)))
        (send_request-Quiet f aside.ignores env h r)
        (Quiet-bind f (await_response env h r) (told >> (flush >> run))
          (await_response-Quiet f aside.ignores env h r aside.of_count)
          (Quiet-bind f told (flush >> run) (write_or_return-Quiet f aside.ignores env _ _) (
            Quiet-bind f flush run (flush_buffered-Quiet f aside.ignores env h r)
              (run_tunnel_quiet start target))))

  -- What a hijacked request does to the selection, with the conversation left out.
  pub connect_hijacked_quiet :
      (start : ℕ) (target : Bytes × ℕ) (tr : Trace)
      → select f (connect_hijacked env h r start target tr).1 ≡ select f (summary env h tr)
  unfolding connect_hijacked summary
  connect_hijacked_quiet start target tr = elim (Bool-cases (dial_upstream env h tr).0) [
    | inl dialed ↦ rw (dialed) (
        select-again f (close upstream) _ _ (
          select-again f active_dec _ _
            (converse-Quiet start target (active_inc ∷ (dial_upstream env h tr).1))))
    | inr failed ↦ rw (failed) (
        turned_down_quiet f aside.ignores env h r aside.of_count _ _ _ _
          (dial_error ∷ (dial_upstream env h tr).1))
  ]

-- Between two traces as many effects of the one kind have come as of the other.
abbrev pub Matched :
    (Effect → Option (Unit {0})) → (Effect → Option (Unit {0})) → Trace → Trace → Type 0
Matched f g old new =
    length (select f new) + length (select g old) ≡ length (select g new) + length (select f old)

pub record IsBalanced (old new : Trace) : Type 0 where
  pub gauge : Matched inc_of dec_of old new
  pub upstream_conns : Matched dial_of close_upstream_of old new
  pub client_conns : Matched hijack_of close_client_of old new

module _ (env : Env) (h : Handler) where
  summary_gauge : (tr : Trace) → Matched inc_of dec_of tr (summary env h tr)
  unfolding summary dial_upstream select
  summary_gauge tr = ground arith

  summary_upstream : (tr : Trace) → Matched dial_of close_upstream_of tr (summary env h tr)
  unfolding summary dial_upstream select
  summary_upstream tr = ground arith

  summary_client : (tr : Trace) → Matched hijack_of close_client_of tr (summary env h tr)
  unfolding summary dial_upstream select
  summary_client tr = ground arith

http_error-IsBalanced : (m : Bytes) (code : ℕ) (tr : Trace) → IsBalanced tr (http_error m code tr)
unfolding http_error select
http_error-IsBalanced m code tr = record {
  gauge = omega arith;
  upstream_conns = omega arith;
  client_conns = omega arith;
}

log_line-IsBalanced : (s : String) (tr : Trace) → IsBalanced tr (log_line s ∷ tr)
unfolding select
log_line-IsBalanced s tr = record {
  gauge = omega arith;
  upstream_conns = omega arith;
  client_conns = omega arith;
}

module _ (env : Env) (h : Handler) (r : Request) where
  -- A selection sees a hijacked request as its summary, between the hijacking and its close.
  hijacked_quiet :
      (f : Effect → Option (Unit {0})) (aside : IsAside f) (start : ℕ) (target : Bytes × ℕ)
      (tr : Trace)
      → select f (close client ∷ (connect_hijacked env h r start target (hijacked ∷ tr)).1)
        ≡ select f (close client ∷ summary env h (hijacked ∷ tr))
  hijacked_quiet f aside start target tr =
      select-again f (close client) _ _
        (connect_hijacked_quiet f aside env h r start target (hijacked ∷ tr))

  Matched-hijacked :
      (f g : Effect → Option (Unit {0}))
      → IsAside f
      → IsAside g
      → (start : ℕ) (target : Bytes × ℕ) (tr : Trace)
      → Matched f g tr (close client ∷ summary env h (hijacked ∷ tr))
      → Matched f g tr (close client ∷ (connect_hijacked env h r start target (hijacked ∷ tr)).1)
  Matched-hijacked f g af ag start target tr m =
      rw (hijacked_quiet f af start target tr, hijacked_quiet g ag start target tr) m

  hijacked-IsBalanced :
      (start : ℕ) (target : Bytes × ℕ) (tr : Trace)
      → IsBalanced tr (close client ∷ (connect_hijacked env h r start target (hijacked ∷ tr)).1)
  hijacked-IsBalanced start target tr = record {
    gauge =
        Matched-hijacked inc_of dec_of inc-IsAside dec-IsAside start target tr
          (unfold select in summary_gauge env h (hijacked ∷ tr));
    upstream_conns =
        Matched-hijacked dial_of close_upstream_of dial-IsAside close_upstream-IsAside start target
          tr (unfold select in summary_upstream env h (hijacked ∷ tr));
    client_conns =
        Matched-hijacked hijack_of close_client_of hijack-IsAside close_client-IsAside start target
          tr (let m = summary_client env h (hijacked ∷ tr) in unfold select in omega (arith, m));
  }

  denied-IsBalanced :
      (target : Bytes × ℕ) (tr : Trace) → IsBalanced tr (deny_connect env h r target not_listed tr)
  unfolding deny_connect http_error select
  denied-IsBalanced target tr = record {
    gauge = omega arith;
    upstream_conns = omega arith;
    client_conns = omega arith;
  }

  -- On every path through handleConnect the gauge of active connections ends where it began, and
  -- every connection that was dialed or hijacked is closed.
  pub handle_connect-IsBalanced : (tr : Trace) → IsBalanced tr (handle_connect env h r tr)
  unfolding handle_connect
  handle_connect-IsBalanced tr =
      let target = split_host_port r.host 443 in
      if_ind (IsBalanced tr) _ (deny_connect env h r target not_listed tr) _
        (denied-IsBalanced target tr)
        (if_ind (IsBalanced tr) _ (http_error (codes "hijacking not supported") 500 tr) _
          (http_error-IsBalanced (codes "hijacking not supported") 500 tr)
          (if_ind (IsBalanced tr) _ (log_line "hijack failed" ∷ tr) _ (log_line-IsBalanced _ tr)
            (hijacked-IsBalanced (env.now tr) target tr)))
