-- ===== src/Proxy/Connect/Audited.antt =====
-- The audit log of CONNECT requests.
use istio_forward_proxy.Base.{
  ℕ, Bool, true, false, not, ◌&&◌, List, ◌∷◌, Option, none, some, Bytes, ◌≡◌, refl, ap, ◌∙◌,
  if◌then◌else◌, Bool-cases, inl, inr, arith,
}
use istio_forward_proxy.Net.{split_host_port}
use istio_forward_proxy.Http.Message.{Request}
use istio_forward_proxy.Audit
use istio_forward_proxy.Audit.{Event}
use istio_forward_proxy.ServiceEntry.Defs.{allow_host}
use istio_forward_proxy.Proxy.Effects.{
  Trace, Proc, ◌>>◌, bind_result, perform, client, Outcome, allow, deny, upstream_error, hijacked,
  active_inc, add_bytes, client_to_upstream, upstream_to_client, http_error, dial_error,
}
use istio_forward_proxy.Proxy.Handler.{Handler, Env}
use istio_forward_proxy.Proxy.Events.{allowed_event}
use istio_forward_proxy.Proxy.Identity.{spiffe_from_request}
use istio_forward_proxy.Proxy.Recorded.{Recorded, Recorded-deny, Recorded-allow}
use istio_forward_proxy.Proxy.Dial.{dial_upstream, write_or_return, wrap_idle_timeout}
use istio_forward_proxy.Proxy.Tunnel.{tunnel, bytes_in, bytes_out}
use istio_forward_proxy.Proxy.Forward.{not_listed}
use istio_forward_proxy.Proxy.Connect.{
  handle_connect, deny_connect, connect_hijacked, converse, run_tunnel, send_request,
  await_response, flush_buffered, established,
}
use istio_forward_proxy.Proxy.Connect.Quiet.{
  Ignores, Quiet, write_or_return-Quiet, tunnel_quiet, send_request-Quiet, await_response-Quiet,
  flush_buffered-Quiet, turned_down_quiet,
}
use istio_forward_proxy.Proxy.Views.{select, audits, audit_of}

abbrev pub connect_target : Request → Bytes × ℕ
connect_target r = split_host_port r.host 443

abbrev pub connect_allowed : Env → Handler → Request → Bool
connect_allowed env h r =
    (allow_host env.unicode_lower h.acl (connect_target r).0 (connect_target r).1).0

abbrev pub is_some : Option (Unit {0}) → Bool
is_some none = false
is_some (some u) = true

-- Whether a permitted CONNECT runs to the end of its tunnel.
unfoldable pub tunnels : Env → Handler → Request → Trace → Bool
tunnels env h r tr =
    env.is_hijacker
    && (env.hijack_succeeds
        && is_some (connect_hijacked env h r (env.now tr) (connect_target r) (hijacked ∷ tr)).0)

-- How a CONNECT ends, as far as the audit log tells.
abbrev pub connect_verdict : Env → Handler → Request → Trace → Outcome
connect_verdict env h r tr =
    if not (connect_allowed env h r)
    then deny
    else if tunnels env h r tr
    then allow
    else upstream_error

audit-Ignores : Ignores audit_of
audit-Ignores = record {
  of_sent = λ p b. refl;
  of_log = λ s. refl;
  of_close_write = λ p. refl;
  of_close_body = refl;
}

module _ (env : Env) (h : Handler) (r : Request) where
  -- The allow event, or nothing, by how a step ended.
  abbrev Noted : Bool → List Event → List Event → Type 0
  Noted b new old =
      Recorded Audit.connect (connect_target r) r (spiffe_from_request env.parse_url h r) 200
        (if b then allow else upstream_error) new old

  abbrev Notes : Proc (Unit {0}) → Type 0
  Notes m = (tr : Trace) → Noted (is_some (m tr).0) (select audit_of (m tr).1) (select audit_of tr)

  Notes-after :
      (w : Option (Unit {0}) × Trace) (k : Proc (Unit {0})) (tr : Trace)
      → select audit_of w.1 ≡ select audit_of tr
      → Notes k
      → Noted
          (is_some (bind_result w (λ _. k)).0)
          (select audit_of (bind_result w (λ _. k)).1)
          (select audit_of tr)
  Notes-after (none, tr') k tr q n = q
  Notes-after (some u, tr') k tr q n = rw (← q) (n tr')

  Notes-bind : (m k : Proc (Unit {0})) → Quiet audit_of m → Notes k → Notes (m >> k)
  Notes-bind m k q n tr = Notes-after (m tr) k tr (q tr) n

  module _ (start : ℕ) where
    Notes-run_tunnel : Notes (perform (run_tunnel env h r start (connect_target r)))
    unfolding run_tunnel select
    Notes-run_tunnel tr =
        let relayed =
          add_bytes upstream_to_client (bytes_in env.relayed)
          ∷ add_bytes client_to_upstream (bytes_out env.relayed)
          ∷ tunnel (wrap_idle_timeout h.idle_timeout) env.relayed tr in
        let event =
          allowed_event env h r Audit.connect (connect_target r) start 200 (bytes_in env.relayed)
            (bytes_out env.relayed) relayed in
        Recorded-allow env h r Audit.connect (connect_target r) start 200 (bytes_in env.relayed)
          (bytes_out env.relayed) relayed _ (select audit_of tr)
          (ap (λ es. event ∷ es)
            (tunnel_quiet audit_of audit-Ignores (wrap_idle_timeout h.idle_timeout) env.relayed tr))

    Notes-converse : Notes (converse env h r start (connect_target r))
    unfolding converse
    Notes-converse =
        let told = write_or_return env client established in
        let flush = flush_buffered env h r in
        let run = perform (run_tunnel env h r start (connect_target r)) in
        Notes-bind (send_request env h r) (await_response env h r >> (told >> (flush >> run)))
          (send_request-Quiet audit_of audit-Ignores env h r)
          (Notes-bind (await_response env h r) (told >> (flush >> run))
            (await_response-Quiet audit_of audit-Ignores env h r (λ w o. refl))
            (Notes-bind told (flush >> run)
              (write_or_return-Quiet audit_of audit-Ignores env client established)
              (Notes-bind flush run (flush_buffered-Quiet audit_of audit-Ignores env h r)
                Notes-run_tunnel)))

    dial_quiet : (tr : Trace) → select audit_of (dial_upstream env h tr).1 ≡ select audit_of tr
    unfolding dial_upstream select
    dial_quiet tr = ground arith

    dial_again :
        (tr : Trace)
        → select audit_of (dial_error ∷ (dial_upstream env h tr).1) ≡ select audit_of tr
    unfolding select
    dial_again tr = dial_quiet tr

    Notes-connect_hijacked : Notes (connect_hijacked env h r start (connect_target r))
    Notes-connect_hijacked tr = elim (Bool-cases (dial_upstream env h tr).0) [
      | inl dialed ↦
          unfold connect_hijacked in
          rw dialed (
            rw (← dial_quiet tr)
              (unfold select in Notes-converse (active_inc ∷ (dial_upstream env h tr).1)))
      | inr failed ↦
          unfold connect_hijacked in
          rw failed (
            turned_down_quiet audit_of audit-Ignores env h r (λ w o. refl) _ _ _ _
              (dial_error ∷ (dial_upstream env h tr).1)
            ∙ dial_again tr)
    ]

  -- The four ways through the tests of handleConnect.
  branches :
      (a b c : Bool) (o : Option (Unit {0})) (denied unable failed taken : Trace) (old : List Event)
      → Recorded Audit.connect
          (connect_target r)
          r
          (spiffe_from_request env.parse_url h r)
          200
          deny
          (select audit_of denied)
          old
      → select audit_of unable ≡ old
      → select audit_of failed ≡ old
      → Noted (is_some o) (select audit_of taken) old
      → Recorded Audit.connect
          (connect_target r)
          r
          (spiffe_from_request env.parse_url h r)
          200
          (if not a then deny else if b && (c && is_some o) then allow else upstream_error)
          (select audit_of
            (if not a then denied else if not b then unable else if not c then failed else taken))
          old
  branches false b c o denied unable failed taken old d u f t = d
  branches true false c o denied unable failed taken old d u f t = u
  branches true true false o denied unable failed taken old d u f t = f
  branches true true true o denied unable failed taken old d u f t = t

  -- A CONNECT that the ACL refuses leaves one event, a denial with its reason and status 403; one
  -- that runs to the end of its tunnel leaves one event, with status 200; both name the caller, its
  -- identity and the target. A permitted one that fails on the way leaves none.
  pub handle_connect-Recorded :
      (tr : Trace)
      → Recorded Audit.connect
          (connect_target r)
          r
          (spiffe_from_request env.parse_url h r)
          200
          (connect_verdict env h r tr)
          (audits (handle_connect env h r tr))
          (audits tr)
  unfolding handle_connect audits tunnels select
  handle_connect-Recorded tr =
      branches (connect_allowed env h r) env.is_hijacker env.hijack_succeeds
        (connect_hijacked env h r (env.now tr) (connect_target r) (hijacked ∷ tr)).0
        (deny_connect env h r (connect_target r) not_listed tr) _ _ _ (select audit_of tr)
        (unfold deny_connect http_error in
          Recorded-deny env h r Audit.connect (connect_target r) 200 tr _ (select audit_of tr) refl)
        (unfold http_error in refl) refl (Notes-connect_hijacked (env.now tr) (hijacked ∷ tr))
