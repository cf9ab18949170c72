-- ===== src/Proxy/Connect/Tallies.antt =====
-- The count of requests that handleConnect keeps in requestsTotal.
use istio_forward_proxy.Base.{
  ℕ, Bool, true, false, not, ◌&&◌, List, ◌∷◌, Option, none, some, String, Bytes, ◌≡◌, refl, ap, ◌∙◌,
  if◌then◌else◌, Bool-cases, Option-cases, ◌⊎◌, inl, inr, arith, ◌==◌,
}
use istio_forward_proxy.Http.Message.{Request}
use istio_forward_proxy.Proxy.Effects.{
  Trace, Proc, ◌>>◌, bind_result, perform, client, Flow, connect, Outcome, allow, deny,
  upstream_error, upstream_rejected, hijacked, active_inc, http_error, dial_error, count_request,
  log_line, close_body,
}
use istio_forward_proxy.Proxy.Handler.{Handler, Env}
use istio_forward_proxy.Proxy.Dial.{dial_upstream, write_or_return, wrap_idle_timeout}
use istio_forward_proxy.Proxy.Forward.{not_listed}
use istio_forward_proxy.Proxy.Connect.{
  handle_connect, deny_connect, connect_hijacked, converse, run_tunnel, send_request,
  await_response, flush_buffered, established, write_ignored,
}
use istio_forward_proxy.Proxy.Connect.Quiet.{
  Ignores, Quiet, write_or_return-Quiet, tunnel_quiet, send_request-Quiet, flush_buffered-Quiet,
  write_ignored_quiet,
}
use istio_forward_proxy.Proxy.Connect.Audited.{
  connect_target, connect_allowed, connect_verdict, is_some, tunnels,
}
use istio_forward_proxy.Proxy.Views.{select, counts, count_of}

abbrev pub Tally : Type 0
Tally = List (Flow × Outcome)

-- A permitted CONNECT that fails on the way counts an error or a rejection of the upstream, or is
-- not counted at all.
abbrev pub Failed : Tally → Tally → Type 0
Failed new old =
    (new ≡ old)
    ⊎ ((new ≡ (connect, upstream_error) ∷ old) ⊎ (new ≡ (connect, upstream_rejected) ∷ old))

-- The counts, by how a CONNECT ends.
abbrev pub Counted : Outcome → Tally → Tally → Type 0
Counted deny new old = new ≡ (connect, deny) ∷ old
Counted allow new old = new ≡ (connect, allow) ∷ old
Counted _ new old = Failed new old

abbrev tallies : Trace → Tally
tallies tr = select count_of tr

-- A step before the tunnel: nothing is counted where the handler goes on.
abbrev Passed : Bool → Tally → Tally → Type 0
Passed true new old = new ≡ old
Passed false new old = Failed new old

abbrev Ended : Bool → Tally → Tally → Type 0
Ended b new old = Counted (if b then allow else upstream_error) new old

abbrev Passes : Proc (Unit {0}) → Type 0
Passes m = (tr : Trace) → Passed (is_some (m tr).0) (tallies (m tr).1) (tallies tr)

abbrev Ends : Proc (Unit {0}) → Type 0
Ends m = (tr : Trace) → Ended (is_some (m tr).0) (tallies (m tr).1) (tallies tr)

count-Ignores : Ignores count_of
count-Ignores = record {
  of_sent = λ p b. refl;
  of_log = λ s. refl;
  of_close_write = λ p. refl;
  of_close_body = refl;
}

Passes-after :
    (w : Option (Unit {0}) × Trace) (k : Proc (Unit {0})) (tr : Trace)
    → Passed (is_some w.0) (tallies w.1) (tallies tr)
    → Ends k
    → Ended (is_some (bind_result w (λ _. k)).0) (tallies (bind_result w (λ _. k)).1) (tallies tr)
Passes-after (none, tr') k tr p n = p
Passes-after (some u, tr') k tr p n = rw (← p) (n tr')

Passes-bind : (m k : Proc (Unit {0})) → Passes m → Ends k → Ends (m >> k)
Passes-bind m k p n tr = Passes-after (m tr) k tr (p tr) n

Passed-quiet : (b : Bool) (new old : Tally) → new ≡ old → Passed b new old
Passed-quiet true new old q = q
Passed-quiet false new old q = inl q

Quiet-then : (m k : Proc (Unit {0})) → Quiet count_of m → Ends k → Ends (m >> k)
Quiet-then m k q n = Passes-bind m k (λ tr. Passed-quiet _ _ _ (q tr)) n

module _ (env : Env) (h : Handler) (r : Request) where
  turned_down :
      (o : Outcome) (b : Bytes) (s : String) (tr : Trace)
      → tallies (count_request connect o ∷ write_ignored env h r b (log_line s ∷ tr))
        ≡ (connect, o) ∷ tallies tr
  unfolding select
  turned_down o b s tr =
      ap (λ t. (connect, o) ∷ t) (write_ignored_quiet count_of count-Ignores env h r b _)

  skip_body : (tr : Trace) → tallies (close_body ∷ tr) ≡ tallies tr
  unfolding select
  skip_body tr = refl

  await_response-Passes : Passes (await_response env h r)
  unfolding await_response
  await_response-Passes tr = elim (Option-cases (env.read_connect_response tr)) [
    | inl failed ↦ rw (failed, await_response) (inr (inl (turned_down _ _ _ tr)))
    | inr (resp, read) ↦ elim (Bool-cases (resp.status_code == 200)) [
      | inl fine ↦ rw (read, await_response) (rw fine (skip_body tr))
      | inr rejected ↦
          rw (read, await_response)
            (rw rejected (
              inr (
                inr (
                  turned_down _ _ _ (close_body ∷ tr)
                  ∙ ap (λ t. (connect, upstream_rejected) ∷ t) (skip_body tr)))))
    ]
  ]

  module _ (start : ℕ) where
    run_tunnel-Ends : Ends (perform (run_tunnel env h r start (connect_target r)))
    unfolding run_tunnel select
    run_tunnel-Ends tr =
        ap (λ t. (connect, allow) ∷ t)
          (tunnel_quiet count_of count-Ignores (wrap_idle_timeout h.idle_timeout) env.relayed tr)

    converse-Ends : Ends (converse env h r start (connect_target r))
    unfolding converse
    converse-Ends =
        let told = write_or_return env client established in
        let flush = flush_buffered env h r in
        let run = perform (run_tunnel env h r start (connect_target r)) in
        Quiet-then (send_request env h r) (await_response env h r >> (told >> (flush >> run)))
          (send_request-Quiet count_of count-Ignores env h r)
          (Passes-bind (await_response env h r) (told >> (flush >> run)) await_response-Passes (
            Quiet-then told (flush >> run)
              (write_or_return-Quiet count_of count-Ignores env client established)
              (Quiet-then flush run (flush_buffered-Quiet count_of count-Ignores env h r)
                run_tunnel-Ends)))

    dial_quiet : (tr : Trace) → tallies (dial_upstream env h tr).1 ≡ tallies tr
    unfolding dial_upstream select
    dial_quiet tr = ground arith

    dial_again : (tr : Trace) → tallies (dial_error ∷ (dial_upstream env h tr).1) ≡ tallies tr
    unfolding select
    dial_again tr = dial_quiet tr

    connect_hijacked-Ends : Ends (connect_hijacked env h r start (connect_target r))
    connect_hijacked-Ends tr = elim (Bool-cases (dial_upstream env h tr).0) [
      | inl dialed ↦
          unfold connect_hijacked in
          rw dialed (
            rw (← dial_quiet tr)
              (unfold select in converse-Ends (active_inc ∷ (dial_upstream env h tr).1)))
      | inr failed ↦
          unfold connect_hijacked in
          rw failed (
            inr (
              inl (
                turned_down _ _ _ (dial_error ∷ (dial_upstream env h tr).1)
                ∙ ap (λ t. (connect, upstream_error) ∷ t) (dial_again tr))))
    ]

  -- The four ways through the tests of handleConnect.
  branches :
      (a b c : Bool) (o : Option (Unit {0})) (denied unable failed taken : Trace) (old : Tally)
      → tallies denied ≡ (connect, deny) ∷ old
      → tallies unable ≡ old
      → tallies failed ≡ old
      → Ended (is_some o) (tallies taken) old
      → Counted
          (if not a then deny else if b && (c && is_some o) then allow else upstream_error)
          (tallies
            (if not a then denied else if not b then unable else if not c then failed else taken))
          old
  branches false b c o denied unable failed taken old d u f t = d
  branches true false c o denied unable failed taken old d u f t = inl u
  branches true true false o denied unable failed taken old d u f t = inl f
  branches true true true o denied unable failed taken old d u f t = t

  -- A CONNECT is counted once as denied where the ACL refuses it, and once as allowed where it runs
  -- to the end of its tunnel; a permitted one that fails on the way adds at most one count, an
  -- error or a rejection of the upstream.
  pub handle_connect-Counted :
      (tr : Trace)
      → Counted (connect_verdict env h r tr) (counts (handle_connect env h r tr)) (counts tr)
  unfolding handle_connect counts tunnels select
  handle_connect-Counted tr =
      branches (connect_allowed env h r) env.is_hijacker env.hijack_succeeds
        (connect_hijacked env h r (env.now tr) (connect_target r) (hijacked ∷ tr)).0
        (deny_connect env h r (connect_target r) not_listed tr) _ _ _ (tallies tr)
        (unfold deny_connect http_error in refl) (unfold http_error in refl) refl
        (connect_hijacked-Ends (env.now tr) (hijacked ∷ tr))
