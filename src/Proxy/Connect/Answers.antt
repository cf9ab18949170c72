-- ===== src/Proxy/Connect/Answers.antt =====
-- What handleConnect answers through the ResponseWriter, and how it counts the request.
use istio_forward_proxy.Base.{
  ℕ, Bool, true, false, not, List, ◌∷◌, ◌≡◌, refl, ◌∙◌, if◌then◌else◌, arith,
}
use istio_forward_proxy.Http.Message.{Request}
use istio_forward_proxy.Proxy.Effects.{Trace, hijacked, http_error}
use istio_forward_proxy.Proxy.Handler.{Handler, Env}
use istio_forward_proxy.Proxy.Dial.{dial_upstream}
use istio_forward_proxy.Proxy.Forward.{not_listed}
use istio_forward_proxy.Proxy.Connect.{handle_connect, deny_connect, connect_hijacked}
use istio_forward_proxy.Proxy.Connect.Audited.{connect_target, connect_allowed, connect_verdict}
use istio_forward_proxy.Proxy.Connect.Measures.{IsAside}
use istio_forward_proxy.Proxy.Connect.Balance.{summary, connect_hijacked_quiet}
use istio_forward_proxy.Proxy.Connect.Tallies.{Counted, handle_connect-Counted}
use istio_forward_proxy.Proxy.Views.{select, counts, statuses, status_of}

status-IsAside : IsAside status_of
status-IsAside = record {
  ignores = record {
    of_sent = λ p b. refl;
    of_log = λ s. refl;
    of_close_write = λ p. refl;
    of_close_body = refl;
  };
  of_count = λ w o. refl;
  of_audit = λ e. refl;
  of_bytes = λ d n. refl;
}

module _ (env : Env) (h : Handler) (r : Request) where
  summary_statuses : (tr : Trace) → select status_of (summary env h tr) ≡ select status_of tr
  unfolding summary dial_upstream select
  summary_statuses tr = ground arith

  hijacked_statuses :
      (start : ℕ) (tr : Trace)
      → select status_of (connect_hijacked env h r start (connect_target r) (hijacked ∷ tr)).1
        ≡ select status_of tr
  hijacked_statuses start tr =
      connect_hijacked_quiet status_of status-IsAside env h r start (connect_target r)
        (hijacked ∷ tr)
      ∙ summary_statuses (hijacked ∷ tr)
      ∙ (unfold select in refl)

  -- The status lines that go through the ResponseWriter: behind the hijacking there are none.
  abbrev pub answered : List ℕ → List ℕ
  answered old =
      if not (connect_allowed env h r)
      then 403 ∷ old
      else if not env.is_hijacker
      then 500 ∷ old
      else old

  choices :
      (a b c : Bool) (denied unable failed taken : Trace) (old : List ℕ)
      → select status_of denied ≡ 403 ∷ old
      → select status_of unable ≡ 500 ∷ old
      → select status_of failed ≡ old
      → select status_of taken ≡ old
      → select status_of
          (if not a then denied else if not b then unable else if not c then failed else taken)
        ≡ (if not a then 403 ∷ old else if not b then 500 ∷ old else old)
  choices false b c denied unable failed taken old d u f t = d
  choices true false c denied unable failed taken old d u f t = u
  choices true true false denied unable failed taken old d u f t = f
  choices true true true denied unable failed taken old d u f t = t

  handle_connect-statuses :
      (tr : Trace) → statuses (handle_connect env h r tr) ≡ answered (statuses tr)
  unfolding handle_connect statuses select
  handle_connect-statuses tr =
      choices (connect_allowed env h r) env.is_hijacker env.hijack_succeeds
        (deny_connect env h r (connect_target r) not_listed tr) _ _ _ (select status_of tr)
        (unfold deny_connect http_error in refl) (unfold http_error in refl) refl
        (hijacked_statuses (env.now tr) tr)

  -- A CONNECT is counted once as denied, and answered with 403, where the ACL refuses it; it is
  -- counted once as allowed where it runs to the end of its tunnel; a permitted one that fails on the
  -- way adds at most one count, an error or a rejection of the upstream. A permitted one is answered
  -- through the ResponseWriter only where the connection cannot be hijacked, with 500.
  pub handle_connect-Answered :
      (tr : Trace)
      → Counted (connect_verdict env h r tr) (counts (handle_connect env h r tr)) (counts tr)
        × (statuses (handle_connect env h r tr) ≡ answered (statuses tr))
  handle_connect-Answered tr = (handle_connect-Counted env h r tr, handle_connect-statuses tr)
