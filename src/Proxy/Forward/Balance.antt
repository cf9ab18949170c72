-- ===== src/Proxy/Forward/Balance.antt =====
-- The gauge of active connections on the path of plain requests.
use istio_forward_proxy.Base.{
  ℕ, List, ◌∷◌, Option, none, some, Bytes, ◌≡◌, refl, arith, Bool-cases, inl, inr,
}
use istio_forward_proxy.Http.Message.{Request, Response}
use istio_forward_proxy.Proxy.Effects.{Trace, active_inc, http_error}
use istio_forward_proxy.Proxy.Handler.{Handler, Env}
use istio_forward_proxy.Proxy.Headers.{Built, has_body}
use istio_forward_proxy.Proxy.Forward.{
  handle_http_forward, deny_forward, forward, attempt, conclude, reply, forward_target,
}
use istio_forward_proxy.Proxy.Forward.Replies.{
  is_absolute, forward_allowed, upstream_request, handle_relative, handle_denied, handle_forwarded,
  select-copy_header,
}
use istio_forward_proxy.Proxy.Connect.Measures.{inc_of, dec_of}
use istio_forward_proxy.Proxy.Connect.Balance.{Matched}
use istio_forward_proxy.Proxy.Views.{select}

gauge-attempt :
    (built : Built) (ns : List ℕ) (tr : Trace)
    → (select inc_of (attempt built ns tr) ≡ select inc_of tr)
      × (select dec_of (attempt built ns tr) ≡ select dec_of tr)
unfolding attempt select
gauge-attempt built ns tr = elim (Bool-cases built.counted) [
  | inl e ↦ rw e (refl, refl)
  | inr e ↦ rw e (refl, refl)
]

module _ (env : Env) (h : Handler) (r : Request) where
  gauge-conclude :
      (start : ℕ) (target : Bytes × ℕ) (copied : ℕ) (o : Option Response) (tr : Trace)
      → (select inc_of (conclude env h r start target copied o tr) ≡ select inc_of tr)
        × (select dec_of (conclude env h r start target copied o tr) ≡ select dec_of tr)
  unfolding conclude reply select http_error
  gauge-conclude start target copied none tr = (refl, refl)
  gauge-conclude start target copied (some resp) tr = (
    select-copy_header inc_of (λ k v. refl) env.unicode_lower resp.header tr,
    select-copy_header dec_of (λ k v. refl) env.unicode_lower resp.header tr,
  )

  gauge-forward :
      (start : ℕ) (target : Bytes × ℕ) (built : Built) (tr : Trace)
      → Matched inc_of dec_of tr (forward env h r start target built tr)
  unfolding forward select
  gauge-forward start target built tr =
      let x = env.round_trip_result built.request (active_inc ∷ tr) in
      let tried = attempt built x.body_reads (active_inc ∷ tr) in
      let (up, down) = gauge-conclude start target x.copied x.response tried in
      let (up', down') = gauge-attempt built x.body_reads (active_inc ∷ tr) in
      rw (up, down, up', down') (omega arith)

  -- On every path through handleHTTPForward the gauge of active connections ends where it began.
  pub handle_http_forward-Matched :
      (tr : Trace) → Matched inc_of dec_of tr (handle_http_forward env h r tr)
  handle_http_forward-Matched tr = elim (Bool-cases (is_absolute r)) [
    | inr relative ↦
        rw (handle_relative env h r tr relative) (unfold select http_error in omega arith)
    | inl absolute ↦ elim (Bool-cases (forward_allowed env h r)) [
      | inr refused ↦
          rw (handle_denied env h r tr absolute refused)
            (unfold deny_forward select http_error in omega arith)
      | inl allowed ↦ rw (handle_forwarded env h r tr absolute allowed) (
          gauge-forward (env.now tr) (forward_target r)
            (record { request = upstream_request env h r; counted = has_body r.body }) tr)
    ]
  ]
