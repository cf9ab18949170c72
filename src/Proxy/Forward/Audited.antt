-- ===== src/Proxy/Forward/Audited.antt =====
-- The audit log of plain requests.
use istio_forward_proxy.Base.{
  ℕ, ◌∷◌, Option, none, some, Bytes, ◌≡◌, refl, ap, ◌∙◌, Bool-cases, inl, inr, length, take,
}
use istio_forward_proxy.Http.Message.{Request, Response}
use istio_forward_proxy.Audit.{http_forward}
use istio_forward_proxy.Proxy.Effects.{
  Trace, active_inc, http_error, add_bytes, write_body, write_header, upstream_to_client,
}
use istio_forward_proxy.Proxy.Events.{allowed_event}
use istio_forward_proxy.Proxy.Handler.{Handler, Env}
use istio_forward_proxy.Proxy.Headers.{Built, has_body}
use istio_forward_proxy.Proxy.Identity.{spiffe_from_request}
use istio_forward_proxy.Proxy.Forward.{
  handle_http_forward, deny_forward, forward, attempt, conclude, reply, copy_header, not_listed,
  forward_target,
}
use istio_forward_proxy.Proxy.Forward.Replies.{
  is_absolute, forward_allowed, upstream_request, outcome, status, concluded_outcome,
  concluded_status, handle_relative, handle_denied, handle_forwarded, select-copy_header,
  counts-attempt,
}
use istio_forward_proxy.Proxy.Recorded.{Recorded, Recorded-deny, Recorded-allow}
use istio_forward_proxy.Proxy.Views.{audits, audit_of}

module _ (env : Env) (h : Handler) (r : Request) where
  abbrev identity : Bytes
  identity = spiffe_from_request env.parse_url h r

  audits-conclude :
      (start : ℕ) (copied : ℕ) (o : Option Response) (tr old : Trace)
      → audits tr ≡ audits old
      → Recorded http_forward
          (forward_target r)
          r
          identity
          (concluded_status o)
          (concluded_outcome o)
          (audits (conclude env h r start (forward_target r) copied o tr))
          (audits old)
  unfolding conclude reply audits http_error
  audits-conclude start copied none tr old same = same
  audits-conclude start copied (some resp) tr old same =
      Recorded-allow env h r http_forward (forward_target r) start resp.status_code
        (length (take copied resp.body)) 0
        (add_bytes upstream_to_client (length (take copied resp.body))
          ∷ write_body (take copied resp.body)
          ∷ write_header resp.status_code
          ∷ copy_header env.unicode_lower resp.header tr)
        (audits (reply env h r start (forward_target r) resp copied tr)) (audits old)
        (ap
          (λ u.
            allowed_event env h r http_forward (forward_target r) start resp.status_code
              (length (take copied resp.body)) 0
              (add_bytes upstream_to_client (length (take copied resp.body))
                ∷ write_body (take copied resp.body)
                ∷ write_header resp.status_code
                ∷ copy_header env.unicode_lower resp.header tr)
            ∷ u)
          (select-copy_header audit_of (λ k v. refl) env.unicode_lower resp.header tr ∙ same))

  audits-forward :
      (built : Built) (start : ℕ) (tr : Trace)
      → Recorded http_forward
          (forward_target r)
          r
          identity
          (concluded_status (env.round_trip_result built.request (active_inc ∷ tr)).response)
          (concluded_outcome (env.round_trip_result built.request (active_inc ∷ tr)).response)
          (audits (forward env h r start (forward_target r) built tr))
          (audits tr)
  unfolding forward audits
  audits-forward built start tr =
      let x = env.round_trip_result built.request (active_inc ∷ tr) in
      audits-conclude start x.copied x.response (attempt built x.body_reads (active_inc ∷ tr)) tr
        ((counts-attempt built x.body_reads (active_inc ∷ tr)).3)

  -- A plain request that the ACL refuses leaves one event, a denial with its reason and status 403;
  -- one that the upstream answers leaves one event, with the upstream's status; both name the
  -- caller, its identity and the target. A request that is not absolute or that fails at the
  -- upstream leaves none.
  pub handle_http_forward-Recorded :
      (tr : Trace)
      → Recorded http_forward
          (forward_target r)
          r
          identity
          (status env h r tr)
          (outcome env h r tr)
          (audits (handle_http_forward env h r tr))
          (audits tr)
  handle_http_forward-Recorded tr = elim (Bool-cases (is_absolute r)) [
    | inr relative ↦
        rw (handle_relative env h r tr relative, relative) (unfold audits http_error in refl)
    | inl absolute ↦ elim (Bool-cases (forward_allowed env h r)) [
      | inr refused ↦
          rw (handle_denied env h r tr absolute refused, absolute, refused)
            (unfold deny_forward audits http_error in
              Recorded-deny env h r http_forward (forward_target r) 403 tr
                (audits (deny_forward env h r (forward_target r) not_listed tr)) (audits tr) refl)
      | inl allowed ↦
          rw (handle_forwarded env h r tr absolute allowed, absolute, allowed)
            (audits-forward
              (record { request = upstream_request env h r; counted = has_body r.body })
              (env.now tr) tr)
    ]
  ]
