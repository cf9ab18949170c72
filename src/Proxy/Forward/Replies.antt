-- ===== src/Proxy/Forward/Replies.antt =====
-- What handleHTTPForward replies, counts, audits and sends, on every path.
use istio_forward_proxy.Base.{
  ℕ, Bool, true, false, not, ◌||◌, ◌&&◌, List, [], ◌∷◌, Option, none, some, Bytes, is_empty, ◌≡◌,
  refl, ap, ◌∙◌, if◌then◌else◌, Bool-cases, inl, inr, codes,
}
use istio_forward_proxy.Http.Header.{Header}
use istio_forward_proxy.Http.Message.{Request, Response}
use istio_forward_proxy.ServiceEntry.Defs.{allow_host}
use istio_forward_proxy.Proxy.Effects.{
  Effect, count_request, Trace, http, Outcome, bad_request, allow, deny, upstream_error, active_inc,
  add_header, http_error,
}
use istio_forward_proxy.Proxy.Handler.{Handler, Env}
use istio_forward_proxy.Proxy.Headers.{
  Built, build_upstream_request, upstream_header, is_hop_by_hop, has_body,
}
use istio_forward_proxy.Proxy.Forward.{
  handle_http_forward, deny_forward, forward, attempt, conclude, reply, copy_header, copy_values,
  forward_target, not_listed,
}
use istio_forward_proxy.Proxy.Views.{
  select, audits, counts, statuses, requests, count_of, status_of, request_of,
}

-- Whether a request is in absolute form.
abbrev pub is_absolute : Request → Bool
is_absolute r = not (is_empty r.url.scheme || is_empty r.url.host)

abbrev pub forward_allowed : Env → Handler → Request → Bool
forward_allowed env h r =
    (allow_host env.unicode_lower h.acl (forward_target r).0 (forward_target r).1).0

-- The request that goes to the upstream: the client's, in absolute form, with other headers.
abbrev pub upstream_request : Env → Handler → Request → Request
upstream_request env h r = record r {
  request_uri = [];
  header = upstream_header env.unicode_lower h r.header;
}

abbrev pub upstream_answer : Env → Handler → Request → Trace → Option Response
upstream_answer env h r tr =
    (env.round_trip_result (upstream_request env h r) (active_inc ∷ tr)).response

-- The outcome and the status behind a round trip.
abbrev pub concluded_outcome : Option Response → Outcome
concluded_outcome none = upstream_error
concluded_outcome (some resp) = allow

abbrev pub concluded_status : Option Response → ℕ
concluded_status none = 502
concluded_status (some resp) = resp.status_code

-- How a plain request ends.
abbrev pub outcome : Env → Handler → Request → Trace → Outcome
outcome env h r tr =
    if not (is_absolute r)
    then bad_request
    else if not (forward_allowed env h r)
    then deny
    else concluded_outcome (upstream_answer env h r tr)

-- The status that the client gets.
abbrev pub status : Env → Handler → Request → Trace → ℕ
status env h r tr =
    if not (is_absolute r)
    then 400
    else if not (forward_allowed env h r)
    then 403
    else concluded_status (upstream_answer env h r tr)

module _ {ℓ} {A : Type ℓ} (f : Effect → Option A)
    (quiet : (k v : Bytes) → f (add_header k v) ≡ none) where
  select-copy_values :
      (k : Bytes) (vs : List Bytes) (tr : Trace) → select f (copy_values k vs tr) ≡ select f tr
  unfolding copy_values select
  select-copy_values k [] tr = refl
  select-copy_values k (v ∷ vs) tr =
      rw (select-copy_values k vs (add_header k v ∷ tr), quiet k v) refl

  pub select-copy_header :
      (unicode_lower : Bytes → Bytes) (header : Header) (tr : Trace)
      → select f (copy_header unicode_lower header tr) ≡ select f tr
  unfolding copy_header
  select-copy_header unicode_lower [] tr = refl
  select-copy_header unicode_lower ((k, vs) ∷ header) tr =
      elim (Bool-cases (is_hop_by_hop unicode_lower k)) [
        | inl hop ↦ rw hop (select-copy_header unicode_lower header tr)
        | inr kept ↦ rw kept (
            select-copy_header unicode_lower header (copy_values k vs tr)
            ∙ select-copy_values k vs tr)
      ]

module _ (env : Env) (h : Handler) (r : Request) (tr : Trace) where
  pub handle_relative :
      is_absolute r ≡ false
      → handle_http_forward env h r tr
        ≡ count_request http bad_request
          ∷ http_error (codes "proxy request requires absolute URI") 400 tr
  unfolding handle_http_forward
  handle_relative relative = elim (Bool-cases (is_empty r.url.scheme || is_empty r.url.host)) [
    | inl e ↦ rw e refl
    | inr e ↦ cc (ap not e)
  ]

  pub handle_denied :
      is_absolute r ≡ true
      → forward_allowed env h r ≡ false
      → handle_http_forward env h r tr ≡ deny_forward env h r (forward_target r) not_listed tr
  unfolding handle_http_forward
  handle_denied absolute refused =
      elim (Bool-cases (is_empty r.url.scheme || is_empty r.url.host)) [
        | inl e ↦ cc (ap not e)
        | inr e ↦ rw (e, refused) refl
      ]

  pub handle_forwarded :
      is_absolute r ≡ true
      → forward_allowed env h r ≡ true
      → handle_http_forward env h r tr
        ≡ forward env h r
            (env.now tr)
            (forward_target r)
            (record { request = upstream_request env h r; counted = has_body r.body })
            tr
  unfolding handle_http_forward build_upstream_request
  handle_forwarded absolute allowed =
      elim (Bool-cases (is_empty r.url.scheme || is_empty r.url.host)) [
        | inl e ↦ cc (ap not e)
        | inr e ↦ rw (e, allowed) refl
      ]

pub counts-attempt :
    (built : Built) (ns : List ℕ) (tr : Trace)
    → (counts (attempt built ns tr) ≡ counts tr)
      × (statuses (attempt built ns tr) ≡ statuses tr)
      × (requests (attempt built ns tr) ≡ built.request ∷ requests tr)
      × (audits (attempt built ns tr) ≡ audits tr)
unfolding attempt counts statuses requests audits
counts-attempt built ns tr = elim (Bool-cases built.counted) [
  | inl e ↦ rw e (refl, refl, refl, refl)
  | inr e ↦ rw e (refl, refl, refl, refl)
]

module _ (env : Env) (h : Handler) (r : Request) (start : ℕ) (target : Bytes × ℕ) where
  counts-conclude :
      (copied : ℕ) (o : Option Response) (tr : Trace)
      → (counts (conclude env h r start target copied o tr)
          ≡ (http, concluded_outcome o) ∷ counts tr)
        × (statuses (conclude env h r start target copied o tr) ≡ concluded_status o ∷ statuses tr)
        × (requests (conclude env h r start target copied o tr) ≡ requests tr)
  unfolding conclude reply counts statuses requests http_error
  counts-conclude copied none tr = (refl, refl, refl)
  counts-conclude copied (some resp) tr = (
    ap (λ u. (http, allow) ∷ u)
        (select-copy_header count_of (λ k v. refl) env.unicode_lower resp.header tr),
    ap (λ u. resp.status_code ∷ u)
        (select-copy_header status_of (λ k v. refl) env.unicode_lower resp.header tr),
    select-copy_header request_of (λ k v. refl) env.unicode_lower resp.header tr,
  )

  counts-forward :
      (built : Built) (tr : Trace)
      → (counts (forward env h r start target built tr)
          ≡ (
            http,
            concluded_outcome (env.round_trip_result built.request (active_inc ∷ tr)).response,
          )
            ∷ counts tr)
        × (statuses (forward env h r start target built tr)
            ≡ concluded_status (env.round_trip_result built.request (active_inc ∷ tr)).response
              ∷ statuses tr)
        × (requests (forward env h r start target built tr) ≡ built.request ∷ requests tr)
  unfolding forward counts statuses requests
  counts-forward built tr =
      let x = env.round_trip_result built.request (active_inc ∷ tr) in
      let (c, s, q) =
        counts-conclude x.copied x.response (attempt built x.body_reads (active_inc ∷ tr)) in
      let (c', s', q', e') = counts-attempt built x.body_reads (active_inc ∷ tr) in
      (
        c ∙ ap (λ u. (http, concluded_outcome x.response) ∷ u) c',
        s ∙ ap (λ u. concluded_status x.response ∷ u) s',
        q ∙ q',
      )

module _ (env : Env) (h : Handler) (r : Request) (tr : Trace) where
  forwarded_outcome :
      is_absolute r ≡ true
      → forward_allowed env h r ≡ true
      → (counts (handle_http_forward env h r tr)
          ≡ (http, concluded_outcome (upstream_answer env h r tr)) ∷ counts tr)
        × (statuses (handle_http_forward env h r tr)
            ≡ concluded_status (upstream_answer env h r tr) ∷ statuses tr)
        × (requests (handle_http_forward env h r tr) ≡ upstream_request env h r ∷ requests tr)
  forwarded_outcome absolute allowed = rw (handle_forwarded env h r tr absolute allowed) (
      counts-forward env h r (env.now tr) (forward_target r)
        (record { request = upstream_request env h r; counted = has_body r.body }) tr)

  -- Every plain request is counted once and answered with one status line: 400 where it is not in
  -- absolute form, 403 where the ACL refuses its target, 502 where the round trip fails, and the
  -- upstream's status otherwise; and it goes to the upstream, with the headers rewritten and
  -- nothing else changed but the empty RequestURI, exactly where it is absolute and permitted.
  pub handle_http_forward-outcome :
      (counts (handle_http_forward env h r tr) ≡ (http, outcome env h r tr) ∷ counts tr)
      × (statuses (handle_http_forward env h r tr) ≡ status env h r tr ∷ statuses tr)
      × (requests (handle_http_forward env h r tr) ≡ (
          if is_absolute r && forward_allowed env h r
          then upstream_request env h r ∷ requests tr
          else requests tr))
  handle_http_forward-outcome = elim (Bool-cases (is_absolute r)) [
    | inr relative ↦
        rw (handle_relative env h r tr relative, relative)
          (unfold counts statuses requests http_error in (refl, refl, refl))
    | inl absolute ↦ elim (Bool-cases (forward_allowed env h r)) [
      | inr refused ↦
          rw (handle_denied env h r tr absolute refused, absolute, refused)
            (unfold deny_forward counts statuses requests http_error in (refl, refl, refl))
      | inl allowed ↦ rw (absolute, allowed) (forwarded_outcome absolute allowed)
    ]
  ]
