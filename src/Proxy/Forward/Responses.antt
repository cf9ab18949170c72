-- ===== src/Proxy/Forward/Responses.antt =====
-- The response that handleHTTPForward passes on to the client.
use istio_forward_proxy.Base.{
  ℕ, true, List, [], ◌∷◌, ◌++◌, map, some, Bytes, take, ◌≡◌, refl, ap, sym, ◌∙◌, if◌then◌else◌,
  Bool-cases, inl, inr, append_assoc, append-nil,
}
use istio_forward_proxy.Http.Header.{Header}
use istio_forward_proxy.Http.Message.{Request, Response}
use istio_forward_proxy.Proxy.Effects.{Trace, active_inc, add_header, write_header, write_body}
use istio_forward_proxy.Proxy.Handler.{Handler, Env}
use istio_forward_proxy.Proxy.Headers.{Built, is_hop_by_hop, has_body}
use istio_forward_proxy.Proxy.Forward.{
  handle_http_forward, forward, attempt, conclude, reply, copy_header, copy_values, forward_target,
}
use istio_forward_proxy.Proxy.Forward.Replies.{
  is_absolute, forward_allowed, upstream_request, upstream_answer, handle_forwarded,
}

abbrev pub Field : Type 0
Field = Bytes × Bytes

-- The calls of Header.Add, the oldest first.
unfoldable pub added_fields : Trace → List Field
added_fields [] = []
added_fields (add_header k v ∷ tr) = added_fields tr ++ (k, v) ∷ []
added_fields (e ∷ tr) = added_fields tr

-- Those that come before the last status line, as only these reach the client.
unfoldable pub sent_fields : Trace → List Field
sent_fields [] = []
sent_fields (write_header code ∷ tr) = added_fields tr
sent_fields (e ∷ tr) = sent_fields tr

-- The body that has been written.
unfoldable pub sent_body : Trace → Bytes
sent_body [] = []
sent_body (write_body b ∷ tr) = sent_body tr ++ b
sent_body (e ∷ tr) = sent_body tr

module _ (unicode_lower : Bytes → Bytes) where
  -- The fields of a header, without those that are hop-by-hop.
  unfoldable pub end_to_end : Header → List Field
  end_to_end [] = []
  end_to_end ((k, vs) ∷ header) =
      (if is_hop_by_hop unicode_lower k then [] else map (λ v. (k, v)) vs) ++ end_to_end header

added_fields-copy_values :
    (k : Bytes) (vs : List Bytes) (tr : Trace)
    → added_fields (copy_values k vs tr) ≡ added_fields tr ++ map (λ v. (k, v)) vs
unfolding copy_values added_fields
added_fields-copy_values k [] tr = sym (append-nil _)
added_fields-copy_values k (v ∷ vs) tr =
    added_fields-copy_values k vs (add_header k v ∷ tr)
    ∙ append_assoc (added_fields tr) ((k, v) ∷ []) (map (λ v. (k, v)) vs)

added_fields-copy_header :
    (unicode_lower : Bytes → Bytes) (header : Header) (tr : Trace)
    → added_fields (copy_header unicode_lower header tr)
      ≡ added_fields tr ++ end_to_end unicode_lower header
unfolding copy_header end_to_end
added_fields-copy_header unicode_lower [] tr = sym (append-nil _)
added_fields-copy_header unicode_lower ((k, vs) ∷ header) tr =
    elim (Bool-cases (is_hop_by_hop unicode_lower k)) [
      | inl hop ↦ rw hop (added_fields-copy_header unicode_lower header tr)
      | inr kept ↦ rw kept (
          added_fields-copy_header unicode_lower header (copy_values k vs tr)
          ∙ ap (λ l. l ++ end_to_end unicode_lower header) (added_fields-copy_values k vs tr)
          ∙ append_assoc (added_fields tr) (map (λ v. (k, v)) vs) (end_to_end unicode_lower header))
    ]

sent_body-copy_values :
    (k : Bytes) (vs : List Bytes) (tr : Trace) → sent_body (copy_values k vs tr) ≡ sent_body tr
unfolding copy_values sent_body
sent_body-copy_values k [] tr = refl
sent_body-copy_values k (v ∷ vs) tr = sent_body-copy_values k vs (add_header k v ∷ tr)

sent_body-copy_header :
    (unicode_lower : Bytes → Bytes) (header : Header) (tr : Trace)
    → sent_body (copy_header unicode_lower header tr) ≡ sent_body tr
unfolding copy_header
sent_body-copy_header unicode_lower [] tr = refl
sent_body-copy_header unicode_lower ((k, vs) ∷ header) tr =
    elim (Bool-cases (is_hop_by_hop unicode_lower k)) [
      | inl hop ↦ rw hop (sent_body-copy_header unicode_lower header tr)
      | inr kept ↦ rw kept (
          sent_body-copy_header unicode_lower header (copy_values k vs tr)
          ∙ sent_body-copy_values k vs tr)
    ]

attempt_adds_nothing :
    (built : Built) (ns : List ℕ) (tr : Trace)
    → (added_fields (attempt built ns tr) ≡ added_fields tr)
      × (sent_body (attempt built ns tr) ≡ sent_body tr)
unfolding attempt added_fields sent_body
attempt_adds_nothing built ns tr = elim (Bool-cases built.counted) [
  | inl e ↦ rw e (refl, refl)
  | inr e ↦ rw e (refl, refl)
]

module _ (env : Env) (h : Handler) (r : Request) where
  -- The response goes to the client with its end-to-end fields and what was copied of its body.
  abbrev pub PassedOn : Response → ℕ → Trace → Trace → Type 0
  PassedOn resp copied new old =
      (sent_fields new ≡ added_fields old ++ end_to_end env.unicode_lower resp.header)
      × (sent_body new ≡ sent_body old ++ take copied resp.body)

  reply-PassedOn :
      (start : ℕ) (target : Bytes × ℕ) (resp : Response) (copied : ℕ) (tr : Trace)
      → PassedOn resp copied (reply env h r start target resp copied tr) tr
  unfolding reply sent_fields sent_body
  reply-PassedOn start target resp copied tr = (
    added_fields-copy_header env.unicode_lower resp.header tr,
    ap (λ b. b ++ take copied resp.body) (sent_body-copy_header env.unicode_lower resp.header tr),
  )

  forward-PassedOn :
      (start : ℕ) (target : Bytes × ℕ) (built : Built) (resp : Response) (tr : Trace)
      → (env.round_trip_result built.request (active_inc ∷ tr)).response ≡ some resp
      → PassedOn resp
          (env.round_trip_result built.request (active_inc ∷ tr)).copied
          (forward env h r start target built tr)
          tr
  unfolding forward conclude sent_fields sent_body added_fields
  forward-PassedOn start target built resp tr answered =
      let x = env.round_trip_result built.request (active_inc ∷ tr) in
      let (fields, written) = attempt_adds_nothing built x.body_reads (active_inc ∷ tr) in
      let (passed, copied) =
        reply-PassedOn start target resp x.copied (attempt built x.body_reads (active_inc ∷ tr)) in
      rw answered (
        passed ∙ ap (λ l. l ++ end_to_end env.unicode_lower resp.header) fields,
        copied ∙ ap (λ b. b ++ take x.copied resp.body) written,
      )

  -- Where an absolute and permitted request is answered by the upstream, the client gets, before the
  -- status line, all values of the upstream's header fields in their order except the hop-by-hop
  -- ones, and then as much of the upstream's body as was copied, and nothing else.
  pub handle_http_forward-PassedOn :
      (tr : Trace) (resp : Response)
      → is_absolute r ≡ true
      → forward_allowed env h r ≡ true
      → upstream_answer env h r tr ≡ some resp
      → PassedOn resp
          (env.round_trip_result (upstream_request env h r) (active_inc ∷ tr)).copied
          (handle_http_forward env h r tr)
          tr
  handle_http_forward-PassedOn tr resp absolute allowed answered =
      rw (handle_forwarded env h r tr absolute allowed) (
        forward-PassedOn (env.now tr) (forward_target r)
          (record { request = upstream_request env h r; counted = has_body r.body }) resp tr
          answered)
