-- ===== src/Proxy/Recorded.antt =====
-- What the audit log must say of a request, by how the request ended.
use istio_forward_proxy.Base.{ℕ, List, ◌∷◌, Bytes, ◌≡◌}
use istio_forward_proxy.Http.Message.{Request}
use istio_forward_proxy.Audit
use istio_forward_proxy.Audit.{Event, Method}
use istio_forward_proxy.Proxy.Effects.{Outcome, allow, deny, Trace}
use istio_forward_proxy.Proxy.Forward.{not_listed}
use istio_forward_proxy.Proxy.Handler.{Handler, Env}
use istio_forward_proxy.Proxy.Events.{denied_event, allowed_event}
use istio_forward_proxy.Proxy.Identity.{spiffe_from_request}
use istio_forward_proxy.Base.{refl}

-- An event names the caller, the target and how it was asked for.
pub record Names (m : Method) (target : Bytes × ℕ) (r : Request) (id : Bytes) (e : Event)
    : Type 0 where
  pub method : e.method ≡ m
  pub host : e.target_host ≡ target.0
  pub port : e.target_port ≡ target.1
  pub caller : e.client_addr ≡ r.remote_addr
  pub identity : e.spiffe ≡ id

-- A denied request has one event more, that says why; an allowed one has one event more, with its
-- status; any other has none.
abbrev pub Recorded :
    Method → Bytes × ℕ → Request → Bytes → ℕ → Outcome → List Event → List Event → Type 0
Recorded m target r id status deny new old =
    (e : Event) × (new ≡ e ∷ old)
    × Names m target r id e
    × (e.decision ≡ Audit.deny)
    × (e.deny_reason ≡ not_listed)
    × (e.status ≡ 403)
Recorded m target r id status allow new old =
    (e : Event) × (new ≡ e ∷ old)
    × Names m target r id e
    × (e.decision ≡ Audit.allow)
    × (e.deny_reason ≡ "")
    × (e.status ≡ status)
Recorded m target r id status _ new old = new ≡ old

module _ (env : Env) (h : Handler) (r : Request) (m : Method) (target : Bytes × ℕ) where
  pub Recorded-deny :
      (status : ℕ) (tr : Trace) (new old : List Event)
      → new ≡ denied_event env h r m target not_listed tr ∷ old
      → Recorded m target r (spiffe_from_request env.parse_url h r) status deny new old
  unfolding denied_event
  Recorded-deny status tr new old e = (
    denied_event env h r m target not_listed tr,
    e,
    record { method = refl; host = refl; port = refl; caller = refl; identity = refl },
    refl,
    refl,
    refl,
  )

  pub Recorded-allow :
      (start status bytes_in bytes_out : ℕ) (tr : Trace) (new old : List Event)
      → new ≡ allowed_event env h r m target start status bytes_in bytes_out tr ∷ old
      → Recorded m target r (spiffe_from_request env.parse_url h r) status allow new old
  unfolding allowed_event
  Recorded-allow start status bytes_in bytes_out tr new old e = (
    allowed_event env h r m target start status bytes_in bytes_out tr,
    e,
    record { method = refl; host = refl; port = refl; caller = refl; identity = refl },
    refl,
    refl,
    refl,
  )
