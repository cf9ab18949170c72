-- ===== src/Proxy/Connect/Served.antt =====
-- What becomes of a permitted CONNECT when nothing fails.
use istio_forward_proxy.Base.{true, ◌∷◌, ◌≡◌, refl}
use mathlib.Core.Path.{subst}
use istio_forward_proxy.Http.Message.{Request}
use istio_forward_proxy.Audit
use istio_forward_proxy.Proxy.Effects.{Trace, allow, connect}
use istio_forward_proxy.Proxy.Handler.{Handler, Env}
use istio_forward_proxy.Proxy.Identity.{spiffe_from_request}
use istio_forward_proxy.Proxy.Recorded.{Recorded}
use istio_forward_proxy.Proxy.Connect.{handle_connect}
use istio_forward_proxy.Proxy.Connect.Audited.{
  connect_target, connect_allowed, connect_verdict, tunnels, handle_connect-Recorded,
}
use istio_forward_proxy.Proxy.Connect.Delivery.{Delivered}
use istio_forward_proxy.Proxy.Connect.Tallies.{Counted, handle_connect-Counted}
use istio_forward_proxy.Proxy.Connect.Tunnels.{
  IsFaultless, faultless-tunnels, handle_connect-Delivered, upstream_bytes, client_bytes,
}
use istio_forward_proxy.Proxy.Views.{counts, audits}

-- Everything has reached its side, and the request is counted and audited as allowed, once.
pub record IsServed (env : Env) (h : Handler) (r : Request) (old new : Trace) : Type 0 where
  pub delivered : Delivered (upstream_bytes env h r) (client_bytes env h r) old new
  pub counted : counts new ≡ (connect, allow) ∷ counts old
  pub recorded :
      Recorded Audit.connect
        (connect_target r)
        r
        (spiffe_from_request env.parse_url h r)
        200
        allow
        (audits new)
        (audits old)

module _ (env : Env) (h : Handler) (r : Request) where
  verdict-allow :
      (tr : Trace)
      → connect_allowed env h r ≡ true
      → tunnels env h r tr ≡ true
      → connect_verdict env h r tr ≡ allow
  verdict-allow tr allowed through = rw (allowed, through) refl

  -- A CONNECT that the ACL permits is served where nothing fails: where the connection is hijacked,
  -- the upstream is dialed, every write succeeds, the upstream answers 200, and, with TLS enabled,
  -- there is a certificate manager and the handshake succeeds. The upstream then gets the request for
  -- the tunnel, what the client has sent ahead and all chunks of the client, and the client gets the
  -- line that the tunnel stands and all chunks of the upstream; and the request is counted and
  -- audited once, as allowed.
  pub faultless-IsServed :
      (tr : Trace)
      → IsFaultless env h
      → connect_allowed env h r ≡ true
      → IsServed env h r tr (handle_connect env h r tr)
  faultless-IsServed tr fine allowed =
      let through = faultless-tunnels env h r fine tr in
      let verdict = verdict-allow tr allowed through in
      record {
        delivered = handle_connect-Delivered env h r tr allowed through;
        counted =
            subst (λ o. Counted o (counts (handle_connect env h r tr)) (counts tr)) verdict
              (handle_connect-Counted env h r tr);
        recorded =
            subst
              (λ o.
                Recorded Audit.connect (connect_target r) r (spiffe_from_request env.parse_url h r)
                  200 o (audits (handle_connect env h r tr)) (audits tr))
              verdict (handle_connect-Recorded env h r tr);
      }
