-- ===== src/Proxy/Gate.antt =====
-- No ServiceEntry, no access: nothing reaches the upstream for a target that the ACL refuses.
use istio_forward_proxy.Base.{
  ℕ, Bool, true, false, ◌||◌, List, some, Bytes, codes, equal, is_empty, ◌≡◌, ◌≢◌, refl, ap, sym,
  ◌∙◌, if◌then◌else◌, Bool-cases, inl, inr,
}
use mathlib.Core.Path.{subst}
use istio_forward_proxy.Net.{split_host_port, default_port_for_scheme}
use istio_forward_proxy.Http.Message.{Request}
use istio_forward_proxy.ServiceEntry.Defs.{allow_host, rebuild, ServiceEntry, Watcher}
use istio_forward_proxy.ServiceEntry.Spec.{IsListed}
use istio_forward_proxy.ServiceEntry.Safety.{allow_host_sound}
use istio_forward_proxy.Proxy.Effects.{Trace, http_error}
use istio_forward_proxy.Proxy.Handler.{Handler, Env}
use istio_forward_proxy.Proxy.Forward.{handle_http_forward, deny_forward, forward_target}
use istio_forward_proxy.Proxy.Connect.{handle_connect, deny_connect, serve_http}
use istio_forward_proxy.Proxy.Views.{contacts}

abbrev pub is_connect : Request → Bool
is_connect r = equal r.method (codes "CONNECT")

-- The host and the port for which a request asks: those of the request line, in authority form or in
-- absolute form, with the default port where it names none.
unfoldable pub target : Request → Bytes × ℕ
target r =
    if is_connect r
    then split_host_port r.host 443
    else split_host_port r.url.host (default_port_for_scheme r.url.scheme)

pub target_connect : (r : Request) → is_connect r ≡ true → target r ≡ split_host_port r.host 443
unfolding target
target_connect r h = rw h refl

pub target_forward : (r : Request) → is_connect r ≡ false → target r ≡ forward_target r
unfolding target forward_target
target_forward r h = rw h refl

-- What the ACL says of a host and a port.
abbrev pub asks : Env → Handler → Bytes × ℕ → Bool
asks env h t = (allow_host env.unicode_lower h.acl t.0 t.1).0

-- Whether the ACL of the handler lets the request's target through.
abbrev pub permitted : Env → Handler → Request → Bool
permitted env h r = asks env h (target r)

module _ (env : Env) (h : Handler) (r : Request) (tr : Trace) where
  refused_connect :
      asks env h (split_host_port r.host 443) ≡ false
      → contacts (handle_connect env h r tr) ≡ contacts tr
  unfolding handle_connect deny_connect contacts http_error
  refused_connect refused = rw refused refl

  refused_forward :
      asks env h (forward_target r) ≡ false
      → contacts (handle_http_forward env h r tr) ≡ contacts tr
  unfolding handle_http_forward deny_forward contacts http_error
  refused_forward refused = elim (Bool-cases (is_empty r.url.scheme || is_empty r.url.host)) [
    | inl relative ↦ rw relative refl
    | inr absolute ↦ rw (absolute, refused) refl
  ]

  -- Where the ACL refuses the target, serving the request does not dial the upstream, sends it
  -- nothing and makes no round trip.
  pub refused-contacts : permitted env h r ≡ false → contacts (serve_http env h r tr) ≡ contacts tr
  refused-contacts refused = elim (Bool-cases (is_connect r)) [
    | inl tunnel ↦
        unfold serve_http in
        rw tunnel (refused_connect (sym (ap (asks env h) (target_connect r tunnel)) ∙ refused))
    | inr plain ↦
        unfold serve_http in
        rw plain (refused_forward (sym (ap (asks env h) (target_forward r plain)) ∙ refused))
  ]

-- Where the allowlist was built from a listing, a request that reaches the upstream in any way asks
-- for a target that a listed ServiceEntry names: a host that its patterns cover, at a port that it
-- admits.
pub contacts-IsListed :
    (env : Env) (h : Handler) (r : Request) (tr : Trace) (ses : List ServiceEntry) (w : Watcher)
    → h.acl ≡ rebuild env.unicode_lower (some ses) w
    → contacts (serve_http env h r tr) ≢ contacts tr
    → IsListed env.unicode_lower ses (target r).0 (target r).1
contacts-IsListed env h r tr ses w built reached = elim (Bool-cases (permitted env h r)) [
  | inr refused ↦ absurd (reached (refused-contacts env h r tr refused))
  | inl allowed ↦ allow_host_sound env.unicode_lower ses w (target r).0 (target r).1 (
      subst (λ a. (allow_host env.unicode_lower a (target r).0 (target r).1).0 ≡ true) built
        allowed)
]
