-- ===== src/Proxy/Transport/Secure.antt =====
-- Which transport the plain requests of a handler use.
use istio_forward_proxy.Base.{
  ℕ, zero, suc, Bool, true, List, [], ◌∷◌, Option, none, some, codes, ◌≡◌, refl, Bool-cases, inl,
  inr, All,
}
use istio_forward_proxy.Net.{net_split_host_port}
use istio_forward_proxy.Proxy.Effects.{Trace, connected, handshake}
use istio_forward_proxy.Proxy.Handler.{Handler, Env}
use istio_forward_proxy.Proxy.Dial.{dial_upstream, wrap_idle_timeout, server_name}
use istio_forward_proxy.Proxy.Transport.{
  Hook, Transport, Cell, unused, dial_for_transport, build_transport, upstream_transport,
}

-- What the calls of upstreamTransport return, one after the other.
unfoldable pub uses : Handler → ℕ → Cell → List (Option Transport)
uses h zero c = []
uses h (suc n) c = let (t, c') = upstream_transport h c in t ∷ uses h n c'

module _ (h : Handler) (env : Env) (tr : Trace) where
  -- A connection that a dial gives has shaken hands under the upstream's name, and is wrapped where
  -- the handler has an idle timeout.
  abbrev pub Shaken : Option Bool × Trace → Type 0
  Shaken (none, tr') = Unit {0}
  Shaken (some wrapped, tr') =
      (wrapped ≡ wrap_idle_timeout h.idle_timeout)
      × (env.handshake_succeeds ≡ true)
      × (tr'
          ≡ handshake (server_name (net_split_host_port h.upstream_proxy)) h.insecure_skip_verify
            ∷ connected
            ∷ tr)

  abbrev pub DialsBy : Option Hook → Type 0
  DialsBy none = ⊥
  DialsBy (some hook) = Shaken (hook env tr)

  -- A transport for TLS to the upstream of the handler, and for nothing else.
  abbrev pub IsSecure : Option Transport → Type 0
  IsSecure none = ⊥
  IsSecure (some t) =
      (t.proxy_scheme ≡ codes "https")
      × (t.proxy_host ≡ h.upstream_proxy)
      × (t.dial_context ≡ none)
      × DialsBy t.dial_tls_context

  dial_for_transport-Shaken : h.tls_enabled ≡ true → Shaken (dial_for_transport h env tr)
  unfolding dial_for_transport dial_upstream
  dial_for_transport-Shaken secured = elim (Bool-cases env.dial_succeeds) [
    | inr e ↦ rw e tt
    | inl e ↦
        rw (e, secured)
          (elim (Bool-cases h.has_cert_manager) [
            | inr c ↦ rw c tt
            | inl c ↦ rw c (elim (Bool-cases env.handshake_succeeds) [
              | inr s ↦ rw s tt
              | inl s ↦ rw s (refl, refl, refl)
            ])
          ])
  ]

  build_transport-IsSecure : h.tls_enabled ≡ true → IsSecure (some (build_transport h))
  unfolding build_transport
  build_transport-IsSecure secured =
      simp secured (refl, refl, refl, dial_for_transport-Shaken secured)

  -- From the first call on, the cell holds what was built.
  again :
      (n : ℕ)
      → h.tls_enabled ≡ true
      → All IsSecure (uses h n (record { done = true; transport = some (build_transport h) }))
  unfolding uses upstream_transport
  again zero secured = tt
  again (suc n) secured = (build_transport-IsSecure secured, again n secured)

  -- With TLS enabled, every call of upstreamTransport on a handler, from the first on, returns a
  -- transport for the handler's upstream with the scheme https and no hook for plain connections;
  -- and a connection that its hook dials has shaken hands under the upstream's name, and has the
  -- handler's idle timeout.
  pub upstream_transport-IsSecure : (n : ℕ) → h.tls_enabled ≡ true → All IsSecure (uses h n unused)
  unfolding uses upstream_transport
  upstream_transport-IsSecure zero secured = tt
  upstream_transport-IsSecure (suc n) secured = (build_transport-IsSecure secured, again n secured)
