-- ===== src/Main/Outcome.antt =====
-- How the start of main ends: with a proxy that serves, or with an exit status and no server.
use istio_forward_proxy.Base.{
  ℕ, Bool, true, false, ◌&&◌, List, [], ◌∷◌, Option, none, some, Bytes, is_empty, ◌≡◌, ◌⊎◌, inl,
  inr, refl, ap, if◌then◌else◌, arith,
}
use mathlib.Core.Path.{subst}
use mathlib.Core.Option.{some-injective}
use istio_forward_proxy.Certs.Defs.{Os, Manager}
use istio_forward_proxy.ServiceEntry.Defs.{new_watcher, allow_host}
use istio_forward_proxy.ServiceEntry.Running.{Kube, watcher_for}
use istio_forward_proxy.Proxy.Effects.{Trace}
use istio_forward_proxy.Proxy.Handler.{Handler, Env}
use istio_forward_proxy.Proxy.Dial.{dial_upstream}
use istio_forward_proxy.Main.Flags.{Config, CommandLine}
use istio_forward_proxy.Main.Starting.{
  routines, exits, Certified, cert_routines, Certifies, asked_mtls, parse_flags_cases,
  watcher_for_cases, new_watcher_refuses, start_certs-Certifies,
}
use istio_forward_proxy.Main.Startup.{
  run_acl, serve_metrics, serve_proxy, said, Actions, Running, start_certs, handler_for,
  start_servers, bind_started, start, launch,
}

-- The first argument is the Unicode part of strings.ToLower; the others are a later dial and a
-- target.
module _ (unicode_lower : Bytes → Bytes) (env : Env) (tr : Trace) (host : Bytes) (port : ℕ) where
  -- A proxy that serves: it has an upstream, and mTLS as asked for; its dials then fail only where
  -- the network or the handshake does; and it refuses every target until the first rebuild.
  pub record IsUp (mtls : Bool) (run : Running) : Type 0 where
    pub upstream : is_empty run.handler.upstream_proxy ≡ false
    pub tls : run.handler.tls_enabled ≡ mtls
    pub certified : Certified mtls run.manager
    pub dials :
        (dial_upstream env run.handler tr).0
        ≡ (env.dial_succeeds && (if mtls then env.handshake_succeeds else true))
    pub manages : run.handler.has_cert_manager ≡ mtls
    pub fresh : run.handler.acl ≡ new_watcher
    pub refuses : (allow_host unicode_lower run.handler.acl host port).0 ≡ false

  -- The first argument is whether mTLS is asked for.
  abbrev pub Launched : Bool → Option Running × Actions → Type 0
  Launched mtls (none, done) =
      ((exits done ≡ 1 ∷ []) × ((routines done ≡ []) ⊎ (routines done ≡ cert_routines mtls)))
      ⊎ ((exits done ≡ 2 ∷ []) × (routines done ≡ []))
  Launched mtls (some run, done) =
      IsUp mtls run
      × (routines done ≡ serve_proxy ∷ serve_metrics ∷ run_acl ∷ cert_routines mtls)
      × (exits done ≡ [])

  pub dials_when_made :
      (h : Handler) (mtls : Bool)
      → h.tls_enabled ≡ mtls
      → h.has_cert_manager ≡ mtls
      → (dial_upstream env h tr).0
        ≡ (env.dial_succeeds && (if mtls then env.handshake_succeeds else true))
  unfolding dial_upstream
  dials_when_made h mtls t c = ground arith

  start_servers-Launched :
      (kube : Kube) (cfg : Config) (manager : Option Manager) (done : Actions)
      → is_empty cfg.upstream_proxy ≡ false
      → Certifies cfg.mtls_enabled (some manager, done)
      → Launched cfg.mtls_enabled (start_servers kube cfg manager done)
  unfolding start_servers handler_for watcher_for routines exits
  start_servers-Launched kube cfg manager done up (certified, made, q, e) =
      elim (watcher_for_cases kube) [
        | inl failed ↦ rw (failed, start_servers) (inl (ap (λ l. 1 ∷ l) e, inr q))
        | inr fresh ↦
            rw (fresh, start_servers)
              (
                record {
                  upstream = up;
                  tls = refl;
                  certified = certified;
                  dials =
                      dials_when_made (handler_for cfg manager new_watcher) cfg.mtls_enabled refl
                        made;
                  manages = made;
                  fresh = refl;
                  refuses = new_watcher_refuses unicode_lower host port;
                },
                ap (λ l. serve_proxy ∷ serve_metrics ∷ run_acl ∷ l) q,
                e,
              )
      ]

  start-Launched :
      (os : Os) (kube : Kube) (cfg : Config)
      → is_empty cfg.upstream_proxy ≡ false
      → Launched cfg.mtls_enabled (start os kube cfg [])
  unfolding start
  start-Launched os kube cfg up =
      after (start_certs os cfg (said "starting istio-forward-proxy" ∷ [])) (
        start_certs-Certifies os cfg (said "starting istio-forward-proxy" ∷ [])
          (unfold routines in refl) (unfold exits in refl))
    where
      after :
          (made : Option (Option Manager) × Actions)
          → Certifies cfg.mtls_enabled made
          → Launched cfg.mtls_enabled
              (bind_started made (λ manager. start_servers kube cfg manager))
      after (none, done) (q, e) = inl (e, inl q)
      after (some manager, done) c = start_servers-Launched kube cfg manager done up c

  -- However the flags, the environment, the files and the cluster are, main ends its start in one of
  -- three ways. It exits with status 2 and has started nothing; it exits with status 1 and has
  -- started at most the watch of the certificates; or it has started the watch of the certificates,
  -- where mTLS is asked for, the ServiceEntry watcher and the two servers, in this order, and its
  -- proxy has an upstream, mTLS as asked for with a loaded certificate, dials that fail only where
  -- the network or the handshake fails, and an allowlist that still refuses every target.
  pub launch-Launched :
      (os : Os) (kube : Kube) (getenv : Bytes → Bytes) (environ : List Bytes) (flags : CommandLine)
      → Launched (asked_mtls getenv flags) (launch os kube getenv environ flags)
  unfolding launch
  launch-Launched os kube getenv environ flags = elim (parse_flags_cases getenv environ flags) [
    | inl missing ↦ rw (missing, launch) (inr (unfold exits in refl, unfold routines in refl))
    | inr (cfg, parsed, up, tls) ↦ rw (parsed, launch) (rw (← tls) (start-Launched os kube cfg up))
  ]

  -- A proxy that has been started is one that is up.
  pub launched-IsUp :
      (os : Os) (kube : Kube) (getenv : Bytes → Bytes) (environ : List Bytes) (flags : CommandLine)
      (run : Running)
      → (launch os kube getenv environ flags).0 ≡ some run
      → IsUp (asked_mtls getenv flags) run
  launched-IsUp os kube getenv environ flags run made =
      of (launch os kube getenv environ flags) (launch-Launched os kube getenv environ flags) made
    where
      of :
          (o : Option Running × Actions)
          → Launched (asked_mtls getenv flags) o
          → o.0 ≡ some run
          → IsUp (asked_mtls getenv flags) run
      of (none, done) l e = cc e
      of (some up, done) (l, started_in_order, no_exit) e =
          subst (λ u. IsUp (asked_mtls getenv flags) u) (some-injective _ _ e) l
