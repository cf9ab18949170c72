-- ===== src/Main/Life/Safety.antt =====
-- What holds of every request, whenever it comes in the life of the process.
use istio_forward_proxy.Base.{
  ℕ, Bool, true, false, ◌||◌, ◌&&◌, List, [], ◌∷◌, some, Bytes, is_empty, ◌≡◌, ◌≢◌, ap, sym, ◌∙◌,
  if◌then◌else◌, Bool-cases, inl, inr,
}
use mathlib.Core.Path.{subst}
use istio_forward_proxy.Http.Message.{Request}
use istio_forward_proxy.Certs.Defs.{Os}
use istio_forward_proxy.ServiceEntry.Defs.{HostEntry, is_synced, allow_host, rebuild, new_watcher}
use istio_forward_proxy.ServiceEntry.Spec.{IsListed}
use istio_forward_proxy.ServiceEntry.Refinement.{allow_host-rebuild}
use istio_forward_proxy.ServiceEntry.Safety.{allow_host_sound}
use istio_forward_proxy.ServiceEntry.History.{run, latest, allow_host-run}
use istio_forward_proxy.Proxy.Effects.{Trace}
use istio_forward_proxy.Proxy.Handler.{Env}
use istio_forward_proxy.Proxy.Dial.{dial_upstream}
use istio_forward_proxy.Proxy.Connect.{serve_http}
use istio_forward_proxy.Proxy.Views.{contacts, statuses}
use istio_forward_proxy.Proxy.Gate.{target, permitted, refused-contacts}
use istio_forward_proxy.ServiceEntry.Running.{Kube}
use istio_forward_proxy.Main.Flags.{CommandLine}
use istio_forward_proxy.Main.Admin.{readyz}
use istio_forward_proxy.Main.Startup.{Running, launch}
use istio_forward_proxy.Main.Starting.{Certified, asked_mtls}
use istio_forward_proxy.Main.Outcome.{IsUp, launched-IsUp, dials_when_made}
use istio_forward_proxy.Main.Life.Steps.{
  callbacks, syncs, allow_host-live, is_synced-live, live-IsSteady, or_false, new_unsynced,
  readyz-status,
}
use istio_forward_proxy.Main.Life.{Happening, live}

-- A state of the process as its requests meet it.
pub record IsReady (mtls synced : Bool) (env : Env) (tr : Trace) (up : Running) : Type 0 where
  pub upstream : is_empty up.handler.upstream_proxy ≡ false
  pub tls : up.handler.tls_enabled ≡ mtls
  pub certified : Certified mtls up.manager
  pub dials :
      (dial_upstream env up.handler tr).0
      ≡ (env.dial_succeeds && (if mtls then env.handshake_succeeds else true))
  pub ready : statuses (readyz up.handler.acl tr) ≡ (if synced then 200 else 503) ∷ statuses tr

module _ (unicode_lower : Bytes → Bytes) where
  -- The first hypothesis of both theorems: main has started this proxy, for some flags, environment,
  -- files and cluster.
  module _ (os : Os) (kube : Kube) (getenv : Bytes → Bytes) (environ : List Bytes)
      (flags : CommandLine) (up : Running)
      (made : (launch os kube getenv environ flags).0 ≡ some up) where
    at_start :
        (env : Env) (tr : Trace) → IsUp unicode_lower env tr [] 0 (asked_mtls getenv flags) up
    at_start env tr = launched-IsUp unicode_lower env tr [] 0 os kube getenv environ flags up made

    -- Whatever callbacks, events on the certificate files and end of the first wait have happened
    -- since main has started the proxy: it still has an upstream, and mTLS as asked for with a
    -- certificate; its dials fail only where the network or the handshake does; and /readyz answers
    -- 200 if the cache has been synced, and 503 if not.
    pub live-IsReady :
        (xs : List Happening) (env : Env) (tr : Trace)
        → IsReady (asked_mtls getenv flags) (syncs xs) env tr (live unicode_lower xs up)
    live-IsReady xs env tr =
        let v = at_start env tr in
        let steady = live-IsSteady unicode_lower (asked_mtls getenv flags) xs up (record {
          upstream = v.upstream;
          tls = v.tls;
          manages = v.manages;
          certified = v.certified;
        }) in
        record {
          upstream = steady.upstream;
          tls = steady.tls;
          certified = steady.certified;
          dials =
              dials_when_made unicode_lower env tr [] 0 (live unicode_lower xs up).handler
                (asked_mtls getenv flags) steady.tls steady.manages;
          ready =
              readyz-status (live unicode_lower xs up).handler.acl tr
              ∙ ap (λ b. (if b then 200 else 503) ∷ statuses tr)
                  (is_synced-live unicode_lower xs up
                    ∙ ap (λ b. syncs xs || b) (ap is_synced v.fresh ∙ new_unsynced)
                    ∙ or_false (syncs xs));
        }

    decides_like_rebuild :
        (xs : List Happening) (env : Env) (host : Bytes) (port : ℕ)
        → allow_host unicode_lower (live unicode_lower xs up).handler.acl host port
          ≡ allow_host unicode_lower
              (rebuild unicode_lower (some (latest (callbacks xs) [])) new_watcher)
              host
              port
    decides_like_rebuild xs env host port =
        allow_host-live unicode_lower xs up host port
        ∙ ap (λ w. allow_host unicode_lower (run unicode_lower (callbacks xs) w) host port)
            (at_start env []).fresh
        ∙ allow_host-run unicode_lower (callbacks xs) host port
        ∙ sym (allow_host-rebuild unicode_lower (latest (callbacks xs) []) new_watcher host port)

    -- Whenever since main has started the proxy a request comes, if it reaches the upstream in any
    -- way, then the last listing of ServiceEntries that succeeded until then names its target: a host
    -- that its patterns cover, at a port that it admits. strings.ToLower is the same throughout.
    pub live-IsListed :
        (xs : List Happening) (env : Env) (r : Request) (tr : Trace)
        → env.unicode_lower ≡ unicode_lower
        → contacts (serve_http env (live unicode_lower xs up).handler r tr) ≢ contacts tr
        → IsListed unicode_lower (latest (callbacks xs) []) (target r).0 (target r).1
    live-IsListed xs env r tr same reached =
        elim (Bool-cases (permitted env (live unicode_lower xs up).handler r)) [
          | inr refused ↦
              absurd
                (reached (refused-contacts env (live unicode_lower xs up).handler r tr refused))
          | inl allowed ↦
              allow_host_sound unicode_lower (latest (callbacks xs) []) new_watcher (target r).0
                (target r).1
                (ap (λ (d : Bool × HostEntry). d.0)
                    (sym (decides_like_rebuild xs env (target r).0 (target r).1))
                  ∙ subst
                      (λ f.
                        (allow_host f (live unicode_lower xs up).handler.acl (target r).0
                          (target r).1).0
                        ≡ true)
                      same allowed)
        ]
