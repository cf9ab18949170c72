-- ===== src/Main/Life/Steps.antt =====
-- What the happenings leave as it is, and what they change.
use istio_forward_proxy.Base.{
  ℕ, Bool, true, false, ◌||◌, List, [], ◌∷◌, Option, none, some, Bytes, is_empty, ◌≡◌, refl, ap,
  ◌∙◌, if◌then◌else◌, Bool-cases, Option-cases, inl, inr,
}
use istio_forward_proxy.Certs.Defs.{Os, Manager, Op, on_event, tls_config}
use istio_forward_proxy.Certs.Watching.{on_event-Keeps}
use istio_forward_proxy.ServiceEntry.Defs.{
  Watcher, InformerEvent, added, updated, deleted, handle_event, is_synced, allow_host, rebuild,
  new_watcher,
}
use istio_forward_proxy.ServiceEntry.History.{run}
use istio_forward_proxy.ServiceEntry.Running.{
  run-mark_synced, allow_host-mark_synced, is_synced-mark_synced,
}
use istio_forward_proxy.Proxy.Effects.{Trace, http_error}
use istio_forward_proxy.Proxy.Views.{statuses, select}
use istio_forward_proxy.Main.Admin.{readyz}
use istio_forward_proxy.Main.Startup.{Running}
use istio_forward_proxy.Main.Starting.{Certified}
use istio_forward_proxy.Main.Life.{
  Happening, callback, cache_synced, certs_event, on_manager, happen, live,
}

-- The callbacks among what happens, and whether the cache has been synced.
unfoldable pub callbacks : List Happening → List InformerEvent
callbacks [] = []
callbacks (callback e ∷ xs) = e ∷ callbacks xs
callbacks (x ∷ xs) = callbacks xs

unfoldable pub syncs : List Happening → Bool
syncs [] = false
syncs (cache_synced ∷ xs) = true
syncs (x ∷ xs) = syncs xs

-- The part of the state that no happening changes.
pub record IsSteady (mtls : Bool) (up : Running) : Type 0 where
  pub upstream : is_empty up.handler.upstream_proxy ≡ false
  pub tls : up.handler.tls_enabled ≡ mtls
  pub manages : up.handler.has_cert_manager ≡ mtls
  pub certified : Certified mtls up.manager

on_event-Certified :
    (mtls : Bool) (manager : Option Manager) (op : Op) (os : Os)
    → Certified mtls manager
    → Certified mtls (on_manager (λ m. (on_event op os m []).0) manager)
on_event-Certified true none op os c = c
on_event-Certified true (some m) op os (c, held) =
    elim (Option-cases (tls_config (on_event op os m []).0)) [
      | inr (d, found) ↦ (d, found)
      | inl lost ↦ absurd ((on_event-Keeps op os m []).ready (λ gone. cc (gone, held)) lost)
    ]
on_event-Certified false manager op os none_there = rw none_there refl

or_true : (b : Bool) → (b || true) ≡ true
or_true true = refl
or_true false = refl

pub or_false : (b : Bool) → (b || false) ≡ b
or_false true = refl
or_false false = refl

pub new_unsynced : is_synced new_watcher ≡ false
unfolding is_synced new_watcher
new_unsynced = refl

pub readyz-status :
    (w : Watcher) (tr : Trace)
    → statuses (readyz w tr) ≡ (if is_synced w then 200 else 503) ∷ statuses tr
unfolding readyz statuses select http_error
readyz-status w tr = elim (Bool-cases (is_synced w)) [ inl e ↦ rw e refl | inr e ↦ rw e refl ]

module _ (unicode_lower : Bytes → Bytes) where
  pub allow_host-live :
      (xs : List Happening) (up : Running) (host : Bytes) (port : ℕ)
      → allow_host unicode_lower (live unicode_lower xs up).handler.acl host port
        ≡ allow_host unicode_lower (run unicode_lower (callbacks xs) up.handler.acl) host port
  unfolding live happen callbacks run
  allow_host-live [] up host port = refl
  allow_host-live (callback e ∷ xs) up host port =
      allow_host-live xs (happen unicode_lower (callback e) up) host port
  allow_host-live (cache_synced ∷ xs) up host port =
      allow_host-live xs (happen unicode_lower cache_synced up) host port
      ∙ ap (λ w. allow_host unicode_lower w host port)
          (run-mark_synced unicode_lower (callbacks xs) up.handler.acl)
      ∙ allow_host-mark_synced unicode_lower (run unicode_lower (callbacks xs) up.handler.acl) host
          port
  allow_host-live (certs_event op os ∷ xs) up host port =
      allow_host-live xs (happen unicode_lower (certs_event op os) up) host port

  handle_event-is_synced :
      (e : InformerEvent) (w : Watcher) → is_synced (handle_event unicode_lower e w) ≡ is_synced w
  unfolding handle_event rebuild is_synced
  handle_event-is_synced (added none) w = refl
  handle_event-is_synced (added (some ses)) w = refl
  handle_event-is_synced (updated none) w = refl
  handle_event-is_synced (updated (some ses)) w = refl
  handle_event-is_synced (deleted none) w = refl
  handle_event-is_synced (deleted (some ses)) w = refl

  pub is_synced-live :
      (xs : List Happening) (up : Running)
      → is_synced (live unicode_lower xs up).handler.acl ≡ (syncs xs || is_synced up.handler.acl)
  unfolding live happen syncs
  is_synced-live [] up = refl
  is_synced-live (callback e ∷ xs) up =
      is_synced-live xs (happen unicode_lower (callback e) up)
      ∙ ap (λ b. syncs xs || b) (handle_event-is_synced e up.handler.acl)
  is_synced-live (cache_synced ∷ xs) up =
      is_synced-live xs (happen unicode_lower cache_synced up)
      ∙ ap (λ b. syncs xs || b) (is_synced-mark_synced unicode_lower up.handler.acl)
      ∙ or_true (syncs xs)
  is_synced-live (certs_event op os ∷ xs) up =
      is_synced-live xs (happen unicode_lower (certs_event op os) up)

  pub live-IsSteady :
      (mtls : Bool) (xs : List Happening) (up : Running)
      → IsSteady mtls up
      → IsSteady mtls (live unicode_lower xs up)
  unfolding live happen
  live-IsSteady mtls [] up v = v
  live-IsSteady mtls (callback e ∷ xs) up v =
      live-IsSteady mtls xs (happen unicode_lower (callback e) up) (record {
        upstream = v.upstream;
        tls = v.tls;
        manages = v.manages;
        certified = v.certified;
      })
  live-IsSteady mtls (cache_synced ∷ xs) up v =
      live-IsSteady mtls xs (happen unicode_lower cache_synced up) (record {
        upstream = v.upstream;
        tls = v.tls;
        manages = v.manages;
        certified = v.certified;
      })
  live-IsSteady mtls (certs_event op os ∷ xs) up v =
      live-IsSteady mtls xs (happen unicode_lower (certs_event op os) up) (record {
        upstream = v.upstream;
        tls = v.tls;
        manages = v.manages;
        certified = on_event-Certified mtls up.manager op os v.certified;
      })
