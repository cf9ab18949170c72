-- ===== src/ServiceEntry/Running.antt =====
-- internal/serviceentry/watcher.go: loadKubeConfig, the errors of NewWatcher, and Run.
use istio_forward_proxy.Base.{
  Bool, true, false, not, List, [], ◌∷◌, ◌++◌, Option, none, some, Bytes, ℕ, ◌≡◌, refl, ap, sym,
  ◌∙◌, if◌then◌else◌,
}
use istio_forward_proxy.ServiceEntry.Defs.{
  Watcher, InformerEvent, added, updated, deleted, new_watcher, rebuild, allow_name, mark_synced,
  is_synced, handle_event, allow_host, normalize,
}
use istio_forward_proxy.ServiceEntry.Spec.{decide, offers}
use istio_forward_proxy.ServiceEntry.History.{run, latest, allow_host-run}

-- The answers of client-go and of the Istio client: rest.InClusterConfig, the configuration that
-- the loading rules of clientcmd find, and whether NewForConfig accepts a configuration.
pub record Kube : Type 0 where
  pub in_cluster_config : Option Bytes
  pub client_config : Option Bytes
  pub accepts : Bytes → Bool

-- loadKubeConfig
unfoldable pub load_kube_config : Kube → Option Bytes
load_kube_config k = elim k.in_cluster_config [ some cfg ↦ some cfg | none ↦ k.client_config ]

-- NewWatcher
unfoldable pub watcher_for : Kube → Option Watcher
watcher_for k = elim (load_kube_config k) [
  | none ↦ none
  | some cfg ↦ if not (k.accepts cfg) then none else some new_watcher
]

-- Run: whether AddEventHandler succeeds, and the callbacks that come before WaitForCacheSync returns
-- and behind it.
unfoldable pub run_watcher :
    (Bytes → Bytes) → Bool → List InformerEvent → List InformerEvent → Watcher → Watcher
run_watcher unicode_lower handled before after w =
    if not handled then w else run unicode_lower after (mark_synced (run unicode_lower before w))

module _ (unicode_lower : Bytes → Bytes) where
  handle_event-mark_synced :
      (e : InformerEvent) (w : Watcher)
      → handle_event unicode_lower e (mark_synced w) ≡ mark_synced (handle_event unicode_lower e w)
  unfolding handle_event mark_synced rebuild
  handle_event-mark_synced (added none) w = refl
  handle_event-mark_synced (added (some ses)) w = refl
  handle_event-mark_synced (updated none) w = refl
  handle_event-mark_synced (updated (some ses)) w = refl
  handle_event-mark_synced (deleted none) w = refl
  handle_event-mark_synced (deleted (some ses)) w = refl

  pub run-mark_synced :
      (es : List InformerEvent) (w : Watcher)
      → run unicode_lower es (mark_synced w) ≡ mark_synced (run unicode_lower es w)
  unfolding run
  run-mark_synced [] w = refl
  run-mark_synced (e ∷ es) w =
      rw (handle_event-mark_synced e w) (run-mark_synced es (handle_event unicode_lower e w))

  run-append :
      (es fs : List InformerEvent) (w : Watcher)
      → run unicode_lower (es ++ fs) w ≡ run unicode_lower fs (run unicode_lower es w)
  unfolding run
  run-append [] fs w = refl
  run-append (e ∷ es) fs w = run-append es fs (handle_event unicode_lower e w)

  run_watcher-handled :
      (before after : List InformerEvent) (w : Watcher)
      → run_watcher unicode_lower true before after w
        ≡ mark_synced (run unicode_lower (before ++ after) w)
  unfolding run_watcher
  run_watcher-handled before after w =
      run-mark_synced after (run unicode_lower before w)
      ∙ ap mark_synced (sym (run-append before after w))

  pub allow_host-mark_synced :
      (w : Watcher) (host : Bytes) (port : ℕ)
      → allow_host unicode_lower (mark_synced w) host port ≡ allow_host unicode_lower w host port
  unfolding allow_host allow_name mark_synced
  allow_host-mark_synced w host port = refl

  pub is_synced-mark_synced : (w : Watcher) → is_synced (mark_synced w) ≡ true
  unfolding is_synced mark_synced
  is_synced-mark_synced w = refl

  -- A Watcher that runs decides by the last listing that succeeded, of the callbacks before the cache
  -- is synced and behind it, or by the empty one, and it says that it is synced. One whose event
  -- handler is not accepted goes on refusing every host, and never says so.
  pub run_watcher-decides :
      (handled : Bool) (before after : List InformerEvent) (host : Bytes) (port : ℕ)
      → (allow_host unicode_lower
            (run_watcher unicode_lower handled before after new_watcher)
            host
            port
          ≡ decide
              (offers unicode_lower (if handled then latest (before ++ after) [] else []))
              (normalize unicode_lower host)
              port)
        × (is_synced (run_watcher unicode_lower handled before after new_watcher) ≡ handled)
  run_watcher-decides true before after host port = (
    rw (run_watcher-handled before after new_watcher) (
        allow_host-mark_synced (run unicode_lower (before ++ after) new_watcher) host port
        ∙ allow_host-run unicode_lower (before ++ after) host port),
    rw (run_watcher-handled before after new_watcher) (is_synced-mark_synced _),
  )
  run_watcher-decides false before after host port = (
    unfold run_watcher in unfold run latest in allow_host-run unicode_lower [] host port,
    unfold run_watcher is_synced new_watcher in refl,
  )
