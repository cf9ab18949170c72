-- ===== src/Main/Life.antt =====
-- cmd/main.go: a process that has started its servers. Its goroutines change the state that its
-- requests share: the informer's callbacks and Run change the Watcher, Watch the certificates.
pub mod Steps
pub mod Safety
use istio_forward_proxy.Base.{Bytes, List, [], ◌∷◌, Option, none, some}
use istio_forward_proxy.Certs.Defs.{Os, Manager, Op, on_event}
use istio_forward_proxy.ServiceEntry.Defs.{Watcher, InformerEvent, handle_event, mark_synced}
use istio_forward_proxy.Proxy.Handler.{Handler}
use istio_forward_proxy.Main.Startup.{Running}

-- One change of the shared state: a callback of the informer, the end of WaitForCacheSync, or an
-- event on the certificate files with the state of the files at its time.
pub data Happening : Type 0 where
  callback : InformerEvent → Happening
  cache_synced : Happening
  certs_event : Op → Os → Happening

abbrev pub with_acl : (Watcher → Watcher) → Running → Running
with_acl f run = record run { handler = record run.handler { acl = f run.handler.acl } }

-- Watch runs only on a certificate manager that there is.
abbrev pub on_manager : (Manager → Manager) → Option Manager → Option Manager
on_manager f none = none
on_manager f (some m) = some (f m)

module _ (unicode_lower : Bytes → Bytes) where
  unfoldable pub happen : Happening → Running → Running
  happen (callback e) run = with_acl (handle_event unicode_lower e) run
  happen cache_synced run = with_acl mark_synced run
  happen (certs_event op os) run = record run {
    manager = on_manager (λ m. (on_event op os m []).0) run.manager;
  }

  -- The state behind any happenings.
  unfoldable pub live : List Happening → Running → Running
  live [] run = run
  live (x ∷ xs) run = live xs (happen x run)
