-- ===== src/Main/Readiness.antt =====
-- What the admin endpoints answer.
use istio_forward_proxy.Base.{Bool, false, List, ◌∷◌, Option, none, some, Bytes, ◌≡◌, refl}
use istio_forward_proxy.ServiceEntry.Defs.{
  Watcher, is_synced, mark_synced, new_watcher, rebuild, ServiceEntry,
}
use istio_forward_proxy.ServiceEntry.Dump.{Json}
use istio_forward_proxy.Proxy.Effects.{Trace, http_error}
use istio_forward_proxy.Proxy.Views.{statuses, select}
use istio_forward_proxy.Main.Admin.{readyz, debug_allowlist, is_loopback}

-- The endpoint /readyz answers 503 for a new Watcher and 200 once its cache is synced, and a rebuild
-- changes neither answer.
pub readyz-statuses :
    (unicode_lower : Bytes → Bytes) (listing : Option (List ServiceEntry)) (w : Watcher)
    (tr : Trace)
    → (statuses (readyz new_watcher tr) ≡ 503 ∷ statuses tr)
      × (statuses (readyz (mark_synced w) tr) ≡ 200 ∷ statuses tr)
      × (statuses (readyz (rebuild unicode_lower listing w) tr) ≡ statuses (readyz w tr))
unfolding readyz new_watcher mark_synced rebuild is_synced statuses select http_error
readyz-statuses unicode_lower none w tr = (refl, refl, refl)
readyz-statuses unicode_lower (some ses) w tr = (refl, refl, refl)

-- The answer of /debug/allowlist to a caller outside the loopback interface does not depend on the
-- allowlist.
pub debug_allowlist_secret :
    (parse_ip : Bytes → Option Bool) (encode : Json → Bytes) (addr : Bytes) (w v : Watcher)
    (tr : Trace)
    → is_loopback parse_ip addr ≡ false
    → debug_allowlist parse_ip encode addr w tr ≡ debug_allowlist parse_ip encode addr v tr
unfolding debug_allowlist
debug_allowlist_secret parse_ip encode addr w v tr outside = rw outside refl
