-- ===== src/Certs/Tests.antt =====
-- Reloads and rotations at concrete files.
use istio_forward_proxy.Base.{true, false, List, [], ◌∷◌, ◌++◌, none, some, Bytes, codes, ◌≡◌, refl}
use istio_forward_proxy.Certs.Defs.{
  Os, Config, Manager, reload, on_event, watch_loop, tls_config, new_manager, Op, Signal, event,
  watch_error, is_relevant, watch, version_tls12,
}
use istio_forward_proxy.Certs.Reload.{Holds, Outcome, reload-Outcome, new_manager-Holds}
use istio_forward_proxy.Certs.Watching.{Keeps, Origin, watch-Keeps, watch_rotates, goes_on, handled}

-- Files whose key pair, leaf and CA all have one text.
abbrev files : Bytes → Os
files text = record {
  join = λ dir name. dir ++ b'/' ∷ name;
  load_key_pair = λ cert key. some (record { first = text; others = [] });
  parse_certificate = λ der. some (record { subject = der; not_after = 1 });
  read_file = λ path. some text;
  pool_of_pem = λ pem. some (pem ∷ []);
}

abbrev broken : Os
broken = record (files []) { pool_of_pem = λ pem. none }

abbrev config : Bytes → Config
config text = record {
  certificate = record { first = text; others = [] };
  leaf = record { subject = text; not_after = 1 };
  root_cas = text ∷ [];
  min_version = version_tls12;
}

abbrev dir : Bytes
dir = codes "/certs"

abbrev manager : Manager
manager = record { dir = dir; current = some (config (codes "old")) }

holds : (text : Bytes) → Holds (files text) dir (config text)
holds text = record {
  key_pair = refl;
  parsed = refl;
  pem = text;
  ca_file = refl;
  ca_pool = refl;
  version = refl;
}

reload-Outcome_example : Outcome broken manager (reload broken manager [])
reload-Outcome_example = reload-Outcome broken manager []

new_manager_works : (new_manager (files (codes "old")) dir []).0 ≡ some manager
unfolding new_manager reload
new_manager_works = refl

new_manager-Holds_example :
    (c : Config) × Holds (files (codes "old")) dir c
    × (tls_config manager ≡ some c)
    × (manager.dir ≡ dir)
new_manager-Holds_example = new_manager-Holds (files (codes "old")) dir [] manager new_manager_works

abbrev created : Op
created = record { create = true; write = false; remove = false; rename = false; chmod = false }

abbrev touched : Op
touched = record created { create = false; chmod = true }

abbrev before : List Signal
before = event created broken ∷ watch_error ∷ event touched (files (codes "mid")) ∷ []

watch_runs : tls_config (watch true true before manager []).0 ≡ some (config (codes "old"))
unfolding watch watch_loop on_event is_relevant reload tls_config
watch_runs = refl

watch-Keeps_example :
    Keeps manager (watch true true before manager []).0
    × ((c : Config)
        → tls_config (watch true true before manager []).0 ≡ some c
        → Origin before manager c)
watch-Keeps_example = watch-Keeps true true before manager []

watch_rotates_example :
    tls_config (watch true true (before ++ event created (files (codes "new")) ∷ []) manager []).0
    ≡ some (config (codes "new"))
unfolding is_relevant
watch_rotates_example =
    watch_rotates before created (files (codes "new")) manager [] (config (codes "new"))
      (handled, (goes_on, (handled, tt))) refl (holds (codes "new"))
