-- ===== src/Main/Tests.antt =====
-- The configuration and the admin endpoints at concrete inputs.
use istio_forward_proxy.Base.{
  Bool, false, true, [], ◌∷◌, ◌++◌, Option, some, Bytes, codes, ◌≡◌, refl, contains, lookup, map,
  equal, last_index_byte, index_byte,
}
use istio_forward_proxy.Net.{net_split_host_port}
use istio_forward_proxy.Http.Header.{canonical_key, valid_field, valid_field_byte}
use istio_forward_proxy.ServiceEntry.Defs.{new_watcher, mark_synced, is_synced}
use istio_forward_proxy.ServiceEntry.Dump.{Json}
use istio_forward_proxy.Proxy.Effects.{http_error}
use istio_forward_proxy.Proxy.Views.{statuses, select}
use istio_forward_proxy.Main.Settings.{
  header_name_from_env, header_name_loop, extra_headers, extra_prefix, parse_log_level, level_warn,
  level_info, env_or_bool,
}
use istio_forward_proxy.Main.Admin.{is_loopback, debug_allowlist, readyz}
use istio_forward_proxy.Main.HeaderNames.{
  dash, header_name_from_env-canonical_key, extra_headers-lookup,
}

settings_tests :
    (header_name_from_env (codes "X_CORP_ID") ≡ codes "X-Corp-Id")
    × (parse_log_level (codes "warn") ≡ level_warn)
    × (parse_log_level (codes "WARN") ≡ level_info)
    × (env_or_bool (codes "yes") false ≡ true)
    × (env_or_bool (codes "TRUE") false ≡ false)
unfolding header_name_from_env header_name_loop parse_log_level env_or_bool equal
settings_tests = (refl, refl, refl, refl, refl)

header_name_from_env-canonical_key_example :
    header_name_from_env (codes "X_CORP_ID") ≡ canonical_key (map dash (codes "X_CORP_ID"))
unfolding contains valid_field valid_field_byte
header_name_from_env-canonical_key_example =
    header_name_from_env-canonical_key (codes "X_CORP_ID") refl refl

extra_headers-lookup_example :
    lookup (header_name_from_env (codes "X_ID")) (
      extra_headers
        (codes "HOME=/" ∷ (extra_prefix ++ (codes "X_ID" ++ b'=' ∷ codes "a=b")) ∷ [])
        [])
    ≡ some (codes "a=b")
unfolding contains
extra_headers-lookup_example =
    extra_headers-lookup (codes "HOME=/" ∷ []) (codes "X_ID") (codes "a=b") [] refl

-- One loopback address, and no other.
abbrev only_local : Bytes → Option Bool
only_local s = some (equal s (codes "127.0.0.1"))

abbrev no_text : Json → Bytes
no_text v = []

admin_tests :
    (statuses (debug_allowlist only_local no_text (codes "10.0.0.7:4242") new_watcher [])
      ≡ 403 ∷ [])
    × (statuses (readyz new_watcher []) ≡ 503 ∷ [])
    × (statuses (readyz (mark_synced new_watcher) []) ≡ 200 ∷ [])
unfolding debug_allowlist is_loopback net_split_host_port last_index_byte index_byte contains equal
    readyz is_synced mark_synced new_watcher statuses select http_error
admin_tests = (refl, refl, refl)
