-- ===== src/Proxy/Tests.antt =====
-- Requests served end to end, and the theorems at concrete inputs.
use istio_forward_proxy.Proxy.Samples.{
  same, listing, proxy, env, client_header, plain, reply_ok, through, elsewhere,
}
use istio_forward_proxy.Base.{
  true, false, [], ◌∷◌, codes, ◌≡◌, ◌≢◌, refl, lookup, insert, equal, contains, last_index_byte,
  index_byte, to_lower, is_ascii, trim_suffix, has_prefix, has_suffix, if◌then◌else◌, ◌&&◌,
}
use istio_forward_proxy.Net.{
  net_split_host_port, split_host_port, parse_uint, default_port_for_scheme,
}
use istio_forward_proxy.Http.Header.{canonical_key, capitalize, valid_field, valid_field_byte}
use istio_forward_proxy.Audit
use istio_forward_proxy.ServiceEntry.Defs.{
  new_watcher, rebuild, build, allow_host, allow_name, match_wildcards, port_allowed, lists_port,
  normalize, add_entries, add_hosts, add_host, entry_of,
}
use istio_forward_proxy.ServiceEntry.Spec.{IsListed}
use istio_forward_proxy.Proxy.Effects.{http}
use istio_forward_proxy.Proxy.Headers.{upstream_header, build_upstream_request}
use istio_forward_proxy.Proxy.Headers.Laws.{expected, upstream_header-lookup}
use istio_forward_proxy.Proxy.Identity.{spiffe_from_request}
use istio_forward_proxy.Proxy.Forward.{
  forward_target, handle_http_forward, forward, attempt, conclude, reply, copy_header, copy_values,
}
use istio_forward_proxy.Proxy.Forward.Replies.{
  handle_http_forward-outcome, outcome, status, is_absolute, forward_allowed, upstream_request,
}
use istio_forward_proxy.Proxy.Forward.Responses.{PassedOn, handle_http_forward-PassedOn}
use istio_forward_proxy.Proxy.Forward.Audited.{handle_http_forward-Recorded}
use istio_forward_proxy.Proxy.Connect.{serve_http, handle_connect}
use istio_forward_proxy.Proxy.Connect.Balance.{IsBalanced, handle_connect-IsBalanced}
use istio_forward_proxy.Proxy.Connect.Audited.{
  connect_target, connect_allowed, connect_verdict, tunnels, handle_connect-Recorded,
}
use istio_forward_proxy.Proxy.Connect.Served.{IsServed, faultless-IsServed}
use istio_forward_proxy.Proxy.Connect.Delivery.{Delivered}
use istio_forward_proxy.Proxy.Connect.Tallies.{Counted}
use istio_forward_proxy.Proxy.Connect.Answers.{answered, handle_connect-Answered}
use istio_forward_proxy.Proxy.Connect.Tunnels.{
  IsFaultless, faultless-tunnels, handle_connect-Delivered, upstream_bytes, client_bytes,
}
use istio_forward_proxy.Proxy.Recorded.{Recorded}
use istio_forward_proxy.Base.{has_prefix, length, ◌+◌}
use istio_forward_proxy.Proxy.Tunnel.{tunnel, bytes_in, bytes_out}
use istio_forward_proxy.Proxy.Connect.Counts.{tunnel-length}
use istio_forward_proxy.Proxy.Connect.Measures.{inc_of, dec_of}
use istio_forward_proxy.Proxy.Connect.Balance.{Matched}
use istio_forward_proxy.Proxy.Forward.Balance.{handle_http_forward-Matched}
use istio_forward_proxy.Proxy.Views.{sent_to_upstream, sent_to_client}
use istio_forward_proxy.Proxy.Gate.{target, permitted, refused-contacts, contacts-IsListed}
use istio_forward_proxy.Proxy.Views.{contacts, counts, statuses, requests, audits, select}

upstream_header-lookup_example :
    lookup (codes "Te") (upstream_header same proxy client_header)
    ≡ expected proxy client_header (codes "Te")
unfolding canonical_key capitalize valid_field valid_field_byte contains
upstream_header-lookup_example =
    upstream_header-lookup same proxy client_header (codes "Te") (refl, (refl, tt)) refl refl

refused_elsewhere : permitted env proxy elsewhere ≡ false
unfolding target split_host_port net_split_host_port parse_uint last_index_byte index_byte contains
    equal allow_host allow_name normalize to_lower is_ascii trim_suffix rebuild build add_entries
    add_hosts add_host has_prefix has_suffix insert lookup new_watcher match_wildcards port_allowed
    lists_port entry_of
refused_elsewhere = refl

refused-contacts_example : contacts (serve_http env proxy elsewhere []) ≡ contacts []
refused-contacts_example = refused-contacts env proxy elsewhere [] refused_elsewhere

allowed_through : connect_allowed env proxy through ≡ true
unfolding split_host_port net_split_host_port parse_uint last_index_byte index_byte contains equal
    allow_host allow_name normalize to_lower is_ascii trim_suffix rebuild build add_entries
    add_hosts add_host has_prefix has_suffix insert lookup new_watcher match_wildcards port_allowed
    lists_port entry_of
allowed_through = refl

allowed_plain : forward_allowed env proxy plain ≡ true
unfolding forward_target default_port_for_scheme split_host_port net_split_host_port parse_uint
    last_index_byte index_byte contains equal allow_host allow_name normalize to_lower is_ascii
    trim_suffix rebuild build add_entries add_hosts add_host has_prefix has_suffix insert lookup
    new_watcher match_wildcards port_allowed lists_port entry_of
allowed_plain = refl

handle_http_forward-outcome_example :
    (counts (handle_http_forward env proxy plain [])
      ≡ (http, outcome env proxy plain []) ∷ counts [])
    × (statuses (handle_http_forward env proxy plain []) ≡ status env proxy plain [] ∷ statuses [])
    × (requests (handle_http_forward env proxy plain []) ≡ (
        if is_absolute plain && forward_allowed env proxy plain
        then upstream_request env proxy plain ∷ requests []
        else requests []))
handle_http_forward-outcome_example = handle_http_forward-outcome env proxy plain []

handle_http_forward-PassedOn_example :
    PassedOn env proxy plain reply_ok 2 (handle_http_forward env proxy plain []) []
handle_http_forward-PassedOn_example =
    handle_http_forward-PassedOn env proxy plain [] reply_ok refl allowed_plain refl

handle_http_forward-Recorded_example :
    Recorded Audit.http_forward
      (forward_target plain)
      plain
      (spiffe_from_request env.parse_url proxy plain)
      (status env proxy plain [])
      (outcome env proxy plain [])
      (audits (handle_http_forward env proxy plain []))
      (audits [])
handle_http_forward-Recorded_example = handle_http_forward-Recorded env proxy plain []

handle_connect-Recorded_example :
    Recorded Audit.connect
      (connect_target through)
      through
      (spiffe_from_request env.parse_url proxy through)
      200
      (connect_verdict env proxy through [])
      (audits (handle_connect env proxy through []))
      (audits [])
handle_connect-Recorded_example = handle_connect-Recorded env proxy through []

handle_connect-Answered_example :
    Counted
      (connect_verdict env proxy through [])
      (counts (handle_connect env proxy through []))
      (counts [])
    × (statuses (handle_connect env proxy through []) ≡ answered env proxy through (statuses []))
handle_connect-Answered_example = handle_connect-Answered env proxy through []

handle_connect-IsBalanced_example : IsBalanced [] (handle_connect env proxy through [])
handle_connect-IsBalanced_example = handle_connect-IsBalanced env proxy through []

abbrev fine : IsFaultless env proxy
fine = record {
  hijacker = refl;
  hijacks = refl;
  dials = refl;
  shakes = refl;
  certified = refl;
  writes = λ p b tr. refl;
  answers =
      λ tr. (record { status_code = 200; status = codes "200 OK"; read_ahead = [] }, refl, refl);
}

faultless-IsServed_example : IsServed env proxy through [] (handle_connect env proxy through [])
faultless-IsServed_example = faultless-IsServed env proxy through [] fine allowed_through

runs_through : tunnels env proxy through [] ≡ true
runs_through = faultless-tunnels env proxy through fine []

handle_connect-Delivered_example :
    Delivered
      (upstream_bytes env proxy through)
      (client_bytes env proxy through)
      []
      (handle_connect env proxy through [])
handle_connect-Delivered_example =
    handle_connect-Delivered env proxy through [] allowed_through runs_through

reaches_plain : contacts (serve_http env proxy plain []) ≢ contacts []
unfolding serve_http handle_http_forward build_upstream_request forward attempt conclude reply
    contacts select forward_target default_port_for_scheme split_host_port net_split_host_port
    parse_uint last_index_byte index_byte contains equal allow_host allow_name normalize to_lower
    is_ascii trim_suffix rebuild build add_entries add_hosts add_host has_prefix has_suffix insert
    lookup new_watcher match_wildcards port_allowed lists_port entry_of copy_header copy_values
reaches_plain e = cc

contacts-IsListed_example : IsListed same listing (codes "api.io") 80
unfolding target forward_target default_port_for_scheme split_host_port net_split_host_port
    parse_uint last_index_byte index_byte contains equal
contacts-IsListed_example =
    contacts-IsListed env proxy plain [] listing new_watcher refl reaches_plain

handle_http_forward-Matched_example :
    Matched inc_of dec_of [] (handle_http_forward env proxy plain [])
handle_http_forward-Matched_example = handle_http_forward-Matched env proxy plain []

tunnel-length_example :
    (length (sent_to_upstream (tunnel true env.relayed []))
      ≡ length (sent_to_upstream []) + bytes_out env.relayed)
    × (length (sent_to_client (tunnel true env.relayed []))
        ≡ length (sent_to_client []) + bytes_in env.relayed)
tunnel-length_example = tunnel-length true env.relayed []
