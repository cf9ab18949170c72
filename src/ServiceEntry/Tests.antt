-- ===== src/ServiceEntry/Tests.antt =====
-- Runs of the Watcher, and the theorems at concrete inputs.
use istio_forward_proxy.Base.{
  true, false, List, [], ◌∷◌, ◌++◌, none, some, Bytes, codes, ◌≡◌, ◌↔◌, refl, inl, inr, Occurs-cons,
  Occurs, there, if◌then◌else◌, ap, here, lookup, insert, equal, has_prefix, has_suffix, to_lower,
  is_ascii, trim_suffix,
}
use mathlib.Core.Path.{subst}
use istio_forward_proxy.ServiceEntry.Defs.{
  ServiceEntry, Watcher, new_watcher, mark_synced, is_synced, allow_host, allow_name, build,
  add_entries, add_hosts, add_host, match_wildcards, port_allowed, lists_port, rebuild, normalize,
  entry_of, added, updated, deleted, handle_event, no_entry, InformerEvent,
}
use istio_forward_proxy.ServiceEntry.Spec.{decide, offers, IsListed, verdict}
use istio_forward_proxy.ServiceEntry.Refinement.{allow_host-rebuild}
use istio_forward_proxy.ServiceEntry.Safety.{allow_host_sound}
use istio_forward_proxy.ServiceEntry.Coverage.{allow_host_iff, AllAdmit}
use istio_forward_proxy.ServiceEntry.Dump.{payload}
use istio_forward_proxy.ServiceEntry.Dump.Reader.{read_watcher, read_watcher-payload}
use istio_forward_proxy.ServiceEntry.Order.{SameMembers, allow_host-members}
use istio_forward_proxy.ServiceEntry.Invariant.{start, next, event, sync, Reach-IsValid, IsValid}
use istio_forward_proxy.ServiceEntry.Running.{run_watcher, run_watcher-decides}
use istio_forward_proxy.ServiceEntry.History.{latest, NoExact, last_listed_decides}

-- On ASCII text the tables are not consulted.
abbrev same : Bytes → Bytes
same s = s

abbrev news : ServiceEntry
news = record {
  namespace = codes "team-a";
  name = codes "news";
  hosts = codes "Edition.CNN.com." ∷ codes "*.example.com" ∷ [];
  ports = 80 ∷ 443 ∷ [];
}

abbrev open_ports : ServiceEntry
open_ports = record {
  namespace = codes "team-b";
  name = codes "api";
  hosts = codes "api.io" ∷ [];
  ports = [];
}

abbrev listing : List ServiceEntry
listing = news ∷ open_ports ∷ []

ruled :
    (allow_host same (rebuild same (some listing) new_watcher) (codes "edition.cnn.com") 443
      ≡ (true, entry_of news))
    × (allow_host same (rebuild same (some listing) new_watcher) (codes "a.b.EXAMPLE.com.") 80
        ≡ (true, entry_of news))
    × (allow_host same (rebuild same (some listing) new_watcher) (codes "example.com") 80
        ≡ (false, no_entry))
    × (allow_host same (rebuild same (some listing) new_watcher) (codes "api.io") 9999
        ≡ (true, entry_of open_ports))
    × (allow_host same (rebuild same (some listing) new_watcher) (codes "edition.cnn.com") 22
        ≡ (false, entry_of news))
unfolding allow_host allow_name normalize to_lower is_ascii trim_suffix rebuild build add_entries
    add_hosts add_host has_prefix has_suffix equal insert lookup new_watcher match_wildcards
    port_allowed lists_port entry_of
ruled = (refl, refl, refl, refl, refl)

allow_host-rebuild_example :
    allow_host same (rebuild same (some listing) new_watcher) (codes "api.io") 443
    ≡ decide (offers same listing) (normalize same (codes "api.io")) 443
allow_host-rebuild_example = allow_host-rebuild same listing new_watcher (codes "api.io") 443

allowed_api :
    (allow_host same (rebuild same (some listing) new_watcher) (codes "api.io") 443).0 ≡ true
unfolding allow_host allow_name normalize to_lower is_ascii trim_suffix rebuild build add_entries
    add_hosts add_host has_prefix has_suffix equal insert lookup new_watcher match_wildcards
    port_allowed lists_port entry_of
allowed_api = refl

allow_host_sound_example : IsListed same listing (codes "api.io") 443
allow_host_sound_example =
    allow_host_sound same listing new_watcher (codes "api.io") 443 allowed_api

abbrev one_host : List ServiceEntry
one_host = open_ports ∷ []

only_open : AllAdmit same one_host (codes "api.io") 7
only_open se h o at c = elim (Occurs-cons o) [
  | inl this ↦ inl (ap (λ (s : ServiceEntry). s.ports) this)
  | inr later ↦ elim later [ ]
]

allow_host_iff_example :
    ((allow_host same (rebuild same (some one_host) new_watcher) (codes "api.io") 7).0 ≡ true)
    ↔ IsListed same one_host (codes "api.io") 7
allow_host_iff_example = allow_host_iff same one_host new_watcher (codes "api.io") 7 only_open

abbrev spare : ServiceEntry
spare = record {
  namespace = codes "team-c";
  name = codes "spare";
  hosts = codes "*.io" ∷ codes "api.io" ∷ [];
  ports = [];
}

abbrev one_way : List ServiceEntry
one_way = spare ∷ open_ports ∷ []

abbrev other_way : List ServiceEntry
other_way = open_ports ∷ spare ∷ []

turn : (se a b : ServiceEntry) → Occurs se (a ∷ b ∷ []) → Occurs se (b ∷ a ∷ [])
turn se a b o = elim (Occurs-cons o) [
  | inl this ↦ rw this (there here)
  | inr later ↦ elim (Occurs-cons later) [ inl that ↦ rw that here | inr rest ↦ elim rest [ ] ]
]

same_two : SameMembers one_way other_way
same_two se = (turn se spare open_ports, turn se open_ports spare)

both_admit : AllAdmit same one_way (codes "api.io") 7
both_admit se h o at c = elim (Occurs-cons o) [
  | inl this ↦ inl (ap (λ (s : ServiceEntry). s.ports) this)
  | inr later ↦ elim (Occurs-cons later) [
    | inl that ↦ inl (ap (λ (s : ServiceEntry). s.ports) that)
    | inr rest ↦ elim rest [ ]
  ]
]

allow_host-members_example :
    (allow_host same (rebuild same (some one_way) new_watcher) (codes "api.io") 7).0
    ≡ (allow_host same (rebuild same (some other_way) new_watcher) (codes "api.io") 7).0
allow_host-members_example =
    allow_host-members same one_way other_way new_watcher new_watcher (codes "api.io") 7 same_two
      (inl both_admit)

abbrev history : List InformerEvent
history = added (some one_host) ∷ updated none ∷ deleted (some listing) ∷ []

abbrev reached : Watcher
reached = run_watcher same true history [] new_watcher

read_watcher-payload_example : read_watcher (payload reached) ≡ some reached
read_watcher-payload_example = read_watcher-payload reached

run_watcher-decides_example :
    (allow_host same
        (run_watcher same true history (updated none ∷ []) new_watcher)
        (codes "api.io")
        7
      ≡ decide
          (offers same (if true then latest (history ++ updated none ∷ []) [] else []))
          (normalize same (codes "api.io"))
          7)
    × (is_synced (run_watcher same true history (updated none ∷ []) new_watcher) ≡ true)
run_watcher-decides_example =
    run_watcher-decides same true history (updated none ∷ []) (codes "api.io") 7

Reach-IsValid_example :
    IsValid
      (mark_synced (handle_event same (added (some listing)) new_watcher)).hosts
      (mark_synced (handle_event same (added (some listing)) new_watcher)).wildcards
Reach-IsValid_example = Reach-IsValid same (next (next start (event (added (some listing)))) sync)

abbrev rival : ServiceEntry
rival = record {
  namespace = codes "team-c";
  name = codes "rival";
  hosts = codes "api.io" ∷ [];
  ports = 22 ∷ [];
}

-- What is listed behind it names another host.
abbrev behind : List ServiceEntry
behind = record rival { hosts = codes "other.io" ∷ [] } ∷ []

other_names : NoExact same behind (codes "API.io")
unfolding normalize to_lower is_ascii trim_suffix
other_names se h o at e = elim (Occurs-cons o) [
  | inr rest ↦ elim rest [ ]
  | inl this ↦ elim (Occurs-cons (subst (λ (s : ServiceEntry). Occurs h s.hosts) this at)) [
    | inr rest ↦ elim rest [ ]
    | inl named ↦
        let spelled : normalize same (codes "other.io") ≡ normalize same (codes "API.io") =
          subst (λ n. normalize same n ≡ normalize same (codes "API.io")) named e in
        cc spelled
  ]
]

last_listed_decides_example :
    allow_host same
      (rebuild same (some (listing ++ rival ∷ behind)) new_watcher)
      (codes "API.io")
      443
    ≡ verdict (entry_of rival) 443
unfolding normalize to_lower is_ascii trim_suffix has_prefix
last_listed_decides_example =
    last_listed_decides same listing rival behind new_watcher (codes "api.io") (codes "API.io") 443
      here refl refl other_names
