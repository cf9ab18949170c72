-- ===== src/ServiceEntry/Defs.antt =====
-- internal/serviceentry/watcher.go and handlers.go: the state of a Watcher and its operations.
-- A method that holds the lock for its whole body is one step on the state.
use istio_forward_proxy.Base.{
  ℕ, ◌+◌, Bool, true, false, List, [], ◌∷◌, ◌++◌, Option, none, some, Bytes, codes, Map, lookup,
  insert, to_lower, trim_suffix, has_prefix, has_suffix, drop, length, is_empty, ◌==◌,
  if◌then◌else◌,
}

pub record HostEntry : Type 0 where
  pub namespace : Bytes
  pub name : Bytes
  pub ports : List ℕ
  pub allowed_ports : List ℕ

pub record WildcardEntry : Type 0 where
  pub suffix : Bytes
  pub entry : HostEntry

-- The fields that the mutex guards, and the atomic flag.
pub record Watcher : Type 0 where
  pub hosts : Map HostEntry
  pub wildcards : List WildcardEntry
  pub synced : Bool

-- What the program reads of a ServiceEntry of the Istio API.
pub record ServiceEntry : Type 0 where
  pub namespace : Bytes
  pub name : Bytes
  pub hosts : List Bytes
  pub ports : List ℕ

-- hostEntry{}
abbrev pub no_entry : HostEntry
no_entry = record { namespace = []; name = []; ports = []; allowed_ports = [] }

-- NewWatcher, once the clients are made
unfoldable pub new_watcher : Watcher
new_watcher = record { hosts = []; wildcards = []; synced = false }

-- Synced
unfoldable pub is_synced : Watcher → Bool
is_synced w = w.synced

-- Run, after WaitForCacheSync
unfoldable pub mark_synced : Watcher → Watcher
mark_synced w = record w { synced = true }

-- Count
unfoldable pub count : Watcher → ℕ
count w = length w.hosts + length w.wildcards

-- the loop of portAllowed
unfoldable pub lists_port : List ℕ → ℕ → Bool
lists_port [] port = false
lists_port (p ∷ ps) port = if p == port then true else lists_port ps port

-- portAllowed
unfoldable pub port_allowed : HostEntry → ℕ → Bool
unfolding lists_port
port_allowed e port = if is_empty e.allowed_ports then true else lists_port e.allowed_ports port

-- The loop of AllowHost over the wildcards.
unfoldable pub match_wildcards : List WildcardEntry → Bytes → ℕ → Bool × HostEntry
match_wildcards [] host port = (false, no_entry)
match_wildcards (wc ∷ wcs) host port =
    if has_suffix host wc.suffix
    then if port_allowed wc.entry port then (true, wc.entry) else (false, wc.entry)
    else match_wildcards wcs host port

-- The body of AllowHost behind its first line, which normalises the host.
unfoldable pub allow_name : Watcher → Bytes → ℕ → Bool × HostEntry
allow_name w host port = elim (lookup host w.hosts) [
  | some entry ↦ if port_allowed entry port then (true, entry) else (false, entry)
  | none ↦ match_wildcards w.wildcards host port
]

-- watchHandlers: the three callbacks of the informer, each with the listing that its rebuild reads.
pub data InformerEvent : Type 0 where
  added updated deleted : Option (List ServiceEntry) → InformerEvent

-- The two maps that a rebuild fills.
pub record Table : Type 0 where
  pub hosts : Map HostEntry
  pub wildcards : List WildcardEntry

-- The hostEntry literal of rebuild
unfoldable pub entry_of : ServiceEntry → HostEntry
entry_of se = record {
  namespace = se.namespace;
  name = se.name;
  ports = se.ports;
  allowed_ports = se.ports;
}

-- One round of the inner loop of rebuild, at a host that is normalised already.
unfoldable pub add_host : HostEntry → Bytes → Table → Table
add_host entry h t =
    if has_prefix h (codes "*.")
    then record t { wildcards = t.wildcards ++ record { suffix = drop 1 h; entry = entry } ∷ [] }
    else record t { hosts = insert h entry t.hosts }

-- The argument is the Unicode part of strings.ToLower.
module _ (unicode_lower : Bytes → Bytes) where
  -- strings.ToLower(strings.TrimSuffix(host, "."))
  unfoldable pub normalize : Bytes → Bytes
  normalize host = to_lower unicode_lower (trim_suffix host b'.')

  -- AllowHost
  unfoldable pub allow_host : Watcher → Bytes → ℕ → Bool × HostEntry
  allow_host w host port = allow_name w (normalize host) port

  -- The loop of rebuild over the hosts of one ServiceEntry.
  unfoldable pub add_hosts : HostEntry → List Bytes → Table → Table
  add_hosts entry [] t = t
  add_hosts entry (h ∷ hs) t = add_hosts entry hs (add_host entry (normalize h) t)

  -- The loop of rebuild over the ServiceEntries.
  unfoldable pub add_entries : List ServiceEntry → Table → Table
  add_entries [] t = t
  add_entries (se ∷ ses) t = add_entries ses (add_hosts (entry_of se) se.hosts t)

  unfoldable pub build : List ServiceEntry → Table
  build entries = add_entries entries (record { hosts = []; wildcards = [] })

  -- rebuild; the argument is what lister.List returned, `none` for an error.
  unfoldable pub rebuild : Option (List ServiceEntry) → Watcher → Watcher
  rebuild none w = w
  rebuild (some entries) w =
      let t = build entries in record w { hosts = t.hosts; wildcards = t.wildcards }

  -- The callbacks.
  unfoldable pub handle_event : InformerEvent → Watcher → Watcher
  handle_event (added listing) w = rebuild listing w
  handle_event (updated listing) w = rebuild listing w
  handle_event (deleted listing) w = rebuild listing w
