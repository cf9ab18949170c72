-- ===== src/ServiceEntry/Dump/Reader.antt =====
-- The payload of DumpJSON holds the whole state of a Watcher: it can be read back.
use istio_forward_proxy.Base.{
  ℕ, Bool, List, [], ◌∷◌, Option, none, some, Bytes, codes, equal, Map, ◌≡◌, refl, if◌then◌else◌,
}
use istio_forward_proxy.ServiceEntry.Defs.{HostEntry, WildcardEntry, Watcher}
use istio_forward_proxy.ServiceEntry.Dump.{
  Json, null, boolean, number, text, array, object, Items, no_item, item, Fields, no_field, field,
  items_of, json_of_slice, json_of_entry, json_of_wildcard, fields_of, payload,
}

-- Goes on with a value that has been read.
abbrev then_read {ℓ κ} : {A : Type ℓ} {B : Type κ} → Option A → (A → Option B) → Option B
then_read none k = none
then_read (some a) k = k a

-- The first field of a name.
unfoldable pub get : Bytes → Fields → Json
get name no_field = null
get name (field key v fs) = if equal key name then v else get name fs

unfoldable pub read_number : Json → Option ℕ
read_number (number n) = some n
read_number v = none

unfoldable pub read_text : Json → Option Bytes
read_text (text s) = some s
read_text v = none

unfoldable pub read_boolean : Json → Option Bool
read_boolean (boolean b) = some b
read_boolean v = none

unfoldable pub read_items {ℓ} : {A : Type ℓ} → (Json → Option A) → Items → Option (List A)
read_items f no_item = some []
read_items f (item v vs) = then_read (f v) (λ a. then_read (read_items f vs) (λ xs. some (a ∷ xs)))

unfoldable pub read_slice {ℓ} : {A : Type ℓ} → (Json → Option A) → Json → Option (List A)
read_slice f null = some []
read_slice f (array vs) = read_items f vs
read_slice f v = none

unfoldable pub read_entry : Json → Option HostEntry
read_entry (object fs) = then_read (read_text (get (codes "namespace") fs)) (λ namespace.
    then_read (read_text (get (codes "name") fs)) (λ name.
      then_read (read_slice read_number (get (codes "ports") fs)) (λ ports.
        then_read (read_slice read_number (get (codes "allowed_ports") fs)) (λ allowed_ports.
          some (record {
            namespace = namespace;
            name = name;
            ports = ports;
            allowed_ports = allowed_ports;
          })))))
read_entry v = none

unfoldable pub read_wildcard : Json → Option WildcardEntry
read_wildcard (object fs) = then_read (read_text (get (codes "Suffix") fs)) (λ suffix.
    then_read (read_entry (get (codes "entry") fs))
      (λ entry. some (record { suffix = suffix; entry = entry })))
read_wildcard v = none

unfoldable pub read_hosts : Fields → Option (Map HostEntry)
read_hosts no_field = some []
read_hosts (field host v fs) =
    then_read (read_entry v) (λ e. then_read (read_hosts fs) (λ hosts. some ((host, e) ∷ hosts)))

unfoldable pub read_map : Json → Option (Map HostEntry)
read_map (object fs) = read_hosts fs
read_map v = none

unfoldable pub read_watcher : Json → Option Watcher
read_watcher (object fs) = then_read (read_boolean (get (codes "synced") fs)) (λ synced.
    then_read (read_map (get (codes "hosts") fs)) (λ hosts.
      then_read (read_slice read_wildcard (get (codes "wildcards") fs))
        (λ wildcards. some (record { hosts = hosts; wildcards = wildcards; synced = synced }))))
read_watcher v = none

module _ {ℓ} {A : Type ℓ} (f : A → Json) (g : Json → Option A)
    (reads : (a : A) → g (f a) ≡ some a) where
  read_items-items_of : (xs : List A) → read_items g (items_of f xs) ≡ some xs
  unfolding read_items items_of
  read_items-items_of [] = refl
  read_items-items_of (a ∷ xs) = rw (reads a, read_items-items_of xs) refl

  read_slice-json_of_slice : (xs : List A) → read_slice g (json_of_slice f xs) ≡ some xs
  unfolding read_slice json_of_slice
  read_slice-json_of_slice [] = refl
  read_slice-json_of_slice (a ∷ xs) = read_items-items_of (a ∷ xs)

read_ports : (ports : List ℕ) → read_slice read_number (json_of_slice number ports) ≡ some ports
read_ports = read_slice-json_of_slice number read_number (λ n. unfold read_number in refl)

read_entry-json_of_entry : (e : HostEntry) → read_entry (json_of_entry e) ≡ some e
unfolding read_entry json_of_entry get read_text equal
read_entry-json_of_entry e = rw (read_ports e.ports, read_ports e.allowed_ports) refl

read_wildcard-json_of_wildcard :
    (wc : WildcardEntry) → read_wildcard (json_of_wildcard wc) ≡ some wc
unfolding read_wildcard json_of_wildcard get read_text equal
read_wildcard-json_of_wildcard wc = rw (read_entry-json_of_entry wc.entry) refl

read_hosts-fields_of : (hosts : Map HostEntry) → read_hosts (fields_of hosts) ≡ some hosts
unfolding read_hosts fields_of
read_hosts-fields_of [] = refl
read_hosts-fields_of ((host, e) ∷ hosts) =
    rw (read_entry-json_of_entry e, read_hosts-fields_of hosts) refl

-- The whole allowlist and the flag are read back from the payload of DumpJSON, by the names of its
-- fields; an entry without ports and an allowlist without wildcards as well, where null stands for
-- the slice.
pub read_watcher-payload : (w : Watcher) → read_watcher (payload w) ≡ some w
unfolding read_watcher payload read_map read_boolean get equal
read_watcher-payload w =
    rw
      (
        read_hosts-fields_of w.hosts,
        read_slice-json_of_slice json_of_wildcard read_wildcard read_wildcard-json_of_wildcard
            w.wildcards,
      )
      refl
