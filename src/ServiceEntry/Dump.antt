-- ===== src/ServiceEntry/Dump.antt =====
-- internal/serviceentry/watcher.go: DumpJSON, with its JSON as a value. How encoding/json writes a
-- value down, with the keys of a map in order, is that package's.
pub mod Reader
use istio_forward_proxy.Base.{
  ℕ, Bool, true, false, List, [], ◌∷◌, Option, none, some, Bytes, codes, equal, Map, ◌≡◌, refl,
  if◌then◌else◌,
}
use istio_forward_proxy.ServiceEntry.Defs.{HostEntry, WildcardEntry, Watcher}

mutual
  -- A value of JSON.
  pub data Json : Type 0 where
    null : Json
    boolean : Bool → Json
    number : ℕ → Json
    text : Bytes → Json
    array : Items → Json
    object : Fields → Json

  pub data Items : Type 0 where
    no_item : Items
    item : Json → Items → Items

  pub data Fields : Type 0 where
    no_field : Fields
    field : Bytes → Json → Fields → Fields

-- The items of a slice that is not empty.
unfoldable pub items_of {ℓ} : {A : Type ℓ} → (A → Json) → List A → Items
items_of f [] = no_item
items_of f (a ∷ xs) = item (f a) (items_of f xs)

-- A slice; an empty one of the program is nil, which becomes null.
unfoldable pub json_of_slice {ℓ} : {A : Type ℓ} → (A → Json) → List A → Json
json_of_slice f [] = null
json_of_slice f (a ∷ xs) = array (items_of f (a ∷ xs))

-- The tags of hostEntry
unfoldable pub json_of_entry : HostEntry → Json
json_of_entry e = object (
    field (codes "namespace") (text e.namespace) (
      field (codes "name") (text e.name) (
        field (codes "ports") (json_of_slice number e.ports)
          (field (codes "allowed_ports") (json_of_slice number e.allowed_ports) no_field))))

-- The tags of wildcardEntry; Suffix has none.
unfoldable pub json_of_wildcard : WildcardEntry → Json
json_of_wildcard wc = object (
    field (codes "Suffix") (text wc.suffix)
      (field (codes "entry") (json_of_entry wc.entry) no_field))

unfoldable pub fields_of : Map HostEntry → Fields
fields_of [] = no_field
fields_of ((host, e) ∷ hosts) = field host (json_of_entry e) (fields_of hosts)

-- The payload of DumpJSON
unfoldable pub payload : Watcher → Json
payload w = object (
    field (codes "synced") (boolean w.synced) (
      field (codes "hosts") (object (fields_of w.hosts))
        (field (codes "wildcards") (json_of_slice json_of_wildcard w.wildcards) no_field)))
