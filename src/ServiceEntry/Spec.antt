-- ===== src/ServiceEntry/Spec.antt =====
-- What the allowlist promises, read off the listed ServiceEntries with no map and no state: the
-- last exact pattern for a host decides; without one, the first wildcard pattern that fits.
use istio_forward_proxy.Base.{
  ℕ, Bool, false, List, [], ◌∷◌, ◌++◌, Option, none, some, Bytes, codes, equal, has_prefix,
  has_suffix, drop, ◌&&◌, not, if◌then◌else◌, ◌≡◌, ◌⊎◌, Occurs,
}
use istio_forward_proxy.ServiceEntry.Defs.{
  HostEntry, no_entry, ServiceEntry, entry_of, port_allowed, normalize,
}

-- A normalised pattern with the entry that stands behind it.
abbrev pub Offer : Type 0
Offer = Bytes × HostEntry

abbrev pub is_wildcard : Bytes → Bool
is_wildcard h = has_prefix h (codes "*.")

unfoldable pub last_exact : Bytes → List Offer → Option HostEntry
last_exact host [] = none
last_exact host ((h, e) ∷ os) = elim (last_exact host os) [
  | some found ↦ some found
  | none ↦ if not (is_wildcard h) && equal h host then some e else none
]

unfoldable pub first_wildcard : Bytes → List Offer → Option HostEntry
first_wildcard host [] = none
first_wildcard host ((h, e) ∷ os) =
    if is_wildcard h && has_suffix host (drop 1 h) then some e else first_wildcard host os

abbrev pub verdict : HostEntry → ℕ → Bool × HostEntry
verdict e port = (port_allowed e port, e)

-- The decision on a normalised host.
unfoldable pub decide : List Offer → Bytes → ℕ → Bool × HostEntry
decide os host port = elim (last_exact host os) [
  | some e ↦ verdict e port
  | none ↦ elim (first_wildcard host os) [ some e ↦ verdict e port | none ↦ (false, no_entry) ]
]

-- A pattern covers a host: the same text, or `*` before a tail of the host that begins with a dot.
pub data Covers (pattern host : Bytes) : Type 0 where
  exact : pattern ≡ host → Covers pattern host
  wildcard :
      (front domain : Bytes)
      → pattern ≡ b'*' ∷ b'.' ∷ domain
      → host ≡ front ++ b'.' ∷ domain
      → Covers pattern host

-- The ports of a ServiceEntry admit a port: none is named, or this one is.
abbrev pub Admits : List ℕ → ℕ → Type 0
Admits ports port = (ports ≡ []) ⊎ Occurs port ports

module _ (unicode_lower : Bytes → Bytes) where
  unfoldable pub offers_of : HostEntry → List Bytes → List Offer
  offers_of e [] = []
  offers_of e (h ∷ hs) = (normalize unicode_lower h, e) ∷ offers_of e hs

  -- All patterns, in the order in which they are listed.
  unfoldable pub offers : List ServiceEntry → List Offer
  offers [] = []
  offers (se ∷ ses) = offers_of (entry_of se) se.hosts ++ offers ses

  -- One of the ServiceEntries names a pattern that covers the host, and admits the port.
  pub record IsListed (entries : List ServiceEntry) (host : Bytes) (port : ℕ) : Type 0 where
    pub owner : ServiceEntry
    pub pattern : Bytes
    pub listed : Occurs owner entries
    pub named : Occurs pattern owner.hosts
    pub covers : Covers (normalize unicode_lower pattern) (normalize unicode_lower host)
    pub admits : Admits owner.ports port
