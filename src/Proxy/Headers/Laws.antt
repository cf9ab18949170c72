-- ===== src/Proxy/Headers/Laws.antt =====
-- What the header map of the request to the upstream holds.
use istio_forward_proxy.Base.{
  Bool, true, false, not, ◌&&◌, ◌||◌, List, [], ◌∷◌, Option, none, some, Bytes, contains, equal,
  equal_iff, equal_refl, is_empty, Map, keys, lookup, lookup-insert, lookup-remove, All, arith, ◌≡◌,
  refl, if◌then◌else◌, Bool-cases, inl, inr,
}
use istio_forward_proxy.Http.Header.{
  Header, set, del, canonical_key, capitalize, valid_field, valid_field_byte,
}
use istio_forward_proxy.Proxy.Handler.{Handler}
use istio_forward_proxy.Proxy.Headers.{
  is_stripped, is_one_of, strip, set_all, upstream_header, proxy_authorization,
}
use istio_forward_proxy.Proxy.Headers.Stripped.{IsCanonical, removed, is_stripped-removed}

-- The value that the last name with a given canonical form sets.
unfoldable pub last_set : Bytes → Map Bytes → Option Bytes
last_set n [] = none
last_set n ((name, value) ∷ extra) = elim (last_set n extra) [
  | some v ↦ some v
  | none ↦ if equal (canonical_key name) n then some value else none
]

abbrev pub one_value : Option Bytes → Option (List Bytes) → Option (List Bytes)
one_value (some v) other = some (v ∷ [])
one_value none other = other

lookup-set_all :
    (n : Bytes) (extra : Map Bytes) (header : Header)
    → lookup n (set_all extra header) ≡ one_value (last_set n extra) (lookup n header)
unfolding set_all last_set set
lookup-set_all n [] header = refl
lookup-set_all n ((name, value) ∷ extra) header = ground (
  arith,
  lookup-set_all n extra (set header name value),
  lookup-insert (canonical_key name) n (value ∷ []) header,
)

canonical_auth : canonical_key proxy_authorization ≡ proxy_authorization
unfolding canonical_key capitalize valid_field valid_field_byte contains
canonical_auth = refl

is_key : Bytes → List Bytes → Bool
is_key n [] = false
is_key n (k ∷ ks) = equal k n || is_key n ks

missing_key :
    (n : Bytes) (header : Header) → is_key n (keys header) ≡ false → lookup n header ≡ none
unfolding is_key lookup
missing_key n [] h = refl
missing_key n ((k, vs) ∷ header) h = ground (arith, missing_key n header)

-- What the upstream gets under a name: the last of the extra headers with that canonical name;
-- without one, this proxy's own credentials under Proxy-Authorization; and otherwise what the
-- client sent, unless the name is one of the eight that are removed.
unfoldable pub expected : Handler → Header → Bytes → Option (List Bytes)
expected h header n = one_value (last_set n h.extra_headers) (
    if not (is_empty h.upstream_auth) && equal proxy_authorization n
    then some (h.upstream_auth ∷ [])
    else if is_one_of removed n
    then none
    else lookup n header)

module _ (unicode_lower : Bytes → Bytes) where
  -- Deleting a name that is canonical deletes that name only.
  lookup-strip_one :
      (n k : Bytes) (header : Header)
      → IsCanonical k
      → lookup n (if is_stripped unicode_lower k then del header k else header)
        ≡ (if is_stripped unicode_lower n && equal k n then none else lookup n header)
  unfolding del
  lookup-strip_one n k header c = elim (Bool-cases (equal k n)) [
    | inl same ↦
        let e : k ≡ n = (equal_iff k n).0 same in
        ground (arith, lookup-remove (canonical_key k) n header, c, equal_refl n)
    | inr other ↦ ground (arith, lookup-remove (canonical_key k) n header, c)
  ]

  lookup-strip_keys :
      (n : Bytes) (ks : List Bytes) (header : Header)
      → All IsCanonical ks
      → lookup n (strip unicode_lower ks header)
        ≡ (if is_stripped unicode_lower n && is_key n ks then none else lookup n header)
  unfolding strip is_key
  lookup-strip_keys n [] header c = ground arith
  lookup-strip_keys n (k ∷ ks) header c = ground (
    arith,
    lookup-strip_keys n ks (if is_stripped unicode_lower k then del header k else header) c.1,
    lookup-strip_one n k header c.0,
  )

  lookup-strip :
      (n : Bytes) (header : Header)
      → All IsCanonical (keys header)
      → lookup n (strip unicode_lower (keys header) header)
        ≡ (if is_stripped unicode_lower n then none else lookup n header)
  lookup-strip n header c =
      ground (arith, lookup-strip_keys n (keys header) header c, missing_key n header)

  -- For a request whose header names are canonical, as net/http makes them, the header map that
  -- goes to the upstream holds under every canonical valid name the value of the last extra header
  -- with that canonical name; without one, this proxy's own credentials under Proxy-Authorization;
  -- and otherwise what the client sent, unless the name is one of the eight hop-by-hop names.
  pub upstream_header-lookup :
      (h : Handler) (header : Header) (n : Bytes)
      → All IsCanonical (keys header)
      → valid_field n ≡ true
      → IsCanonical n
      → lookup n (upstream_header unicode_lower h header) ≡ expected h header n
  unfolding upstream_header expected set
  upstream_header-lookup h header n c v canonical =
      let stripped = strip unicode_lower (keys header) header in
      ground (
        arith,
        lookup-set_all n h.extra_headers stripped,
        lookup-set_all n h.extra_headers (set stripped proxy_authorization h.upstream_auth),
        lookup-insert proxy_authorization n (h.upstream_auth ∷ []) stripped,
        canonical_auth,
        lookup-strip n header c,
        is_stripped-removed unicode_lower n v canonical,
      )
