-- ===== src/Proxy/Identity.antt =====
-- internal/proxy/handler.go: spiffeFromRequest and extractSPIFFEFromXFCC.
pub mod Laws
mod Tests
use istio_forward_proxy.Base.{
  ◌+◌, Bool, List, [], ◌∷◌, Option, none, some, Bytes, codes, equal, index, take, drop, length,
  is_empty, if◌then◌else◌,
}
use istio_forward_proxy.Http.Header.{get}
use istio_forward_proxy.Http.Message.{Url, Certificate, Request}
use istio_forward_proxy.Proxy.Handler.{Handler}

abbrev pub xfcc : Bytes
xfcc = codes "X-Forwarded-Client-Cert"

abbrev pub is_spiffe : Url → Bool
is_spiffe u = equal u.scheme (codes "spiffe")

-- The loop over the URIs of the first peer certificate.
unfoldable pub first_spiffe : List Url → Option Bytes
first_spiffe [] = none
first_spiffe (u ∷ us) = if is_spiffe u then some u.text else first_spiffe us

-- What the verified certificate of the connection says, `none` if it says nothing.
unfoldable pub spiffe_from_tls : Option (List Certificate) → Option Bytes
spiffe_from_tls none = none
spiffe_from_tls (some []) = none
spiffe_from_tls (some (cert ∷ certs)) = first_spiffe cert.uris

module _ (parse_url : Bytes → Option Url) where
  -- The last lines of extractSPIFFEFromXFCC, at the quoted text.
  unfoldable pub spiffe_of_text : Bytes → Bytes
  spiffe_of_text s = elim (parse_url s) [ none ↦ [] | some u ↦ if is_spiffe u then u.text else [] ]

  -- extractSPIFFEFromXFCC
  unfoldable pub extract_spiffe_from_xfcc : Bytes → Bytes
  extract_spiffe_from_xfcc v = elim (index v (codes "URI=\"")) [
    | none ↦ []
    | some i ↦
        let rest = drop (i + length (codes "URI=\"")) v in
        elim (index rest (codes "\"")) [
          | none ↦ []
          | some end_quote ↦ spiffe_of_text (take end_quote rest)
        ]
  ]

  -- spiffeFromRequest
  unfoldable pub spiffe_from_request : Handler → Request → Bytes
  spiffe_from_request h r = elim (spiffe_from_tls r.peer_certificates) [
    | some id ↦ id
    | none ↦
        if h.trust_xfcc_header
        then if is_empty (get r.header xfcc)
          then []
          else extract_spiffe_from_xfcc (get r.header xfcc)
        else []
  ]
