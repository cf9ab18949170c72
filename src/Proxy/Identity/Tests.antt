-- ===== src/Proxy/Identity/Tests.antt =====
-- The caller's identity at a concrete request.
use istio_forward_proxy.Base.{Option}
use istio_forward_proxy.Proxy.Samples.{proxy, plain}
use istio_forward_proxy.Base.{
  true, [], ◌∷◌, some, Bytes, codes, ◌≡◌, refl, lookup, equal, contains, has_prefix,
}
use istio_forward_proxy.Http.Header.{
  Header, canonical_key, capitalize, valid_field, valid_field_byte,
}
use istio_forward_proxy.Http.Message.{Url, Request}
use istio_forward_proxy.Proxy.Handler.{Handler}
use istio_forward_proxy.Proxy.Identity.{spiffe_from_request}
use istio_forward_proxy.Base.{inl, ◌⊎◌, has_prefix, index}
use istio_forward_proxy.Http.Header.{get}
use istio_forward_proxy.Proxy.Identity.{spiffe_from_tls, extract_spiffe_from_xfcc, spiffe_of_text}
use istio_forward_proxy.Proxy.Identity.Laws.{
  FromCertificate, FromHeader, spiffe_from_request_sound, spiffe_from_request-header,
}

-- Every text parses, as a URL of scheme spiffe.
abbrev parse_any : Bytes → Option Url
parse_any s = some (record { scheme = codes "spiffe"; host = []; text = s })

abbrev trusting : Handler
trusting = record proxy { trust_xfcc_header = true }

abbrev forwarded_identity : Header
forwarded_identity =
    (codes "X-Forwarded-Client-Cert", codes "Hash=1;URI=\"spiffe://a/b\"" ∷ []) ∷ []

abbrev vouched : Request
vouched = record plain { header = forwarded_identity }

vouched_identity : spiffe_from_request parse_any trusting vouched ≡ codes "spiffe://a/b"
unfolding spiffe_from_request spiffe_from_tls get canonical_key capitalize valid_field
    valid_field_byte contains lookup equal extract_spiffe_from_xfcc index has_prefix spiffe_of_text
vouched_identity = refl

spiffe_from_request_sound_example :
    FromCertificate vouched (spiffe_from_request parse_any trusting vouched)
    ⊎ FromHeader parse_any trusting vouched (spiffe_from_request parse_any trusting vouched)
spiffe_from_request_sound_example =
    spiffe_from_request_sound parse_any trusting vouched (λ blank. cc (blank, vouched_identity))

spiffe_from_request-header_example :
    spiffe_from_request parse_any proxy (record plain { header = forwarded_identity })
    ≡ spiffe_from_request parse_any proxy plain
spiffe_from_request-header_example =
    spiffe_from_request-header parse_any proxy plain forwarded_identity (inl refl)
