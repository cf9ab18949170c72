-- ===== src/Proxy/Headers.antt =====
-- internal/proxy/handler.go: isHopByHop and buildUpstreamRequest.

pub mod Stripped
pub mod Laws
use istio_forward_proxy.Base.{
  ℕ, ◌+◌, Bool, true, false, ◌||◌, List, [], ◌∷◌, Option, none, some, Bytes, codes, equal,
  equal_fold, is_empty, to_lower, Map, keys, if◌then◌else◌,
}
use istio_forward_proxy.Http.Header.{Header, set, del}
use istio_forward_proxy.Http.Message.{Request, Body, nil, no_body, reader}
use istio_forward_proxy.Proxy.Handler.{Handler}

-- The cases of the switch in isHopByHop.
abbrev pub hop_by_hop_names : List Bytes
hop_by_hop_names =
    codes "connection"
    ∷ codes "keep-alive"
    ∷ codes "proxy-authenticate"
    ∷ codes "proxy-authorization"
    ∷ codes "te"
    ∷ codes "trailers"
    ∷ codes "transfer-encoding"
    ∷ codes "upgrade"
    ∷ []

unfoldable pub is_one_of : List Bytes → Bytes → Bool
is_one_of [] s = false
is_one_of (t ∷ ts) s = equal s t || is_one_of ts s

abbrev pub proxy_authorization : Bytes
proxy_authorization = codes "Proxy-Authorization"

-- The second result of buildUpstreamRequest: nil, or a counter around the request's body.
pub record Built : Type 0 where
  pub request : Request
  pub counted : Bool

-- The loop over ExtraHeaders.
unfoldable pub set_all : Map Bytes → Header → Header
set_all [] header = header
set_all ((name, value) ∷ extra) header = set_all extra (set header name value)

-- Whether the body is wrapped in a countingReadCloser.
abbrev pub has_body : Body → Bool
has_body nil = false
has_body no_body = false
has_body (reader data_read) = true

-- countingReadCloser: the count after reads of these sizes.
unfoldable pub count_reads : List ℕ → ℕ
count_reads [] = 0
count_reads (n ∷ ns) = n + count_reads ns

module _ (unicode_lower : Bytes → Bytes) where
  -- isHopByHop
  unfoldable pub is_hop_by_hop : Bytes → Bool
  is_hop_by_hop name = is_one_of hop_by_hop_names (to_lower unicode_lower name)

  -- The test of the loop over the request's headers.
  unfoldable pub is_stripped : Bytes → Bool
  is_stripped k = is_hop_by_hop k || equal_fold k proxy_authorization

  -- The loop over the names that the header map has at its start.
  unfoldable pub strip : List Bytes → Header → Header
  strip [] header = header
  strip (k ∷ ks) header = strip ks (if is_stripped k then del header k else header)

  unfoldable pub upstream_header : Handler → Header → Header
  upstream_header h header =
      let stripped = strip (keys header) header in
      set_all h.extra_headers (
        if is_empty h.upstream_auth
        then stripped
        else set stripped proxy_authorization h.upstream_auth)

  -- buildUpstreamRequest; no branch of it returns an error, which would be `none`.
  unfoldable pub build_upstream_request : Handler → Request → Option Built
  build_upstream_request h r = some (record {
    request = record r { request_uri = []; header = upstream_header h r.header };
    counted = has_body r.body;
  })
