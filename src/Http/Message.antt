-- ===== src/Http/Message.antt =====
-- The parts of http.Request and http.Response that the program reads or sets.
use istio_forward_proxy.Base.{ℕ, List, Option, Bytes}
use istio_forward_proxy.Http.Header.{Header}

-- A parsed URL: its scheme, its host and what its method String returns.
pub record Url : Type 0 where
  pub scheme : Bytes
  pub host : Bytes
  pub text : Bytes

-- nil, http.NoBody, or a reader with the bytes that it yields.
pub data Body : Type 0 where
  nil no_body : Body
  reader : Bytes → Body

-- The URIs of one certificate's subject alternative names.
pub record Certificate : Type 0 where
  pub uris : List Url

pub record Request : Type 0 where
  pub method : Bytes
  pub url : Url
  pub host : Bytes
  pub request_uri : Bytes
  pub header : Header
  pub body : Body
  -- `none` for -1, an unknown length
  pub content_length : Option ℕ
  pub transfer_encoding : List Bytes
  pub remote_addr : Bytes
  -- r.TLS.PeerCertificates, `none` where r.TLS is nil
  pub peer_certificates : Option (List Certificate)

pub record Response : Type 0 where
  pub status_code : ℕ
  pub status : Bytes
  pub header : Header
  pub body : Bytes
