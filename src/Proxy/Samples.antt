-- ===== src/Proxy/Samples.antt =====
-- A handler, its surroundings and three requests, for the tests.
use istio_forward_proxy.Base.{true, false, List, [], ◌∷◌, none, some, Bytes, codes}
use istio_forward_proxy.Http.Header.{Header}
use istio_forward_proxy.Http.Message.{Request, Response, no_body}
use istio_forward_proxy.ServiceEntry.Defs.{ServiceEntry, new_watcher, rebuild}
use istio_forward_proxy.Proxy.Effects.{client_to_upstream, upstream_to_client}
use istio_forward_proxy.Proxy.Handler.{Handler, Env, duration}

-- On ASCII text the tables are not consulted.
abbrev pub same : Bytes → Bytes
same s = s

abbrev pub api : ServiceEntry
api = record {
  namespace = codes "team-b";
  name = codes "api";
  hosts = codes "api.io" ∷ [];
  ports = 80 ∷ 443 ∷ [];
}

abbrev pub listing : List ServiceEntry
listing = api ∷ []

abbrev pub proxy : Handler
proxy = record {
  upstream_proxy = codes "up.corp:3128";
  upstream_auth = codes "Basic dTpw";
  has_cert_manager = true;
  acl = rebuild same (some listing) new_watcher;
  extra_headers = (codes "X-Tenant", codes "blue") ∷ [];
  dial_timeout = duration 10_000_000_000;
  idle_timeout = duration 300;
  tls_enabled = true;
  insecure_skip_verify = false;
  trust_xfcc_header = false;
}

abbrev pub reply_ok : Response
reply_ok = record { status_code = 200; status = codes "200 OK"; header = []; body = codes "hi" }

abbrev pub env : Env
env = record {
  unicode_lower = same;
  parse_url = λ s. none;
  now = λ tr. 0;
  round_trip_result = λ r tr. record { body_reads = []; response = some reply_ok; copied = 2 };
  is_hijacker = true;
  hijack_succeeds = true;
  dial_succeeds = true;
  handshake_succeeds = true;
  write_fault = λ p b tr. none;
  read_connect_response =
      λ tr. some (record { status_code = 200; status = codes "200 OK"; read_ahead = [] });
  client_buffered = some (codes "early");
  relayed = (client_to_upstream, codes "ping") ∷ (upstream_to_client, codes "pong") ∷ [];
}

abbrev pub client_header : Header
client_header =
    (codes "Proxy-Authorization", codes "Basic eDp5" ∷ []) ∷ (codes "Te", codes "gzip" ∷ []) ∷ []

abbrev pub plain : Request
plain = record {
  method = codes "GET";
  url = record { scheme = codes "http"; host = codes "api.io"; text = codes "http://api.io/" };
  host = codes "api.io";
  request_uri = codes "http://api.io/";
  header = client_header;
  body = no_body;
  content_length = some 0;
  transfer_encoding = [];
  remote_addr = codes "10.0.0.7:4242";
  peer_certificates = none;
}

abbrev pub through : Request
through = record plain { method = codes "CONNECT"; host = codes "api.io:443" }

abbrev pub elsewhere : Request
elsewhere = record plain { method = codes "CONNECT"; host = codes "api.io:22" }
