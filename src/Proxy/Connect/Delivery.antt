-- ===== src/Proxy/Connect/Delivery.antt =====
-- What a CONNECT that runs to its end has sent to the two sides.
use istio_forward_proxy.Base.{
  ℕ, true, false, List, [], ◌∷◌, ◌++◌, Option, none, some, Bytes, codes, is_empty, Map, ◌≡◌, ◌≢◌,
  take, refl, sym, ap, ◌∙◌, if◌then◌else◌, Option-cases, inl, inr, append-nil, append_assoc, arith,
}
use istio_forward_proxy.Http.Message.{Request}
use istio_forward_proxy.Proxy.Effects.{
  Effect, Trace, Proc, ◌>>◌, bind_result, client, upstream, Peer, Direction, client_to_upstream,
  upstream_to_client, sent,
}
use istio_forward_proxy.Proxy.Handler.{Handler, Env}
use istio_forward_proxy.Proxy.Dial.{or_return, write_conn, header_line}
use istio_forward_proxy.Proxy.Connect.{connect_line}
use istio_forward_proxy.Proxy.Views.{sent_to_upstream, sent_to_client}

-- The header lines for the extra headers.
unfoldable pub extra_lines : Map Bytes → Bytes
extra_lines [] = []
extra_lines ((name, value) ∷ extra) = header_line name value ++ extra_lines extra

abbrev pub auth_line : Bytes → Bytes
auth_line auth = if is_empty auth then [] else header_line (codes "Proxy-Authorization") auth

-- The request for a tunnel, as the upstream must receive it.
abbrev pub connect_request : Handler → Request → Bytes
connect_request h r =
    connect_line r.host
    ++ (header_line (codes "Host") r.host
        ++ (auth_line h.upstream_auth ++ (extra_lines h.extra_headers ++ codes "\r\n")))

abbrev pub buffered : Option Bytes → Bytes
buffered none = []
buffered (some b) = b

-- The chunks that go one way, in order.
unfoldable pub chunks_to_upstream : List (Direction × Bytes) → Bytes
chunks_to_upstream [] = []
chunks_to_upstream ((client_to_upstream, b) ∷ cs) = b ++ chunks_to_upstream cs
chunks_to_upstream ((upstream_to_client, b) ∷ cs) = chunks_to_upstream cs

unfoldable pub chunks_to_client : List (Direction × Bytes) → Bytes
chunks_to_client [] = []
chunks_to_client ((client_to_upstream, b) ∷ cs) = chunks_to_client cs
chunks_to_client ((upstream_to_client, b) ∷ cs) = b ++ chunks_to_client cs

-- From one trace to another, these bytes have gone to the upstream and those to the client.
pub record Delivered (up down : Bytes) (old new : Trace) : Type 0 where
  pub to_upstream : sent_to_upstream new ≡ sent_to_upstream old ++ up
  pub to_client : sent_to_client new ≡ sent_to_client old ++ down

pub Delivered-none : (tr : Trace) → Delivered [] [] tr tr
Delivered-none tr = record { to_upstream = sym (append-nil _); to_client = sym (append-nil _) }

pub Delivered-trans :
    (u d u' d' : Bytes) (a b c : Trace)
    → Delivered u d a b
    → Delivered u' d' b c
    → Delivered (u ++ u') (d ++ d') a c
Delivered-trans u d u' d' a b c p q = record {
  to_upstream =
      q.to_upstream ∙ ap (λ s. s ++ u') p.to_upstream ∙ append_assoc (sent_to_upstream a) u u';
  to_client = q.to_client ∙ ap (λ s. s ++ d') p.to_client ∙ append_assoc (sent_to_client a) d d';
}

-- A step that does not end the handler has sent these bytes.
abbrev pub Sends : Proc (Unit {0}) → Bytes → Bytes → Type 0
Sends m up down = (tr : Trace) → (m tr).0 ≢ none → Delivered up down tr (m tr).1

Sends-after :
    (w : Option (Unit {0}) × Trace) (k : Proc (Unit {0})) (u d u' d' : Bytes) (tr : Trace)
    → (w.0 ≢ none → Delivered u d tr w.1)
    → Sends k u' d'
    → (bind_result w (λ _. k)).0 ≢ none
    → Delivered (u ++ u') (d ++ d') tr (bind_result w (λ _. k)).1
Sends-after (none, tr') k u d u' d' tr p q h = absurd (h refl)
Sends-after (some x, tr') k u d u' d' tr p q h =
    Delivered-trans u d u' d' tr tr' (k tr').1 (p (ground arith)) (q tr' h)

pub Sends-bind :
    (m k : Proc (Unit {0})) (u d u' d' : Bytes)
    → Sends m u d
    → Sends k u' d'
    → Sends (m >> k) (u ++ u') (d ++ d')
Sends-bind m k u d u' d' p q tr h = Sends-after (m tr) k u d u' d' tr (p tr) q h

abbrev pub to_one : Peer → Peer → Bytes → Bytes
to_one upstream upstream b = b
to_one client client b = b
to_one _ _ b = []

pub Delivered-sent :
    (p : Peer) (b : Bytes) (tr : Trace)
    → Delivered (to_one upstream p b) (to_one client p b) tr (sent p b ∷ tr)
unfolding sent_to_upstream sent_to_client
Delivered-sent upstream b tr = record { to_upstream = refl; to_client = sym (append-nil _) }
Delivered-sent client b tr = record { to_upstream = sym (append-nil _); to_client = refl }

pub write_conn_fine :
    (env : Env) (p : Peer) (b : Bytes) (tr : Trace)
    → env.write_fault p b tr ≡ none
    → write_conn env p b tr ≡ (true, sent p b ∷ tr)
unfolding write_conn
write_conn_fine env p b tr fine = rw (fine, write_conn) refl

write_conn_failed :
    (env : Env) (p : Peer) (b : Bytes) (tr : Trace) (n : ℕ)
    → env.write_fault p b tr ≡ some n
    → write_conn env p b tr ≡ (false, sent p (take n b) ∷ tr)
unfolding write_conn
write_conn_failed env p b tr n fault = rw (fault, write_conn) refl

pub Sends-or_return :
    (env : Env) (p : Peer) (b : Bytes) (failed : List Effect) (tr : Trace)
    → (or_return (write_conn env p b tr) failed).0 ≢ none
    → Delivered
        (to_one upstream p b)
        (to_one client p b)
        tr
        (or_return (write_conn env p b tr) failed).1
Sends-or_return env p b failed tr h = elim (Option-cases (env.write_fault p b tr)) [
  | inl fine ↦ rw (write_conn_fine env p b tr fine) (Delivered-sent p b tr)
  | inr (n, fault) ↦ absurd ((rw (write_conn_failed env p b tr n fault) at h) refl)
]
