-- ===== src/Proxy/Goroutines/Relayed.antt =====
-- What relaying some chunks gives, as an invariant of the two goroutines.
use istio_forward_proxy.Base.{
  ℕ, ◌+◌, List, [], ◌∷◌, ◌++◌, Option, none, some, Bytes, length, ◌≡◌, refl, ap, sym, ◌∙◌, arith,
  if◌then◌else◌,
}
use istio_forward_proxy.Proxy.Effects.{
  Trace, Effect, Direction, client_to_upstream, upstream_to_client, Peer, client, upstream, sent,
  close_write,
}
use istio_forward_proxy.Proxy.Handler.{Duration}
use istio_forward_proxy.Proxy.Dial.{wrap_idle_timeout}
use istio_forward_proxy.Proxy.Tunnel.{relay, bytes_out, bytes_in, destination}
use istio_forward_proxy.Proxy.Views.{select}
use istio_forward_proxy.Proxy.Goroutines.{
  Loop, ended, State, start, loop, set_loop, set_deadline, touch, transmit,
}

abbrev pub sent_of : Effect → Option (Peer × Bytes)
sent_of (sent p b) = some (p, b)
sent_of _ = none

abbrev pub client_closed_of : Effect → Option (Unit {0})
client_closed_of (close_write client) = some tt
client_closed_of _ = none

abbrev pub upstream_closed_of : Effect → Option (Unit {0})
upstream_closed_of (close_write upstream) = some tt
upstream_closed_of _ = none

-- What is sent, to whom and in which order.
unfoldable pub sends : Trace → List (Peer × Bytes)
unfolding select
sends tr = select sent_of tr

-- How often CloseWrite is called on each side.
unfoldable pub client_closes : Trace → ℕ
unfolding select
client_closes tr = length (select client_closed_of tr)

unfoldable pub upstream_closes : Trace → ℕ
unfolding select
upstream_closes tr = length (select upstream_closed_of tr)

relay-append :
    (cs : List (Direction × Bytes)) (d : Direction) (b : Bytes) (tr : Trace)
    → relay (cs ++ (d, b) ∷ []) tr ≡ sent (destination d) b ∷ relay cs tr
unfolding relay
relay-append [] d b tr = refl
relay-append ((e, c) ∷ cs) d b tr = relay-append cs d b (sent (destination e) c ∷ tr)

bytes_out-append :
    (cs ds : List (Direction × Bytes)) → bytes_out (cs ++ ds) ≡ bytes_out cs + bytes_out ds
unfolding bytes_out
bytes_out-append [] ds = omega arith
bytes_out-append ((client_to_upstream, c) ∷ cs) ds = omega (arith, bytes_out-append cs ds)
bytes_out-append ((upstream_to_client, c) ∷ cs) ds = bytes_out-append cs ds

bytes_in-append :
    (cs ds : List (Direction × Bytes)) → bytes_in (cs ++ ds) ≡ bytes_in cs + bytes_in ds
unfolding bytes_in
bytes_in-append [] ds = omega arith
bytes_in-append ((client_to_upstream, c) ∷ cs) ds = bytes_in-append cs ds
bytes_in-append ((upstream_to_client, c) ∷ cs) ds = omega (arith, bytes_in-append cs ds)

-- How often a goroutine has called CloseWrite.
abbrev pub closed_by : Duration → Loop → ℕ
closed_by timeout ended = if wrap_idle_timeout timeout then 0 else 1
closed_by timeout _ = 0

-- The state is what relaying these chunks gives, up to the calls of CloseWrite so far.
pub record Relayed (timeout : Duration) (tr : Trace) (cs : List (Direction × Bytes)) (s : State)
    : Type 0 where
  pub same : sends s.trace ≡ sends (relay cs tr)
  pub out : s.bytes_out ≡ bytes_out cs
  pub back : s.bytes_in ≡ bytes_in cs
  pub upstream_done : upstream_closes s.trace ≡ upstream_closes tr + closed_by timeout s.up
  pub client_done : client_closes s.trace ≡ client_closes tr + closed_by timeout s.down

module _ (timeout : Duration) (tr : Trace) where
  pub start-Relayed : (now : ℕ) (c u : Option ℕ) → Relayed timeout tr [] (start now c u tr)
  unfolding relay bytes_out bytes_in
  start-Relayed now c u = record {
    same = refl;
    out = refl;
    back = refl;
    upstream_done = omega arith;
    client_done = omega arith;
  }

  pub transmit-Relayed :
      (d : Direction) (b : Bytes) (cs : List (Direction × Bytes)) (s : State)
      → Relayed timeout tr cs s
      → Relayed timeout tr (cs ++ (d, b) ∷ []) (transmit d b s)
  unfolding sends select bytes_out bytes_in upstream_closes client_closes
  transmit-Relayed client_to_upstream b cs s v = record {
    same =
        ap (λ u. (upstream, b) ∷ u) v.same
        ∙ sym (ap sends (relay-append cs client_to_upstream b tr));
    out = omega (arith, v.out, bytes_out-append cs ((client_to_upstream, b) ∷ []));
    back = omega (arith, v.back, bytes_in-append cs ((client_to_upstream, b) ∷ []));
    upstream_done = v.upstream_done;
    client_done = v.client_done;
  }
  transmit-Relayed upstream_to_client b cs s v = record {
    same =
        ap (λ u. (client, b) ∷ u) v.same ∙ sym (ap sends (relay-append cs upstream_to_client b tr));
    out = omega (arith, v.out, bytes_out-append cs ((upstream_to_client, b) ∷ []));
    back = omega (arith, v.back, bytes_in-append cs ((upstream_to_client, b) ∷ []));
    upstream_done = v.upstream_done;
    client_done = v.client_done;
  }

  -- A goroutine that goes on, and not to its end, changes nothing of this.
  pub set_loop-Relayed :
      (d : Direction) (l : Loop) (cs : List (Direction × Bytes)) (s : State)
      → closed_by timeout l ≡ 0
      → closed_by timeout (loop d s) ≡ 0
      → Relayed timeout tr cs s
      → Relayed timeout tr cs (set_loop d l s)
  set_loop-Relayed client_to_upstream l cs s quiet before v = record {
    same = v.same;
    out = v.out;
    back = v.back;
    upstream_done = omega (arith, v.upstream_done);
    client_done = v.client_done;
  }
  set_loop-Relayed upstream_to_client l cs s quiet before v = record {
    same = v.same;
    out = v.out;
    back = v.back;
    upstream_done = v.upstream_done;
    client_done = omega (arith, v.client_done);
  }

  set_deadline-Relayed :
      (p : Peer) (t : Option ℕ) (cs : List (Direction × Bytes)) (s : State)
      → Relayed timeout tr cs s
      → Relayed timeout tr cs (set_deadline p t s)
  set_deadline-Relayed client t cs s v = record {
    same = v.same;
    out = v.out;
    back = v.back;
    upstream_done = v.upstream_done;
    client_done = v.client_done;
  }
  set_deadline-Relayed upstream t cs s v = record {
    same = v.same;
    out = v.out;
    back = v.back;
    upstream_done = v.upstream_done;
    client_done = v.client_done;
  }

  pub touch-Relayed :
      (p : Peer) (cs : List (Direction × Bytes)) (s : State)
      → Relayed timeout tr cs s
      → Relayed timeout tr cs (touch timeout p s)
  touch-Relayed p cs s v = set_deadline-Relayed p _ cs s v
