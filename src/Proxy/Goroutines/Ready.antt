-- ===== src/Proxy/Goroutines/Ready.antt =====
-- What holds of every state of a tunnel whose idle timeout is positive: what a goroutine waits for
-- has a deadline, no further ahead than the timeout.
use istio_forward_proxy.Base.{
  ℕ, suc, ◌+◌, ◌≤◌, false, Option, none, some, Bytes, is_empty, take, ◌≡◌, arith,
}
use mathlib.Core.Path.{subst}
use istio_forward_proxy.Proxy.Effects.{
  Trace, Direction, client_to_upstream, upstream_to_client, Peer, client, upstream,
}
use istio_forward_proxy.Proxy.Handler.{Duration, duration}
use istio_forward_proxy.Proxy.Tunnel.{destination, half_close}
use istio_forward_proxy.Proxy.Dial.{wrap_idle_timeout}
use istio_forward_proxy.Proxy.Goroutines.{
  Loop, calling, reading, got, writing, closing, ended, State, start, loop, set_loop, touch,
  transmit, source, Step, tick, begin_read, begin_write, refuse_read, refuse_write, deliver, finish,
  expire_read, write, fail, expire_write, close_side, Reach, here, next,
}

abbrev pub AtMost : Option ℕ → ℕ → Type 0
AtMost none b = Unit
AtMost (some t) b = t ≤ b

abbrev pub HasDeadline : Option ℕ → Type 0
HasDeadline none = ⊥
HasDeadline (some t) = Unit

-- What a goroutine waits for has a deadline, and what it writes is not empty.
abbrev pub Waits : Loop → Option ℕ → Option ℕ → Type 0
Waits reading from to = HasDeadline from
Waits (got b) from to = is_empty b ≡ false
Waits (writing b) from to = (is_empty b ≡ false) × HasDeadline to
Waits _ from to = Unit

pub record Ready (n : ℕ) (s : State) : Type 0 where
  pub client_le : AtMost s.client_deadline (s.clock + suc n)
  pub upstream_le : AtMost s.upstream_deadline (s.clock + suc n)
  pub up_waits : Waits s.up s.client_deadline s.upstream_deadline
  pub down_waits : Waits s.down s.upstream_deadline s.client_deadline

AtMost-later : (o : Option ℕ) (a b : ℕ) → a ≤ b → AtMost o a → AtMost o b
AtMost-later none a b le h = tt
AtMost-later (some t) a b le h = omega (arith, h)

-- Setting either deadline leaves a goroutine's wait in order.
Waits-from : (l : Loop) (from to : Option ℕ) (t : ℕ) → Waits l from to → Waits l (some t) to
Waits-from calling from to t h = tt
Waits-from reading from to t h = tt
Waits-from (got b) from to t h = h
Waits-from (writing b) from to t h = h
Waits-from closing from to t h = tt
Waits-from ended from to t h = tt

Waits-to : (l : Loop) (from to : Option ℕ) (t : ℕ) → Waits l from to → Waits l from (some t)
Waits-to calling from to t h = tt
Waits-to reading from to t h = h
Waits-to (got b) from to t h = h
Waits-to (writing b) from to t h = (h.0, tt)
Waits-to closing from to t h = tt
Waits-to ended from to t h = tt

module _ (n : ℕ) where
  abbrev pub timeout : Duration
  timeout = duration (suc n)

  abbrev pub OwnWaits : Direction → Loop → State → Type 0
  OwnWaits client_to_upstream l s = Waits l s.client_deadline s.upstream_deadline
  OwnWaits upstream_to_client l s = Waits l s.upstream_deadline s.client_deadline

  set_loop-Ready :
      (d : Direction) (l : Loop) (s : State) → OwnWaits d l s → Ready n s → Ready n (set_loop d l s)
  set_loop-Ready client_to_upstream l s w v = record {
    client_le = v.client_le;
    upstream_le = v.upstream_le;
    up_waits = w;
    down_waits = v.down_waits;
  }
  set_loop-Ready upstream_to_client l s w v = record {
    client_le = v.client_le;
    upstream_le = v.upstream_le;
    up_waits = v.up_waits;
    down_waits = w;
  }

  touch-Ready : (p : Peer) (s : State) → Ready n s → Ready n (touch timeout p s)
  touch-Ready client s v = record {
    client_le = omega arith;
    upstream_le = v.upstream_le;
    up_waits = Waits-from s.up _ _ _ v.up_waits;
    down_waits = Waits-to s.down _ _ _ v.down_waits;
  }
  touch-Ready upstream s v = record {
    client_le = v.client_le;
    upstream_le = omega arith;
    up_waits = Waits-to s.up _ _ _ v.up_waits;
    down_waits = Waits-from s.down _ _ _ v.down_waits;
  }

  transmit-Ready : (d : Direction) (b : Bytes) (s : State) → Ready n s → Ready n (transmit d b s)
  transmit-Ready client_to_upstream b s v = record {
    client_le = v.client_le;
    upstream_le = v.upstream_le;
    up_waits = v.up_waits;
    down_waits = v.down_waits;
  }
  transmit-Ready upstream_to_client b s v = record {
    client_le = v.client_le;
    upstream_le = v.upstream_le;
    up_waits = v.up_waits;
    down_waits = v.down_waits;
  }

  pub own-Ready : (d : Direction) (s : State) (l : Loop) → loop d s ≡ l → Ready n s → OwnWaits d l s
  own-Ready client_to_upstream s l e v = subst (λ k. OwnWaits client_to_upstream k s) e v.up_waits
  own-Ready upstream_to_client s l e v = subst (λ k. OwnWaits upstream_to_client k s) e v.down_waits

  begun_read : (d : Direction) (s : State) → OwnWaits d reading (touch timeout (source d) s)
  begun_read client_to_upstream s = tt
  begun_read upstream_to_client s = tt

  begun_write :
      (d : Direction) (b : Bytes) (s : State)
      → is_empty b ≡ false
      → OwnWaits d (writing b) (touch timeout (destination d) s)
  begun_write client_to_upstream b s h = (h, tt)
  begun_write upstream_to_client b s h = (h, tt)

  got_bytes : (d : Direction) (b : Bytes) (s : State) → OwnWaits d (got b) s → is_empty b ≡ false
  got_bytes client_to_upstream b s h = h
  got_bytes upstream_to_client b s h = h

  calm :
      (d : Direction) (l : Loop) (s : State)
      → ((from to : Option ℕ) → Waits l from to)
      → OwnWaits d l s
  calm client_to_upstream l s h = h _ _
  calm upstream_to_client l s h = h _ _

  pub Step-Ready : {s t : State} → Step timeout s t → Ready n s → Ready n t
  Step-Ready {s} (tick k) v = record {
    client_le = AtMost-later s.client_deadline _ _ (omega arith) v.client_le;
    upstream_le = AtMost-later s.upstream_deadline _ _ (omega arith) v.upstream_le;
    up_waits = v.up_waits;
    down_waits = v.down_waits;
  }
  Step-Ready {s} (begin_read d e) v =
      set_loop-Ready d reading _ (begun_read d s) (touch-Ready (source d) s v)
  Step-Ready {s} (begin_write d b e) v =
      set_loop-Ready d (writing b) _
        (begun_write d b s (got_bytes d b s (own-Ready d s (got b) e v)))
        (touch-Ready (destination d) s v)
  Step-Ready {s} (refuse_read d w e) v = set_loop-Ready d closing s (calm d closing s (λ f t. tt)) v
  Step-Ready {s} (refuse_write d b w e) v =
      set_loop-Ready d closing s (calm d closing s (λ f t. tt)) v
  Step-Ready {s} (deliver d b some_bytes e) v =
      set_loop-Ready d (got b) s (calm d (got b) s (λ f t. some_bytes)) v
  Step-Ready {s} (finish d e) v = set_loop-Ready d closing s (calm d closing s (λ f t. tt)) v
  Step-Ready {s} (expire_read d e x) v = set_loop-Ready d closing s (calm d closing s (λ f t. tt)) v
  Step-Ready {s} (write d b e) v =
      set_loop-Ready d calling _ (calm d calling (transmit d b s) (λ f t. tt))
        (transmit-Ready d b s v)
  Step-Ready {s} (fail d b k part e) v =
      set_loop-Ready d closing _ (calm d closing (transmit d (take k b) s) (λ f t. tt))
        (transmit-Ready d (take k b) s v)
  Step-Ready {s} (expire_write d b k part e x) v =
      set_loop-Ready d closing _ (calm d closing (transmit d (take k b) s) (λ f t. tt))
        (transmit-Ready d (take k b) s v)
  Step-Ready {s} (close_side d e) v =
      let closed : State = record s {
        trace = half_close (wrap_idle_timeout timeout) (destination d) s.trace;
      } in
      set_loop-Ready d ended closed (calm d ended closed (λ f t. tt)) (record {
        client_le = v.client_le;
        upstream_le = v.upstream_le;
        up_waits = v.up_waits;
        down_waits = v.down_waits;
      })

  Reach-Ready_from : {s t : State} → Ready n s → Reach timeout s t → Ready n t
  Reach-Ready_from v here = v
  Reach-Ready_from v (next r st) = Step-Ready st (Reach-Ready_from v r)

  pub Reach-Ready :
      (now : ℕ) (c u : Option ℕ) (tr : Trace) {s : State}
      → AtMost c (now + suc n)
      → AtMost u (now + suc n)
      → Reach timeout (start now c u tr) s
      → Ready n s
  Reach-Ready now c u tr client_set upstream_set r =
      Reach-Ready_from
        (record {
          client_le = client_set;
          upstream_le = upstream_set;
          up_waits = tt;
          down_waits = tt;
        })
        r
