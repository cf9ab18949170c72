-- ===== src/Proxy/Goroutines/Ending.antt =====
-- How one goroutine begins its call, and ends once the deadlines have passed.
use istio_forward_proxy.Base.{
  ℕ, ◌<◌, false, [], ◌∷◌, Option, none, some, Bytes, is_empty, length, ◌≡◌, refl, sym, arith,
}
use mathlib.Core.Path.{subst}
use istio_forward_proxy.Proxy.Effects.{
  Direction, client_to_upstream, upstream_to_client, Peer, client, upstream,
}
use istio_forward_proxy.Proxy.Tunnel.{destination}
use istio_forward_proxy.Proxy.Goroutines.{
  Loop, calling, reading, got, writing, closing, ended, State, loop, set_loop, deadline, touch,
  Expired, source, Step, begin_read, begin_write, expire_read, expire_write, close_side,
}
use istio_forward_proxy.Proxy.Goroutines.Silent.{Alone, stay, go}
use istio_forward_proxy.Proxy.Goroutines.Ready.{
  Ready, AtMost, HasDeadline, OwnWaits, timeout, Step-Ready,
}

-- What the end of one goroutine leaves as it was.
pub record Ends (d e : Direction) (s t : State) : Type 0 where
  pub done : loop d t ≡ ended
  pub other : loop e t ≡ loop e s
  pub clock : t.clock ≡ s.clock
  pub client_deadline : t.client_deadline ≡ s.client_deadline
  pub upstream_deadline : t.upstream_deadline ≡ s.upstream_deadline

abbrev pub flip : Direction → Direction
flip client_to_upstream = upstream_to_client
flip upstream_to_client = client_to_upstream

-- A goroutine that waits for no start of a call.
abbrev pub Begun : Loop → Type 0
Begun calling = ⊥
Begun (got b) = ⊥
Begun _ = Unit

-- All deadlines have passed.
abbrev pub Over : State → Type 0
Over s = AtMost s.client_deadline s.clock × AtMost s.upstream_deadline s.clock

pub Expired-of : (p : Peer) (s : State) → HasDeadline (deadline p s) → Over s → Expired p s
Expired-of p s h over = go_on (deadline p s) refl h (of p over)
  where
    of : (p : Peer) → Over s → AtMost (deadline p s) s.clock
    of client o = o.0
    of upstream o = o.1

    go_on : (o : Option ℕ) → deadline p s ≡ o → HasDeadline o → AtMost o s.clock → Expired p s
    go_on none e g le = absurd g
    go_on (some t) e g le = (t, e, le)

module _ (n : ℕ) where
  -- A goroutine behind io.Copy ends by one more step.
  close-Ends :
      (d : Direction) (s : State)
      → loop d s ≡ closing
      → (t : State) × Alone (timeout n) s t × Ends d (flip d) s t
  close-Ends client_to_upstream s e = (
    _,
    go stay (close_side client_to_upstream e) tt,
    record {
      done = refl;
      other = refl;
      clock = refl;
      client_deadline = refl;
      upstream_deadline = refl;
    },
  )
  close-Ends upstream_to_client s e = (
    _,
    go stay (close_side upstream_to_client e) tt,
    record {
      done = refl;
      other = refl;
      clock = refl;
      client_deadline = refl;
      upstream_deadline = refl;
    },
  )

  read-Ends :
      (d : Direction) (s : State)
      → loop d s ≡ reading
      → Expired (source d) s
      → (t : State) × Alone (timeout n) s t × Ends d (flip d) s t
  read-Ends client_to_upstream s e x = (
    _,
    go (go stay (expire_read client_to_upstream e x) tt) (close_side client_to_upstream refl) tt,
    record {
      done = refl;
      other = refl;
      clock = refl;
      client_deadline = refl;
      upstream_deadline = refl;
    },
  )
  read-Ends upstream_to_client s e x = (
    _,
    go (go stay (expire_read upstream_to_client e x) tt) (close_side upstream_to_client refl) tt,
    record {
      done = refl;
      other = refl;
      clock = refl;
      client_deadline = refl;
      upstream_deadline = refl;
    },
  )

  pub not_empty : (b : Bytes) → is_empty b ≡ false → 0 < length b
  not_empty [] h = cc
  not_empty (x ∷ b) h = omega arith

  write-Ends :
      (d : Direction) (b : Bytes) (s : State)
      → loop d s ≡ writing b
      → is_empty b ≡ false
      → Expired (destination d) s
      → (t : State) × Alone (timeout n) s t × Ends d (flip d) s t
  write-Ends client_to_upstream b s e some_bytes x = (
    _,
    go (go stay (expire_write client_to_upstream b 0 (not_empty b some_bytes) e x) refl)
        (close_side client_to_upstream refl) tt,
    record {
      done = refl;
      other = refl;
      clock = refl;
      client_deadline = refl;
      upstream_deadline = refl;
    },
  )
  write-Ends upstream_to_client b s e some_bytes x = (
    _,
    go (go stay (expire_write upstream_to_client b 0 (not_empty b some_bytes) e x) refl)
        (close_side upstream_to_client refl) tt,
    record {
      done = refl;
      other = refl;
      clock = refl;
      client_deadline = refl;
      upstream_deadline = refl;
    },
  )

  pub own_read :
      (d : Direction) (s : State) → OwnWaits n d reading s → HasDeadline (deadline (source d) s)
  own_read client_to_upstream s h = h
  own_read upstream_to_client s h = h

  pub own_write :
      (d : Direction) (b : Bytes) (s : State)
      → OwnWaits n d (writing b) s
      → (is_empty b ≡ false) × HasDeadline (deadline (destination d) s)
  own_write client_to_upstream b s h = h
  own_write upstream_to_client b s h = h

  -- Once all deadlines have passed, a goroutine that has begun its call ends.
  pub goroutine-Ends :
      (d : Direction) (s : State) (l : Loop)
      → loop d s ≡ l
      → Begun l
      → OwnWaits n d l s
      → Over s
      → (t : State) × Alone (timeout n) s t × Ends d (flip d) s t
  goroutine-Ends d s calling e b w over = absurd b
  goroutine-Ends d s reading e b w over =
      read-Ends d s e (Expired-of (source d) s (own_read d s w) over)
  goroutine-Ends d s (got c) e b w over = absurd b
  goroutine-Ends d s (writing c) e b w over =
      let (some_bytes, set) = own_write d c s w in
      write-Ends d c s e some_bytes (Expired-of (destination d) s set over)
  goroutine-Ends d s closing e b w over = close-Ends d s e
  goroutine-Ends d s ended e b w over = (
    s,
    stay,
    record {
      done = e;
      other = refl;
      clock = refl;
      client_deadline = refl;
      upstream_deadline = refl;
    },
  )

  -- A goroutine begins the call that it stands before.
  pub record Begins (d : Direction) (s t : State) : Type 0 where
    pub begun : Begun (loop d t)
    pub other : loop (flip d) t ≡ loop (flip d) s
    pub clock : t.clock ≡ s.clock
    pub ready : Ready n t

  loop-begun :
      (d : Direction) (p : Peer) (l : Loop) (s : State)
      → (loop d (set_loop d l (touch (timeout n) p s)) ≡ l)
        × (loop (flip d) (set_loop d l (touch (timeout n) p s)) ≡ loop (flip d) s)
        × ((set_loop d l (touch (timeout n) p s)).clock ≡ s.clock)
  loop-begun client_to_upstream client l s = (refl, refl, refl)
  loop-begun client_to_upstream upstream l s = (refl, refl, refl)
  loop-begun upstream_to_client client l s = (refl, refl, refl)
  loop-begun upstream_to_client upstream l s = (refl, refl, refl)

  pub goroutine-Begins :
      (d : Direction) (s : State) (l : Loop)
      → loop d s ≡ l
      → Ready n s
      → (t : State) × Alone (timeout n) s t × Begins d s t
  goroutine-Begins d s calling e v =
      let (own, other, clock) = loop-begun d (source d) reading s in
      let st : Step (timeout n) s (set_loop d reading (touch (timeout n) (source d) s)) =
        begin_read d e in
      (
        _,
        go stay st tt,
        record {
          begun = subst Begun (sym own) tt;
          other = other;
          clock = clock;
          ready = Step-Ready n st v;
        },
      )
  goroutine-Begins d s (got b) e v =
      let (own, other, clock) = loop-begun d (destination d) (writing b) s in
      let st : Step (timeout n) s (set_loop d (writing b) (touch (timeout n) (destination d) s)) =
        begin_write d b e in
      (
        _,
        go stay st tt,
        record {
          begun = subst Begun (sym own) tt;
          other = other;
          clock = clock;
          ready = Step-Ready n st v;
        },
      )
  goroutine-Begins d s reading e v =
      (s, stay, record { begun = subst Begun (sym e) tt; other = refl; clock = refl; ready = v })
  goroutine-Begins d s (writing b) e v =
      (s, stay, record { begun = subst Begun (sym e) tt; other = refl; clock = refl; ready = v })
  goroutine-Begins d s closing e v =
      (s, stay, record { begun = subst Begun (sym e) tt; other = refl; clock = refl; ready = v })
  goroutine-Begins d s ended e v =
      (s, stay, record { begun = subst Begun (sym e) tt; other = refl; clock = refl; ready = v })
