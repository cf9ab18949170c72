-- ===== src/Proxy/Goroutines/Silent.antt =====
-- Runs in which neither end of the tunnel does anything, and how long they can be.
use istio_forward_proxy.Base.{ℕ, ◌+◌, ◌≤◌, Bytes, take, ◌≡◌, refl, ap, ◌∙◌, arith}
use istio_forward_proxy.Proxy.Effects.{
  Direction, client_to_upstream, upstream_to_client, Peer, client, upstream,
}
use istio_forward_proxy.Proxy.Handler.{Duration}
use istio_forward_proxy.Proxy.Tunnel.{destination}
use istio_forward_proxy.Proxy.Goroutines.{
  Loop, calling, reading, got, writing, closing, ended, State, loop, set_loop, touch, transmit,
  source, Step, tick, begin_read, begin_write, refuse_read, refuse_write, deliver, finish,
  expire_read, write, fail, expire_write, close_side,
}

-- A step that the connections take no part in but by their deadlines: no data, no end of input, no
-- error, no bytes that go out.
abbrev pub IsSilent : {timeout : Duration} {s t : State} → Step timeout s t → Type 0
IsSilent (tick n) = Unit
IsSilent (begin_read d e) = Unit
IsSilent (begin_write d b e) = Unit
IsSilent (expire_read d e x) = Unit
IsSilent (expire_write d b n part e x) = n ≡ 0
IsSilent (close_side d e) = Unit
IsSilent _ = ⊥

-- A run while both ends are silent.
pub data Alone (timeout : Duration) (s : State) : State → Type 0 where
  stay : Alone timeout s s
  go : {t u : State} → Alone timeout s t → (st : Step timeout t u) → IsSilent st → Alone timeout s u

pub Alone-trans :
    {timeout : Duration} {s t u : State} → Alone timeout s t → Alone timeout t u → Alone timeout s u
Alone-trans a stay = a
Alone-trans a (go b st q) = go (Alone-trans a b) st q

-- How many steps a goroutine has left, at most, if nothing comes and nothing goes.
abbrev left : Loop → ℕ
left calling = 3
left reading = 2
left (got b) = 3
left (writing b) = 2
left closing = 1
left ended = 0

left-le : (l : Loop) → left l ≤ 3
left-le l = ground arith

abbrev steps_left : State → ℕ
steps_left s = left s.up + left s.down

-- The steps of a run but those of the clock.
abbrev pub step_cost : {timeout : Duration} {s t : State} → Step timeout s t → ℕ
step_cost (tick n) = 0
step_cost _ = 1

unfoldable pub moves : {timeout : Duration} {s t : State} → Alone timeout s t → ℕ
moves stay = 0
moves (go a st q) = moves a + step_cost st

-- One goroutine moves on.
set_loop-left :
    (d : Direction) (l k : Loop) (s : State)
    → loop d s ≡ k
    → steps_left (set_loop d l s) + left k ≡ steps_left s + left l
set_loop-left client_to_upstream l k s e =
    let m : left s.up ≡ left k = ap left e in omega (arith, m)
set_loop-left upstream_to_client l k s e =
    let m : left s.down ≡ left k = ap left e in omega (arith, m)

touch-left :
    (timeout : Duration) (p : Peer) (s : State)
    → (steps_left (touch timeout p s) ≡ steps_left s)
      × ((d : Direction) → loop d (touch timeout p s) ≡ loop d s)
touch-left timeout client s = (refl, λ d. both d)
  where
    both : (d : Direction) → loop d (touch timeout client s) ≡ loop d s
    both client_to_upstream = refl
    both upstream_to_client = refl
touch-left timeout upstream s = (refl, λ d. both d)
  where
    both : (d : Direction) → loop d (touch timeout upstream s) ≡ loop d s
    both client_to_upstream = refl
    both upstream_to_client = refl

transmit-left :
    (d : Direction) (b : Bytes) (s : State)
    → (steps_left (transmit d b s) ≡ steps_left s) × (loop d (transmit d b s) ≡ loop d s)
transmit-left client_to_upstream b s = (refl, refl)
transmit-left upstream_to_client b s = (refl, refl)

step-left :
    {timeout : Duration} {s t : State} (st : Step timeout s t)
    → IsSilent st
    → step_cost st + steps_left t ≤ steps_left s
step-left (tick n) q = omega arith
step-left {timeout} {s} (begin_read d e) q =
    let (same, loops) = touch-left timeout (source d) s in
    omega (arith, same, set_loop-left d reading calling (touch timeout (source d) s) (loops d ∙ e))
step-left {timeout} {s} (begin_write d b e) q =
    let (same, loops) = touch-left timeout (destination d) s in
    omega (
      arith,
      same,
      set_loop-left d (writing b) (got b) (touch timeout (destination d) s) (loops d ∙ e),
    )
step-left {timeout} {s} (expire_read d e x) q = omega (arith, set_loop-left d closing reading s e)
step-left {timeout} {s} (expire_write d b n part e x) q =
    let (same, own) = transmit-left d (take n b) s in
    omega (arith, same, set_loop-left d closing (writing b) (transmit d (take n b) s) (own ∙ e))
step-left {timeout} {s} (close_side client_to_upstream e) q =
    let m : left s.up ≡ 1 = ap left e in omega (arith, m)
step-left {timeout} {s} (close_side upstream_to_client e) q =
    let m : left s.down ≡ 1 = ap left e in omega (arith, m)
step-left (refuse_read d w e) q = absurd q
step-left (refuse_write d b w e) q = absurd q
step-left (deliver d b some_bytes e) q = absurd q
step-left (finish d e) q = absurd q
step-left (write d b e) q = absurd q
step-left (fail d b n part e) q = absurd q

moves-left :
    {timeout : Duration} {s t : State} (a : Alone timeout s t)
    → moves a + steps_left t ≤ steps_left s
unfolding moves
moves-left stay = omega arith
moves-left (go a st q) = omega (arith, moves-left a, step-left st q)

-- While neither end does anything, the two goroutines together make six steps at most.
pub moves-le : (timeout : Duration) (s t : State) (a : Alone timeout s t) → moves a ≤ 6
moves-le timeout s t a = omega (arith, moves-left a, left-le s.up, left-le s.down)
