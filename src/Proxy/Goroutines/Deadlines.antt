-- ===== src/Proxy/Goroutines/Deadlines.antt =====
-- When the deadline of a connection passes: idleTimeoutConn.
use istio_forward_proxy.Base.{
  ℕ, suc, ◌+◌, ◌≤◌, Bool, true, false, List, [], ◌∷◌, Option, none, some, Bytes, ◌≡◌, ◌↔◌, refl, ap,
  sym, ◌∙◌, arith, if◌then◌else◌, Occurs, Occurs-cons, All, inl, inr,
}
use istio_forward_proxy.Proxy.Effects.{
  Trace, Direction, client_to_upstream, upstream_to_client, Peer, client, upstream,
}
use istio_forward_proxy.Proxy.Handler.{Duration, duration}
use istio_forward_proxy.Proxy.Tunnel.{destination}
use istio_forward_proxy.Proxy.Goroutines.{
  Loop, State, start, set_loop, deadline, touch, transmit, Expired, source, Step, tick, begin_read,
  begin_write, refuse_read, refuse_write, deliver, finish, expire_read, write, fail, expire_write,
  close_side, Reach, here, next,
}

abbrev same_peer : Peer → Peer → Bool
same_peer client client = true
same_peer upstream upstream = true
same_peer _ _ = false

-- The calls of Read and Write that a step starts, with their connection and time.
unfoldable pub started :
    {timeout : Duration} {s t : State} → Step timeout s t → List (Peer × ℕ) → List (Peer × ℕ)
started {timeout} {s} (begin_read d e) cs = (source d, s.clock) ∷ cs
started {timeout} {s} (begin_write d b e) cs = (destination d, s.clock) ∷ cs
started _ cs = cs

-- The calls that a run has started, the latest first.
unfoldable pub calls : {timeout : Duration} {s t : State} → Reach timeout s t → List (Peer × ℕ)
unfolding started
calls here = []
calls (next r st) = started st (calls r)

unfoldable newest : Peer → List (Peer × ℕ) → Option ℕ
newest p [] = none
newest p ((q, w) ∷ cs) = if same_peer p q then some w else newest p cs

-- The deadline behind a last call, if there is one.
abbrev due : ℕ → Option ℕ → Option ℕ → Option ℕ
due n initial none = initial
due n initial (some w) = some (w + suc n)

abbrev Falling : List (Peer × ℕ) → Type 0
Falling [] = Unit
Falling (c ∷ cs) = All (λ (q : Peer × ℕ). q.1 ≤ c.1) cs × Falling cs

record Timed (n : ℕ) (c u : Option ℕ) (cs : List (Peer × ℕ)) (s : State) : Type 0 where
  client_at : s.client_deadline ≡ due n c (newest client cs)
  upstream_at : s.upstream_deadline ≡ due n u (newest upstream cs)
  past : All (λ (q : Peer × ℕ). q.1 ≤ s.clock) cs
  falling : Falling cs

All-past :
    (cs : List (Peer × ℕ)) (a b : ℕ)
    → a ≤ b
    → All (λ (q : Peer × ℕ). q.1 ≤ a) cs
    → All (λ (q : Peer × ℕ). q.1 ≤ b) cs
All-past [] a b le h = tt
All-past (q ∷ cs) a b le h = (omega (arith, h.0), All-past cs a b le h.1)

module _ (n : ℕ) (c u : Option ℕ) where
  set_loop-Timed :
      (d : Direction) (l : Loop) (cs : List (Peer × ℕ)) (s : State)
      → Timed n c u cs s
      → Timed n c u cs (set_loop d l s)
  set_loop-Timed client_to_upstream l cs s v = record {
    client_at = v.client_at;
    upstream_at = v.upstream_at;
    past = v.past;
    falling = v.falling;
  }
  set_loop-Timed upstream_to_client l cs s v = record {
    client_at = v.client_at;
    upstream_at = v.upstream_at;
    past = v.past;
    falling = v.falling;
  }

  transmit-Timed :
      (d : Direction) (b : Bytes) (cs : List (Peer × ℕ)) (s : State)
      → Timed n c u cs s
      → Timed n c u cs (transmit d b s)
  transmit-Timed client_to_upstream b cs s v = record {
    client_at = v.client_at;
    upstream_at = v.upstream_at;
    past = v.past;
    falling = v.falling;
  }
  transmit-Timed upstream_to_client b cs s v = record {
    client_at = v.client_at;
    upstream_at = v.upstream_at;
    past = v.past;
    falling = v.falling;
  }

  touch-Timed :
      (p : Peer) (cs : List (Peer × ℕ)) (s : State)
      → Timed n c u cs s
      → Timed n c u ((p, s.clock) ∷ cs) (touch (duration (suc n)) p s)
  unfolding newest
  touch-Timed client cs s v = record {
    client_at = refl;
    upstream_at = v.upstream_at;
    past = (omega arith, v.past);
    falling = (v.past, v.falling);
  }
  touch-Timed upstream cs s v = record {
    client_at = v.client_at;
    upstream_at = refl;
    past = (omega arith, v.past);
    falling = (v.past, v.falling);
  }

  Step-Timed :
      {s t : State} (st : Step (duration (suc n)) s t) (cs : List (Peer × ℕ))
      → Timed n c u cs s
      → Timed n c u (started st cs) t
  unfolding started
  Step-Timed {s} (tick k) cs v = record {
    client_at = v.client_at;
    upstream_at = v.upstream_at;
    past = All-past cs s.clock (s.clock + k) (omega arith) v.past;
    falling = v.falling;
  }
  Step-Timed {s} (begin_read d e) cs v = set_loop-Timed d _ _ _ (touch-Timed (source d) cs s v)
  Step-Timed {s} (begin_write d b e) cs v =
      set_loop-Timed d _ _ _ (touch-Timed (destination d) cs s v)
  Step-Timed {s} (refuse_read d w e) cs v = set_loop-Timed d _ cs s v
  Step-Timed {s} (refuse_write d b w e) cs v = set_loop-Timed d _ cs s v
  Step-Timed {s} (deliver d b some_bytes e) cs v = set_loop-Timed d _ cs s v
  Step-Timed {s} (finish d e) cs v = set_loop-Timed d _ cs s v
  Step-Timed {s} (expire_read d e x) cs v = set_loop-Timed d _ cs s v
  Step-Timed {s} (write d b e) cs v = set_loop-Timed d _ cs _ (transmit-Timed d b cs s v)
  Step-Timed {s} (fail d b k part e) cs v = set_loop-Timed d _ cs _ (transmit-Timed d _ cs s v)
  Step-Timed {s} (expire_write d b k part e x) cs v =
      set_loop-Timed d _ cs _ (transmit-Timed d _ cs s v)
  Step-Timed {s} (close_side d e) cs v = set_loop-Timed d _ cs _ (record {
    client_at = v.client_at;
    upstream_at = v.upstream_at;
    past = v.past;
    falling = v.falling;
  })

  Reach-Timed :
      {now : ℕ} {tr : Trace} {s : State} (r : Reach (duration (suc n)) (start now c u tr) s)
      → Timed n c u (calls r) s
  unfolding calls newest
  Reach-Timed here = record { client_at = refl; upstream_at = refl; past = tt; falling = tt }
  Reach-Timed (next r st) = Step-Timed st (calls r) (Reach-Timed r)

  deadline-newest :
      (p : Peer) (cs : List (Peer × ℕ)) (s : State) (w : ℕ)
      → Timed n c u cs s
      → newest p cs ≡ some w
      → deadline p s ≡ some (w + suc n)
  deadline-newest client cs s w v e = v.client_at ∙ ap (due n c) e
  deadline-newest upstream cs s w v e = v.upstream_at ∙ ap (due n u) e

All-Occurs :
    (cs : List (Peer × ℕ)) (b : ℕ) (q : Peer × ℕ)
    → All (λ (r : Peer × ℕ). r.1 ≤ b) cs
    → Occurs q cs
    → q.1 ≤ b
All-Occurs [] b q h o = elim o [ ]
All-Occurs (r ∷ cs) b q h o = elim (Occurs-cons o) [
  | inl same ↦ let e : q.1 ≡ r.1 = ap (λ (x : Peer × ℕ). x.1) same in omega (arith, h.0, e)
  | inr later ↦ All-Occurs cs b q h.1 later
]

-- A connection that has been called has a newest call, no earlier than its others.
newest-Occurs :
    (p : Peer) (cs : List (Peer × ℕ)) (w : ℕ)
    → Falling cs
    → Occurs (p, w) cs
    → (x : ℕ) × (newest p cs ≡ some x) × (w ≤ x) × Occurs (p, x) cs
unfolding newest
newest-Occurs p [] w f o = elim o [ ]
newest-Occurs client ((client, x) ∷ cs) w f o = (x, refl, head x cs w f.0 o, Occurs.here)
  where
    head :
        (x : ℕ) (cs : List (Peer × ℕ)) (w : ℕ)
        → All (λ (q : Peer × ℕ). q.1 ≤ x) cs
        → Occurs (client, w) ((client, x) ∷ cs)
        → w ≤ x
    head x cs w h o = All-Occurs ((client, x) ∷ cs) x (client, w) (omega arith, h) o
newest-Occurs upstream ((upstream, x) ∷ cs) w f o = (x, refl, head x cs w f.0 o, Occurs.here)
  where
    head :
        (x : ℕ) (cs : List (Peer × ℕ)) (w : ℕ)
        → All (λ (q : Peer × ℕ). q.1 ≤ x) cs
        → Occurs (upstream, w) ((upstream, x) ∷ cs)
        → w ≤ x
    head x cs w h o = All-Occurs ((upstream, x) ∷ cs) x (upstream, w) (omega arith, h) o
newest-Occurs client ((upstream, x) ∷ cs) w f o = elim (Occurs-cons o) [
  | inl same ↦ cc (ap (λ (q : Peer × ℕ). q.0) same)
  | inr later ↦
      let (y, e, le, at) = newest-Occurs client cs w f.1 later in (y, e, le, Occurs.there at)
]
newest-Occurs upstream ((client, x) ∷ cs) w f o = elim (Occurs-cons o) [
  | inl same ↦ cc (ap (λ (q : Peer × ℕ). q.0) same)
  | inr later ↦
      let (y, e, le, at) = newest-Occurs upstream cs w f.1 later in (y, e, le, Occurs.there at)
]

-- Every call of Read or Write on a connection lies at least this long back.
abbrev pub Quiet : ℕ → Peer → List (Peer × ℕ) → ℕ → Type 0
Quiet n p cs now = (w : ℕ) → Occurs (p, w) cs → w + n ≤ now

-- With an idle timeout, the deadline of a connection that tunnel has called passes exactly when
-- every call of Read or Write on it, by either goroutine, lies at least the timeout back.
pub Expired-Quiet :
    (n now : ℕ) (c u : Option ℕ) (tr : Trace) (s : State)
    (r : Reach (duration (suc n)) (start now c u tr) s) (p : Peer) (w : ℕ)
    → Occurs (p, w) (calls r)
    → Expired p s ↔ Quiet (suc n) p (calls r) s.clock
Expired-Quiet n now c u tr s r p w o =
    let v = Reach-Timed n c u r in
    let (x, found, le, at) = newest-Occurs p (calls r) w v.falling o in
    let set = deadline-newest n c u p (calls r) s x v found in
    (
      λ (t, e, passed) y here_too.
          let (z, again, bound, _) = newest-Occurs p (calls r) y v.falling here_too in
          let same : some (x + suc n) ≡ some t = sym set ∙ e in
          let same_call : some x ≡ some z = sym found ∙ again in ground (arith, bound, passed),
      λ quiet. (x + suc n, set, quiet x at),
    )
