-- ===== src/Proxy/Goroutines.antt =====
-- internal/proxy/handler.go: tunnel with its two goroutines a call of the connections at a time,
-- closeWriter, and idleTimeoutConn, which moves the deadline of its connection at each call.

pub mod Relayed
pub mod Refinement
pub mod Samples
mod Tests
pub mod Ready
pub mod Silent
pub mod Ending
pub mod Abandoned
pub mod Deadlines
pub mod Progress
pub mod HalfCloses
use istio_forward_proxy.Base.{
  ℕ, suc, zero, ◌+◌, ◌≤◌, ◌<◌, Bool, true, Option, none, some, List, [], ◌∷◌, Bytes, is_empty,
  false, length, take, ◌≡◌,
}
use istio_forward_proxy.Proxy.Effects.{
  Trace, Direction, client_to_upstream, upstream_to_client, Peer, client, upstream, sent,
}
use istio_forward_proxy.Proxy.Handler.{Duration, negative, duration}
use istio_forward_proxy.Proxy.Dial.{wrap_idle_timeout}
use istio_forward_proxy.Proxy.Tunnel.{destination, half_close}

-- Where a goroutine stands in io.Copy and behind it.
pub data Loop : Type 0 where
  -- before Read, and in it
  calling reading : Loop
  -- before Write of these bytes, and in it
  got writing : Bytes → Loop
  -- behind io.Copy, and behind CloseWrite
  closing ended : Loop

-- The two goroutines and what they share. A deadline is that of the connection itself, for reads
-- and writes alike, and is `none` until it is set.
pub record State : Type 0 where
  pub clock : ℕ
  pub client_deadline : Option ℕ
  pub upstream_deadline : Option ℕ
  pub up : Loop
  pub down : Loop
  pub bytes_out : ℕ
  pub bytes_in : ℕ
  pub trace : Trace

-- The start of tunnel, on connections whose deadlines are as they were left.
abbrev pub start : ℕ → Option ℕ → Option ℕ → Trace → State
start now c u tr = record {
  clock = now;
  client_deadline = c;
  upstream_deadline = u;
  up = calling;
  down = calling;
  bytes_out = 0;
  bytes_in = 0;
  trace = tr;
}

abbrev pub source : Direction → Peer
source client_to_upstream = client
source upstream_to_client = upstream

abbrev pub loop : Direction → State → Loop
loop client_to_upstream s = s.up
loop upstream_to_client s = s.down

abbrev pub set_loop : Direction → Loop → State → State
set_loop client_to_upstream l s = record s { up = l }
set_loop upstream_to_client l s = record s { down = l }

abbrev pub deadline : Peer → State → Option ℕ
deadline client s = s.client_deadline
deadline upstream s = s.upstream_deadline

abbrev pub set_deadline : Peer → Option ℕ → State → State
set_deadline client t s = record s { client_deadline = t }
set_deadline upstream t s = record s { upstream_deadline = t }

-- The first lines of the methods Read and Write of idleTimeoutConn; a connection that is not
-- wrapped keeps the deadline that it has.
abbrev pub extended : Duration → ℕ → Option ℕ → Option ℕ
extended (negative n) now old = old
extended (duration zero) now old = old
extended (duration (suc n)) now old = some (now + suc n)

abbrev pub touch : Duration → Peer → State → State
touch timeout p s = set_deadline p (extended timeout s.clock (deadline p s)) s

-- A deadline that has passed fails the reads and writes of its connection.
abbrev pub Expired : Peer → State → Type 0
Expired p s = (t : ℕ) × (deadline p s ≡ some t) × (t ≤ s.clock)

-- A Write that has transmitted these bytes, which io.Copy adds to its count.
abbrev pub transmit : Direction → Bytes → State → State
transmit client_to_upstream b s = record s {
  bytes_out = s.bytes_out + length b;
  trace = sent upstream b ∷ s.trace;
}
transmit upstream_to_client b s = record s {
  bytes_in = s.bytes_in + length b;
  trace = sent client b ∷ s.trace;
}

-- One step of the clock, of a goroutine, or of the connection that it waits for. A Read gives bytes
-- or an error, as on TCP and TLS connections.
pub data Step (timeout : Duration) (s : State) : State → Type 0 where
  tick : (n : ℕ) → Step timeout s (record s { clock = s.clock + n })
  -- SetDeadline, and the start of the Read or Write behind it
  begin_read :
      (d : Direction)
      → loop d s ≡ calling
      → Step timeout s (set_loop d reading (touch timeout (source d) s))
  begin_write :
      (d : Direction) (b : Bytes)
      → loop d s ≡ got b
      → Step timeout s (set_loop d (writing b) (touch timeout (destination d) s))
  -- SetDeadline fails
  refuse_read :
      (d : Direction)
      → wrap_idle_timeout timeout ≡ true
      → loop d s ≡ calling
      → Step timeout s (set_loop d closing s)
  refuse_write :
      (d : Direction) (b : Bytes)
      → wrap_idle_timeout timeout ≡ true
      → loop d s ≡ got b
      → Step timeout s (set_loop d closing s)
  -- Read returns some bytes
  deliver :
      (d : Direction) (b : Bytes)
      → is_empty b ≡ false
      → loop d s ≡ reading
      → Step timeout s (set_loop d (got b) s)
  -- Read returns the end of the input or an error, or its deadline passes
  finish : (d : Direction) → loop d s ≡ reading → Step timeout s (set_loop d closing s)
  expire_read :
      (d : Direction)
      → loop d s ≡ reading
      → Expired (source d) s
      → Step timeout s (set_loop d closing s)
  -- Write transmits all, or a part and returns an error, or its deadline passes
  write :
      (d : Direction) (b : Bytes)
      → loop d s ≡ writing b
      → Step timeout s (set_loop d calling (transmit d b s))
  fail :
      (d : Direction) (b : Bytes) (n : ℕ)
      → n < length b
      → loop d s ≡ writing b
      → Step timeout s (set_loop d closing (transmit d (take n b) s))
  expire_write :
      (d : Direction) (b : Bytes) (n : ℕ)
      → n < length b
      → loop d s ≡ writing b
      → Expired (destination d) s
      → Step timeout s (set_loop d closing (transmit d (take n b) s))
  -- the assertion on closeWriter, and CloseWrite where it holds
  close_side :
      (d : Direction)
      → loop d s ≡ closing
      → Step timeout s (
          set_loop d ended
            (record s { trace = half_close (wrap_idle_timeout timeout) (destination d) s.trace }))

pub data Reach (timeout : Duration) (s : State) : State → Type 0 where
  here : Reach timeout s s
  next : {t u : State} → Reach timeout s t → Step timeout t u → Reach timeout s u

-- wg.Wait returns.
abbrev pub IsEnded : State → Type 0
IsEnded s = (s.up ≡ ended) × (s.down ≡ ended)
