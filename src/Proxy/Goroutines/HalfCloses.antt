-- ===== src/Proxy/Goroutines/HalfCloses.antt =====
-- How a goroutine of tunnel passes the end of its direction on.
use istio_forward_proxy.Base.{
  ℕ, zero, suc, ◌+◌, Bool, true, false, Option, ◌≡◌, refl, ap, arith, if◌then◌else◌,
}
use istio_forward_proxy.Proxy.Effects.{
  Trace, Direction, client_to_upstream, upstream_to_client, Peer, client, upstream,
}
use istio_forward_proxy.Proxy.Handler.{Duration, negative, duration}
use istio_forward_proxy.Proxy.Dial.{wrap_idle_timeout}
use istio_forward_proxy.Proxy.Tunnel.{destination, half_close}
use istio_forward_proxy.Proxy.Views.{select}
use istio_forward_proxy.Proxy.Goroutines.{
  reading, finish, closing, ended, State, start, loop, set_loop, source, Step, close_side, Reach,
}
use istio_forward_proxy.Proxy.Goroutines.Ending.{flip}
use istio_forward_proxy.Proxy.Goroutines.Relayed.{client_closes, upstream_closes, closed_by}
use istio_forward_proxy.Proxy.Goroutines.Refinement.{Reach-Relayed}

-- A timeout of a positive length.
unfoldable pub is_positive : Duration → Bool
is_positive (negative n) = false
is_positive (duration n) = elim n [ zero ↦ false | suc _ ↦ true ]

-- How often CloseWrite has been called on a side.
abbrev pub closes : Peer → Trace → ℕ
closes client tr = client_closes tr
closes upstream tr = upstream_closes tr

wrapped_when_positive : (timeout : Duration) → wrap_idle_timeout timeout ≡ is_positive timeout
unfolding wrap_idle_timeout is_positive
wrapped_when_positive (negative n) = refl
wrapped_when_positive (duration zero) = refl
wrapped_when_positive (duration (suc n)) = refl

-- The state behind the end of a goroutine.
pub record PassedOn (timeout : Duration) (d : Direction) (tr : Trace) (s t : State) : Type 0 where
  pub done : loop d t ≡ ended
  pub other : loop (flip d) t ≡ loop (flip d) s
  pub before : closes (destination d) s.trace ≡ closes (destination d) tr
  pub told :
      closes (destination d) t.trace
      ≡ closes (destination d) tr + (if is_positive timeout then 0 else 1)
  pub untold : closes (source d) t.trace ≡ closes (source d) s.trace

module _ (timeout : Duration) (tr : Trace) where
  -- What closing a side adds to the calls of CloseWrite.
  close-PassedOn :
      (d : Direction) (s : State) (wrapped : Bool)
      → wrapped ≡ is_positive timeout
      → closes (destination d) s.trace ≡ closes (destination d) tr
      → PassedOn timeout d tr s
          (set_loop d ended (record s { trace = half_close wrapped (destination d) s.trace }))
  unfolding client_closes upstream_closes select
  close-PassedOn client_to_upstream s true e q = record {
    done = refl;
    other = refl;
    before = q;
    told = rw (← e) (omega (arith, q));
    untold = refl;
  }
  close-PassedOn client_to_upstream s false e q = record {
    done = refl;
    other = refl;
    before = q;
    told = rw (← e) (omega (arith, q));
    untold = refl;
  }
  close-PassedOn upstream_to_client s true e q = record {
    done = refl;
    other = refl;
    before = q;
    told = rw (← e) (omega (arith, q));
    untold = refl;
  }
  close-PassedOn upstream_to_client s false e q = record {
    done = refl;
    other = refl;
    before = q;
    told = rw (← e) (omega (arith, q));
    untold = refl;
  }

  not_yet :
      {now : ℕ} {c u : Option ℕ} (d : Direction) (s : State)
      → Reach timeout (start now c u tr) s
      → loop d s ≡ reading
      → closes (destination d) s.trace ≡ closes (destination d) tr
  not_yet client_to_upstream s r e =
      let (cs, v) = Reach-Relayed timeout tr r in
      let none_yet : closed_by timeout s.up ≡ 0 = ap (closed_by timeout) e in
      omega (arith, v.upstream_done, none_yet)
  not_yet upstream_to_client s r e =
      let (cs, v) = Reach-Relayed timeout tr r in
      let none_yet : closed_by timeout s.down ≡ 0 = ap (closed_by timeout) e in
      omega (arith, v.client_done, none_yet)

  close_from :
      (d : Direction) (s : State)
      → closes (destination d) s.trace ≡ closes (destination d) tr
      → (t : State) × Step timeout (set_loop d closing s) t × PassedOn timeout d tr s t
  close_from client_to_upstream s q =
      let p =
        close-PassedOn client_to_upstream (set_loop client_to_upstream closing s)
          (wrap_idle_timeout timeout) (wrapped_when_positive timeout) q in
      (
        _,
        close_side client_to_upstream refl,
        record {
          done = p.done;
          other = p.other;
          before = p.before;
          told = p.told;
          untold = p.untold;
        },
      )
  close_from upstream_to_client s q =
      let p =
        close-PassedOn upstream_to_client (set_loop upstream_to_client closing s)
          (wrap_idle_timeout timeout) (wrapped_when_positive timeout) q in
      (
        _,
        close_side upstream_to_client refl,
        record {
          done = p.done;
          other = p.other;
          before = p.before;
          told = p.told;
          untold = p.untold;
        },
      )

  -- In every state that the two goroutines reach, if one of them waits in Read: it has not called
  -- CloseWrite on the side to which it copies; and when its input ends, then wherever the other
  -- goroutine stands, its next step takes it to its end and the other nowhere, and CloseWrite has
  -- been called once on that side without an idle timeout, and never with one of a positive length,
  -- and on the other side as often as before.
  pub half_close_passes :
      (now : ℕ) (c u : Option ℕ) (s : State) (d : Direction)
      → Reach timeout (start now c u tr) s
      → loop d s ≡ reading
      → Step timeout s (set_loop d closing s)
        × (t : State) × Step timeout (set_loop d closing s) t
        × PassedOn timeout d tr s t
  half_close_passes now c u s d r e =
      let (t, step, passed) = close_from d s (not_yet d s r e) in (finish d e, t, step, passed)
