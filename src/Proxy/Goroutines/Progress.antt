-- ===== src/Proxy/Goroutines/Progress.antt =====
-- The goroutines of a tunnel whose ends are silent do not hang.
use istio_forward_proxy.Base.{ℕ, suc, ◌+◌, ◌≤◌, Option, ◌≡◌, ◌⊎◌, inl, inr, refl}
use istio_forward_proxy.Proxy.Effects.{Trace, Direction, client_to_upstream, upstream_to_client}
use istio_forward_proxy.Proxy.Handler.{Duration, duration}
use istio_forward_proxy.Proxy.Tunnel.{destination}
use istio_forward_proxy.Proxy.Goroutines.{
  Loop, calling, reading, got, writing, closing, ended, State, start, loop, source, IsEnded, Step,
  tick, begin_read, begin_write, expire_read, expire_write, close_side, Reach,
}
use istio_forward_proxy.Proxy.Goroutines.Silent.{
  Alone, stay, go, IsSilent, step_cost, moves, moves-le,
}
use istio_forward_proxy.Proxy.Goroutines.Ready.{
  Ready, AtMost, OwnWaits, timeout, Step-Ready, Reach-Ready,
}
use istio_forward_proxy.Proxy.Goroutines.Ending.{Over, Expired-of, not_empty, own_read, own_write}

-- One of the goroutines can make a step for which neither end has to do anything.
abbrev pub Movable : Duration → State → Type 0
Movable limit s = (t : State) × (st : Step limit s t) × IsSilent st × (step_cost st ≡ 1)

abbrev pub later : ℕ → State → State
later n s = record s { clock = s.clock + n }

module _ (n : ℕ) where
  -- Behind its deadlines a goroutine has ended or can move.
  loop-Movable :
      (d : Direction) (s : State) (l : Loop)
      → loop d s ≡ l
      → OwnWaits n d l s
      → Over s
      → (l ≡ ended) ⊎ Movable (timeout n) s
  loop-Movable d s calling e w over = inr (_, begin_read d e, tt, refl)
  loop-Movable d s reading e w over =
      inr (_, expire_read d e (Expired-of (source d) s (own_read n d s w) over), tt, refl)
  loop-Movable d s (got b) e w over = inr (_, begin_write d b e, tt, refl)
  loop-Movable d s (writing b) e w over =
      let (some_bytes, set) = own_write n d b s w in
      inr (
        _,
        expire_write d b 0 (not_empty n b some_bytes) e (Expired-of (destination d) s set over),
        refl,
        refl,
      )
  loop-Movable d s closing e w over = inr (_, close_side d e, tt, refl)
  loop-Movable d s ended e w over = inl refl

  Alone-Ready : {s t : State} → Ready n s → Alone (timeout n) s t → Ready n t
  Alone-Ready v stay = v
  Alone-Ready v (go a st q) = Step-Ready n st (Alone-Ready v a)

  later-Over : (s : State) → Ready n s → Over (later (suc n) s)
  later-Over s v = (v.client_le, v.upstream_le)

  never_stuck : (s : State) → Ready n s → IsEnded s ⊎ Movable (timeout n) (later (suc n) s)
  never_stuck s v =
      let w = Step-Ready n (tick (suc n)) v in
      elim (loop-Movable client_to_upstream (later (suc n) s) s.up refl w.up_waits
        (later-Over s v)) [
          | inr moves_on ↦ inr moves_on
          | inl up ↦
              elim (loop-Movable upstream_to_client (later (suc n) s) s.down refl w.down_waits
                (later-Over s v)) [ inr moves_on ↦ inr moves_on | inl down ↦ inl (up, down) ]
        ]

  -- A tunnel that is left alone comes to its end: with an idle timeout, and no deadline at its start
  -- more than one timeout ahead, from every state that it reaches, and however its goroutines go on
  -- while neither side does anything, they have made at most six steps; and, unless both have ended,
  -- one of them can go on by itself once another timeout is over.
  pub alone-Movable :
      (now : ℕ) (c u : Option ℕ) (tr : Trace) (s t : State)
      → AtMost c (now + suc n)
      → AtMost u (now + suc n)
      → Reach (duration (suc n)) (start now c u tr) s
      → (a : Alone (duration (suc n)) s t)
      → (moves a ≤ 6) × (IsEnded t ⊎ Movable (duration (suc n)) (later (suc n) t))
  alone-Movable now c u tr s t client_set upstream_set r a = (
    moves-le (duration (suc n)) s t a,
    never_stuck t (Alone-Ready (Reach-Ready n now c u tr client_set upstream_set r) a),
  )
