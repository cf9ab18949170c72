-- ===== src/Proxy/Goroutines/Abandoned.antt =====
-- A tunnel that nobody uses any more comes to its end.
use istio_forward_proxy.Base.{ℕ, suc, ◌+◌, Option, ◌≡◌, refl, ap, sym, ◌∙◌}
use mathlib.Core.Path.{subst}
use istio_forward_proxy.Proxy.Effects.{Trace, client_to_upstream, upstream_to_client}
use istio_forward_proxy.Proxy.Handler.{duration}
use istio_forward_proxy.Proxy.Goroutines.{State, start, IsEnded, Step, tick, Reach}
use istio_forward_proxy.Proxy.Goroutines.Silent.{Alone, stay, go, Alone-trans}
use istio_forward_proxy.Proxy.Goroutines.Ready.{
  Ready, AtMost, Waits, timeout, Step-Ready, Reach-Ready,
}
use istio_forward_proxy.Proxy.Goroutines.Ending.{Begun, Over, goroutine-Ends, goroutine-Begins}

module _ (n : ℕ) where
  -- Both goroutines end, one behind the other.
  both_end :
      (s : State)
      → Ready n s
      → Begun s.up
      → Begun s.down
      → Over s
      → (t : State) × Alone (timeout n) s t × IsEnded t × (t.clock ≡ s.clock)
  both_end s v up down over =
      let (t, first, e) = goroutine-Ends n client_to_upstream s s.up refl up v.up_waits over in
      let (u, second, f) =
        goroutine-Ends n upstream_to_client t s.down e.other down
          (subst (λ (o : Option ℕ). Waits s.down o t.client_deadline) (sym e.upstream_deadline)
            (subst (λ (o : Option ℕ). Waits s.down s.upstream_deadline o) (sym e.client_deadline)
              v.down_waits))
          (
            subst (λ (o : Option ℕ). AtMost o t.clock) (sym e.client_deadline)
                (subst (AtMost s.client_deadline) (sym e.clock) over.0),
            subst (λ (o : Option ℕ). AtMost o t.clock) (sym e.upstream_deadline)
                (subst (AtMost s.upstream_deadline) (sym e.clock) over.1),
          ) in
      (u, Alone-trans first second, (f.other ∙ e.done, f.done), f.clock ∙ e.clock)

  -- An abandoned tunnel ends: with an idle timeout, and no deadline at its start more than one
  -- timeout ahead, in every state that a tunnel reaches, whatever its goroutines wait for, they can
  -- both end with no help of either side and one timeout from then on.
  pub abandoned-IsEnded :
      (now : ℕ) (c u : Option ℕ) (tr : Trace) (s : State)
      → AtMost c (now + suc n)
      → AtMost u (now + suc n)
      → Reach (duration (suc n)) (start now c u tr) s
      → (t : State) × Alone (duration (suc n)) s t × IsEnded t × (t.clock ≡ s.clock + suc n)
  abandoned-IsEnded now c u tr s client_set upstream_set r =
      let v = Reach-Ready n now c u tr client_set upstream_set r in
      let (s1, one, b) = goroutine-Begins n client_to_upstream s s.up refl v in
      let (s2, two, d) = goroutine-Begins n upstream_to_client s1 s1.down refl b.ready in
      let later : State = record s2 { clock = s2.clock + suc n } in
      let wait : Step (timeout n) s2 later = tick (suc n) in
      let (t, three, done, clock) =
        both_end later (Step-Ready n wait d.ready) (subst Begun (sym d.other) b.begun) d.begun
          (d.ready.client_le, d.ready.upstream_le) in
      (
        t,
        Alone-trans one (Alone-trans two (Alone-trans (go stay wait tt) three)),
        done,
        clock ∙ ap (λ k. k + suc n) (d.clock ∙ b.clock),
      )
