-- ===== src/Proxy/Goroutines/Refinement.antt =====
-- Every interleaving of the two goroutines sends and counts what `relay` does for some chunks.
use istio_forward_proxy.Base.{
  ℕ, ◌+◌, List, [], ◌∷◌, ◌++◌, Option, Bytes, take, ◌≡◌, refl, ap, sym, ◌∙◌, arith, Bool-cases, inl,
  inr,
}
use istio_forward_proxy.Proxy.Effects.{
  Trace, Direction, client_to_upstream, upstream_to_client, Peer, client, upstream, sent,
}
use istio_forward_proxy.Proxy.Handler.{Duration}
use istio_forward_proxy.Proxy.Dial.{wrap_idle_timeout}
use istio_forward_proxy.Proxy.Tunnel.{tunnel, relay, bytes_out, bytes_in, destination, half_close}
use istio_forward_proxy.Proxy.Views.{select}
use istio_forward_proxy.Proxy.Goroutines.{
  Loop, calling, reading, got, writing, closing, ended, State, start, loop, set_loop, set_deadline,
  touch, transmit, Step, tick, begin_read, begin_write, refuse_read, refuse_write, deliver, finish,
  expire_read, write, fail, expire_write, close_side, Reach, here, next, IsEnded, source,
}
use istio_forward_proxy.Proxy.Goroutines.Relayed.{
  sends, client_closes, upstream_closes, closed_by, Relayed, start-Relayed, transmit-Relayed,
  set_loop-Relayed, touch-Relayed,
}

module _ (timeout : Duration) (tr : Trace) where
  loop-set_deadline :
      (d : Direction) (p : Peer) (t : Option ℕ) (s : State) → loop d (set_deadline p t s) ≡ loop d s
  loop-set_deadline client_to_upstream client t s = refl
  loop-set_deadline client_to_upstream upstream t s = refl
  loop-set_deadline upstream_to_client client t s = refl
  loop-set_deadline upstream_to_client upstream t s = refl

  loop-transmit : (d : Direction) (b : Bytes) (s : State) → loop d (transmit d b s) ≡ loop d s
  loop-transmit client_to_upstream b s = refl
  loop-transmit upstream_to_client b s = refl

  -- A goroutine that stands before its end has not called CloseWrite.
  at :
      (d : Direction) (s : State) {l : Loop}
      → loop d s ≡ l
      → closed_by timeout l ≡ 0
      → closed_by timeout (loop d s) ≡ 0
  at d s e quiet = ap (closed_by timeout) e ∙ quiet

  close_side-Relayed :
      (d : Direction) (cs : List (Direction × Bytes)) (s : State)
      → loop d s ≡ closing
      → Relayed timeout tr cs s
      → Relayed timeout tr cs (
          set_loop d ended
            (record s { trace = half_close (wrap_idle_timeout timeout) (destination d) s.trace }))
  unfolding sends select upstream_closes client_closes
  close_side-Relayed client_to_upstream cs s e v =
      let none_yet : closed_by timeout s.up ≡ 0 = ap (closed_by timeout) e in
      elim (Bool-cases (wrap_idle_timeout timeout)) [
        | inl wrapped ↦ rw wrapped (record {
          same = v.same;
          out = v.out;
          back = v.back;
          upstream_done = rw wrapped (omega (arith, v.upstream_done, none_yet));
          client_done = v.client_done;
        })
        | inr bare ↦ rw bare (record {
          same = v.same;
          out = v.out;
          back = v.back;
          upstream_done = rw bare (omega (arith, v.upstream_done, none_yet));
          client_done = v.client_done;
        })
      ]
  close_side-Relayed upstream_to_client cs s e v =
      let none_yet : closed_by timeout s.down ≡ 0 = ap (closed_by timeout) e in
      elim (Bool-cases (wrap_idle_timeout timeout)) [
        | inl wrapped ↦ rw wrapped (record {
          same = v.same;
          out = v.out;
          back = v.back;
          upstream_done = v.upstream_done;
          client_done = rw wrapped (omega (arith, v.client_done, none_yet));
        })
        | inr bare ↦ rw bare (record {
          same = v.same;
          out = v.out;
          back = v.back;
          upstream_done = v.upstream_done;
          client_done = rw bare (omega (arith, v.client_done, none_yet));
        })
      ]

  -- A goroutine that writes and goes on, or fails behind a part.
  wrote-Relayed :
      (d : Direction) (b c : Bytes) (l : Loop) (cs : List (Direction × Bytes)) (s : State)
      → closed_by timeout l ≡ 0
      → loop d s ≡ writing b
      → Relayed timeout tr cs s
      → Relayed timeout tr (cs ++ (d, c) ∷ []) (set_loop d l (transmit d c s))
  wrote-Relayed d b c l cs s quiet e v =
      set_loop-Relayed timeout tr d l (cs ++ (d, c) ∷ []) (transmit d c s) quiet
        (at d (transmit d c s) (loop-transmit d c s ∙ e) refl)
        (transmit-Relayed timeout tr d c cs s v)

  Step-Relayed :
      {s t : State} (cs : List (Direction × Bytes))
      → Step timeout s t
      → Relayed timeout tr cs s
      → (ds : List (Direction × Bytes)) × Relayed timeout tr ds t
  Step-Relayed {s} cs (tick n) v = (
    cs,
    record {
      same = v.same;
      out = v.out;
      back = v.back;
      upstream_done = v.upstream_done;
      client_done = v.client_done;
    },
  )
  Step-Relayed {s} cs (begin_read d e) v = (
    cs,
    set_loop-Relayed timeout tr d reading cs (touch timeout (source d) s) refl
        (at d (touch timeout (source d) s) (loop-set_deadline d (source d) _ s ∙ e) refl)
        (touch-Relayed timeout tr (source d) cs s v),
  )
  Step-Relayed {s} cs (begin_write d b e) v = (
    cs,
    set_loop-Relayed timeout tr d (writing b) cs (touch timeout (destination d) s) refl
        (at d (touch timeout (destination d) s) (loop-set_deadline d (destination d) _ s ∙ e) refl)
        (touch-Relayed timeout tr (destination d) cs s v),
  )
  Step-Relayed {s} cs (refuse_read d w e) v =
      (cs, set_loop-Relayed timeout tr d closing cs s refl (at d s e refl) v)
  Step-Relayed {s} cs (refuse_write d b w e) v =
      (cs, set_loop-Relayed timeout tr d closing cs s refl (at d s e refl) v)
  Step-Relayed {s} cs (deliver d b some_bytes e) v =
      (cs, set_loop-Relayed timeout tr d (got b) cs s refl (at d s e refl) v)
  Step-Relayed {s} cs (finish d e) v =
      (cs, set_loop-Relayed timeout tr d closing cs s refl (at d s e refl) v)
  Step-Relayed {s} cs (expire_read d e x) v =
      (cs, set_loop-Relayed timeout tr d closing cs s refl (at d s e refl) v)
  Step-Relayed {s} cs (write d b e) v =
      (cs ++ (d, b) ∷ [], wrote-Relayed d b b calling cs s refl e v)
  Step-Relayed {s} cs (fail d b n part e) v =
      (cs ++ (d, take n b) ∷ [], wrote-Relayed d b (take n b) closing cs s refl e v)
  Step-Relayed {s} cs (expire_write d b n part e x) v =
      (cs ++ (d, take n b) ∷ [], wrote-Relayed d b (take n b) closing cs s refl e v)
  Step-Relayed {s} cs (close_side d e) v = (cs, close_side-Relayed d cs s e v)

  pub Reach-Relayed :
      {now : ℕ} {c u : Option ℕ} {s : State}
      → Reach timeout (start now c u tr) s
      → (cs : List (Direction × Bytes)) × Relayed timeout tr cs s
  Reach-Relayed {now} {c} {u} here = ([], start-Relayed timeout tr now c u)
  Reach-Relayed (next r st) = let (cs, v) = Reach-Relayed r in Step-Relayed cs st v

  closes-relay :
      (cs : List (Direction × Bytes)) (t : Trace)
      → (client_closes (relay cs t) ≡ client_closes t)
        × (upstream_closes (relay cs t) ≡ upstream_closes t)
  unfolding relay client_closes upstream_closes select
  closes-relay [] t = (refl, refl)
  closes-relay ((d, b) ∷ cs) t = closes-relay cs (sent (destination d) b ∷ t)

  tunnel-views :
      (cs : List (Direction × Bytes))
      → (sends (tunnel (wrap_idle_timeout timeout) cs tr) ≡ sends (relay cs tr))
        × (client_closes (tunnel (wrap_idle_timeout timeout) cs tr)
            ≡ client_closes tr + closed_by timeout ended)
        × (upstream_closes (tunnel (wrap_idle_timeout timeout) cs tr)
            ≡ upstream_closes tr + closed_by timeout ended)
  unfolding tunnel sends client_closes upstream_closes select
  tunnel-views cs = elim (Bool-cases (wrap_idle_timeout timeout)) [
    | inl wrapped ↦
        let (c, u) = closes-relay cs tr in
        rw wrapped (
          refl,
          unfold client_closes in omega (arith, c),
          unfold upstream_closes in omega (arith, u),
        )
    | inr bare ↦
        let (c, u) = closes-relay cs tr in
        rw bare (
          refl,
          unfold client_closes in omega (arith, c),
          unfold upstream_closes in omega (arith, u),
        )
  ]

-- The function that models tunnel is what its two goroutines do: when both have ended, in whatever
-- order their steps and those of the connections and the clock interleaved, they have sent and
-- counted what `tunnel` does for some chunks, and called CloseWrite on each side as often.
pub Reach-tunnel :
    (timeout : Duration) (now : ℕ) (c u : Option ℕ) (tr : Trace) (s : State)
    → Reach timeout (start now c u tr) s
    → IsEnded s
    → (cs : List (Direction × Bytes)) × (sends s.trace
        ≡ sends (tunnel (wrap_idle_timeout timeout) cs tr))
      × (s.bytes_out ≡ bytes_out cs)
      × (s.bytes_in ≡ bytes_in cs)
      × (client_closes s.trace ≡ client_closes (tunnel (wrap_idle_timeout timeout) cs tr))
      × (upstream_closes s.trace ≡ upstream_closes (tunnel (wrap_idle_timeout timeout) cs tr))
Reach-tunnel timeout now c u tr s r (up, down) =
    let (cs, v) = Reach-Relayed timeout tr r in
    let (views, client_views, upstream_views) = tunnel-views timeout tr cs in
    (
      cs,
      v.same ∙ sym views,
      v.out,
      v.back,
      v.client_done ∙ ap (λ l. client_closes tr + closed_by timeout l) down ∙ sym client_views,
      v.upstream_done ∙ ap (λ l. upstream_closes tr + closed_by timeout l) up ∙ sym upstream_views,
    )
