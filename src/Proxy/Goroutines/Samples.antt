-- ===== src/Proxy/Goroutines/Samples.antt =====
-- A tunnel that relays one chunk and is then left alone.
use istio_forward_proxy.Base.{none, [], codes, refl, arith}
use istio_forward_proxy.Proxy.Effects.{client_to_upstream, upstream_to_client}
use istio_forward_proxy.Proxy.Handler.{Duration, duration}
use istio_forward_proxy.Proxy.Goroutines.{
  State, start, Reach, here, next, tick, begin_read, begin_write, deliver, write, finish,
  expire_read, close_side,
}
use istio_forward_proxy.Proxy.Goroutines.Silent.{Alone, stay, go}

abbrev pub timeout : Duration
timeout = duration 90

abbrev pub fresh : State
fresh = start 5 none none []

-- Both goroutines read, and the client sends a chunk that is written to the upstream.
abbrev pub relayed : (s : State) × Reach timeout fresh s
relayed = (
  _,
  next
      (next
        (next
          (next
            (next (next here (begin_read client_to_upstream refl))
              (begin_read upstream_to_client refl))
            (tick 60))
          (deliver client_to_upstream (codes "ping") refl refl))
        (begin_write client_to_upstream (codes "ping") refl))
      (write client_to_upstream (codes "ping") refl),
)

-- The client ends its input, and the upstream says nothing until the deadline that the write has
-- moved.
abbrev pub over : (s : State) × Reach timeout fresh s
over = (
  _,
  next
      (next
        (next
          (next
            (next (next relayed.1 (begin_read client_to_upstream refl))
              (finish client_to_upstream refl))
            (close_side client_to_upstream refl))
          (tick 90))
        (expire_read upstream_to_client refl (155, refl, omega arith)))
      (close_side upstream_to_client refl),
)

-- After the chunk, a read and a pause.
abbrev pub paused : (s : State) × Alone timeout relayed.0 s
paused = (_, go (go stay (begin_read client_to_upstream refl) tt) (tick 3) tt)

-- Without an idle timeout, both goroutines wait in Read.
abbrev pub both_read : (s : State) × Reach (duration 0) fresh s
both_read =
    (_, next (next here (begin_read client_to_upstream refl)) (begin_read upstream_to_client refl))
