-- ===== src/Proxy/Goroutines/Tests.antt =====
-- The theorems about the two goroutines, at that run.
use istio_forward_proxy.Base.{◌+◌, List, [], ◌∷◌, none, Bytes, ◌≡◌, ◌↔◌, ◌⊎◌, ◌≤◌, refl, here}
use istio_forward_proxy.Proxy.Effects.{Direction, client_to_upstream, client, upstream}
use istio_forward_proxy.Proxy.Tunnel.{tunnel, bytes_out, bytes_in}
use istio_forward_proxy.Proxy.Dial.{wrap_idle_timeout}
use istio_forward_proxy.Proxy.Goroutines.{State, Step, set_loop, closing, Expired, IsEnded}
use istio_forward_proxy.Proxy.Goroutines.Samples.{timeout, relayed, over, paused, both_read}
use istio_forward_proxy.Proxy.Goroutines.Relayed.{sends, client_closes, upstream_closes}
use istio_forward_proxy.Proxy.Goroutines.Refinement.{Reach-tunnel}
use istio_forward_proxy.Proxy.Goroutines.Deadlines.{calls, Quiet, Expired-Quiet}
use istio_forward_proxy.Proxy.Goroutines.Silent.{Alone, moves}
use istio_forward_proxy.Proxy.Goroutines.Progress.{Movable, later, alone-Movable}
use istio_forward_proxy.Proxy.Goroutines.HalfCloses.{PassedOn, half_close_passes}
use istio_forward_proxy.Proxy.Handler.{duration}
use istio_forward_proxy.Proxy.Goroutines.Abandoned.{abandoned-IsEnded}

Reach-tunnel_example :
    (cs : List (Direction × Bytes)) × (sends over.0.trace
      ≡ sends (tunnel (wrap_idle_timeout timeout) cs []))
    × (over.0.bytes_out ≡ bytes_out cs)
    × (over.0.bytes_in ≡ bytes_in cs)
    × (client_closes over.0.trace ≡ client_closes (tunnel (wrap_idle_timeout timeout) cs []))
    × (upstream_closes over.0.trace ≡ upstream_closes (tunnel (wrap_idle_timeout timeout) cs []))
Reach-tunnel_example = Reach-tunnel timeout 5 none none [] over.0 over.1 (refl, refl)

called_upstream : calls relayed.1 ≡ (upstream, 65) ∷ (upstream, 5) ∷ (client, 5) ∷ []
unfolding calls
called_upstream = refl

Expired-Quiet_example :
    Expired upstream relayed.0 ↔ Quiet 90 upstream (calls relayed.1) relayed.0.clock
unfolding calls
Expired-Quiet_example = Expired-Quiet 89 5 none none [] relayed.0 relayed.1 upstream 65 here

abandoned-IsEnded_example :
    (t : State) × Alone timeout relayed.0 t × IsEnded t × (t.clock ≡ relayed.0.clock + 90)
abandoned-IsEnded_example = abandoned-IsEnded 89 5 none none [] relayed.0 tt tt relayed.1

alone-Movable_example :
    (moves paused.1 ≤ 6) × (IsEnded paused.0 ⊎ Movable timeout (later 90 paused.0))
alone-Movable_example = alone-Movable 89 5 none none [] relayed.0 paused.0 tt tt relayed.1 paused.1

-- The upstream is still waited for, and the client ends its input.
half_close_passes_example :
    Step (duration 0) both_read.0 (set_loop client_to_upstream closing both_read.0)
    × (t : State) × Step (duration 0) (set_loop client_to_upstream closing both_read.0) t
    × PassedOn (duration 0) client_to_upstream [] both_read.0 t
half_close_passes_example =
    half_close_passes (duration 0) [] 5 none none both_read.0 client_to_upstream both_read.1 refl
