-- ===== src/Proxy/Connect/Counts.antt =====
-- What tunnel counts is what it relays.
use istio_forward_proxy.Base.{
  ◌+◌, Bool, List, [], ◌∷◌, Bytes, length, length-append, ◌≡◌, refl, arith,
}
use istio_forward_proxy.Proxy.Effects.{Trace, Direction, client_to_upstream, upstream_to_client}
use istio_forward_proxy.Proxy.Tunnel.{tunnel, bytes_in, bytes_out}
use istio_forward_proxy.Proxy.Connect.Delivery.{chunks_to_upstream, chunks_to_client}
use istio_forward_proxy.Proxy.Connect.Completion.{Delivered-tunnel}
use istio_forward_proxy.Proxy.Views.{sent_to_upstream, sent_to_client}

bytes_out-length : (cs : List (Direction × Bytes)) → bytes_out cs ≡ length (chunks_to_upstream cs)
unfolding bytes_out chunks_to_upstream
bytes_out-length [] = refl
bytes_out-length ((client_to_upstream, b) ∷ cs) =
    omega (arith, bytes_out-length cs, length-append b (chunks_to_upstream cs))
bytes_out-length ((upstream_to_client, b) ∷ cs) = bytes_out-length cs

bytes_in-length : (cs : List (Direction × Bytes)) → bytes_in cs ≡ length (chunks_to_client cs)
unfolding bytes_in chunks_to_client
bytes_in-length [] = refl
bytes_in-length ((client_to_upstream, b) ∷ cs) = bytes_in-length cs
bytes_in-length ((upstream_to_client, b) ∷ cs) =
    omega (arith, bytes_in-length cs, length-append b (chunks_to_client cs))

-- However the chunks of the two directions interleave, and whether or not the connections have an
-- idle timeout, tunnel sends each side as many bytes more as it counts for that direction.
pub tunnel-length :
    (wrapped : Bool) (cs : List (Direction × Bytes)) (tr : Trace)
    → (length (sent_to_upstream (tunnel wrapped cs tr))
        ≡ length (sent_to_upstream tr) + bytes_out cs)
      × (length (sent_to_client (tunnel wrapped cs tr)) ≡ length (sent_to_client tr) + bytes_in cs)
tunnel-length wrapped cs tr =
    let d = Delivered-tunnel wrapped cs tr in
    (
      rw d.to_upstream (
          omega (
            arith,
            bytes_out-length cs,
            length-append (sent_to_upstream tr) (chunks_to_upstream cs),
          )),
      rw d.to_client (
          omega
            (arith, bytes_in-length cs, length-append (sent_to_client tr) (chunks_to_client cs))),
    )
