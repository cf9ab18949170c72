-- ===== src/Proxy/Tunnel.antt =====
-- internal/proxy/handler.go: tunnel. Its two goroutines are the two copy loops, whose chunks are
-- relayed in the order of their interleaving; both loops have ended when it returns.
use istio_forward_proxy.Base.{
  ℕ, ◌+◌, Bool, true, false, List, [], ◌∷◌, Bytes, length, if◌then◌else◌,
}
use istio_forward_proxy.Proxy.Effects.{
  Trace, Direction, client_to_upstream, upstream_to_client, Peer, client, upstream, sent,
  close_write,
}

abbrev pub destination : Direction → Peer
destination client_to_upstream = upstream
destination upstream_to_client = client

-- The chunks that the copy loops relay: one Write each.
unfoldable pub relay : List (Direction × Bytes) → Trace → Trace
relay [] tr = tr
relay ((d, chunk) ∷ chunks) tr = relay chunks (sent (destination d) chunk ∷ tr)

-- bytesOut
unfoldable pub bytes_out : List (Direction × Bytes) → ℕ
bytes_out [] = 0
bytes_out ((client_to_upstream, chunk) ∷ chunks) = length chunk + bytes_out chunks
bytes_out ((upstream_to_client, chunk) ∷ chunks) = bytes_out chunks

-- bytesIn
unfoldable pub bytes_in : List (Direction × Bytes) → ℕ
bytes_in [] = 0
bytes_in ((client_to_upstream, chunk) ∷ chunks) = bytes_in chunks
bytes_in ((upstream_to_client, chunk) ∷ chunks) = length chunk + bytes_in chunks

-- The methods of the interface net.Conn, and CloseWrite, for which closeWriter asks.
pub data ConnMethod : Type 0 where
  method_read method_write method_close method_local_addr method_remote_addr : ConnMethod
  method_set_deadline method_set_read_deadline method_set_write_deadline : ConnMethod
  method_close_write : ConnMethod

abbrev pub net_conn : List ConnMethod
net_conn =
    method_read ∷ method_write ∷ method_close ∷ method_local_addr ∷ method_remote_addr
    ∷ method_set_deadline ∷ method_set_read_deadline ∷ method_set_write_deadline ∷ []

-- The method set of a connection: an idleTimeoutConn has what it embeds, which is net.Conn, with
-- its own Read and Write; a bare connection, of TCP or TLS, has CloseWrite as well.
abbrev pub methods : Bool → List ConnMethod
methods wrapped = if wrapped then net_conn else method_close_write ∷ net_conn

abbrev pub is_close_writer : List ConnMethod → Bool
is_close_writer [] = false
is_close_writer (method_close_write ∷ ms) = true
is_close_writer (m ∷ ms) = is_close_writer ms

-- `if cw, ok := c.(closeWriter)`, and CloseWrite.
abbrev pub half_close : Bool → Peer → Trace → Trace
half_close wrapped peer tr = if is_close_writer (methods wrapped) then close_write peer ∷ tr else tr

-- tunnel, as its caller sees it once both loops have ended: what was sent, in which order, and how
-- often CloseWrite was called. Each goroutine calls it at its own end, while the other may go on;
-- that order is left to the module Goroutines. `wrapped` says whether wrapIdleTimeout has wrapped
-- the connections.
unfoldable pub tunnel : Bool → List (Direction × Bytes) → Trace → Trace
tunnel wrapped chunks tr = half_close wrapped client (half_close wrapped upstream (relay chunks tr))
