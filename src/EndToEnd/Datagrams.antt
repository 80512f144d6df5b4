-- ===== src/EndToEnd/Datagrams.antt =====
-- A datagram on its way to the server: the socket group (socket_group_netlink_impl.h), the template
-- MessageServer (message_server.h), and on_receive of protobuf_message_server_impl.h.
use cache_system_of_lease_me.Base.{ℕ, ◌≤◌, ◌≡◌, ◌≢◌, sym, ap, ◌∙◌, subst, true, List, [], some}
use cache_system_of_lease_me.Outcome.{M, map_state, map_state-map_state, zoom}
use cache_system_of_lease_me.Standard.Vector.{length}
use cache_system_of_lease_me.TimerQueue.{Platform}
use cache_system_of_lease_me.Message.{Wire}
use cache_system_of_lease_me.Server.{Server}
use cache_system_of_lease_me.Server.Operations
use cache_system_of_lease_me.Sockets.{
  NetlinkGroup, max_udp_packet_size, max_buffer_size, on_receive,
}
use cache_system_of_lease_me.Sockets.Packets.{
  until_zero-whole, HasNoZero, holding, on_receive_delivers,
}
use cache_system_of_lease_me.Sockets.Endpoints.{Endpoint, forward}

-- A server process: its socket group and its MessageServer, with the server bound to it.
pub record Node : Type 0 where
  pub group : NetlinkGroup
  pub endpoint : Endpoint Server

module _ (w : Wire) ⦃p : Platform⦄ where
  -- MessageServer::on_receive of the socket `socket`.
  abbrev pub message_server : ℕ → List ℕ → M Node (Unit {0})
  message_server socket bytes =
      zoom (λ (n : Node). n.endpoint) (λ e (n : Node). record n { endpoint = e })
        (forward (Operations.on_receive w socket bytes))

  -- The socket group's on_receive with a packet of that socket.
  abbrev pub group_receive : (ℕ → List ℕ) → ℕ → M Node (Unit {0})
  group_receive sgetn socket =
      on_receive (λ (n : Node). n.group) (λ g (n : Node). record n { group = g }) sgetn true
        (message_server socket)

  -- The node after a packet.
  abbrev pub after_packet : List ℕ → Node → Node
  after_packet received n =
      holding (λ (x : Node). x.group) (λ g (x : Node). record x { group = g }) received n

  -- A packet's bytes go from the MessageServer to its implementation.
  message_server-some :
      (socket : ℕ) (bytes : List ℕ) (n : Node) (s : Server)
      → n.endpoint ≡ some s
      → message_server socket bytes n
        ≡ map_state (λ s'. record n { endpoint = some s' }) (Operations.on_receive w socket bytes s)
  unfolding forward
  message_server-some socket bytes n s e =
      subst
        (λ x.
          map_state (λ t. record n { endpoint = t })
            (forward (Operations.on_receive w socket bytes) x)
          ≡ map_state (λ s'. record n { endpoint = some s' })
              (Operations.on_receive w socket bytes s))
        (sym e)
        (map_state-map_state (λ t. record n { endpoint = t }) (λ s'. some s')
          (Operations.on_receive w socket bytes s))

  -- A read takes no more bytes than it was asked for, the buffer has its size, a packet of at least
  -- one byte and without a zero byte was read, and the node's MessageServer has an implementation.
  -- Then the node handles the packet as that server handles those bytes.
  pub datagram_received :
      (sgetn : ℕ → List ℕ) (socket : ℕ) (n : Node) (s : Server)
      → ((k : ℕ) → length (sgetn k) ≤ k)
      → length n.group.buffer ≡ max_buffer_size
      → sgetn max_udp_packet_size ≢ []
      → HasNoZero (sgetn max_udp_packet_size)
      → n.endpoint ≡ some s
      → group_receive sgetn socket n
        ≡ map_state
            (λ s'. record (after_packet (sgetn max_udp_packet_size) n) { endpoint = some s' })
            (Operations.on_receive w socket (sgetn max_udp_packet_size) s)
  datagram_received sgetn socket n s bounded size some_read whole bound =
      let received = sgetn max_udp_packet_size in
      let after : Node = after_packet received n in
      (on_receive_delivers (λ (x : Node). x.group) (λ g (x : Node). record x { group = g }) sgetn
        (message_server socket) n bounded size some_read).0
      ∙ ap (λ bytes. message_server socket bytes after) (until_zero-whole received whole)
      ∙ message_server-some socket received after s bound
