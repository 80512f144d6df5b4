-- ===== src/Sockets.antt =====
-- cache_system/include/socket_group.h and socket_group_netlink_impl.h: the group of sockets, and how
-- a packet goes to its socket. A socket is a number, 0 the null one. The netLink library is not in
-- the tree: what it reads from a socket is the parameter `sgetn`, and its poll, which calls
-- `on_receive`, is left out.
pub mod Packets
pub mod Group
pub mod Endpoints
use mathlib.Core.Option
use cache_system_of_lease_me.Base.{
  ℕ, zero, suc, ◌%◌, ◌^◌, Bool, List, [], ◌∷◌, ◌++◌, Option, none, some, ◌==◌, not, if◌then◌else◌,
}
use cache_system_of_lease_me.Outcome.{error_sys_routine, error_read, M, done, undefined, throw}
use cache_system_of_lease_me.Standard.Vector.{length, set, drop}

-- kMaxUdpPacketSize and kMaxBufferSize.
abbrev pub max_udp_packet_size : ℕ
max_udp_packet_size = 1492

abbrev pub max_buffer_size : ℕ
max_buffer_size = 2000

-- SocketGroupNetlinkImpl: `buffer_`, and the set of sockets of the manager.
pub record NetlinkGroup : Type 0 where
  pub sockets : List ℕ
  pub buffer : List ℕ

abbrev zeros : ℕ → List ℕ
zeros zero = []
zeros (suc n) = 0 ∷ zeros n

-- The constructor.
unfoldable pub new_group : NetlinkGroup
new_group = record { sockets = []; buffer = zeros max_buffer_size }

-- std::set.
unfoldable pub insert : ℕ → List ℕ → List ℕ
insert s [] = s ∷ []
insert s (t ∷ ts) = if t == s then t ∷ ts else t ∷ insert s ts

unfoldable pub remove : ℕ → List ℕ → List ℕ
remove s [] = []
remove s (t ∷ ts) = let rest = remove s ts in if t == s then rest else t ∷ rest

unfoldable pub register_socket : ℕ → M NetlinkGroup (Unit {0})
unfolding insert
register_socket socket g =
    if socket == 0
    then throw error_sys_routine g
    else done tt (record g { sockets = insert socket g.sockets })

unfoldable pub unregister_socket : ℕ → M NetlinkGroup (Unit {0})
unfolding remove
unregister_socket socket g = done tt (record g { sockets = remove socket g.sockets })

-- What std::string reads at a char pointer: the characters before the first zero. Without a zero it
-- reads past the buffer.
unfoldable pub c_string : List ℕ → Option (List ℕ)
c_string [] = none
c_string (zero ∷ cs) = some []
c_string (suc c ∷ cs) = Option.map (λ s. suc c ∷ s) (c_string cs)

-- A packet read into the buffer, which keeps what stands behind it.
abbrev pub fill : List ℕ → List ℕ → List ℕ
fill received buffer = received ++ drop (length received) buffer

-- The length as uint16_t.
abbrev pub length16 : List ℕ → ℕ
length16 received = length received % 2 ^ 16

module _ {W : Type 0} (group : W → NetlinkGroup) (with_group : NetlinkGroup → W → W) where
  abbrev pub set_buffer : List ℕ → W → W
  set_buffer buffer w = with_group (record (group w) { buffer = buffer }) w

  -- `udpsocket->on_receive(buffer_.get())`.
  unfoldable pub deliver : (List ℕ → M W (Unit {0})) → List ℕ → M W (Unit {0})
  unfolding c_string
  deliver on_packet buffer w = elim (c_string buffer) [
    | none ↦ undefined w
    | some s ↦ on_packet s w
  ]

  -- SocketGroupNetlinkImpl::on_receive. `sgetn` has the bytes that a read of so many at most takes
  -- from the socket, `is_udp` says whether that is a UdpSocket, and `on_packet` is its on_receive.
  unfoldable pub on_receive : (ℕ → List ℕ) → Bool → (List ℕ → M W (Unit {0})) → M W (Unit {0})
  unfolding deliver
  on_receive sgetn is_udp on_packet w =
      let received = sgetn max_udp_packet_size in
      let buffer = fill received (group w).buffer in
      let w1 = set_buffer buffer w in
      if length16 received == 0
      then throw error_read w1
      else if not is_udp
      then throw error_sys_routine w1
      else let ended = set buffer (length16 received) 0 in
        deliver on_packet ended (set_buffer ended w1)
