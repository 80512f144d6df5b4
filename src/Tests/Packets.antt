-- ===== src/Tests/Packets.antt =====
-- Packets that a socket group reads: the bytes 65 and 66, and an update request (one number
-- of the small wire format).
use cache_system_of_lease_me.Base.{
  ℕ, zero, suc, ◌≤◌, ◌≡◌, refl, ◌↔◌, List, [], ◌∷◌, some, arith, true,
}
use cache_system_of_lease_me.Outcome.{done, map_state}
use cache_system_of_lease_me.Standard.Vector.{length, take}
use cache_system_of_lease_me.Server.Operations
use cache_system_of_lease_me.Sockets.{NetlinkGroup, new_group, max_buffer_size, on_receive}
use cache_system_of_lease_me.Sockets.Packets.{
  HasNoZero, until_zero, ended, holding, on_receive_delivers,
}
use cache_system_of_lease_me.EndToEnd.Datagrams.{
  Node, group_receive, after_packet, datagram_received,
}
use cache_system_of_lease_me.Tests.{sample}
use cache_system_of_lease_me.Tests.Messages.{server, wire}

length-take_at_most : (bs : List ℕ) (k : ℕ) → length (take k bs) ≤ k
length-take_at_most bs zero = omega arith
length-take_at_most [] (suc k) = omega arith
length-take_at_most (b ∷ bs) (suc k) = omega (arith, length-take_at_most bs k)

-- A read of a socket that holds one datagram.
abbrev datagram : List ℕ → ℕ → List ℕ
datagram bytes k = take k bytes

-- The group alone, without a program around it.
abbrev alone : NetlinkGroup → NetlinkGroup
alone g = g

abbrev replaced : NetlinkGroup → NetlinkGroup → NetlinkGroup
replaced g old = g

new_group-size : length new_group.buffer ≡ max_buffer_size
unfolding new_group
new_group-size = refl

on_receive_delivers_example :
    (on_receive alone replaced (datagram (65 ∷ 66 ∷ [])) true (λ bytes g. done tt g) new_group
      ≡ done tt (holding alone replaced (65 ∷ 66 ∷ []) new_group))
    × ((until_zero (65 ∷ 66 ∷ []) ≡ 65 ∷ 66 ∷ []) ↔ HasNoZero (65 ∷ 66 ∷ []))
    × (length (ended alone replaced (65 ∷ 66 ∷ []) new_group.buffer) ≡ max_buffer_size)
on_receive_delivers_example =
    on_receive_delivers alone replaced (datagram (65 ∷ 66 ∷ [])) (λ bytes g. done tt g) new_group
      (length-take_at_most (65 ∷ 66 ∷ [])) new_group-size (λ e. cc)

abbrev node : Node
node = record { group = new_group; endpoint = some server }

datagram_received_example :
    group_receive wire (datagram (0x1003 ∷ [])) 3 node
    ≡ map_state
        (λ s'. record (after_packet wire (0x1003 ∷ []) node) { endpoint = some s' })
        (Operations.on_receive wire 3 (0x1003 ∷ []) server)
datagram_received_example =
    datagram_received wire (datagram (0x1003 ∷ [])) 3 node server
      (length-take_at_most (0x1003 ∷ [])) new_group-size (λ e. cc) (omega arith, tt) refl
