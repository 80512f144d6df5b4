-- ===== src/Sockets/Packets.antt =====
-- on_receive of socket_group_netlink_impl.h: which part of a packet reaches its socket.
use cache_system_of_lease_me.Base.{
  ℕ, zero, suc, ◌≤◌, ◌<◌, ◌≡◌, ◌≢◌, refl, ap, ◌∙◌, true, false, List, [], ◌∷◌, ◌++◌, some, arith,
  All, ◌==◌, ◌↔◌,
}
use cache_system_of_lease_me.Outcome.{M}
use cache_system_of_lease_me.Standard.Vector.{length, set, drop}
use cache_system_of_lease_me.Sockets.{
  NetlinkGroup, max_udp_packet_size, max_buffer_size, c_string, fill, length16, set_buffer, deliver,
  on_receive,
}

-- The bytes before the first zero.
unfoldable pub until_zero : List ℕ → List ℕ
until_zero [] = []
until_zero (zero ∷ bs) = []
until_zero (suc b ∷ bs) = suc b ∷ until_zero bs

abbrev pub HasNoZero : List ℕ → Type 0
HasNoZero bs = All (λ b. 0 < b) bs

cons_tail : {a b : ℕ} {x y : List ℕ} → a ∷ x ≡ b ∷ y → x ≡ y
cons_tail e = cc

pub until_zero-whole : (bs : List ℕ) → HasNoZero bs → until_zero bs ≡ bs
unfolding until_zero
until_zero-whole [] h = refl
until_zero-whole (zero ∷ bs) h = absurd (omega (arith, h.0))
until_zero-whole (suc b ∷ bs) h = ap (◌∷◌ (suc b)) (until_zero-whole bs h.1)

until_zero-cut : (bs : List ℕ) → until_zero bs ≡ bs → HasNoZero bs
unfolding until_zero
until_zero-cut [] e = tt
until_zero-cut (zero ∷ bs) e = absurd (cc)
until_zero-cut (suc b ∷ bs) e = (omega arith, until_zero-cut bs (cons_tail e))

c_string-ended : (bs rest : List ℕ) → c_string (bs ++ 0 ∷ rest) ≡ some (until_zero bs)
unfolding c_string until_zero
c_string-ended [] rest = refl
c_string-ended (zero ∷ bs) rest = refl
c_string-ended (suc b ∷ bs) rest = rw (c_string-ended bs rest)

-- The zero goes behind the packet.
set-fill :
    (received buffer : List ℕ)
    → length received < length buffer
    → set (fill received buffer) (length received) 0
      ≡ received ++ 0 ∷ drop (suc (length received)) buffer
set-fill [] [] h = absurd (omega arith)
set-fill [] (c ∷ buffer) h = refl
set-fill (b ∷ bs) [] h = absurd (omega arith)
set-fill (b ∷ bs) (c ∷ buffer) h = ap (◌∷◌ b) (set-fill bs buffer (omega arith))

length-set-fill :
    (received buffer : List ℕ)
    → length received < length buffer
    → length (set (fill received buffer) (length received) 0) ≡ length buffer
length-set-fill [] [] h = refl
length-set-fill [] (c ∷ buffer) h = refl
length-set-fill (b ∷ bs) [] h = absurd (omega arith)
length-set-fill (b ∷ bs) (c ∷ buffer) h = ap suc (length-set-fill bs buffer (omega arith))

length-pos : (bs : List ℕ) → bs ≢ [] → 0 < length bs
length-pos [] n = absurd (n refl)
length-pos (b ∷ bs) n = omega arith

module _ {W : Type 0} (group : W → NetlinkGroup) (with_group : NetlinkGroup → W → W) where
  -- The buffer after a packet.
  abbrev pub ended : List ℕ → List ℕ → List ℕ
  ended received buffer = set (fill received buffer) (length received) 0

  -- The program after a packet.
  abbrev pub holding : List ℕ → W → W
  holding received w =
      set_buffer group with_group (ended received (group w).buffer)
        (set_buffer group with_group (fill received (group w).buffer) w)

  deliver-some :
      (on_packet : List ℕ → M W (Unit {0})) (buffer bytes : List ℕ) (w : W)
      → c_string buffer ≡ some bytes
      → deliver group with_group on_packet buffer w ≡ on_packet bytes w
  unfolding deliver
  deliver-some on_packet buffer bytes w e = rw (e, deliver)

  -- A read takes no more bytes than it was asked for, the buffer has its size, and the socket is a
  -- UdpSocket from which at least one byte was read. Then the packet goes to the socket's own
  -- on_receive up to its first zero byte, and so as a whole exactly if it has none; the buffer is
  -- not overrun.
  pub on_receive_delivers :
      (sgetn : ℕ → List ℕ) (on_packet : List ℕ → M W (Unit {0})) (w : W)
      → ((n : ℕ) → length (sgetn n) ≤ n)
      → length (group w).buffer ≡ max_buffer_size
      → sgetn max_udp_packet_size ≢ []
      → (on_receive group with_group sgetn true on_packet w
          ≡ on_packet
              (until_zero (sgetn max_udp_packet_size))
              (holding (sgetn max_udp_packet_size) w))
        × (until_zero (sgetn max_udp_packet_size) ≡ sgetn max_udp_packet_size
            ↔ HasNoZero (sgetn max_udp_packet_size))
        × (length (ended (sgetn max_udp_packet_size) (group w).buffer) ≡ max_buffer_size)
  unfolding on_receive
  on_receive_delivers sgetn on_packet w bounded size some_read =
      let received = sgetn max_udp_packet_size in
      let brief : length received ≤ 1492 = bounded max_udp_packet_size in
      let exact : length16 received ≡ length received = omega (arith, brief) in
      let tested : (length received == 0) ≡ false = ground (arith, length-pos received some_read) in
      let inside : length received < length (group w).buffer = omega (arith, brief, size) in
      (
        rw (exact, tested)
            (deliver-some on_packet (ended received (group w).buffer) (until_zero received)
              (holding received w)
              (ap c_string (set-fill received (group w).buffer inside)
                ∙ c_string-ended received (drop (suc (length received)) (group w).buffer))),
        (until_zero-cut received, until_zero-whole received),
        length-set-fill received (group w).buffer inside ∙ size,
      )
