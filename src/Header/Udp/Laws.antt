-- ===== src/Header/Udp/Laws.antt =====
-- Round trips of the UDP header.
use go_software_router.Prelude.{
  ℕ, ◌<◌, ◌≤◌, ◌^◌, ◌≡◌, refl, List, ◌∷◌, ◌++◌, ok, arith, length, slice_from, IsBytes,
}
use go_software_router.Header.Udp.{UdpHeader, to_packet, parse_fields, parse_packet}

pub record IsUdp (h : UdpHeader) : Type 0 where
  pub src_fits : h.src_port < 2 ^ 16
  pub dest_fits : h.dest_port < 2 ^ 16
  pub len_fits : h.segment_len < 2 ^ 16
  pub sum_fits : h.check_sum < 2 ^ 16

parse_packet_fields : (p : List ℕ) → 8 ≤ length p → parse_packet p ≡ parse_fields p
unfolding parse_packet
parse_packet_fields p h = ground arith

-- From the bytes of a UDP header whose fields fit their widths, whatever payload follows them, `ParsePacket` reads
-- that header.
pub udp_round_trip :
    (h : UdpHeader) (payload : List ℕ) → IsUdp h → parse_packet (to_packet h ++ payload) ≡ ok h
unfolding to_packet parse_fields
udp_round_trip h payload v =
    rw (parse_packet_fields (to_packet h ++ payload) (omega arith)) (ground arith)

-- Of a datagram of at least eight bytes `ParsePacket` reads a header whose fields fit; its bytes, with the rest of the
-- datagram behind them, are the datagram again.
pub IsUdp-round_trip_back :
    (p : List ℕ)
    → 8 ≤ length p
    → IsBytes p
    → (h : UdpHeader) × (payload : List ℕ) × (parse_packet p ≡ ok h)
      × (to_packet h ++ payload ≡ p)
      × (slice_from p 8 ≡ ok payload)
      × IsUdp h
unfolding to_packet parse_fields
IsUdp-round_trip_back (a ∷ b ∷ c ∷ d ∷ e ∷ f ∷ g ∷ i ∷ payload) h v =
    rw (parse_packet_fields (a ∷ b ∷ c ∷ d ∷ e ∷ f ∷ g ∷ i ∷ payload) h)
      (_, payload, refl, ground arith, refl, omega arith)
IsUdp-round_trip_back _ h v = absurd (omega arith)
