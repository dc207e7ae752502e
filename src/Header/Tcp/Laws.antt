-- ===== src/Header/Tcp/Laws.antt =====
-- Header.go: `tcpHeader.ParsePacket` on the bytes of a header.
use go_software_router.Prelude.{
  ℕ, ◌+◌, ◌*◌, ◌<◌, ◌≤◌, ◌^◌, ◌≡◌, refl, List, [], ◌∷◌, ◌++◌, ok, arith, length, length-append,
  slice, slice_middle, u8, ltb, ltb-false, lt→ltb, slice_from-append, if◌then◌else◌, slice_from,
}
use mathlib.Core.List.{append_assoc}
use go_software_router.Prelude.Bits.{bit_and_mask, bit_or_fields}
use go_software_router.Header.Tcp.{
  TcpHeader, offset_byte, to_packet, fixed_part, parse_fields, parse_tail, parse_checked,
  parse_packet,
}

-- Every field fits its width, and the data offset counts the header and the options.
pub record IsTcp (h : TcpHeader) : Type 0 where
  pub src_fits : h.src_port < 2 ^ 16
  pub dest_fits : h.dest_port < 2 ^ 16
  pub seq_fits : h.sequence_num < 2 ^ 32
  pub ack_fits : h.response_check_num < 2 ^ 32
  pub offset_fits : h.data_offset < 2 ^ 4
  pub reserve_fits : h.reserve < 2 ^ 4
  pub flag_fits : h.flag < 2 ^ 8
  pub window_fits : h.window_size < 2 ^ 16
  pub sum_fits : h.check_sum < 2 ^ 16
  pub urg_fits : h.urg_pointer < 2 ^ 16
  pub offset_counts : h.data_offset * 4 ≡ 20 + length h.options

pub offset_byte_fields :
    (h : TcpHeader) → IsTcp h → offset_byte h ≡ h.data_offset * 2 ^ 4 + h.reserve
offset_byte_fields h v =
    ground (arith, bit_and_mask 4 h.reserve, bit_or_fields 4 h.data_offset h.reserve)

parse_fields-fixed_part :
    (h : TcpHeader) (rest : List ℕ)
    → IsTcp h
    → parse_fields (fixed_part h ++ rest) ≡ ok (record h { options = []; tcpdata = [] })
unfolding fixed_part parse_fields
parse_fields-fixed_part h rest v =
    ground (arith, offset_byte_fields h v, bit_and_mask 4 (offset_byte h))

pub length-fixed_part : (h : TcpHeader) → 20 ≡ length (fixed_part h)
unfolding fixed_part
length-fixed_part h = refl

-- The two cuts of `parse_tail`, at a length that counts the first two parts.
pub cut_options :
    (fixed opts rest : List ℕ) (n : ℕ)
    → 20 ≡ length fixed
    → n ≡ 20 + length opts
    → (if ltb 20 n then slice (fixed ++ (opts ++ rest)) 20 n else ok []) ≡ ok opts
cut_options fixed [] rest n hf hn = rw (ltb-false 20 n (omega arith))
cut_options fixed (x ∷ opts) rest n hf hn =
    rw (lt→ltb 20 n (omega arith)) (slice_middle fixed (x ∷ opts) rest 20 n hf (omega arith))

pub cut_data :
    (front rest : List ℕ) (n : ℕ)
    → n ≡ length front
    → (if ltb n (length (front ++ rest)) then slice_from (front ++ rest) n else ok []) ≡ ok rest
cut_data front [] n hn =
    rw (ltb-false n (length (front ++ [])) (omega (arith, length-append front [])))
cut_data front (x ∷ rest) n hn =
    rw (lt→ltb n (length (front ++ x ∷ rest)) (omega (arith, length-append front (x ∷ rest))), hn)
      (slice_from-append front (x ∷ rest))

parse_tail_lem :
    (h : TcpHeader)
    → IsTcp h
    → parse_tail (to_packet h) (record h { options = []; tcpdata = [] }) ≡ ok h
unfolding parse_tail to_packet
parse_tail_lem h v =
    let n = u8 (h.data_offset * 4) in
    let hn : n ≡ 20 + length h.options = omega (arith, v.offset_counts, v.offset_fits) in
    let opts = cut_options (fixed_part h) h.options h.tcpdata n (length-fixed_part h) hn in
    let front = length-append (fixed_part h) h.options in
    let last =
      cut_data (fixed_part h ++ h.options) h.tcpdata n (omega (arith, length-fixed_part h)) in
    rw (opts, ← append_assoc (fixed_part h) h.options h.tcpdata, last)

pub length-to_packet :
    (h : TcpHeader) → length (to_packet h) ≡ 20 + length h.options + length h.tcpdata
unfolding to_packet
length-to_packet h = omega (
  arith,
  length-fixed_part h,
  length-append (fixed_part h) (h.options ++ h.tcpdata),
  length-append h.options h.tcpdata,
)

parse_fields-to_packet :
    (h : TcpHeader)
    → IsTcp h
    → parse_fields (to_packet h) ≡ ok (record h { options = []; tcpdata = [] })
unfolding to_packet
parse_fields-to_packet h v = parse_fields-fixed_part h (h.options ++ h.tcpdata) v

parse_checked_lem :
    (h : TcpHeader)
    → IsTcp h
    → parse_checked (to_packet h) (record h { options = []; tcpdata = [] }) ≡ ok h
unfolding parse_checked
parse_checked_lem h v =
    let size : u8 (h.data_offset * 4) ≤ length (to_packet h) =
      omega (arith, v.offset_counts, v.offset_fits, length-to_packet h) in
    rw
      (
        ltb-false h.data_offset 5 (omega (arith, v.offset_counts)),
        ltb-false (length (to_packet h)) (u8 (h.data_offset * 4)) size,
      )
      (parse_tail_lem h v)

-- What `ParsePacket` reads from the bytes of a well-formed header is that header.
pub tcp_round_trip : (h : TcpHeader) → IsTcp h → parse_packet (to_packet h) ≡ ok h
unfolding parse_packet
tcp_round_trip h v =
    rw
      (
        ltb-false (length (to_packet h)) 20 (omega (arith, length-to_packet h)),
        parse_fields-to_packet h v,
      )
      (parse_checked_lem h v)
