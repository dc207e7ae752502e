-- ===== src/Header/Tcp/Inverse.antt =====
-- Header.go, `tcpHeader.ParsePacket`, on any segment.
use go_software_router.Prelude.{
  ℕ, ◌+◌, ◌-◌, ◌*◌, ◌/◌, ◌%◌, ◌<◌, ◌≤◌, ◌^◌, ◌≡◌, refl, sym, ap, ◌∙◌, List, [], ◌∷◌, ◌++◌, ok,
  arith, length, at, IsBytes, cut, ltb-false, lt→ltb, ◌⊎◌, inl, inr, length-append,
}
use go_software_router.Prelude.Bits.{bit_and_mask, bit_or_fields}
use go_software_router.Header.Tcp.{
  TcpHeader, empty, to_packet, fixed_part, parse_fields, parse_checked, parse_packet,
}
use go_software_router.Header.Tcp.Laws.{IsTcp, length-fixed_part, tcp_round_trip}

-- The fields of the first twenty bytes.
fields_of :
    (p : List ℕ)
    → 20 ≤ length p
    → IsBytes p
    → (h : TcpHeader) × (rest : List ℕ) × (p ≡ fixed_part h ++ rest)
      × (at p 12 ≡ ok (h.data_offset * 16 + h.reserve))
      × (h.reserve < 16)
      × ((opts body : List ℕ)
          → h.data_offset * 4 ≡ 20 + length opts
          → IsTcp (record h { options = opts; tcpdata = body }))
unfolding fixed_part
fields_of (a ∷ b ∷ c ∷ d ∷ e ∷ f ∷ g ∷ i ∷ j ∷ k ∷ l ∷ m ∷ n ∷ o ∷ q ∷ r ∷ s ∷ t ∷ u ∷ w ∷ rest) h
      v =
    (
      record {
        src_port = a * 2 ^ 8 + b;
        dest_port = c * 2 ^ 8 + d;
        sequence_num = e * 2 ^ 24 + f * 2 ^ 16 + g * 2 ^ 8 + i;
        response_check_num = j * 2 ^ 24 + k * 2 ^ 16 + l * 2 ^ 8 + m;
        data_offset = n / 16;
        reserve = n % 16;
        flag = o;
        window_size = q * 2 ^ 8 + r;
        check_sum = s * 2 ^ 8 + t;
        urg_pointer = u * 2 ^ 8 + w;
        options = [];
        tcpdata = [];
      },
      rest,
      ground (arith, bit_and_mask 4 (n % 16), bit_or_fields 4 (n / 16) (n % 16)),
      ground arith,
      omega arith,
      λ opts body count. omega arith,
    )
fields_of _ h v = absurd (omega arith)

-- `fixed_part` does not read the options and the data.
fixed_part-cut :
    (h : TcpHeader) (opts body : List ℕ)
    → to_packet (record h { options = opts; tcpdata = body }) ≡ fixed_part h ++ (opts ++ body)
unfolding to_packet fixed_part
fixed_part-cut h opts body = refl

-- An accepted segment is the bytes of a well-formed header.
segment_of :
    (p : List ℕ) (off : ℕ)
    → 20 ≤ length p
    → IsBytes p
    → at p 12 ≡ ok off
    → 5 ≤ off / 16
    → off / 16 * 4 ≤ length p
    → (h : TcpHeader) × (to_packet h ≡ p) × IsTcp h
segment_of p off long bytes hoff lo hi =
    let (h, rest, split, offset, small, fits) = fields_of p long bytes in
    go h rest split (cc) small fits
  where
    go :
        (h : TcpHeader) (rest : List ℕ)
        → p ≡ fixed_part h ++ rest
        → off ≡ h.data_offset * 16 + h.reserve
        → h.reserve < 16
        → ((opts body : List ℕ)
            → h.data_offset * 4 ≡ 20 + length opts
            → IsTcp (record h { options = opts; tcpdata = body }))
        → (h : TcpHeader) × (to_packet h ≡ p) × IsTcp h
    go h rest split offset small fits =
        let size : length p ≡ 20 + length rest =
          ap length split
          ∙ length-append (fixed_part h) rest
          ∙ ap (λ (n : ℕ). n + length rest) (sym (length-fixed_part h)) in
        let (opts, body, _, _, parts, count) = cut rest (h.data_offset * 4 - 20) (omega arith) in
        (
          record h { options = opts; tcpdata = body },
          fixed_part-cut h opts body ∙ (ap (◌++◌ (fixed_part h)) (sym parts) ∙ sym split),
          fits opts body (omega arith),
        )

-- Of a segment of bytes that holds the header which its data offset claims, `ParsePacket`
-- reads a well-formed header, whose bytes are the segment again: nothing is lost.
pub IsTcp-round_trip_back :
    (p : List ℕ) (off : ℕ)
    → 20 ≤ length p
    → IsBytes p
    → at p 12 ≡ ok off
    → 5 ≤ off / 16
    → off / 16 * 4 ≤ length p
    → (h : TcpHeader) × (parse_packet p ≡ ok h) × (to_packet h ≡ p) × IsTcp h
IsTcp-round_trip_back p off long bytes hoff lo hi =
    let (h, e, v) = segment_of p off long bytes hoff lo hi in
    (h, ap parse_packet (sym e) ∙ tcp_round_trip h v, e, v)

parse_fields_offset :
    (p : List ℕ) (off : ℕ)
    → 20 ≤ length p
    → at p 12 ≡ ok off
    → (h : TcpHeader) × (parse_fields p ≡ ok h) × (h.data_offset ≡ off / 16)
unfolding parse_fields
parse_fields_offset
      (a ∷ b ∷ c ∷ d ∷ e ∷ f ∷ g ∷ i ∷ j ∷ k ∷ l ∷ m ∷ n ∷ o ∷ q ∷ r ∷ s ∷ t ∷ u ∷ w ∷ rest) off h
      v =
    (_, refl, ground arith)
parse_fields_offset _ off h v = absurd (omega arith)

-- Every other input, one shorter than twenty bytes or whose data offset (in the high half of byte
-- 12) is below five or beyond the end, is read as the empty header, with no error.
pub parse_packet-empty :
    (p : List ℕ) (off : ℕ)
    → (length p < 20)
      ⊎ ((20 ≤ length p)
          × (at p 12 ≡ ok off)
          × (off < 256)
          × ((off / 16 < 5) ⊎ (length p < off / 16 * 4)))
    → parse_packet p ≡ ok empty
unfolding parse_packet parse_checked
parse_packet-empty p off (inl short) = rw (lt→ltb (length p) 20 short)
parse_packet-empty p off (inr (long, hoff, byte, bad)) =
    let (h, e, o) = parse_fields_offset p off long hoff in
    rw (ltb-false (length p) 20 long, e) (rejects h o bad)
  where
    rejects :
        (h : TcpHeader)
        → h.data_offset ≡ off / 16
        → (off / 16 < 5) ⊎ (length p < off / 16 * 4)
        → parse_checked p h ≡ ok empty
    rejects h o bad = ground arith
