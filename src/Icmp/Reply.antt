-- ===== src/Icmp/Reply.antt =====
-- The echo reply: its fields and its checksum.
use go_software_router.Prelude.{
  ℕ, ◌+◌, ◌%◌, ◌<◌, ◌^◌, ◌≡◌, ap, ◌∙◌, List, ◌++◌, ok, crash, panic, arith, length, length-append,
  IsBytes, slice_to_exact, slice_from_exact, copy_at, length-copy_at,
}
use go_software_router.Wire.{uint16_to_byte}
use go_software_router.Checksum.{fold_checksum, sum_byte_arr}
use go_software_router.Checksum.Fold.{fold_checksum-lt, fold_checksum_fill}
use go_software_router.Checksum.Sum.{word_sum, sum_byte_arr_short, sum_byte_arr_odd}
use go_software_router.Icmp.{IcmpMessage, parse_packet, reply_body, reply_packet}

-- The fields of a parsed echo message.
pub record IsEcho (m : IcmpMessage) : Type 0 where
  pub id_fits : m.icmp_echo.identity < 2 ^ 16
  pub seq_fits : m.icmp_echo.sequence < 2 ^ 16
  pub stamp_size : length m.icmp_echo.timestamp ≡ 8

-- The bytes of a reply with a given checksum.
abbrev reply_bytes : IcmpMessage → ℕ → List ℕ
reply_bytes m c = copy_at (reply_body m) 2 (uint16_to_byte c)

abbrev reply_message : IcmpMessage → ℕ → IcmpMessage
reply_message m c = record m { icmp_header = record { icmp_type = 0; icmp_code = 0; checksum = c } }

parse_packet-reply_bytes :
    (m : IcmpMessage) (c : ℕ)
    → IsEcho m
    → c < 2 ^ 16
    → parse_packet (reply_bytes m c) ≡ ok (reply_message m c)
unfolding parse_packet reply_body
parse_packet-reply_bytes m c v hc =
    let stamp = m.icmp_echo.timestamp in
    let rest = m.icmp_echo.echo_data in
    let to = slice_to_exact stamp rest 8 (omega (arith, v.stamp_size)) in
    let from = slice_from_exact stamp rest 8 (omega (arith, v.stamp_size)) in
    rw (to, from) (ground (arith, v.id_fits, v.seq_fits))

word_sum-reply_bytes :
    (m : IcmpMessage) (c : ℕ)
    → c < 2 ^ 16
    → word_sum (reply_bytes m c) ≡ word_sum (reply_body m) + c
unfolding reply_body
word_sum-reply_bytes m c hc = omega arith

length-reply_body :
    (m : IcmpMessage) → IsEcho m → length (reply_body m) ≡ 16 + length m.icmp_echo.echo_data
unfolding reply_body
length-reply_body m v =
    omega (arith, v.stamp_size, length-append m.icmp_echo.timestamp m.icmp_echo.echo_data)

reply_bytes-IsBytes :
    (m : IcmpMessage) (c : ℕ)
    → IsBytes (m.icmp_echo.timestamp ++ m.icmp_echo.echo_data)
    → IsBytes (reply_bytes m c)
unfolding reply_body
reply_bytes-IsBytes m c b = (
  omega arith,
  (
    omega arith,
    (omega arith, (omega arith, (omega arith, (omega arith, (omega arith, (omega arith, b)))))),
  ),
)

-- For an echo message with an even number of data bytes, `ReplyPacket` gives a packet that parses as an echo
-- reply with the identity, the sequence number, the timestamp and the data of the message, and
-- whose sum over all its bytes is right for the receiver.
pub reply_packet_lem :
    (m : IcmpMessage)
    → IsEcho m
    → IsBytes (m.icmp_echo.timestamp ++ m.icmp_echo.echo_data)
    → length m.icmp_echo.echo_data % 2 ≡ 0
    → length m.icmp_echo.echo_data < 2 ^ 16
    → (bytes : List ℕ) × (c sum : ℕ) × (reply_packet m ≡ ok bytes)
      × (parse_packet bytes
          ≡ ok (record m { icmp_header = record { icmp_type = 0; icmp_code = 0; checksum = c } }))
      × (sum_byte_arr bytes ≡ ok sum)
      × (fold_checksum sum ≡ 0)
unfolding reply_packet reply_body
reply_packet_lem m v b even short =
    let w = word_sum (reply_body m) in
    let c = fold_checksum w in
    let hc = fold_checksum-lt w in
    let size = length-reply_body m v in
    let total =
      sum_byte_arr_short (reply_body m) (reply_bytes-IsBytes m 0 b) (omega arith) (omega arith) in
    let size' = length-copy_at (reply_body m) 2 (uint16_to_byte c) in
    let total' =
      sum_byte_arr_short (reply_bytes m c) (reply_bytes-IsBytes m c b) (omega arith)
        (omega arith) in
    (
      reply_bytes m c,
      c,
      w + c,
      rw total,
      parse_packet-reply_bytes m c v hc,
      total' ∙ ap ok (word_sum-reply_bytes m c hc),
      fold_checksum_fill w,
    )

-- With an odd number of data bytes `ReplyPacket` panics.
pub reply_packet_odd :
    (m : IcmpMessage)
    → IsEcho m
    → length m.icmp_echo.echo_data % 2 ≡ 1
    → reply_packet m ≡ crash panic
unfolding reply_packet
reply_packet_odd m v odd =
    rw (sum_byte_arr_odd (reply_body m) (omega (arith, length-reply_body m v)))
