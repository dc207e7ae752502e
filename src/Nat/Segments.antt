-- ===== src/Nat/Segments.antt =====
-- nat.go, `natExec`: the checksums of the segments that it writes.
use go_software_router.Prelude.{
  ℕ, ◌+◌, ◌-◌, ◌%◌, ◌^◌, ◌<◌, ◌≡◌, ◌≢◌, refl, ap, ◌∙◌, arith, List, ◌++◌, ok, length, length-append,
  IsBytes, All-append, not, true, ◌==◌,
}
use go_software_router.Checksum.{fold_checksum, pseudo_header_sum}
use go_software_router.Checksum.Fold.{fold_checksum-ones, fold_checksum_fill, fold_checksum-lt}
use go_software_router.Checksum.Sum.{word_sum, word_sum-le, word_sum-append, sum_byte_arr_short}
use go_software_router.Checksum.ZeroCopy.{pseudo_header_sum-le}
use go_software_router.Header.Udp.{UdpHeader}
use go_software_router.Header.Udp
use go_software_router.Header.Udp.Laws.{IsUdp}
use go_software_router.Header.Tcp.{TcpHeader}
use go_software_router.Header.Tcp
use go_software_router.Header.Tcp.Laws.{
  IsTcp, offset_byte_fields, length-fixed_part, length-to_packet,
}
use go_software_router.Ip.{IpHeader, ip_protocol_num_tcp, ip_protocol_num_udp}
use go_software_router.Ip.Header.{IsIp}
use go_software_router.Nat.L4.{l4_sum, udp_checksum, udp_segment, tcp_segment}

-- A receiver that sums the pseudo header and the segment folds the sum to all ones.
abbrev pub IsValidSegment : IpHeader → ℕ → List ℕ → Type 0
IsValidSegment ip proto segment =
    fold_checksum
      (pseudo_header_sum ip.src_addr ip.dest_addr proto (length segment) + word_sum segment)
    ≡ 0

-- The sum does not wrap.
l4_sum_lem :
    (ip : IpHeader) (proto : ℕ) (segment : List ℕ)
    → IsIp ip
    → proto < 2 ^ 8
    → IsBytes segment
    → length segment % 2 ≡ 0
    → length segment < 2 ^ 16
    → l4_sum ip proto segment
      ≡ ok (pseudo_header_sum ip.src_addr ip.dest_addr proto (length segment) + word_sum segment)
l4_sum_lem ip proto segment v hp b even short =
    let small =
      pseudo_header_sum-le ip.src_addr ip.dest_addr proto (length segment) v.src_fits v.dest_fits hp
        short in
    rw (sum_byte_arr_short segment b even (omega arith))
      (ap ok (omega (arith, small, word_sum-le segment b)))

to_packet-IsBytes : (h : UdpHeader) → IsUdp h → IsBytes (Udp.to_packet h)
unfolding Udp.to_packet
to_packet-IsBytes h v = omega arith

length-udp : (h : UdpHeader) → length (Udp.to_packet h) ≡ 8
unfolding Udp.to_packet
length-udp h = refl

word_sum-udp :
    (h : UdpHeader) (c : ℕ)
    → c < 2 ^ 16
    → word_sum (Udp.to_packet (record h { check_sum = c }))
      ≡ word_sum (Udp.to_packet (record h { check_sum = 0 })) + c
unfolding Udp.to_packet
word_sum-udp h c hc = omega arith

udp_checksum_fill :
    (n : ℕ)
    → (fold_checksum (n + udp_checksum n) ≡ 0) × (udp_checksum n ≢ 0) × (udp_checksum n < 2 ^ 16)
udp_checksum_fill n = ground (
  arith,
  fold_checksum_fill n,
  fold_checksum-lt n,
  fold_checksum-ones n,
  fold_checksum-ones (n + 65535),
)

-- For a datagram with a checksum, an even number of payload bytes and fields that fit, `natExec` writes the header
-- with a checksum that is not 0 and under which the receiver's sum is right, and the payload as
-- it was.
pub udp_segment-IsValidSegment :
    (ip : IpHeader) (h : UdpHeader) (payload : List ℕ)
    → IsIp ip
    → IsUdp h
    → h.check_sum ≢ 0
    → IsBytes payload
    → length payload % 2 ≡ 0
    → length payload < 2 ^ 16 - 8
    → (c : ℕ) × (let segment = Udp.to_packet (record h { check_sum = c }) ++ payload in
        (udp_segment ip h payload ≡ ok segment)
        × (c ≢ 0)
        × (c < 2 ^ 16)
        × IsValidSegment ip ip_protocol_num_udp segment)
unfolding udp_segment
udp_segment-IsValidSegment ip h payload v w summed b even short =
    let zeroed : UdpHeader = record h { check_sum = 0 } in
    let segment = λ (c : ℕ). Udp.to_packet (record h { check_sum = c }) ++ payload in
    let size = λ (c : ℕ).
      length-append (Udp.to_packet (record h { check_sum = c })) payload
      ∙ ap (λ (n : ℕ). n + length payload) (length-udp (record h { check_sum = c })) in
    let pseudo =
      pseudo_header_sum ip.src_addr ip.dest_addr ip_protocol_num_udp (8 + length payload) in
    let n = pseudo + word_sum (segment 0) in
    let c = udp_checksum n in
    let (filled, used, fits) = udp_checksum_fill n in
    let total : l4_sum ip ip_protocol_num_udp (segment 0) ≡ ok n =
      l4_sum_lem ip ip_protocol_num_udp (segment 0) v (omega arith)
        (All-append (λ (x : ℕ). x < 2 ^ 8) (Udp.to_packet zeroed) payload
          (to_packet-IsBytes zeroed (omega (arith, w))) b)
        (omega (arith, size 0)) (omega (arith, size 0))
      ∙ ap
          (λ (k : ℕ). ok (
            pseudo_header_sum ip.src_addr ip.dest_addr ip_protocol_num_udp k
            + word_sum (segment 0)))
          (size 0) in
    let words : word_sum (segment c) ≡ word_sum (segment 0) + c = omega (
      arith,
      word_sum-append (Udp.to_packet (record h { check_sum = c })) payload
          (omega (arith, length-udp (record h { check_sum = c }))),
      word_sum-append (Udp.to_packet zeroed) payload (omega (arith, length-udp zeroed)),
      word_sum-udp h c fits,
    ) in
    let guard : not (h.check_sum == 0) ≡ true = ground arith in
    (
      c,
      (
        rw (guard, total) refl,
        used,
        fits,
        rw (size c, words) (ap fold_checksum (omega arith) ∙ filled),
      ),
    )

fixed_part-IsBytes : (h : TcpHeader) → IsTcp h → IsBytes (Tcp.fixed_part h)
unfolding Tcp.fixed_part
fixed_part-IsBytes h v = omega (arith, offset_byte_fields h v)

word_sum-tcp :
    (h : TcpHeader) (c : ℕ)
    → c < 2 ^ 16
    → word_sum (Tcp.fixed_part (record h { check_sum = c }))
      ≡ word_sum (Tcp.fixed_part (record h { check_sum = 0 })) + c
unfolding Tcp.fixed_part
word_sum-tcp h c hc = omega arith

-- For a TCP header whose fields fit, with options and data of bytes, an even number in all, `natExec` writes the
-- segment with a checksum under which the receiver's sum is right.
pub tcp_segment-IsValidSegment :
    (ip : IpHeader) (h : TcpHeader)
    → IsIp ip
    → IsTcp h
    → IsBytes h.options
    → IsBytes h.tcpdata
    → (length h.options + length h.tcpdata) % 2 ≡ 0
    → length h.options + length h.tcpdata < 2 ^ 16 - 20
    → (c : ℕ) × (let segment = Tcp.to_packet (record h { check_sum = c }) in
        (tcp_segment ip h ≡ ok segment)
        × (c < 2 ^ 16)
        × IsValidSegment ip ip_protocol_num_tcp segment)
unfolding tcp_segment Tcp.to_packet
tcp_segment-IsValidSegment ip h v w bo bd even short =
    let zeroed : TcpHeader = record h { check_sum = 0 } in
    let tail = h.options ++ h.tcpdata in
    let len = 20 + (length h.options + length h.tcpdata) in
    let segment = λ (c : ℕ). Tcp.to_packet (record h { check_sum = c }) in
    let size : (c : ℕ) → length (segment c) ≡ len =
      λ c. length-to_packet (record h { check_sum = c }) ∙ omega arith in
    let n =
      pseudo_header_sum ip.src_addr ip.dest_addr ip_protocol_num_tcp len + word_sum (segment 0) in
    let c = fold_checksum n in
    let fits : c < 2 ^ 16 = fold_checksum-lt n in
    let total : l4_sum ip ip_protocol_num_tcp (segment 0) ≡ ok n =
      l4_sum_lem ip ip_protocol_num_tcp (segment 0) v (omega arith)
        (All-append (λ (x : ℕ). x < 2 ^ 8) (Tcp.fixed_part zeroed) tail
          (fixed_part-IsBytes zeroed (omega (arith, w)))
          (All-append (λ (x : ℕ). x < 2 ^ 8) h.options h.tcpdata bo bd))
        (omega (arith, size 0)) (omega (arith, size 0))
      ∙ ap
          (λ (k : ℕ). ok (
            pseudo_header_sum ip.src_addr ip.dest_addr ip_protocol_num_tcp k
            + word_sum (segment 0)))
          (size 0) in
    let words : word_sum (segment c) ≡ word_sum (segment 0) + c = omega (
      arith,
      word_sum-append (Tcp.fixed_part (record h { check_sum = c })) tail
          (omega (arith, length-fixed_part (record h { check_sum = c }))),
      word_sum-append (Tcp.fixed_part zeroed) tail (omega (arith, length-fixed_part zeroed)),
      word_sum-tcp h c fits,
    ) in
    (
      c,
      (
        rw total refl,
        fits,
        rw (size c, words) (ap fold_checksum (omega arith) ∙ fold_checksum_fill n),
      ),
    )
