-- ===== src/Router/Lengths.antt =====
-- ip.go, `ipInput`: how long a forwarded packet is, and what its header says.
use go_software_router.Prelude.{
  ℕ, ◌+◌, ◌*◌, ◌-◌, ◌≤◌, ◌<◌, ◌≡◌, ◌∙◌, arith, List, ◌++◌, true, false, ok, length, length-append,
  slice, ◌↔◌,
}
use go_software_router.Wire.Total.{slice_total}
use go_software_router.Ip.{IpHeader, header_bytes, parse_header}
use go_software_router.Checksum.{fold_checksum, sum_byte_arr}
use go_software_router.Router.Expected.{ip_layout, header_bytes-ip_layout}
use go_software_router.Ip
use go_software_router.Ip.Header.{
  IsIp, to_packet_checksum, length-header_bytes, parse_header-header_bytes,
}
use go_software_router.Router.State.{Sendto}
use go_software_router.Router.Input.{bad_lengths}

lengths_ordered :
    (sendto : Sendto) (ip : IpHeader) (bs : List ℕ)
    → bad_lengths sendto ip bs ≡ false
    → (5 ≤ ip.header_len) × (ip.header_len * 4 ≤ ip.total_len) × (ip.total_len ≤ length bs)
lengths_ordered sendto ip bs good = (ground arith, ground arith, ground arith)

-- Of a packet whose lengths pass the checks, whose header fields fit and whose TTL is above 1, the body between the header's end and the total
-- length is cut out without a panic, and ToPacket writes the header with a TTL one lower without a panic: the bytes written
-- are the twenty of the packet's own header, laid out byte by byte, but for the TTL one lower and some checksum, under which
-- they sum right, so they say the same header length and the same total length, also to a reader of the packet. Header
-- and body together are no longer than the total length, and than the packet that was received; they are as long as the
-- total length says exactly if the header had no options.
pub forwarded_length :
    (sendto : Sendto) (ip : IpHeader) (bs : List ℕ)
    → IsIp ip
    → 1 < ip.ttl
    → bad_lengths sendto ip bs ≡ false
    → (body out : List ℕ) × (c sum : ℕ) × (let changed : IpHeader = record ip {
      ttl = ip.ttl - 1;
      header_checksum = c;
    } in
        (slice bs (ip.header_len * 4) ip.total_len ≡ ok body)
        × (Ip.to_packet (record ip { ttl = ip.ttl - 1 }) true ≡ ok (out, changed))
        × (out ≡ ip_layout changed)
        × (sum_byte_arr out ≡ ok sum)
        × (fold_checksum sum ≡ 0)
        × (parse_header (out ++ body) ≡ ok changed)
        × (length (out ++ body) ≤ ip.total_len)
        × (ip.total_len ≤ length bs)
        × ((length (out ++ body) ≡ ip.total_len) ↔ (ip.header_len ≡ 5)))
forwarded_length sendto ip bs v alive good =
    let (five, within, whole) = lengths_ordered sendto ip bs good in
    let (body, cut, size) = slice_total bs (ip.header_len * 4) ip.total_len within whole in
    let lowered : IpHeader = record ip { ttl = ip.ttl - 1 } in
    let (c, sum, built, fits, total, zero_sum) = to_packet_checksum lowered (omega (arith, v)) in
    let changed : IpHeader = record lowered { header_checksum = c } in
    let out = header_bytes changed in
    let long : length (out ++ body) ≡ 20 + (ip.total_len - ip.header_len * 4) =
      length-append out body ∙ omega (arith, length-header_bytes changed, size) in
    (
      body,
      out,
      c,
      sum,
      (
        cut,
        built,
        header_bytes-ip_layout changed v.version_fits v.len_fits,
        total,
        zero_sum,
        parse_header-header_bytes changed body (omega (arith, v, fits)),
        omega (arith, long),
        whole,
        (λ e. omega (arith, long), λ e. omega (arith, long)),
      ),
    )
