-- ===== src/Router/Expected.antt =====
-- ethernet.go, arp.go and ip.go: what the frames on the wire have to be, byte by byte, as the protocols lay them out.
use go_software_router.Prelude.{
  ℕ, ◌+◌, ◌*◌, ◌/◌, ◌%◌, ◌^◌, ◌<◌, ◌≡◌, ap, List, [], ◌∷◌, ◌++◌, arith, u8,
}
use go_software_router.Wire.{uint16_to_byte, uint32_to_byte}
use go_software_router.Device.{Mac, NetDevice}
use go_software_router.Arp.{ArpIpToEthernet}
use go_software_router.Ip.{IpHeader, header_bytes}
use go_software_router.Router.State.{Frame}

-- Numbers in network byte order, and hardware addresses.
abbrev pub two : ℕ → List ℕ
two n = n / 256 % 256 ∷ n % 256 ∷ []

abbrev pub four : ℕ → List ℕ
four n = n / 16777216 % 256 ∷ n / 65536 % 256 ∷ n / 256 % 256 ∷ n % 256 ∷ []

abbrev pub six : Mac → List ℕ
six mac = mac.b0 ∷ mac.b1 ∷ mac.b2 ∷ mac.b3 ∷ mac.b4 ∷ mac.b5 ∷ []

abbrev pub everyone : Mac
everyone = record { b0 = 255; b1 = 255; b2 = 255; b3 = 255; b4 = 255; b5 = 255 }

-- A frame that a device puts on its network: destination, source, type and payload.
abbrev pub on_wire : NetDevice → Mac → ℕ → List ℕ → Frame
on_wire d mac eth_type payload = record {
  socket = d.socket;
  sockaddr = d.sockaddr;
  bytes = six mac ++ (six d.macaddr ++ (two eth_type ++ payload));
}

-- An ARP message for Ethernet and IPv4, and one with any fields.
abbrev pub arp_ipv4 : ℕ → Mac → ℕ → Mac → ℕ → List ℕ
arp_ipv4 opcode sender_mac sender_ip target_mac target_ip =
    0 ∷ 1 ∷ 8 ∷ 0 ∷ 6 ∷ 4 ∷ 0 ∷ opcode ∷ []
    ++ (six sender_mac ++ (four sender_ip ++ (six target_mac ++ four target_ip)))

abbrev pub arp_layout : ArpIpToEthernet → List ℕ
arp_layout m =
    two m.hardware_type
    ++ (two m.protocol_type
        ++ (m.hardware_len ∷ m.protocol_len ∷ []
            ++ (two m.opcode
                ++ (six m.sender_hardware_addr
                    ++ (four m.sender_ip_addr
                        ++ (six m.target_hardware_addr ++ four m.target_ip_addr))))))

-- The twenty bytes of an IPv4 header.
abbrev pub ip_layout : IpHeader → List ℕ
ip_layout h =
    (16 * h.version + h.header_len) ∷ h.tos ∷ []
    ++ (two h.total_len
        ++ (two h.identity
            ++ (two h.flag_offset
                ++ (h.ttl ∷ h.protocol ∷ []
                    ++ (two h.header_checksum ++ (four h.src_addr ++ four h.dest_addr))))))

-- The header bytes that the code writes are that layout.
pub header_bytes-ip_layout :
    (h : IpHeader) → h.version < 2 ^ 4 → h.header_len < 2 ^ 4 → header_bytes h ≡ ip_layout h
unfolding header_bytes uint16_to_byte uint32_to_byte
header_bytes-ip_layout h version_fits len_fits =
    let first : u8 (u8 (h.version * 2 ^ 4) + h.header_len) ≡ 16 * h.version + h.header_len =
      omega arith in
    ap
      (λ (b : ℕ).
        b ∷ h.tos ∷ []
        ++ (two h.total_len
            ++ (two h.identity
                ++ (two h.flag_offset
                    ++ (h.ttl ∷ h.protocol ∷ []
                        ++ (two h.header_checksum ++ (four h.src_addr ++ four h.dest_addr)))))))
      first
