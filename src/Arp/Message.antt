-- ===== src/Arp/Message.antt =====
-- Round trips of the ARP message.
use go_software_router.Prelude.{ℕ, ◌<◌, ◌^◌, ◌≡◌, refl, List, ◌++◌, ok, arith, length}
use go_software_router.Arp.{ArpIpToEthernet, to_packet, parse_fields}

-- The words fit their widths.
pub record IsArp (m : ArpIpToEthernet) : Type 0 where
  pub htype_fits : m.hardware_type < 2 ^ 16
  pub ptype_fits : m.protocol_type < 2 ^ 16
  pub opcode_fits : m.opcode < 2 ^ 16
  pub sender_fits : m.sender_ip_addr < 2 ^ 32
  pub target_fits : m.target_ip_addr < 2 ^ 32

-- What `arpInput` reads from the bytes of a message, whatever padding follows them, is the message.
pub parse_fields-to_packet :
    (m : ArpIpToEthernet) (rest : List ℕ) → IsArp m → parse_fields (to_packet m ++ rest) ≡ ok m
unfolding to_packet parse_fields
parse_fields-to_packet m rest v = ground arith

pub length-to_packet : (m : ArpIpToEthernet) → length (to_packet m) ≡ 28
unfolding to_packet
length-to_packet m = refl
