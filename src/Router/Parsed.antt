-- ===== src/Router/Parsed.antt =====
-- ethernet.go and arp.go: headers that are read from what was received, once its length was checked.
use go_software_router.Prelude.{ℕ, ◌≤◌, refl, List, length, arith}
use go_software_router.Wire.Total.{
  Gives, at_total, Gives-bind, bytes_total, field16_total, field32_total, slice_total,
  byte_to_uint16_total,
}
use go_software_router.Device.{set_mac_addr}
use go_software_router.Arp.{ArpIpToEthernet}
use go_software_router.Arp
use go_software_router.Router.Frames.{read_header}

pub read_header_total : (bs : List ℕ) → 14 ≤ length bs → Gives (read_header bs)
unfolding read_header
read_header_total bs h = Gives-bind (bytes_total bs 0 6 (omega arith) (omega arith)) (λ x.
    Gives-bind (bytes_total bs 6 12 (omega arith) (omega arith)) (λ y.
      let (field, e, l) = slice_total bs 12 14 (omega arith) h in
      let (kind, read) = byte_to_uint16_total field (omega arith) in
      (
        record { dest_addr = set_mac_addr x; src_addr = set_mac_addr y; ether_type = kind },
        rw (e, read) refl,
      )))

pub parse_fields_total : (bs : List ℕ) → 28 ≤ length bs → Gives (Arp.parse_fields bs)
unfolding Arp.parse_fields
parse_fields_total bs h = Gives-bind (field16_total bs 0 2 (omega arith) (omega arith)) (λ x.
    Gives-bind (field16_total bs 2 4 (omega arith) (omega arith)) (λ x.
      Gives-bind (at_total bs 4 (omega arith)) (λ x. Gives-bind (at_total bs 5 (omega arith)) (λ x.
        Gives-bind (field16_total bs 6 8 (omega arith) (omega arith)) (λ x.
          Gives-bind (bytes_total bs 8 14 (omega arith) (omega arith)) (λ x.
            Gives-bind (field32_total bs 14 18 (omega arith) (omega arith)) (λ x.
              Gives-bind (bytes_total bs 18 24 (omega arith) (omega arith)) (λ x.
                Gives-bind (field32_total bs 24 28 (omega arith) (omega arith))
                  (λ x. (_, refl))))))))))
