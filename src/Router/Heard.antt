-- ===== src/Router/Heard.antt =====
-- arp.go: what an ARP message that arrives at a device does, in every branch.
use go_software_router.Prelude.{
  ℕ, ◌≡◌, refl, ◌∙◌, arith, List, [], ◌∷◌, ◌++◌, some, true, false, ok, not, ◌&&◌, ◌||◌, inl, inr,
  Bool-cases, length, length-append, get_elem?, ltb, ltb-false, ◌==◌, if◌then◌else◌,
}
use go_software_router.Wire.{uint16_to_byte, uint32_to_byte}
use go_software_router.Device.{NetDevice, mac_to_byte}
use go_software_router.Arp.{ArpIpToEthernet, add_arp_table_entry, arp_operation_code_request}
use go_software_router.Arp
use go_software_router.Arp.Message.{IsArp, parse_fields-to_packet, length-to_packet}
use go_software_router.Router.State.{
  Router, Frame, Sendto, M, lift, ◌>>=◌, ◌>>◌, deref, add_arp, stop,
}
use go_software_router.Router.Output.{
  ether_type_arp, ether_type_ip, ethernet_output, header_to_packet,
}
use go_software_router.Router.Run.{run, run_if, run_else, run_lift, deref-some, ethernet_output_lem}
use go_software_router.Router.Arp.{arp_reply, arp_reply_arrives, arp_request_arrives, arp_input}
use go_software_router.Router.Expected.{on_wire, arp_ipv4, arp_layout}

-- The answer that goes to the station that asked: the device's own addresses under the opcode of a reply. Its target is the
-- hardware address of that station, and the IPv4 address that was asked for.
abbrev pub answer : NetDevice → ArpIpToEthernet → Frame
answer d m =
    on_wire d m.sender_hardware_addr 0x0806
      (arp_ipv4 2 d.macaddr d.ipdev.address m.sender_hardware_addr m.target_ip_addr)

-- The state after a message: whose sender is recorded, and what is answered.
abbrev pub heard : ℕ → NetDevice → ArpIpToEthernet → Router → Router
heard i d m r =
    let for_ip = m.protocol_type == 0x0800 in
    let asks = m.opcode == 1 in
    let addressed = not (d.ipdev.address == 0) in
    let for_us = d.ipdev.address == m.target_ip_addr in
    record r {
      arp_table =
          if for_ip && ((not asks || for_us) && addressed)
          then add_arp_table_entry (some i) m.sender_ip_addr m.sender_hardware_addr r.arp_table
          else r.arp_table;
      sent =
          if for_ip && (asks && (for_us && addressed)) then r.sent ++ answer d m ∷ [] else r.sent;
    }

module _ (sendto : Sendto) (i : ℕ) (d : NetDevice) (m : ArpIpToEthernet) (r : Router)
    (at_i : get_elem? r.net_device_list i ≡ some d) where
  -- A message that is not a request.
  reply_arrives_lem :
      m.protocol_type ≡ ether_type_ip
      → (m.opcode == arp_operation_code_request) ≡ false
      → arp_reply_arrives (some i) m r ≡ ok (tt, heard i d m r)
  unfolding arp_reply_arrives add_arp
  reply_arrives_lem is_ip no_request =
      let guard_ip : (m.protocol_type == ether_type_ip) ≡ true = ground arith in
      let record_it : M (Unit {0}) = add_arp (some i) m.sender_ip_addr m.sender_hardware_addr in
      let by_device : NetDevice → M (Unit {0}) =
        λ dev. if not (dev.ipdev.address == 0) then record_it else stop in
      run (deref (some i)) by_device {r = r} (deref-some i d r at_i)
      ∙ rw guard_ip (
          rw no_request (elim (Bool-cases (d.ipdev.address == 0)) [
            | inl unset ↦ rw unset refl
            | inr has_address ↦ rw has_address refl
          ]))

  -- A request, where the kernel takes the answer.
  request_arrives_lem :
      m.protocol_type ≡ ether_type_ip
      → (m.opcode == arp_operation_code_request) ≡ true
      → sendto r.sent (answer d m) ≡ true
      → arp_request_arrives sendto (some i) m r ≡ ok (tt, heard i d m r)
  unfolding arp_request_arrives add_arp Arp.to_packet header_to_packet mac_to_byte uint16_to_byte
      uint32_to_byte
  request_arrives_lem is_ip is_request taken =
      let guard_ip : (m.protocol_type == ether_type_ip) ≡ true = ground arith in
      let s : Router = record r {
        arp_table =
            add_arp_table_entry (some i) m.sender_ip_addr m.sender_hardware_addr r.arp_table;
      } in
      let by_address : NetDevice → M (Unit {0}) = λ dev.
        add_arp (some i) m.sender_ip_addr m.sender_hardware_addr
        >> ethernet_output sendto (some i) m.sender_hardware_addr (Arp.to_packet (arp_reply dev m))
            ether_type_arp in
      let by_device : NetDevice → M (Unit {0}) = λ dev.
        if not (dev.ipdev.address == 0) && dev.ipdev.address == m.target_ip_addr
        then by_address dev
        else stop in
      let answered : by_address d r ≡ ok (tt, record s { sent = r.sent ++ answer d m ∷ [] }) =
        ethernet_output_lem sendto i d m.sender_hardware_addr (Arp.to_packet (arp_reply d m))
          ether_type_arp s at_i taken in
      run (deref (some i)) by_device {r = r} (deref-some i d r at_i)
      ∙ rw guard_ip (
          rw is_request (elim (Bool-cases (d.ipdev.address == 0)) [
            | inl unset ↦ elim (Bool-cases (d.ipdev.address == m.target_ip_addr)) [
              | inl for_us ↦ rw for_us (rw unset refl)
              | inr other ↦ rw other (rw unset refl)
            ]
            | inr has_address ↦ elim (Bool-cases (d.ipdev.address == m.target_ip_addr)) [
              | inl for_us ↦ rw for_us (rw has_address answered)
              | inr other ↦ rw other (rw has_address refl)
            ]
          ]))

  -- An ARP message whose words fit, laid out byte by byte and with any padding behind it, arrives at a device, and the kernel
  -- takes the answer to it. The sender is recorded exactly if the message is about IPv4, the device has an address, and the
  -- message is not a request or asks for that address. An answer goes out exactly if the message is such a request, one
  -- frame to the sender: an ARP reply with the device's hardware address for the address that was asked for, laid out
  -- byte by byte, whose target address is the one that was asked for. Nothing else changes.
  pub arp_input_lem :
      (rest : List ℕ)
      → IsArp m
      → sendto r.sent (answer d m) ≡ true
      → arp_input sendto (some i) (arp_layout m ++ rest) r ≡ ok (tt, heard i d m r)
  unfolding arp_input Arp.to_packet mac_to_byte uint16_to_byte uint32_to_byte
  arp_input_lem rest v taken =
      let bs = Arp.to_packet m ++ rest in
      let long : ltb (length bs) 28 ≡ false =
        ltb-false (length bs) 28
          (omega (arith, length-append (Arp.to_packet m) rest, length-to_packet m)) in
      let by_code : ArpIpToEthernet → M (Unit {0}) = λ msg.
        if msg.opcode == arp_operation_code_request
        then arp_request_arrives sendto (some i) msg
        else arp_reply_arrives (some i) msg in
      let by_type : ArpIpToEthernet → M (Unit {0}) =
        λ msg. if msg.protocol_type == ether_type_ip then by_code msg else stop in
      run_else stop (lift (Arp.parse_fields bs) >>= by_type) r long
      ∙ (run (lift (Arp.parse_fields bs)) by_type {a = m}
            (run_lift r (parse_fields-to_packet m rest v))
          ∙ elim (Bool-cases (m.protocol_type == ether_type_ip)) [
            | inr other ↦ rw other refl
            | inl for_ip ↦
                let is_ip : m.protocol_type ≡ ether_type_ip = ground arith in
                elim (Bool-cases (m.opcode == arp_operation_code_request)) [
                  | inl asks ↦
                      run_if (by_code m) stop r for_ip
                      ∙ (run_if (arp_request_arrives sendto (some i) m)
                            (arp_reply_arrives (some i) m) r asks
                          ∙ request_arrives_lem is_ip asks taken)
                  | inr tells ↦
                      run_if (by_code m) stop r for_ip
                      ∙ (run_else (arp_request_arrives sendto (some i) m)
                            (arp_reply_arrives (some i) m) r tells
                          ∙ reply_arrives_lem is_ip tells)
                ]
          ])
