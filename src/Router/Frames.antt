-- ===== src/Router/Frames.antt =====
-- ethernet.go, `ethernetInput`, and net.go, `netDevicePoll`: from a received frame to the handlers.
use Prim.Native.String.{String}
use text.Mathlib.Text.{◌==◌ as str_eq}
use go_software_router.Prelude.{
  ℕ, ◌+◌, List, [], ◌∷◌, some, Bool, not, ◌||◌, ◌&&◌, ◌==◌, ltb, if◌then◌else◌, length, slice,
  slice_from, Result, ok, u32, ◌>>=◌ as ◌>>>=◌,
}
use go_software_router.Prelude.Int.{ℤ, pos, negsuc}
use go_software_router.Wire.{byte_to_uint16}
use go_software_router.Device.{
  mac_eq, zero_mac, ethernet_address_broadcast, set_mac_addr, EthernetHeader, NetDevice,
}
use go_software_router.Router.State.{
  Sendto, M, ◌>>=◌, ◌>>◌, lift, get, stop, log_fatal, deref, store,
}
use go_software_router.Router.Output.{ether_type_ip, ether_type_arp}
use go_software_router.Router.Arp.{arp_input}
use go_software_router.Router.Input.{ip_input}

-- `a && b || c`: the frame is for another station, or it has no sender.
abbrev pub is_foreign : NetDevice → EthernetHeader → Bool
is_foreign dev h =
    (not (mac_eq dev.macaddr h.dest_addr) && not (mac_eq h.dest_addr ethernet_address_broadcast))
    || mac_eq h.src_addr zero_mac

-- The header of a frame of at least 14 bytes.
unfoldable pub read_header : List ℕ → Result EthernetHeader
unfolding byte_to_uint16 set_mac_addr
read_header packet = slice packet 0 6 >>>= λ dest. slice packet 6 12 >>>= λ src.
    slice packet 12 14 >>>= λ type_bytes. byte_to_uint16 type_bytes >>>= λ ether_type.
    ok (record {
      dest_addr = set_mac_addr dest;
      src_addr = set_mac_addr src;
      ether_type = ether_type;
    })

-- What one call of `syscall.Recvfrom` gives: the bytes, or an error with its count.
pub data Received : Type 0 where
  bytes : List ℕ → Received
  failed : ℤ → Received

module _ (sendto : Sendto) where
  -- `switch netdev.etheHeader.etherType`.
  unfoldable pub dispatch : ℕ → ℕ → List ℕ → M (Unit {0})
  unfolding arp_input ip_input
  dispatch i ether_type packet =
      if ether_type == ether_type_arp
      then arp_input sendto (some i) packet
      else if ether_type == ether_type_ip
      then ip_input sendto i packet
      else stop

  -- The device keeps the header of the last frame, also of one that it drops.
  unfoldable pub ethernet_input : ℕ → List ℕ → M (Unit {0})
  unfolding deref store read_header dispatch
  ethernet_input i packet =
      if ltb (length packet) 14
      then stop
      else (deref (some i) >>= λ dev. lift (read_header packet) >>= λ h.
          store i (record dev { ethe_header = h })
          >> (if is_foreign dev h
              then stop
              else (lift (slice_from packet 14) >>= λ body. dispatch i h.ether_type body)))

  -- An error that comes with another count than -1 is returned; the callers end the program on it.
  unfoldable pub net_device_poll : String → ℕ → Received → M (Unit {0})
  unfolding ethernet_input
  net_device_poll mode i (bytes b) = if str_eq mode "ch1" then stop else ethernet_input i b
  net_device_poll mode i (failed (negsuc n)) = if n == 0 then stop else log_fatal
  net_device_poll mode i (failed (pos n)) = log_fatal

  -- The inner loop of `runChapter2` for one ready descriptor: each device with that socket is polled.
  unfoldable pub poll_devices : String → ℕ → (ℕ → Received) → ℕ → List NetDevice → M (Unit {0})
  unfolding net_device_poll
  poll_devices mode fd received i [] = stop
  poll_devices mode fd received i (dev ∷ rest) =
      let next = poll_devices mode fd received (i + 1) rest in
      if fd == u32 dev.socket then (net_device_poll mode i (received i) >> next) else next

  unfoldable pub handle_event : String → ℕ → (ℕ → Received) → M (Unit {0})
  unfolding poll_devices
  handle_event mode fd received = do r ← get; poll_devices mode fd received 0 r.net_device_list
