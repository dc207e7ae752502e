-- ===== src/Lib.antt =====
-- A software router in user space: it receives Ethernet frames on raw sockets, answers ARP and
-- ICMP echo, forwards IPv4 by longest prefix, and translates addresses (NAT) for UDP, TCP and ICMP.
--
-- How the parts interact. The event loop of Chapter2.go polls the device of a ready socket (net.go);
-- a frame goes through ethernet.go to arp.go or to ip.go. ip.go learns the sender, delivers to the
-- router itself (ICMP.go, or incoming NAT), or translates (nat.go), looks up the route
-- (radix_tree.go) and sends through arp.go and ethernet.go. Header.go has the transport headers,
-- utils.go the byte order and the checksum, packetPool.go a buffer with headroom and a checksum
-- that reads in place.
--
-- Which file models which part:
--   Prelude       results that may panic, slices with Go's range checks, words, bits and lists
--   Wire          utils.go (byteToUint16 to uint32ToByte) and net.go (htons)
--   Checksum      utils.go (sumByteArr, foldChecksum, calcChecksum, pseudoHeaderSum) and
--                 packetPool.go (ChecksumPartial, FinalizeChecksum, ComputeL4ChecksumZeroCopy)
--   Header        Header.go: Header.Udp and Header.Tcp
--   Radix         radix_tree.go, and the route entries of ip.go
--   Packet        packetPool.go, PacketBuffer and its pool
--   Device        the data of net.go, ethernet.go, ip.go (ipDevice) and nat.go (natDevice)
--   Arp           arp.go, the table and the message
--   Icmp          ICMP.go, the message and the reply
--   Ip            ip.go, the header
--   Nat           nat.go: tables (Nat), natExec (Nat.L4 and Nat.Exec)
--   Print         utils.go (printMacAddr, printIPAddr)
--   Router        the global state, and the handlers of ethernet.go, arp.go, ip.go, ICMP.go, net.go
--                 and Chapter2.go: Router.State, Output, Arp, Nat, Ours, Input, Frames, Setup and
--                 Loop; Router.Chapter1 is Chapter1.go and main.go
--   Router.Sound, Evolve and Safety    what every handler keeps of the state
--   Router.Routes, Start and Reachable    what holds after the start, and in each round of the loop
--   Router.Run, Parsed, Through and Own   what single handlers do to the state
--   Router.Expected    the frames, ARP messages and IPv4 headers of the wire, byte by byte, apart
--                 from the functions of the code that write them
--   Router.Heard, Onward, Forwarded, Resolve, Ping, Masquerade, Inside, Returned and Lengths
--                 what the handlers together do with an ARP message, a packet in transit, a host that is not
--                 known, an echo request, and datagrams through the NAT, from frame to frame
--   Tests         concrete data, and the theorems at concrete inputs
--
-- How the code is represented. A panic and log.Fatal are results (`crash`), which end a handler. A
-- pointer to a device is its position in netDeviceList, a pointer to NAT tables a position in
-- the list of all tables, and a pointer to an entry the slot that holds it. Positions behind the
-- list of devices are those of copies: Chapter1.go polls the loop variable, a new copy each time.
-- A handler takes the state of the globals and returns the new one. Unsigned numbers are natural
-- numbers cut to their width where the code computes; a hypothesis that a field fits its width
-- holds of every value of the Go type.
--
-- Loops are recursion on the list or on the rounds that are left: 32 bits of an address, the bytes of
-- a packet, the slots of a table. The loop that folds a carry is recursion on the sum, which each
-- round lowers, so no bound on its rounds is chosen.
--
-- Parameters. `Sendto` says whether the kernel takes a frame, given all that it took before. What
-- Recvfrom returns, what the kernel says of an interface, and the buffers that sync.Pool hands
-- out are arguments.
--
-- The endless loops are relations: Reach and Waits hold of the states in which the program waits for
-- the next events, whatever EpollWait and Recvfrom give.
--
-- Not modelled: what is printed (the texts of addresses are); the calls that open sockets and epoll,
-- which are taken to succeed (where one fails the program ends, but Chapter2.go goes on after a
-- failed EpollCtl); the reading of the command line by package flag; and the scripts under
-- netns-scripts.
pub mod Prelude
pub mod Wire
pub mod Checksum
pub mod Header
pub mod Radix
pub mod Packet
pub mod Print
pub mod Device
pub mod Arp
pub mod Icmp
pub mod Ip
pub mod Nat
pub mod Router
pub mod Tests
