-- ===== src/Packet.antt =====
-- packetPool.go, `PacketBuffer`: a window of valid bytes in a fixed array, which grows at both ends.
pub mod Window
pub mod Grow
use go_software_router.Prelude.{
  ℕ, zero, suc, ◌+◌, ◌-◌, ◌^◌, List, [], ◌∷◌, Bool, ◌&&◌, Result, ok, crash, panic, ltb, leb,
  if◌then◌else◌, slice, copy_at, length,
}
use go_software_router.Prelude.Int.{ℤ, pos, negsuc}

abbrev pub max_packet_size : ℕ
max_packet_size = 2048

abbrev pub default_headroom : ℕ
default_headroom = 128

pub record PacketBuffer : Type 0 where
  pub buf : List ℕ
  pub head : ℕ
  pub tail : ℕ
  pub l3_offset : ℕ
  pub l4_offset : ℕ

-- A slice of `buf` that a method returns, for the caller to write through.
pub record View : Type 0 where
  pub lo : ℕ
  pub hi : ℕ

-- The two results of a method, a slice or an error.
pub data Reply : Type 0 where
  view : View → Reply
  headroom_overflow tailroom_overflow : Reply

unfoldable pub reset : PacketBuffer → PacketBuffer
reset p = record p {
  head = default_headroom;
  tail = default_headroom;
  l3_offset = 0;
  l4_offset = 0;
}

-- `sync.Pool` is a parameter: `get` hands out some buffer, an old one or a new one.
module _ {P : Type 0} (get : P → PacketBuffer × P) (put : PacketBuffer → P → P) where
  unfoldable pub alloc_packet : P → PacketBuffer × P
  unfolding reset
  alloc_packet pool = let (pkt, rest) = get pool in (reset pkt, rest)

  unfoldable pub release : PacketBuffer → P → P
  release p pool = put p pool

-- `p.buf[p.head:p.tail]`.
unfoldable pub payload : PacketBuffer → Result (List ℕ)
payload p = slice p.buf p.head p.tail

unfoldable pub len : PacketBuffer → ℕ
len p = p.tail - p.head

-- `p.buf[lo:hi]`, which panics out of the array's range.
abbrev pub view_of : PacketBuffer → ℕ → ℕ → Result (PacketBuffer × Reply)
view_of p lo hi =
    if leb lo hi && leb hi (length p.buf)
    then ok (p, view (record { lo = lo; hi = hi }))
    else crash panic

-- With a negative `n` the head moves up and the slice `[head : head+n]` panics.
unfoldable pub prepend : PacketBuffer → ℤ → Result (PacketBuffer × Reply)
prepend p (pos n) =
    if ltb p.head n
    then ok (p, headroom_overflow)
    else view_of (record p { head = p.head - n }) (p.head - n) (p.head - n + n)
prepend p (negsuc n) = crash panic

-- With a negative `n`, or where `p.tail+n` wraps to one, the slice `[oldTail : tail]` panics.
unfoldable pub append : PacketBuffer → ℤ → Result (PacketBuffer × Reply)
append p (pos n) =
    if leb (2 ^ 63) (p.tail + n)
    then crash panic
    else if ltb max_packet_size (p.tail + n)
    then ok (p, tailroom_overflow)
    else view_of (record p { tail = p.tail + n }) p.tail (p.tail + n)
append p (negsuc n) = crash panic

-- What the caller's `copy` through a view writes.
abbrev pub fill : PacketBuffer → View → List ℕ → PacketBuffer
fill p v xs = record p { buf = copy_at p.buf v.lo xs }
