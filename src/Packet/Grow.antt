-- ===== src/Packet/Grow.antt =====
-- packetPool.go, `Prepend` and `Append`: headers in front of the valid bytes, data behind them.
use mathlib.Core.List.{append_assoc}
use go_software_router.Prelude.{
  ℕ, ◌+◌, ◌-◌, ◌≤◌, ◌≡◌, refl, sym, ap, ◌∙◌, List, [], ◌++◌, ok, arith, length, length-append,
  slice, slice_middle, cut, copy_at, length-copy_at,
}
use go_software_router.Prelude.Int.{pos}
use go_software_router.Packet.{
  PacketBuffer, View, view, max_packet_size, payload, len, reset, alloc_packet, prepend, append,
  fill,
}
use go_software_router.Packet.Window.{copy_at-append, Parts, parts}

pub record IsBuffer (p : PacketBuffer) : Type 0 where
  pub size : length p.buf ≡ max_packet_size
  pub ordered : p.head ≤ p.tail
  pub within : p.tail ≤ max_packet_size

-- The bytes between `j` and `k`, and those after new ones are written just before or behind them.
module _ (buf : List ℕ) (i j k : ℕ) (xs : List ℕ) where
  front_write :
      Parts buf i j k
      → i ≤ j
      → j ≤ k
      → length xs ≡ j - i
      → (old : List ℕ) → slice buf j k ≡ ok old
      → slice (copy_at buf i xs) i k ≡ ok (xs ++ old)
  front_write (a, b, c, d, e, la, lb, lc) hij hjk hx old ho =
      let mid : slice (a ++ b ++ (c ++ d)) j k ≡ ok c =
        slice_middle (a ++ b) c d j k (omega (arith, length-append a b))
          (omega (arith, length-append a b)) in
      let same : old ≡ c =
        cc (mid, ho, ap (λ t. slice t j k) (e ∙ sym (append_assoc a b (c ++ d)))) in
      let written : copy_at (a ++ (b ++ (c ++ d))) (length a) xs ≡ a ++ (xs ++ (c ++ d)) =
        copy_at-append a b (c ++ d) xs (omega arith) in
      rw (e, ← la, written, ← append_assoc xs c d, same)
        (slice_middle a (xs ++ c) d (length a) k refl (omega (arith, length-append xs c)))

  back_write :
      Parts buf i j k
      → i ≤ j
      → j ≤ k
      → length xs ≡ k - j
      → (old : List ℕ) → slice buf i j ≡ ok old
      → slice (copy_at buf j xs) i k ≡ ok (old ++ xs)
  back_write (a, b, c, d, e, la, lb, lc) hij hjk hx old ho =
      let mid : slice (a ++ (b ++ (c ++ d))) i j ≡ ok b =
        slice_middle a b (c ++ d) i j (omega arith) (omega arith) in
      let same : old ≡ b = cc (mid, ho, ap (λ t. slice t i j) e) in
      let whole : buf ≡ a ++ b ++ (c ++ d) = e ∙ sym (append_assoc a b (c ++ d)) in
      let at_j : j ≡ length (a ++ b) = omega (arith, length-append a b) in
      let written : copy_at (a ++ b ++ (c ++ d)) (length (a ++ b)) xs ≡ a ++ b ++ (xs ++ d) =
        copy_at-append (a ++ b) c d xs (omega arith) in
      rw (whole, at_j, written, append_assoc a b (xs ++ d), ← append_assoc b xs d, same)
        (slice_middle a (b ++ xs) d i k (omega arith) (omega (arith, length-append b xs)))

-- `Prepend n` on a well-formed buffer, with `n` at most the head, returns the `n` bytes before the valid
-- ones; when the caller has filled them with `xs`, the valid bytes are `xs` and the old ones
-- behind them, and the buffer is well-formed.
pub payload-prepend :
    (p : PacketBuffer) (n : ℕ) (xs old : List ℕ)
    → IsBuffer p
    → n ≤ p.head
    → length xs ≡ n
    → payload p ≡ ok old
    → (q : PacketBuffer) × (v : View) × (prepend p (pos n) ≡ ok (q, view v))
      × (v.hi ≡ v.lo + n)
      × (payload (fill q v xs) ≡ ok (xs ++ old))
      × IsBuffer (fill q v xs)
unfolding prepend payload
payload-prepend p n xs old v h hx ho =
    let start = p.head - n in
    let all =
      parts p.buf start p.head p.tail (omega arith) v.ordered (omega (arith, v.size, v.within)) in
    (
      record p { head = start },
      record { lo = start; hi = start + n },
      ground (arith, v.size),
      refl,
      front_write p.buf start p.head p.tail xs all (omega arith) v.ordered (omega arith) old ho,
      record {
        size = length-copy_at p.buf start xs ∙ v.size;
        ordered = omega (arith, v.ordered);
        within = v.within;
      },
    )

-- `Append n` on a well-formed buffer, where the array has room for `n` more bytes, returns the
-- bytes behind the valid ones; when the caller has filled them with `xs`, the valid bytes
-- are the old ones and `xs` behind them, and the buffer is well-formed.
pub payload-append :
    (p : PacketBuffer) (n : ℕ) (xs old : List ℕ)
    → IsBuffer p
    → p.tail + n ≤ max_packet_size
    → length xs ≡ n
    → payload p ≡ ok old
    → (q : PacketBuffer) × (v : View) × (append p (pos n) ≡ ok (q, view v))
      × (v.hi ≡ v.lo + n)
      × (payload (fill q v xs) ≡ ok (old ++ xs))
      × IsBuffer (fill q v xs)
unfolding append payload
payload-append p n xs old v h hx ho =
    let all =
      parts p.buf p.head p.tail (p.tail + n) v.ordered (omega arith) (omega (arith, v.size)) in
    (
      record p { tail = p.tail + n },
      record { lo = p.tail; hi = p.tail + n },
      ground (arith, v.size),
      refl,
      back_write p.buf p.head p.tail (p.tail + n) xs all v.ordered (omega arith) (omega arith) old
          ho,
      record {
        size = length-copy_at p.buf p.tail xs ∙ v.size;
        ordered = omega (arith, v.ordered);
        within = h;
      },
    )

-- Whatever buffer the pool hands out, if its array has its size, the packet that `AllocPacket` returns is
-- well-formed and empty, with 128 bytes of headroom; `Len` is then the number of valid bytes.
pub alloc_packet-IsBuffer :
    {P : Type 0} (get : P → PacketBuffer × P) (put : PacketBuffer → P → P) (pool : P)
    → length (get pool).0.buf ≡ max_packet_size
    → let p = (alloc_packet get put pool).0 in
      IsBuffer p × (payload p ≡ ok []) × (len p ≡ 0) × (p.head ≡ 128)
unfolding alloc_packet reset payload len
alloc_packet-IsBuffer get put pool h =
    let (_, rest, _, from, _, _) = cut (get pool).0.buf 128 (omega arith) in
    (record { size = h; ordered = omega arith; within = omega arith }, rw from, refl, refl)
