-- ===== src/Tests/Buffers.antt =====
-- The packet buffer at concrete inputs.
use go_software_router.Prelude.{ℕ, ◌+◌, ◌≡◌, refl, arith, List, [], ◌∷◌, ◌++◌, ok, replicate}
use go_software_router.Prelude.Int.{pos}
use go_software_router.Packet.{
  PacketBuffer, View, view, max_packet_size, alloc_packet, payload, len, prepend, append, fill,
}
use go_software_router.Packet.Grow.{
  IsBuffer, payload-prepend, payload-append, alloc_packet-IsBuffer,
}

abbrev zeros : List ℕ
zeros = replicate max_packet_size 0

abbrev buffer : PacketBuffer
buffer = record { buf = zeros; head = 128; tail = 128; l3_offset = 0; l4_offset = 0 }

buffer-IsBuffer : IsBuffer buffer
buffer-IsBuffer = record { size = refl; ordered = omega arith; within = omega arith }

no_bytes : payload buffer ≡ ok []
unfolding payload
no_bytes = refl

payload-prepend_example :
    (q : PacketBuffer) × (v : View) × (prepend buffer (pos 2) ≡ ok (q, view v))
    × (v.hi ≡ v.lo + 2)
    × (payload (fill q v (8 ∷ 9 ∷ [])) ≡ ok ((8 ∷ 9 ∷ []) ++ []))
    × IsBuffer (fill q v (8 ∷ 9 ∷ []))
payload-prepend_example =
    payload-prepend buffer 2 (8 ∷ 9 ∷ []) [] buffer-IsBuffer (omega arith) refl no_bytes

payload-append_example :
    (q : PacketBuffer) × (v : View) × (append buffer (pos 2) ≡ ok (q, view v))
    × (v.hi ≡ v.lo + 2)
    × (payload (fill q v (8 ∷ 9 ∷ [])) ≡ ok ([] ++ 8 ∷ 9 ∷ []))
    × IsBuffer (fill q v (8 ∷ 9 ∷ []))
payload-append_example =
    payload-append buffer 2 (8 ∷ 9 ∷ []) [] buffer-IsBuffer (omega arith) refl no_bytes

-- A pool that always hands out one buffer, and forgets what it is given.
abbrev get : ℕ → PacketBuffer × ℕ
get n = (record buffer { head = 4; tail = 90; l4_offset = 20 }, n)

abbrev put : PacketBuffer → ℕ → ℕ
put p n = n

alloc_packet-IsBuffer_example :
    let p = (alloc_packet get put 0).0 in
    IsBuffer p × (payload p ≡ ok []) × (len p ≡ 0) × (p.head ≡ 128)
alloc_packet-IsBuffer_example = alloc_packet-IsBuffer get put 0 refl
