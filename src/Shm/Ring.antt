-- ===== src/Shm/Ring.antt =====
-- A shared-memory block as a queue: the chain of records from the tail to the head (shm_header.h,
-- shm_send.cpp, shm_recv.cpp).
use netcomm.Prelude.{
  ℕ, ◌+◌, ◌%◌, ◌≤◌, ◌<◌, ◌≡◌, ◌≢◌, sym, subst, List, [], ◌∷◌, ◌++◌, length, ring_step, arith,
}
use netcomm.Memory.{read_bytes}
use netcomm.Shm.Layout.{data_block_size, data_usable_limit, get_header_offset, get_data_offset}
use netcomm.Shm.{
  Block, RecordHeader, ShmRecvData, wrap_header, data_header, space_til_wrap, reserved_size,
  shm_ready,
}

-- A record of the chain: a message, or the gap before the next lap.
pub data Segment : Type 0 where
  message : ShmRecvData → Segment
  gap : Segment

abbrev pub messages : List Segment → List ShmRecvData
messages [] = []
messages (message d ∷ segs) = d ∷ messages segs
messages (gap ∷ segs) = messages segs

abbrev pub size_at : ℕ → Segment → ℕ
size_at pos (message d) = reserved_size d.buf
size_at pos gap = space_til_wrap pos

-- The header of a record of this generation.
abbrev pub header_of : ℕ → ℕ → Segment → RecordHeader
header_of gen pos (message d) =
    data_header d.source_id d.label d.user_seq gen (reserved_size d.buf) (length d.buf)
header_of gen pos gap = wrap_header gen (space_til_wrap pos)

abbrev pub Payload : Block → ℕ → Segment → Type 0
Payload b pos (message d) =
    (read_bytes b.bytes (get_data_offset pos) (length d.buf) ≡ d.buf)
    × (0 < length d.buf)
    × (pos % data_block_size + reserved_size d.buf ≤ data_usable_limit)
Payload b pos gap = (pos % 8 ≡ 0) × (pos % data_block_size ≤ data_usable_limit)

-- From a position on the block holds these records, up to the head.
abbrev pub Chain : Block → ℕ → List Segment → Type 0
Chain b pos [] = pos ≡ b.head_bytes
Chain b pos (s ∷ segs) =
    (b.headers (get_header_offset pos) ≡ header_of b.generation pos s)
    × Payload b pos s
    × Chain b (pos + size_at pos s) segs

-- A block whose live records are these.
pub record IsRing (b : Block) (segs : List Segment) : Type 0 where
  pub ready : b.state ≡ shm_ready
  pub chain : Chain b b.tail_bytes segs
  pub lap : b.head_bytes ≤ b.tail_bytes + data_block_size
  pub head_ok : b.head_bytes % data_block_size ≤ data_usable_limit
  pub tail_ok : b.tail_bytes % data_block_size ≤ data_usable_limit
  pub aligned : b.head_bytes % 8 ≡ 0

pub size_at-pos : (pos : ℕ) (s : Segment) → 0 < size_at pos s
size_at-pos pos (message d) = omega arith
size_at-pos pos gap = omega arith

pub Chain-le : (b : Block) (pos : ℕ) (segs : List Segment) → Chain b pos segs → pos ≤ b.head_bytes
Chain-le b pos [] c = omega arith
Chain-le b pos (s ∷ segs) c =
    omega (arith, Chain-le b (pos + size_at pos s) segs c.2, size_at-pos pos s)

-- What a position holds for one record.
abbrev pub Holds : Block → ℕ → Segment → Type 0
Holds b pos s = (b.headers (get_header_offset pos) ≡ header_of b.generation pos s) × Payload b pos s

-- A write that puts a record at the head, and keeps the records within one lap before it, extends
-- the chain by that record.
pub extend-Chain :
    (b b' : Block) (s : Segment) (pos : ℕ) (segs : List Segment)
    → ((p : ℕ) (t : Segment)
        → p + size_at p t ≤ b.head_bytes
        → b.head_bytes + size_at b.head_bytes s ≤ p + data_block_size
        → Holds b p t
        → Holds b' p t)
    → Holds b' b.head_bytes s
    → b'.head_bytes ≡ b.head_bytes + size_at b.head_bytes s
    → Chain b pos segs
    → b.head_bytes + size_at b.head_bytes s ≤ pos + data_block_size
    → Chain b' pos (segs ++ (s ∷ []))
extend-Chain b b' s pos [] kept here head c lap =
    subst (λ p. Chain b' p (s ∷ [])) (sym c) (here.0, here.1, sym head)
extend-Chain b b' s pos (t ∷ segs) kept here head c lap =
    let held = kept pos t (Chain-le b (pos + size_at pos t) segs c.2) lap (c.0, c.1) in
    (
      held.0,
      held.1,
      extend-Chain b b' s (pos + size_at pos t) segs kept here head c.2 (omega arith),
    )

-- Two positions of one lap have different headers.
pub header_apart :
    (p d : ℕ) → 0 < d → d < data_block_size → get_header_offset (p + d) ≢ get_header_offset p
header_apart p d hd lap e = omega (arith, ring_step data_block_size p d (omega arith) (omega arith))
