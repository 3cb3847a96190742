-- ===== src/Shm/Scan.antt =====
-- The search of ShmRecv::recv (shm_recv.cpp) for the next message.
use netcomm.Prelude.{
  ℕ, zero, suc, ◌+◌, ◌-◌, ◌%◌, ◌^◌, ◌≤◌, ◌<◌, ◌≡◌, refl, sym, subst, List, [], ◌∷◌, arith,
}
use netcomm.Shm.Layout.{data_block_size, data_usable_limit, get_header_offset}
use netcomm.Shm.{
  Block, ShmRecvData, space_til_wrap, reserved_size, no_records, Scanned, stopped, found_at, scan,
  skip_wrap,
}
use netcomm.Shm.Writes.{next_lap}
use netcomm.Shm.Ring.{
  Segment, message, gap, messages, size_at, header_of, Chain, IsRing, Chain-le, size_at-pos,
}

-- How the search for a message ends on a ring.
pub data Found (segs : List Segment) : Scanned → Type 0 where
  nothing : (c : Block) → IsRing c [] → messages segs ≡ [] → Found segs (stopped no_records c)
  first :
      (c : Block) (d : ShmRecvData) (rest : List Segment)
      → IsRing c (message d ∷ rest)
      → messages segs ≡ d ∷ messages rest
      → c.head_bytes < 2 ^ 64
      → Found segs (found_at c.tail_bytes c)

scan-end :
    (n : ℕ) (b : Block)
    → b.tail_bytes ≡ b.head_bytes
    → scan (suc n) b b.generation b.tail_bytes ≡ stopped no_records b
unfolding scan
scan-end n b e = ground arith

scan-message :
    (n : ℕ) (b : Block) (d : ShmRecvData)
    → b.tail_bytes < b.head_bytes
    → b.headers (get_header_offset b.tail_bytes) ≡ header_of b.generation b.tail_bytes (message d)
    → scan (suc n) b b.generation b.tail_bytes ≡ found_at b.tail_bytes b
unfolding scan
scan-message n b d l h = ground arith

scan-gap :
    (n : ℕ) (b : Block)
    → b.tail_bytes < b.head_bytes
    → b.headers (get_header_offset b.tail_bytes) ≡ header_of b.generation b.tail_bytes gap
    → b.tail_bytes % 8 ≡ 0
    → b.tail_bytes % data_block_size ≤ data_usable_limit
    → b.tail_bytes + data_block_size < 2 ^ 64
    → scan (suc n) b b.generation b.tail_bytes
      ≡ scan n
          (skip_wrap b (b.tail_bytes + space_til_wrap b.tail_bytes))
          b.generation
          (b.tail_bytes + space_til_wrap b.tail_bytes)
unfolding scan
scan-gap n b l h al ok small = ground arith

pub tail_below :
    (b : Block) (s : Segment) (segs : List Segment)
    → IsRing b (s ∷ segs)
    → b.tail_bytes < b.head_bytes
tail_below b s segs ring = omega (
  arith,
  Chain-le b (b.tail_bytes + size_at b.tail_bytes s) segs ring.chain.2,
  size_at-pos b.tail_bytes s,
)

-- The chain does not depend on the tail or on the count of records.
pub Chain-tail :
    (b : Block) (tail count pos : ℕ) (segs : List Segment)
    → Chain b pos segs
    → Chain (record b { tail_bytes = tail; published_count = count }) pos segs
Chain-tail b tail count pos [] c = c
Chain-tail b tail count pos (message d ∷ segs) c =
    (c.0, c.1, Chain-tail b tail count (pos + reserved_size d.buf) segs c.2)
Chain-tail b tail count pos (gap ∷ segs) c =
    (c.0, c.1, Chain-tail b tail count (pos + space_til_wrap pos) segs c.2)

skip-IsRing :
    (b : Block) (segs : List Segment)
    → IsRing b (gap ∷ segs)
    → IsRing (skip_wrap b (b.tail_bytes + space_til_wrap b.tail_bytes)) segs
skip-IsRing b segs ring = record {
  ready = ring.ready;
  chain =
      Chain-tail b (b.tail_bytes + space_til_wrap b.tail_bytes) b.published_count
        (b.tail_bytes + space_til_wrap b.tail_bytes) segs ring.chain.2;
  lap = omega (arith, ring.lap);
  head_ok = ring.head_ok;
  tail_ok = omega (arith, next_lap b.tail_bytes);
  aligned = ring.aligned;
}

-- The search moves over the gaps; one round for each byte in use is enough.
pub scan-Found :
    (n : ℕ) (b : Block) (segs : List Segment)
    → IsRing b segs
    → b.head_bytes + data_block_size < 2 ^ 64
    → b.head_bytes - b.tail_bytes < n
    → Found segs (scan n b b.generation b.tail_bytes)
scan-Found zero b segs ring small fuel = absurd (omega (arith, fuel))
scan-Found (suc n) b [] ring small fuel =
    subst (Found []) (sym (scan-end n b ring.chain)) (nothing b ring refl)
scan-Found (suc n) b (message d ∷ segs) ring small fuel =
    subst (Found (message d ∷ segs))
      (sym (scan-message n b d (tail_below b (message d) segs ring) ring.chain.0))
      (first b d segs ring refl (omega arith))
scan-Found (suc n) b (gap ∷ segs) ring small fuel =
    subst (Found (gap ∷ segs))
      (sym (
        scan-gap n b (tail_below b gap segs ring) ring.chain.0 ring.chain.1.0 ring.chain.1.1
          (omega (arith, tail_below b gap segs ring))))
      (found_after_gap segs (
        scan-Found n (skip_wrap b (b.tail_bytes + space_til_wrap b.tail_bytes)) segs
          (skip-IsRing b segs ring) small
          (omega (arith, tail_below b gap segs ring, size_at-pos b.tail_bytes gap))))
  where
    found_after_gap : (segs : List Segment) {r : Scanned} → Found segs r → Found (gap ∷ segs) r
    found_after_gap segs (nothing c ring e) = nothing c ring e
    found_after_gap segs (first c d rest ring e small) = first c d rest ring e small
