-- ===== src/Shm/Writes.antt =====
-- The writes of ShmSend::send (shm_send.cpp) on a block that is a ring of records.
use native.Mathlib.Nat.{mod-eq_of_lt}
use netcomm.Prelude.{
  ℕ, ◌+◌, ◌-◌, ◌*◌, ◌%◌, ◌^◌, ◌≤◌, ◌<◌, ◌≡◌, ◌≢◌, subst, ◌∙◌, ◌⊎◌, inl, inr, List, [], ◌∷◌, ◌++◌,
  ◌==◌, if◌then◌else◌, length, spans_apart, ring_step, arith,
}
use netcomm.Types.{NodeId, Label}
use netcomm.Memory.{read_bytes_outside, read_bytes-write_bytes}
use netcomm.Shm.Layout.{data_block_size, data_usable_limit, get_header_offset, get_data_offset}
use netcomm.Shm.{
  Block, RecordHeader, ShmRecvData, wrap_header, data_header, space_til_wrap, reserved_size,
  put_header, publish, write_wrap,
}
use netcomm.Shm.Ring.{
  Segment, message, gap, size_at, IsRing, Holds, extend-Chain, header_apart, size_at-pos,
}

-- The block after a data record has been allocated and published at the head.
abbrev pub published : Block → NodeId → Label → ℕ → List ℕ → Block
published b id label seq buf =
    publish (record b { head_bytes = (b.head_bytes + reserved_size buf) % 2 ^ 64 }) b.head_bytes
      (data_header id label seq b.generation (reserved_size buf) (length buf)) buf

abbrev pub sent : NodeId → Label → ℕ → List ℕ → ShmRecvData
sent id label seq buf = record { source_id = id; label = label; user_seq = seq; buf = buf }

if_apart {ℓ} : {A : Type ℓ} (a c : ℕ) (x y : A) → a ≢ c → (if a == c then x else y) ≡ y
if_apart a c x y ne = ground arith

if_here {ℓ} : {A : Type ℓ} (a : ℕ) (x y : A) → (if a == a then x else y) ≡ x
if_here a x y = ground arith

-- A header write leaves the headers at other positions of the lap.
other_header :
    (b : Block) (h : RecordHeader) (p head : ℕ)
    → p < head
    → head < p + data_block_size
    → (put_header b head h).headers (get_header_offset p) ≡ b.headers (get_header_offset p)
other_header b h p head l lap =
    let e : p + (head - p) ≡ head = omega arith in
    let ne : get_header_offset head ≢ get_header_offset p =
      subst (λ x. get_header_offset x ≢ get_header_offset p) e
        (header_apart p (head - p) (omega arith) (omega arith)) in
    if_apart (get_header_offset head) (get_header_offset p) h (b.headers (get_header_offset p)) ne

wrap_kept :
    (b : Block) (p : ℕ) (t : Segment)
    → p + size_at p t ≤ b.head_bytes
    → b.head_bytes + space_til_wrap b.head_bytes ≤ p + data_block_size
    → Holds b p t
    → Holds (write_wrap b b.generation b.head_bytes) p t
wrap_kept b p (message d) l lap held = (
  other_header b (wrap_header b.generation (space_til_wrap b.head_bytes)) p b.head_bytes
        (omega (arith, size_at-pos p (message d))) (omega (arith, size_at-pos b.head_bytes gap))
      ∙ held.0,
  held.1,
)
wrap_kept b p gap l lap held = (
  other_header b (wrap_header b.generation (space_til_wrap b.head_bytes)) p b.head_bytes
        (omega (arith, size_at-pos p gap)) (omega (arith, size_at-pos b.head_bytes gap))
      ∙ held.0,
  held.1,
)

-- The payloads of two records within a lap do not meet.
payloads_apart :
    (p head t size n k : ℕ)
    → p % data_block_size + t ≤ data_usable_limit
    → head % data_block_size + size ≤ data_usable_limit
    → p + t ≤ head
    → head + size ≤ p + data_block_size
    → n + 48 ≤ t
    → k + 48 ≤ size
    → (get_data_offset p + n ≤ get_data_offset head)
      ⊎ (get_data_offset head + k ≤ get_data_offset p)
payloads_apart p head t size n k fp fh l lap hn hk = go (
    subst
      (λ x.
        (p % data_block_size + t ≤ x % data_block_size)
        ⊎ (x % data_block_size + size ≤ p % data_block_size))
      e
      (spans_apart data_block_size p t (head - p) size (omega arith) (omega arith) (omega arith)
        (omega arith)))
  where
    e : p + (head - p) ≡ head
    e = omega arith

    go :
        (p % data_block_size + t ≤ head % data_block_size)
          ⊎ (head % data_block_size + size ≤ p % data_block_size)
        → (get_data_offset p + n ≤ get_data_offset head)
          ⊎ (get_data_offset head + k ≤ get_data_offset p)
    go (inl a) = inl (omega arith)
    go (inr a) = inr (omega arith)

pub reserved-bound :
    (buf : List ℕ) → (length buf + 48 ≤ reserved_size buf) × (reserved_size buf % 8 ≡ 0)
reserved-bound buf = (omega arith, omega arith)

publish_kept :
    (b : Block) (id label seq : ℕ) (buf : List ℕ) (p : ℕ) (t : Segment)
    → b.head_bytes % data_block_size + reserved_size buf ≤ data_usable_limit
    → p + size_at p t ≤ b.head_bytes
    → b.head_bytes + reserved_size buf ≤ p + data_block_size
    → Holds b p t
    → Holds (published b id label seq buf) p t
publish_kept b id label seq buf p (message d) fits l lap held = (
  other_header b (data_header id label seq b.generation (reserved_size buf) (length buf)) p
        b.head_bytes (omega (arith, size_at-pos p (message d))) (omega (arith, reserved-bound buf))
      ∙ held.0,
  (
    read_bytes_outside b.bytes (get_data_offset b.head_bytes) buf (get_data_offset p) (length d.buf)
          (payloads_apart p b.head_bytes (reserved_size d.buf) (reserved_size buf) (length d.buf)
            (length buf) held.1.2 fits l lap (reserved-bound d.buf).0 (reserved-bound buf).0)
        ∙ held.1.0,
    held.1.1,
    held.1.2,
  ),
)
publish_kept b id label seq buf p gap fits l lap held = (
  other_header b (data_header id label seq b.generation (reserved_size buf) (length buf)) p
        b.head_bytes (omega (arith, size_at-pos p gap)) (omega (arith, reserved-bound buf))
      ∙ held.0,
  held.1,
)

-- The gap up to the next lap stays within one lap of the tail, since the tail is not past the limit.
pub gap-lap :
    (head tail size : ℕ)
    → tail ≤ head
    → tail % data_block_size ≤ data_usable_limit
    → head + size ≤ tail + data_block_size
    → data_usable_limit < head % data_block_size + size
    → head + space_til_wrap head ≤ tail + data_block_size
gap-lap head tail size le ok lap far = go (
    subst
      (λ x.
        ((tail % data_block_size + (head - tail) < data_block_size)
          × (x % data_block_size ≡ tail % data_block_size + (head - tail)))
        ⊎ ((data_block_size ≤ tail % data_block_size + (head - tail))
            × (x % data_block_size ≡ tail % data_block_size + (head - tail) - data_block_size)))
      e (ring_step data_block_size tail (head - tail) (omega arith) (omega arith)))
  where
    e : tail + (head - tail) ≡ head
    e = omega arith

    go :
        ((tail % data_block_size + (head - tail) < data_block_size)
            × (head % data_block_size ≡ tail % data_block_size + (head - tail)))
          ⊎ ((data_block_size ≤ tail % data_block_size + (head - tail))
              × (head % data_block_size ≡ tail % data_block_size + (head - tail) - data_block_size))
        → head + space_til_wrap head ≤ tail + data_block_size
    go (inl a) = omega arith
    go (inr a) = omega arith

pub next_lap : (head : ℕ) → (head + space_til_wrap head) % data_block_size ≡ 0
next_lap head = omega arith

-- A wrap record keeps the ring.
pub wrap-IsRing :
    (b : Block) (segs : List Segment)
    → IsRing b segs
    → b.head_bytes + 2 * data_block_size < 2 ^ 64
    → b.head_bytes + space_til_wrap b.head_bytes ≤ b.tail_bytes + data_block_size
    → IsRing (write_wrap b b.generation b.head_bytes) (segs ++ (gap ∷ []))
wrap-IsRing b segs ring small lap = record {
  ready = ring.ready;
  chain =
      extend-Chain b (write_wrap b b.generation b.head_bytes) gap b.tail_bytes segs (wrap_kept b)
        (
          if_here (get_header_offset b.head_bytes)
              (wrap_header b.generation (space_til_wrap b.head_bytes))
              (b.headers (get_header_offset b.head_bytes)),
          (ring.aligned, ring.head_ok),
        )
        (mod-eq_of_lt (omega arith)) ring.chain lap;
  lap = omega arith;
  head_ok = omega (arith, next_lap b.head_bytes);
  tail_ok = ring.tail_ok;
  aligned = omega arith;
}

-- A record published at the head keeps the ring, and its message is the last.
pub publish-IsRing :
    (b : Block) (segs : List Segment) (id label seq : ℕ) (buf : List ℕ)
    → IsRing b segs
    → 0 < length buf
    → b.head_bytes + reserved_size buf < 2 ^ 64
    → b.head_bytes % data_block_size + reserved_size buf ≤ data_usable_limit
    → b.head_bytes + reserved_size buf ≤ b.tail_bytes + data_block_size
    → IsRing (published b id label seq buf) (segs ++ (message (sent id label seq buf) ∷ []))
publish-IsRing b segs id label seq buf ring some_data small fits lap = record {
  ready = ring.ready;
  chain =
      extend-Chain b (published b id label seq buf) (message (sent id label seq buf)) b.tail_bytes
        segs (λ p t l q. publish_kept b id label seq buf p t fits l q)
        (
          if_here (get_header_offset b.head_bytes)
              (data_header id label seq b.generation (reserved_size buf) (length buf))
              (b.headers (get_header_offset b.head_bytes)),
          (read_bytes-write_bytes b.bytes (get_data_offset b.head_bytes) buf, some_data, fits),
        )
        (mod-eq_of_lt small) ring.chain lap;
  lap = omega (arith, mod-eq_of_lt small);
  head_ok = omega (
    arith,
    mod-eq_of_lt small,
    ring_step data_block_size b.head_bytes (reserved_size buf) (omega arith) (omega arith),
  );
  tail_ok = ring.tail_ok;
  aligned = omega (arith, mod-eq_of_lt small, reserved-bound buf);
}
