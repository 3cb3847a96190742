-- ===== src/Shm/Recv.antt =====
-- ShmRecv::recv (shm_recv.cpp) as the dequeue operation of a bounded queue of messages.
use native.Mathlib.Nat.{mod-eq_of_lt}
use native.Mathlib.Decide.{dec_lt}
use netcomm.Prelude.{
  Option, none, some, ℕ, suc, ◌+◌, ◌-◌, ◌%◌, ◌^◌, ◌≤◌, ◌<◌, ◌≡◌, refl, ap, sym, subst, ◌∙◌, false,
  List, [], ◌∷◌, length, ring_step, arith,
}
use netcomm.Memory.{read_bytes}
use netcomm.Shm.Layout.{data_block_size, get_header_offset, get_data_offset}
use netcomm.Shm.{
  Block, RecordHeader, ShmRecvData, reserved_size, shm_ready, ShmRecvErr, recv_ok, no_records,
  label_too_large, Scanned, found_at, scan, next_tail, out_data, finish_recv, recv, bad_size,
}
use netcomm.Shm.Writes.{reserved-bound}
use netcomm.Shm.Ring.{Segment, message, messages, header_of, IsRing, Chain-le}
use netcomm.Shm.Scan.{Found, nothing, first, tail_below, Chain-tail, scan-Found}

-- The block after the message at the tail was read.
after_read : Block → ShmRecvData → Block
after_read b d = record b {
  tail_bytes = b.tail_bytes + reserved_size d.buf;
  published_count = (b.published_count + (2 ^ 64 - 1)) % 2 ^ 64;
}

after_read-IsRing :
    (b : Block) (d : ShmRecvData) (segs : List Segment)
    → IsRing b (message d ∷ segs)
    → IsRing (after_read b d) segs
unfolding after_read
after_read-IsRing b d segs ring = record {
  ready = ring.ready;
  chain =
      Chain-tail b (b.tail_bytes + reserved_size d.buf)
        ((b.published_count + (2 ^ 64 - 1)) % 2 ^ 64) (b.tail_bytes + reserved_size d.buf) segs
        ring.chain.2;
  lap = omega (arith, ring.lap);
  head_ok = ring.head_ok;
  tail_ok = omega (
    arith,
    ring.chain.1.2,
    ring_step data_block_size b.tail_bytes (reserved_size d.buf) (omega arith)
        (omega (arith, ring.chain.1.2)),
  );
  aligned = ring.aligned;
}

-- What the checks of `recv` see of a message at the tail.
record AtTail (b : Block) (d : ShmRecvData) : Type 0 where
  good_size : bad_size (b.headers (get_header_offset b.tail_bytes)) ≡ false
  payload : (b.headers (get_header_offset b.tail_bytes)).payload_size ≡ length d.buf
  some_data : 0 < length d.buf
  out : out_data b b.tail_bytes ≡ d
  next : b.head_bytes < 2 ^ 64 → next_tail b b.tail_bytes ≡ b.tail_bytes + reserved_size d.buf

sizes_ok :
    (d : ShmRecvData) (gen pos : ℕ)
    → reserved_size d.buf ≤ data_block_size
    → bad_size (header_of gen pos (message d)) ≡ false
sizes_ok d gen pos le = ground (arith, reserved-bound d.buf)

-- The message that a header at the tail stands for.
abbrev read_out : Block → RecordHeader → ShmRecvData
read_out b h = record {
  source_id = h.source_id;
  label = h.label;
  user_seq = h.user_seq;
  buf = read_bytes b.bytes (get_data_offset b.tail_bytes) h.payload_size;
}

at_tail :
    (b : Block) (d : ShmRecvData) (segs : List Segment) → IsRing b (message d ∷ segs) → AtTail b d
at_tail b d segs ring =
    let h = ring.chain.0 in
    record {
      good_size = rw h (sizes_ok d b.generation b.tail_bytes (omega (arith, ring.chain.1.2)));
      payload = ap (λ x. x.payload_size) h;
      some_data = ring.chain.1.1;
      out = ap (read_out b) h ∙ ap (λ x. record d { buf = x }) ring.chain.1.0;
      next = λ small.
          ap (λ x. (b.tail_bytes + x.total_size) % 2 ^ 64) h
          ∙ mod-eq_of_lt
              (omega (arith, Chain-le b (b.tail_bytes + reserved_size d.buf) segs ring.chain.2));
    }

finish-first :
    (b : Block) (d : ShmRecvData) (segs : List Segment) (max_size : ℕ)
    → IsRing b (message d ∷ segs)
    → b.head_bytes < 2 ^ 64
    → length d.buf ≤ max_size
    → finish_recv max_size (found_at b.tail_bytes b) ≡ (recv_ok, some d, after_read b d)
unfolding after_read
finish-first b d segs max_size ring small le =
    let at = at_tail b d segs ring in
    ground (arith, at.good_size, at.payload, at.some_data, at.out, at.next small)

finish-large :
    (b : Block) (d : ShmRecvData) (segs : List Segment) (max_size : ℕ)
    → IsRing b (message d ∷ segs)
    → max_size < length d.buf
    → finish_recv max_size (found_at b.tail_bytes b) ≡ (label_too_large, none, b)
finish-large b d segs max_size ring gt =
    let at = at_tail b d segs ring in ground (arith, at.good_size, at.payload, at.some_data)

-- How a receive ends on a ring.
pub data Received (segs : List Segment) (max_size : ℕ)
    : ShmRecvErr × Option ShmRecvData × Block → Type 0 where
  none_left :
      (c : Block) → messages segs ≡ [] → IsRing c [] → Received segs max_size (no_records, none, c)
  got :
      (c : Block) (d : ShmRecvData) (rest : List Segment)
      → messages segs ≡ d ∷ messages rest
      → length d.buf ≤ max_size
      → IsRing c rest
      → Received segs max_size (recv_ok, some d, c)
  stuck :
      (c : Block) (d : ShmRecvData) (rest : List Segment)
      → messages segs ≡ d ∷ messages rest
      → max_size < length d.buf
      → IsRing c (message d ∷ rest)
      → Received segs max_size (label_too_large, none, c)

finish-Received :
    (segs : List Segment) (max_size : ℕ) (r : Scanned)
    → Found segs r
    → Received segs max_size (finish_recv max_size r)
finish-Received segs max_size r (nothing c ring e) = none_left c e ring
finish-Received segs max_size r (first c d rest ring e small) =
    elim (dec_lt max_size (length d.buf)) [
      | yes large ↦
          subst (Received segs max_size) (sym (finish-large c d rest max_size ring large))
            (stuck c d rest e large ring)
      | no fits ↦
          subst (Received segs max_size)
            (sym (finish-first c d rest max_size ring small (omega arith)))
            (got (after_read c d) d rest e (omega arith) (after_read-IsRing c d rest ring))
    ]

open_empty :
    (b : Block) (max_size : ℕ)
    → b.state ≡ shm_ready
    → b.tail_bytes ≡ b.head_bytes
    → recv b max_size ≡ (no_records, none, b)
unfolding recv
open_empty b max_size ready e = ground arith

recv_opened :
    (b : Block) (max_size : ℕ)
    → b.state ≡ shm_ready
    → b.tail_bytes < b.head_bytes
    → recv b max_size
      ≡ finish_recv max_size (scan (suc (b.head_bytes - b.tail_bytes)) b b.generation b.tail_bytes)
unfolding recv
recv_opened b max_size ready l = ground arith

-- Receiving from a block that holds a ring of records, with its counters a lap below overflow, gives
-- the oldest message and takes it off, or finds no message if none waits; a message larger than the
-- caller's buffer stays the oldest.
pub recv-Received :
    (b : Block) (segs : List Segment) (max_size : ℕ)
    → IsRing b segs
    → b.head_bytes + data_block_size < 2 ^ 64
    → Received segs max_size (recv b max_size)
recv-Received b [] max_size ring small =
    subst (Received [] max_size) (sym (open_empty b max_size ring.ready ring.chain))
      (none_left b refl ring)
recv-Received b (s ∷ segs) max_size ring small =
    subst (Received (s ∷ segs) max_size)
      (sym (recv_opened b max_size ring.ready (tail_below b s segs ring)))
      (finish-Received (s ∷ segs) max_size
        (scan (suc (b.head_bytes - b.tail_bytes)) b b.generation b.tail_bytes)
        (scan-Found (suc (b.head_bytes - b.tail_bytes)) b (s ∷ segs) ring small (omega arith)))
