-- ===== src/Workers/Draining.antt =====
-- The worker empties a block (shm_recv_worker.cpp: get_next_record and the inner loop of run).
use netcomm.Prelude.{
  ℕ, zero, suc, ◌+◌, ◌^◌, ◌≤◌, ◌<◌, ◌≡◌, refl, sym, ap, ◌∙◌, subst, true, false, Option, none, some,
  List, [], ◌∷◌, length, length-append, ltb, is_some, arith,
}
use netcomm.Types.{NodeId, sizeof_label_header}
use netcomm.Memory.{write_bytes, read_bytes}
use netcomm.Wire.{read_header, header_bytes}
use netcomm.Wire.RoundTrip.{length-header_bytes}
use netcomm.Shm.{Block, ShmRecvErr, ShmRecvData, recv_ok, no_records, recv}
use netcomm.Shm.Layout.{data_block_size}
use netcomm.Shm.Ring.{Segment, messages, IsRing}
use netcomm.Shm.Recv.{Received, none_left, got, stuck, recv-Received}
use netcomm.Shm.Head.{recv-head}
use netcomm.Workers.{distributed, announced}
use netcomm.Workers.ShmRecv.{
  Others, nothing_more, max_timeout_ms, get_next_record, ShmWorker, recv_buf_size, with_header,
  take_record, after_next, drain,
}
use netcomm.Workers.Delivery.{
  Frame, Good, frame_bytes, carried, Carries, deliver_each, read_header-buffered,
  announced-buffered,
}

-- If at some call an unpublished record has been waited for longer than the timeout, the worker
-- stops waiting at that call at the latest, whatever the other nodes do.
pub get_next_record_returns :
    (others : Others) (id : NodeId) (max_size n i : ℕ) (b : Block)
    → max_timeout_ms < others.elapsed (i + n)
    → is_some (get_next_record (suc n) others id max_size i b) ≡ true
unfolding get_next_record
get_next_record_returns others id max_size zero i b late =
    let now_late : max_timeout_ms < others.elapsed i =
      subst (λ x. max_timeout_ms < others.elapsed x) (omega arith) late in
    ground (arith, now_late)
get_next_record_returns others id max_size (suc n) i b late =
    let later : max_timeout_ms < others.elapsed (suc i + n) =
      subst (λ x. max_timeout_ms < others.elapsed x) (omega arith) late in
    ground (
      arith,
      get_next_record_returns others id max_size n (suc i) (recv (others.act i b) max_size).2 later,
    )

-- No other node acts.
abbrev pub alone : Others
alone = record { act = λ i b. b; elapsed = λ i. 0 }

module _ (spins : ℕ) (id : NodeId) (max_size : ℕ) (b c : Block) where
  next_none :
      recv b max_size ≡ (no_records, none, c)
      → get_next_record (suc spins) alone id max_size 0 b ≡ some (nothing_more c)
  unfolding get_next_record
  next_none h = ground (arith, h)

  next_got :
      (d : ShmRecvData)
      → recv b max_size ≡ (recv_ok, some d, c)
      → get_next_record (suc spins) alone id max_size 0 b
        ≡ some (record { found = some d; block = c; stop = false })
  unfolding get_next_record
  next_got d h = ground (arith, h)

-- The worker after a good frame was taken in.
abbrev taken : ShmWorker → ℕ × ℕ → Frame → ShmWorker
taken w now f = record w {
  recv_buf = write_bytes w.recv_buf 0 (frame_bytes f);
  target = distributed w.target (carried f) now;
}

-- A record with a good frame is distributed, and the loop goes on.
module _ (w : ShmWorker) (now : ℕ × ℕ) (f : Frame) (good : Good f) where
  abbrev filled : ShmWorker
  filled = record w { recv_buf = write_bytes w.recv_buf 0 (frame_bytes f) }

  long_enough : ltb (length (frame_bytes f)) sizeof_label_header ≡ false
  unfolding frame_bytes
  long_enough = ground (
    arith,
    length-append (header_bytes f.padding f.header) f.body,
    length-header_bytes f.padding f.header,
  )

  good_header : with_header filled now (length (frame_bytes f)) f.header ≡ (
    record filled {
      target = distributed w.target (announced f.header filled.recv_buf sizeof_label_header) now;
    },
    true,
  )
  good_header = ground (arith, long_enough, good.magic, good.version_is, good.small)

  take_good :
      (d : ShmRecvData) → d.buf ≡ frame_bytes f → take_record w now d ≡ (taken w now f, true)
  unfolding take_record
  take_good d e =
      ap
        (λ buf.
          with_header (record w { recv_buf = write_bytes w.recv_buf 0 buf }) now (length buf)
            (read_header (read_bytes (write_bytes w.recv_buf 0 buf) 0 sizeof_label_header)))
        e
      ∙ ap (with_header filled now (length (frame_bytes f)))
          (read_header-buffered w.recv_buf f good)
      ∙ good_header
      ∙ ap (λ msg. (record filled { target = distributed w.target msg now }, true))
          (announced-buffered w.recv_buf f good)

-- How the loop ends on a ring of good frames.
abbrev pub Emptied : (ℕ → ℕ × ℕ) → ℕ → ShmWorker → List Frame → Option ShmWorker → Type 0
Emptied now j w frames r =
    (w' : ShmWorker) × (r ≡ some w')
    × IsRing w'.block []
    × (w'.target ≡ deliver_each now j w.target frames)
    × (w'.stop ≡ w.stop)

module _ (spins : ℕ) (id : NodeId) (now : ℕ → ℕ × ℕ) where
  abbrev from : ℕ → ℕ → ShmWorker → Option ShmWorker
  from fuel j w = drain fuel (suc spins) (λ i. alone) id now j w

  drain_done :
      (fuel j : ℕ) (w : ShmWorker) (c : Block)
      → recv w.block recv_buf_size ≡ (no_records, none, c)
      → from (suc fuel) j w ≡ some (after_next w (nothing_more c))
  unfolding drain
  drain_done fuel j w c h = ground (arith, next_none spins id recv_buf_size w.block c h)

  drain_one :
      (fuel j : ℕ) (w : ShmWorker) (c : Block) (d : ShmRecvData) (f : Frame)
      → recv w.block recv_buf_size ≡ (recv_ok, some d, c)
      → d.buf ≡ frame_bytes f
      → Good f
      → from (suc fuel) j w ≡ from fuel (suc j) (taken (record w { block = c }) (now j) f)
  unfolding drain
  drain_one fuel j w c d f h e good = ground (
    arith,
    next_got spins id recv_buf_size w.block c d h,
    take_good (record w { block = c }) (now j) f good d e,
  )

  frame_fits :
      (d : ShmRecvData) (f : Frame) → d.buf ≡ frame_bytes f → Good f → length d.buf ≤ recv_buf_size
  unfolding frame_bytes
  frame_fits d f e good = ground (
    arith,
    e,
    good.sized,
    good.small,
    length-append (header_bytes f.padding f.header) f.body,
    length-header_bytes f.padding f.header,
  )

  drain_from :
      (frames : List Frame) (fuel j : ℕ) (w : ShmWorker) (segs : List Segment)
      (r : ShmRecvErr × Option ShmRecvData × Block)
      → Carries (messages segs) frames
      → w.block.head_bytes + data_block_size < 2 ^ 64
      → length frames < fuel
      → recv w.block recv_buf_size ≡ r
      → Received segs recv_buf_size r
      → Emptied now j w frames (from fuel j w)
  unfolding deliver_each
  drain_from frames zero j w segs r carries small enough h rec = absurd (omega arith)
  drain_from [] (suc fuel) j w segs _ carries small enough h (none_left c e ring) =
      (after_next w (nothing_more c), drain_done fuel j w c h, ring, refl, refl)
  drain_from [] (suc fuel) j w segs _ carries small enough h (got c d rest e fits ring) =
      absurd (subst (λ ms. Carries ms []) e carries)
  drain_from [] (suc fuel) j w segs _ carries small enough h (stuck c d rest e large ring) =
      absurd (subst (λ ms. Carries ms []) e carries)
  drain_from (f ∷ fs) (suc fuel) j w segs _ carries small enough h (none_left c e ring) =
      absurd (subst (λ ms. Carries ms (f ∷ fs)) e carries)
  drain_from (f ∷ fs) (suc fuel) j w segs _ carries small enough h (stuck c d rest e large ring) =
      let (buf_is, good, others) = subst (λ ms. Carries ms (f ∷ fs)) e carries in
      absurd (omega (arith, frame_fits d f buf_is good))
  drain_from (f ∷ fs) (suc fuel) j w segs _ carries small enough h (got c d rest e fits ring) =
      let (buf_is, good, others) = subst (λ ms. Carries ms (f ∷ fs)) e carries in
      let w1 = taken (record w { block = c }) (now j) f in
      let head_is : c.head_bytes ≡ w.block.head_bytes =
        sym (ap (λ x. x.2.head_bytes) h) ∙ recv-head w.block recv_buf_size in
      let low : c.head_bytes + data_block_size < 2 ^ 64 = omega (arith, head_is) in
      let (w', q, done, target, stop) =
        drain_from fs fuel (suc j) w1 rest (recv c recv_buf_size) others low (omega arith) refl
          (recv-Received c rest recv_buf_size ring low) in
      (w', drain_one fuel j w c d f h buf_is good ∙ q, done, target, stop)

-- On a block whose messages are frames of this version that fit a label, and that no other node
-- touches meanwhile, the worker's loop returns, within one turn for each message and one more: it
-- has distributed every message, each once and in the order in which they were sent, with its
-- header's source, label and offset and exactly its data, and the block is empty.
pub drain_all :
    (spins : ℕ) (id : NodeId) (now : ℕ → ℕ × ℕ) (frames : List Frame) (fuel : ℕ) (w : ShmWorker)
    (segs : List Segment)
    → IsRing w.block segs
    → w.block.head_bytes + data_block_size < 2 ^ 64
    → Carries (messages segs) frames
    → length frames < fuel
    → Emptied now 0 w frames (drain fuel (suc spins) (λ i. alone) id now 0 w)
drain_all spins id now frames fuel w segs ring small carries enough =
    drain_from spins id now frames fuel 0 w segs (recv w.block recv_buf_size) carries small enough
      refl (recv-Received w.block segs recv_buf_size ring small)
