-- ===== src/Shm/Head.antt =====
-- Receiving never moves the head (shm_recv.cpp).
use netcomm.Prelude.{ℕ, zero, suc, ◌-◌, ◌≡◌, refl, arith}
use netcomm.Shm.{
  Block, Scanned, stopped, found_at, scan, flush_backlog, skip_wrap, next_tail, finish_recv, recv,
}

-- The block in which a search ends.
abbrev left_by : Scanned → Block
left_by (stopped e b) = b
left_by (found_at tail b) = b

scan-head :
    (rounds : ℕ) (b : Block) (gen tail : ℕ)
    → (left_by (scan rounds b gen tail)).head_bytes ≡ b.head_bytes
unfolding scan flush_backlog
scan-head zero b gen tail = refl
scan-head (suc rounds) b gen tail =
    ground (arith, scan-head rounds (skip_wrap b (next_tail b tail)) gen (next_tail b tail))

finish-head :
    (max_size : ℕ) (r : Scanned) → (finish_recv max_size r).2.head_bytes ≡ (left_by r).head_bytes
finish-head max_size (stopped e b) = refl
finish-head max_size (found_at tail b) = ground arith

pub recv-head : (b : Block) (max_size : ℕ) → (recv b max_size).2.head_bytes ≡ b.head_bytes
unfolding recv
recv-head b max_size = ground (
  arith,
  finish-head max_size (scan (suc (b.head_bytes - b.tail_bytes)) b b.generation b.tail_bytes),
  scan-head (suc (b.head_bytes - b.tail_bytes)) b b.generation b.tail_bytes,
)
