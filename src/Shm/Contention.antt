-- ===== src/Shm/Contention.antt =====
-- Several senders at one block (shm_send.cpp): each runs the rounds of its own allocation loop, with
-- the head that it loaded at some time before, in any order with the others and with the receiver.
-- A round is one step: it looks at the tail and exchanges the head if that is still the one loaded.
pub mod Apart
use native.Mathlib.Decide.{dec_lt}
use netcomm.Prelude.{
  ℕ, zero, suc, ◌+◌, ◌-◌, ◌*◌, ◌%◌, ◌^◌, ◌≤◌, ◌<◌, ◌≡◌, refl, sym, subst, ◌⊎◌, inl, inr, Bool, true,
  false, List, [], ◌∷◌, ◌++◌, ltb, ◌==◌, ==→≡, if◌then◌else◌, on_if, length, spans_apart, arith,
}
use netcomm.Shm.Layout.{data_block_size, data_usable_limit}
use netcomm.Shm.{
  Block, Round, retry, ended, ShmSendErr, send_ok, alloc_round, write_wrap, space_til_wrap,
}
use netcomm.Shm.Writes.{gap-lap}

-- A region of the ring that a sender was given: its position and its size.
abbrev pub Region : Type 0
Region = ℕ × ℕ

-- The block, and the regions given out that the receiver has not taken back, the oldest first.
pub record Contended : Type 0 where
  pub block : Block
  pub held : List Region

-- One round of some sender, which needs this much room and loaded this head; or the receiver moves
-- the tail past the oldest region.
pub data Act : Type 0 where
  attempt : ℕ → ℕ → Act
  release : Act

abbrev pub given : Contended → ℕ → ShmSendErr → Block → ℕ → Contended
given s size send_ok b pos = record { block = b; held = s.held ++ ((pos, size) ∷ []) }
given s size e b pos = record s { block = b }

abbrev pub after_round : Contended → ℕ → Round → Contended
after_round s size (retry b head) = record s { block = b }
after_round s size (ended (e, b, pos)) = given s size e b pos

abbrev pub released : Contended → List Region → Contended
released s [] = s
released s ((p, n) ∷ rest) = record {
  block = record (s.block) { tail_bytes = (p + n) % 2 ^ 64 };
  held = rest;
}

unfoldable pub act : Contended → Act → Contended
unfolding alloc_round
act s (attempt size head) = after_round s size (alloc_round s.block s.block.generation size head)
act s release = released s s.held

unfoldable pub run : Contended → List Act → Contended
unfolding act
run s [] = s
run s (a ∷ acts) = run (act s a) acts
