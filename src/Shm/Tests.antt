-- ===== src/Shm/Tests.antt =====
-- Examples of the theorems on a shared-memory block.
use netcomm.Prelude.{ℕ, refl, List, [], ◌∷◌, arith}
use netcomm.Shm.{Block, zero_header, shm_none, create_or_open, init_as_new, send, recv}
use netcomm.Shm.Contention.{Act, attempt, release, run}
use netcomm.Shm.Contention.Apart.{AllApart, run-AllApart}
use netcomm.Shm.Ring.{IsRing, message}
use netcomm.Shm.Writes.{published, sent, publish-IsRing}
use netcomm.Shm.Send.{Sent, send-Sent}
use netcomm.Shm.Recv.{Received, recv-Received}
use netcomm.Shm.Init.{create_or_open-IsRing}

-- A block of an earlier run, with a damaged header.
abbrev old_block : Block
old_block = record {
  magic = 1;
  version = 1;
  state = 1;
  total_size = 3;
  node_id = 5;
  data_size = 0;
  generation = 4;
  head_bytes = 77;
  tail_bytes = 900;
  published_count = 2;
  headers = λ o. zero_header;
  bytes = λ a. 9;
}

abbrev new_block : Block
new_block = (create_or_open 5 old_block shm_none shm_none).0

create_or_open_example : IsRing new_block []
unfolding create_or_open
create_or_open_example = create_or_open-IsRing 5 old_block shm_none shm_none refl

-- The new block is empty and ready.
start-IsRing : IsRing new_block []
unfolding create_or_open
start-IsRing = create_or_open-IsRing 5 old_block shm_none shm_none refl

abbrev payload : List ℕ
payload = 11 ∷ 12 ∷ 13 ∷ []

send_example : Sent new_block [] (sent 3 7 0 payload) (send new_block 3 7 0 payload)
unfolding create_or_open init_as_new
send_example =
    send-Sent new_block [] 3 7 0 payload start-IsRing (omega arith) (omega arith) (omega arith)

abbrev one_message : Block
one_message = published new_block 3 7 0 payload

one-IsRing : IsRing one_message (message (sent 3 7 0 payload) ∷ [])
unfolding create_or_open init_as_new
one-IsRing =
    publish-IsRing new_block [] 3 7 0 payload start-IsRing (omega arith) (omega arith) (omega arith)
      (omega arith)

recv_example : Received (message (sent 3 7 0 payload) ∷ []) 1024 (recv one_message 1024)
unfolding create_or_open init_as_new
recv_example =
    recv-Received one_message (message (sent 3 7 0 payload) ∷ []) 1024 one-IsRing (omega arith)

-- Two senders load the head 0; the second one finds that it has moved and loads it again. The
-- receiver takes the first region back before a third sender comes.
abbrev acts : List Act
acts = attempt 64 0 ∷ attempt 96 0 ∷ attempt 96 64 ∷ release ∷ attempt 56 160 ∷ []

run-AllApart_example : AllApart (run (record { block = new_block; held = [] }) acts).held
unfolding create_or_open init_as_new
run-AllApart_example = run-AllApart new_block acts refl (omega arith) (omega arith)
