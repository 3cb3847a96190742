-- ===== src/Workers/Tests/OverShm.antt =====
-- Examples of the theorems on the worker of shared memory.
use netcomm.Prelude.{◌+◌, ◌*◌, ◌^◌, ◌<◌, ◌≡◌, refl, true, false, some, is_some, [], ◌∷◌, arith}
use netcomm.Memory.{read_bytes}
use netcomm.Wire.{header_bytes, le_bytes, copy_into}
use netcomm.Jobs.{send_buf}
use netcomm.Manager.SendLabel.{filled_buf}
use netcomm.Shm.{
  Block, zero_header, shm_none, create_or_open, init_as_new, send, allocate, alloc_round,
}
use netcomm.Shm.Layout.{data_block_size}
use netcomm.Shm.Ring.{IsRing, message}
use netcomm.Shm.Writes.{published, sent, publish-IsRing}
use netcomm.Shm.Init.{create_or_open-IsRing}
use netcomm.Workers.{distributed}
use netcomm.Workers.Plans.{shm_send_one}
use netcomm.Workers.ShmRecv.{Others, ShmWorker, get_next_record, drain}
use netcomm.Workers.Draining.{alone, Emptied, get_next_record_returns, drain_all}
use netcomm.Workers.Delivery.{Frame, Good, frame_bytes}
use netcomm.Workers.EndToEnd.{label_frame, label_message, label_over_shm}
use netcomm.Workers.Tests.{sender, handle, args, gaps, memory, job, target}

abbrev slow : Others
slow = record { act = λ i b. b; elapsed = λ i. 20 * i }

abbrev empty_block : Block
empty_block = record {
  magic = 0;
  version = 0;
  state = 0;
  total_size = 0;
  node_id = 0;
  data_size = 0;
  generation = 0;
  head_bytes = 0;
  tail_bytes = 0;
  published_count = 0;
  headers = λ o. zero_header;
  bytes = λ a. 0;
}

-- A block as the node makes it, and its worker.
abbrev new_block : Block
new_block = (create_or_open 5 empty_block shm_none shm_none).0

start-IsRing : IsRing new_block []
unfolding create_or_open
start-IsRing = create_or_open-IsRing 5 empty_block shm_none shm_none refl

get_next_record_example : is_some (get_next_record 4 slow 5 1024 0 new_block) ≡ true
get_next_record_example = get_next_record_returns slow 5 1024 3 0 new_block (omega arith)

abbrev shm_worker : ShmWorker
shm_worker = record { stop = false; block = new_block; recv_buf = λ a. 0; target = target }

-- A frame of this version, and a block that holds it.
abbrev frame : Frame
frame = label_frame sender gaps memory handle args

frame-Good : Good frame
unfolding read_bytes
frame-Good = record {
  in_range = record {
    magic = omega arith;
    version = omega arith;
    source_id = omega arith;
    flags = omega arith;
    label = omega arith;
    label_size = omega arith;
    recv_offset = omega arith;
  };
  magic = refl;
  version_is = refl;
  sized = refl;
  small = omega arith;
}

abbrev holding : Block
holding = published new_block 1 7 3 (frame_bytes frame)

holding-IsRing : IsRing holding (message (sent 1 7 3 (frame_bytes frame)) ∷ [])
unfolding create_or_open init_as_new frame_bytes header_bytes le_bytes read_bytes
holding-IsRing =
    publish-IsRing new_block [] 1 7 3 (frame_bytes frame) start-IsRing (omega arith) (omega arith)
      (omega arith) (omega arith)

drain_all_example :
    Emptied
      (λ i. (0, 0))
      0
      (record shm_worker { block = holding })
      (frame ∷ [])
      (drain 2 2 (λ i. alone) 5 (λ i. (0, 0)) 0 (record shm_worker { block = holding }))
unfolding create_or_open init_as_new frame_bytes header_bytes le_bytes read_bytes
drain_all_example =
    drain_all 1 5 (λ i. (0, 0)) (frame ∷ []) 2 (record shm_worker { block = holding })
      (message (sent 1 7 3 (frame_bytes frame)) ∷ []) holding-IsRing (omega arith)
      (refl, frame-Good, tt) (omega arith)

space_left : (shm_send_one new_block job).0 ≡ true
unfolding create_or_open init_as_new send allocate alloc_round shm_send_one filled_buf send_buf
    copy_into header_bytes le_bytes read_bytes
space_left = refl

small_head : (shm_send_one new_block job).1.head_bytes + data_block_size < 2 ^ 64
unfolding create_or_open init_as_new send allocate alloc_round shm_send_one filled_buf send_buf
    copy_into header_bytes le_bytes read_bytes
small_head = omega arith

label_over_shm_example :
    (w' : ShmWorker) × (drain 2 2
        (λ i. alone)
        5
        (λ i. (0, 0))
        0
        (record shm_worker { block = (shm_send_one new_block job).1 })
      ≡ some w')
    × IsRing w'.block []
    × (w'.target ≡ distributed target (label_message sender memory handle args) (0, 0))
unfolding create_or_open init_as_new
label_over_shm_example =
    label_over_shm sender gaps memory handle args (omega arith) (omega arith) (omega arith)
      (omega arith) job refl shm_worker [] 1 2 (λ i. (0, 0)) 5 start-IsRing refl (omega arith)
      space_left small_head (omega arith)
