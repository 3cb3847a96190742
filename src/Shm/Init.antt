-- ===== src/Shm/Init.antt =====
-- Setting a shared-memory block up (shm_recv.cpp: create_or_open, init_as_new, reinit,
-- flush_backlog).
use netcomm.Prelude.{◌≡◌, refl, true, List, [], arith}
use netcomm.Types.{NodeId}
use netcomm.Shm.{
  Block, ShmErr, shm_none, already_exists, double_open, invalid_name, does_not_exist,
  file_map_failed, size_mismatch, not_initialized, shm_unknown, too_large, not_open,
  duplicate_send_event, add_send_event_error, set_recv_event_error, recv_failed, would_block,
  shm_invalid_offset, create_or_open, open_existing, init_as_new, reinit, flush_backlog, shm_ready,
}
use netcomm.Shm.Ring.{Segment, IsRing}

-- A block is ready and both counters are 0.
empty-IsRing : (b : Block) → b.state ≡ shm_ready → b.head_bytes ≡ 0 → b.tail_bytes ≡ 0 → IsRing b []
empty-IsRing b ready h t = record {
  ready = ready;
  chain = omega arith;
  lap = omega arith;
  head_ok = rw h (omega arith);
  tail_ok = rw t (omega arith);
  aligned = rw h (omega arith);
}

init_as_new-IsRing : (my_id : NodeId) (b : Block) → IsRing (init_as_new my_id b) []
unfolding init_as_new
init_as_new-IsRing my_id b = empty-IsRing (init_as_new my_id b) refl refl refl

-- Whatever is in a block, even a header that is damaged or records of an earlier run, after
-- re-initialisation it is an empty ring.
pub reinit-IsRing : (my_id : NodeId) (b : Block) → IsRing (reinit my_id b) []
unfolding reinit
reinit-IsRing my_id b = empty-IsRing (reinit my_id b) (ground arith) (ground arith) (ground arith)

opened-IsRing :
    (my_id : NodeId) (b : Block) (opened : ShmErr)
    → (open_existing my_id b opened).1 ≡ true
    → IsRing (open_existing my_id b opened).0 []
opened-IsRing my_id b shm_none ok = reinit-IsRing my_id b
opened-IsRing my_id b already_exists ok = cc
opened-IsRing my_id b double_open ok = cc
opened-IsRing my_id b invalid_name ok = cc
opened-IsRing my_id b does_not_exist ok = cc
opened-IsRing my_id b file_map_failed ok = cc
opened-IsRing my_id b size_mismatch ok = cc
opened-IsRing my_id b not_initialized ok = cc
opened-IsRing my_id b shm_unknown ok = cc
opened-IsRing my_id b too_large ok = cc
opened-IsRing my_id b not_open ok = cc
opened-IsRing my_id b duplicate_send_event ok = cc
opened-IsRing my_id b add_send_event_error ok = cc
opened-IsRing my_id b set_recv_event_error ok = cc
opened-IsRing my_id b recv_failed ok = cc
opened-IsRing my_id b would_block ok = cc
opened-IsRing my_id b shm_invalid_offset ok = cc

-- Opening the receive block, if it succeeds, gives an empty ring, whether the block was created or
-- was there before and whatever it held.
pub create_or_open-IsRing :
    (my_id : NodeId) (b : Block) (created opened : ShmErr)
    → (create_or_open my_id b created opened).1 ≡ true
    → IsRing (create_or_open my_id b created opened).0 []
unfolding create_or_open
create_or_open-IsRing my_id b shm_none opened ok = init_as_new-IsRing my_id b
create_or_open-IsRing my_id b already_exists opened ok = opened-IsRing my_id b opened ok
create_or_open-IsRing my_id b double_open opened ok = cc
create_or_open-IsRing my_id b invalid_name opened ok = cc
create_or_open-IsRing my_id b does_not_exist opened ok = cc
create_or_open-IsRing my_id b file_map_failed opened ok = cc
create_or_open-IsRing my_id b size_mismatch opened ok = cc
create_or_open-IsRing my_id b not_initialized opened ok = cc
create_or_open-IsRing my_id b shm_unknown opened ok = cc
create_or_open-IsRing my_id b too_large opened ok = cc
create_or_open-IsRing my_id b not_open opened ok = cc
create_or_open-IsRing my_id b duplicate_send_event opened ok = cc
create_or_open-IsRing my_id b add_send_event_error opened ok = cc
create_or_open-IsRing my_id b set_recv_event_error opened ok = cc
create_or_open-IsRing my_id b recv_failed opened ok = cc
create_or_open-IsRing my_id b would_block opened ok = cc
create_or_open-IsRing my_id b shm_invalid_offset opened ok = cc

-- Flushing the backlog of a ring of records leaves an empty ring: every record is taken off.
pub flush_backlog-IsRing :
    (b : Block) (segs : List Segment) → IsRing b segs → IsRing (flush_backlog b) []
unfolding flush_backlog
flush_backlog-IsRing b segs ring = record {
  ready = ring.ready;
  chain = refl;
  lap = omega arith;
  head_ok = ring.head_ok;
  tail_ok = ring.head_ok;
  aligned = ring.aligned;
}
