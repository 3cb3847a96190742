-- ===== src/Shm/Blocks.antt =====
-- eROIL/src/shm/shm_header.h, and how shm_recv.cpp creates, opens and initializes a block.
use netcomm.Prelude.{ℕ, ◌+◌, ◌%◌, ◌^◌, Bool, true, false, not, ◌||◌, ◌==◌, if◌then◌else◌}
use netcomm.Types.{Label, NodeId, magic_num, version, shm_block_size}
use netcomm.Memory.{Memory}
use netcomm.Shm.Layout.{data_block_size}

abbrev pub shm_initing : ℕ
shm_initing = 0

abbrev pub shm_ready : ℕ
shm_ready = 1

abbrev pub writing : ℕ
writing = 0

abbrev pub committed : ℕ
committed = 1

abbrev pub wrap : ℕ
wrap = 2

pub record RecordHeader : Type 0 where
  pub state : ℕ
  pub magic : ℕ
  pub flags : ℕ
  pub user_seq : ℕ
  pub total_size : ℕ
  pub payload_size : ℕ
  pub epoch : ℕ
  pub label : Label
  pub source_id : NodeId

-- The header of a block, its metadata, and its data.
pub record Block : Type 0 where
  pub magic : ℕ
  pub version : ℕ
  pub state : ℕ
  pub total_size : ℕ
  pub node_id : NodeId
  pub data_size : ℕ
  pub generation : ℕ
  pub head_bytes : ℕ
  pub tail_bytes : ℕ
  pub published_count : ℕ
  pub headers : ℕ → RecordHeader
  pub bytes : Memory

-- A header of zero bytes.
abbrev pub zero_header : RecordHeader
zero_header = record {
  state = 0;
  magic = 0;
  flags = 0;
  user_seq = 0;
  total_size = 0;
  payload_size = 0;
  epoch = 0;
  label = 0;
  source_id = 0;
}

unfoldable pub init_as_new : NodeId → Block → Block
init_as_new my_id b = record {
  magic = magic_num;
  version = version;
  state = shm_ready;
  total_size = shm_block_size;
  node_id = my_id;
  data_size = data_block_size;
  generation = 1;
  head_bytes = 0;
  tail_bytes = 0;
  published_count = 0;
  headers = λ o. zero_header;
  bytes = λ a. 0;
}

unfoldable pub reinit : NodeId → Block → Block
unfolding init_as_new
reinit my_id b =
    if not (b.magic == magic_num)
      || not (b.version == version)
      || not (b.total_size == shm_block_size)
    then init_as_new my_id b
    else record b {
      state = shm_ready;
      node_id = my_id;
      data_size = data_block_size;
      generation = (b.generation + 1) % 2 ^ 64;
      head_bytes = 0;
      tail_bytes = 0;
      published_count = 0;
    }

-- What the operating system says of creating a block, or of opening one.
pub data ShmErr : Type 0 where
  shm_none double_open invalid_name already_exists does_not_exist file_map_failed : ShmErr
  size_mismatch not_initialized shm_unknown too_large not_open duplicate_send_event : ShmErr
  add_send_event_error set_recv_event_error recv_failed would_block shm_invalid_offset : ShmErr

abbrev pub open_existing : NodeId → Block → ShmErr → Block × Bool
open_existing my_id b shm_none = (reinit my_id b, true)
open_existing my_id b e = (b, false)

unfoldable pub create_or_open : NodeId → Block → ShmErr → ShmErr → Block × Bool
unfolding reinit
create_or_open my_id b shm_none opened = (init_as_new my_id b, true)
create_or_open my_id b already_exists opened = open_existing my_id b opened
create_or_open my_id b created opened = (b, false)
