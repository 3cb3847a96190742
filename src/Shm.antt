-- ===== src/Shm.antt =====
-- eROIL/src/shm: the shared-memory block through which nodes of one machine send labels to a node
-- (shm_header.h, shm_send.cpp, shm_recv.cpp). One call of `send` or `recv` is a run without another
-- node in between. The record headers are a store by offset, and the payloads are byte memory; that
-- the bytes of live records do not meet is shown in Ring. Shm::map_to_type cannot fail at an offset
-- of the block, and the block is mapped.
mod Blocks
pub mod Layout
pub mod Ring
pub mod Writes
pub mod Alloc
pub mod Send
pub mod Scan
pub mod Recv
pub mod Init
pub mod Head
pub mod Mapping
pub mod Contention
pub mod RoundTrip
pub mod Tests
use netcomm.Prelude.{
  ℕ, zero, suc, ◌+◌, ◌-◌, ◌*◌, ◌/◌, ◌%◌, ◌^◌, Bool, true, false, not, ◌||◌, Option, none, some,
  List, [], ◌∷◌, ◌==◌, if◌then◌else◌, ltb, length,
}
use netcomm.Types.{Label, NodeId, magic_num, version, shm_block_size, invalid_node, invalid_label}
use netcomm.Memory.{Memory, write_bytes, read_bytes}
use Layout.{
  sizeof_record_header, data_block_size, data_usable_limit, align_up, get_header_offset,
  get_data_offset,
}
unfoldable pub use Blocks.*

pub data ShmSendErr : Type 0 where
  send_ok invalid_offset send_not_initialized block_reinitialized not_enough_space : ShmSendErr
  size_too_large could_not_allocate allocator_corrupted : ShmSendErr

pub data ShmRecvErr : Type 0 where
  recv_ok recv_not_initialized no_records not_yet_published tail_corruption : ShmRecvErr
  block_corrupted label_too_large unknown_error : ShmRecvErr

abbrev pub put_header : Block → ℕ → RecordHeader → Block
put_header b pos h = record b {
  headers = λ o. if get_header_offset pos == o then h else b.headers o;
}

abbrev pub wrap_header : ℕ → ℕ → RecordHeader
wrap_header gen space = record {
  state = wrap;
  magic = magic_num;
  flags = 0;
  user_seq = 0;
  total_size = space;
  payload_size = 0;
  epoch = gen;
  label = 0;
  source_id = 0;
}

abbrev pub space_til_wrap : ℕ → ℕ
space_til_wrap head = data_block_size - head % data_block_size

-- The wrap record: the head moves to the start of the next lap.
abbrev pub write_wrap : Block → ℕ → ℕ → Block
write_wrap b gen head =
    put_header (record b { head_bytes = (head + space_til_wrap head) % 2 ^ 64 }) head
      (wrap_header gen (space_til_wrap head))

-- How a round of the allocation loop ends: with a block and a head to try again, or with the
-- result, the block and the position allocated.
pub data Round : Type 0 where
  retry : Block → ℕ → Round
  ended : ShmSendErr × Block × ℕ → Round

-- A compare-and-exchange succeeds if the head is the one that was loaded.
unfoldable pub alloc_round : Block → ℕ → ℕ → ℕ → Round
alloc_round b gen reserved head =
    if ltb head b.tail_bytes
    then retry b b.head_bytes
    else if ltb data_block_size (head - b.tail_bytes + reserved)
    then ended (not_enough_space, b, head)
    else if ltb data_usable_limit (head % data_block_size)
    then ended (allocator_corrupted, b, head)
    else if ltb data_usable_limit (head % data_block_size + reserved)
    then (if b.head_bytes == head
        then retry (write_wrap b gen head) (head + space_til_wrap head)
        else retry b b.head_bytes)
    else if b.head_bytes == head
    then ended (send_ok, record b { head_bytes = (head + reserved) % 2 ^ 64 }, head)
    else retry b b.head_bytes

-- The loop, with the number of rounds that are left.
unfoldable pub allocate : ℕ → Block → ℕ → ℕ → ℕ → ShmSendErr × Block × ℕ
allocate zero b gen reserved head = (could_not_allocate, b, head)
allocate (suc tries) b gen reserved head = elim (alloc_round b gen reserved head) [
  | retry b' head' ↦ allocate tries b' gen reserved head'
  | ended r ↦ r
]

abbrev pub data_header : NodeId → Label → ℕ → ℕ → ℕ → ℕ → RecordHeader
data_header id label seq gen reserved size = record {
  state = committed;
  magic = magic_num;
  flags = 0;
  user_seq = seq;
  total_size = reserved;
  payload_size = size;
  epoch = gen;
  label = label;
  source_id = id;
}

-- The record written at its position, then published.
abbrev pub publish : Block → ℕ → RecordHeader → List ℕ → Block
publish b pos h buf = record (put_header b pos h) {
  bytes = write_bytes b.bytes (get_data_offset pos) buf;
  published_count = (b.published_count + 1) % 2 ^ 64;
}

abbrev pub finish_send :
    NodeId → Label → ℕ → List ℕ → ℕ → ℕ → ShmSendErr × Block × ℕ → ShmSendErr × Block
finish_send id label seq buf gen reserved (send_ok, b, pos) =
    if not (b.state == shm_ready) || not (b.generation == gen)
    then (block_reinitialized, b)
    else (send_ok, publish b pos (data_header id label seq gen reserved (length buf)) buf)
finish_send id label seq buf gen reserved (e, b, pos) = (e, b)

abbrev pub reserved_size : List ℕ → ℕ
reserved_size buf = align_up (length buf + sizeof_record_header) 8

unfoldable pub send : Block → NodeId → Label → ℕ → List ℕ → ShmSendErr × Block
send b id label seq buf =
    if not (b.state == shm_ready)
    then (send_not_initialized, b)
    else if ltb data_block_size (reserved_size buf)
    then (size_too_large, b)
    else finish_send id label seq buf b.generation (reserved_size buf)
        (allocate 100 b b.generation (reserved_size buf) b.head_bytes)

-- What `recv` hands out on success.
pub record ShmRecvData : Type 0 where
  pub source_id : NodeId
  pub label : Label
  pub user_seq : ℕ
  pub buf : List ℕ

unfoldable pub flush_backlog : Block → Block
flush_backlog b = record b { tail_bytes = b.head_bytes; published_count = 0 }

-- The checks on a record's sizes that both kinds of records share.
abbrev pub bad_size : RecordHeader → Bool
bad_size h =
    ltb h.total_size sizeof_record_header
    || not (h.total_size % 8 == 0)
    || ltb data_block_size h.total_size

-- Where the search for a committed record ends: with an error, or at a position.
pub data Scanned : Type 0 where
  stopped : ShmRecvErr → Block → Scanned
  found_at : ℕ → Block → Scanned

abbrev pub skip_wrap : Block → ℕ → Block
skip_wrap b tail = record b { tail_bytes = tail }

abbrev pub next_tail : Block → ℕ → ℕ
next_tail b tail = (tail + (b.headers (get_header_offset tail)).total_size) % 2 ^ 64

-- The search loop. A round of it moves the tail on by a record header at least, so there are fewer
-- rounds than bytes; a search without rounds left has not been reached.
unfoldable pub scan : ℕ → Block → ℕ → ℕ → Scanned
unfolding flush_backlog
scan zero b gen tail = stopped no_records b
scan (suc rounds) b gen tail =
    let h = b.headers (get_header_offset tail) in
    let rest = scan rounds (skip_wrap b (next_tail b tail)) gen (next_tail b tail) in
    if not (ltb tail b.head_bytes)
    then stopped no_records b
    else if h.state == writing
    then stopped not_yet_published b
    else if not (h.magic == magic_num)
    then stopped block_corrupted b
    else if not (h.epoch == gen)
    then stopped no_records (flush_backlog b)
    else if h.state == committed
    then found_at tail b
    else if h.state == wrap
    then (if bad_size h || not (h.payload_size == 0) then stopped block_corrupted b else rest)
    else stopped unknown_error b

abbrev pub out_data : Block → ℕ → ShmRecvData
out_data b tail =
    let h = b.headers (get_header_offset tail) in
    record {
      source_id = h.source_id;
      label = h.label;
      user_seq = h.user_seq;
      buf = read_bytes b.bytes (get_data_offset tail) h.payload_size;
    }

-- The tail after a read, and the count, which wraps below 0.
abbrev pub consume : Block → ℕ → Block
consume b tail = record b {
  tail_bytes = next_tail b tail;
  published_count = (b.published_count + (2 ^ 64 - 1)) % 2 ^ 64;
}

abbrev pub finish_recv : ℕ → Scanned → ShmRecvErr × Option ShmRecvData × Block
finish_recv max_size (stopped e b) = (e, none, b)
finish_recv max_size (found_at tail b) =
    let h = b.headers (get_header_offset tail) in
    if bad_size h || h.payload_size == 0
    then (block_corrupted, none, b)
    else if ltb max_size h.payload_size
    then (label_too_large, none, b)
    else (recv_ok, some (out_data b tail), consume b tail)

unfoldable pub recv : Block → ℕ → ShmRecvErr × Option ShmRecvData × Block
recv b max_size =
    if not (b.state == shm_ready)
    then (recv_not_initialized, none, b)
    else if b.head_bytes == b.tail_bytes
    then (no_records, none, b)
    else if ltb b.head_bytes b.tail_bytes
    then (tail_corruption, none, b)
    else finish_recv max_size (scan (suc (b.head_bytes - b.tail_bytes)) b b.generation b.tail_bytes)
