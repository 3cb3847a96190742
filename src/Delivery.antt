-- ===== src/Delivery.antt =====
-- The receive half of eROIL/src/comm/write_iosb.h, the subscriber loop of
-- Router::distribute_recvd_label (router.cpp), and the operations on an open receive handle
-- (root.cpp). A client's buffers are byte memory; its status blocks are writes, a pair of the index
-- and the block, as in Jobs.
pub mod Slots
pub mod Queue
pub mod Bounds
pub mod Tests
use netcomm.Prelude.{
  ℕ, ◌+◌, ◌-◌, ◌*◌, ◌/◌, ◌%◌, ◌^◌, Bool, true, false, not, ◌||◌, Option, none, some, List, [], ◌∷◌,
  ◌==◌, if◌then◌else◌, ltb, length, is_empty,
}
use netcomm.Types.{
  Label, NodeId, RecvHandle, OpenReceiveData, SignalMode, overwrite, buffer_full, every_message,
  signal_all_write_all,
}
use netcomm.Types.Words.{inc32}
use netcomm.Memory.{Memory, write_bytes}
use netcomm.Jobs.{FcHeader}

-- `msg_size` is in words, in a bit field of 24 bits; the slot's bit field has 16 bits.
pub record ReceiveIosb : Type 0 where
  pub status : ℕ
  pub header_valid : ℕ
  pub action : ℕ
  pub msg_size : ℕ
  pub message_slot : ℕ
  pub label : Label
  pub msg_addr : ℕ
  pub time_stamp : ℕ × ℕ
  pub fc_header : FcHeader

-- A message that has arrived.
pub record Message : Type 0 where
  pub source_id : NodeId
  pub label : Label
  pub bytes : List ℕ
  pub recv_offset : ℕ

-- What a delivery leaves: the handle, the memory, the status block written, the semaphore
-- signalled (0 for none, as a null semaphore is not signalled either).
pub record Delivered : Type 0 where
  pub handle : RecvHandle
  pub memory : Memory
  pub iosb : Option (ℕ × ReceiveIosb)
  pub signalled : ℕ

unfoldable pub write_recv_iosb :
    RecvHandle → Message → ℕ → ℕ → ℕ × ℕ → RecvHandle × Option (ℕ × ReceiveIosb)
write_recv_iosb h msg slot dst now =
    if h.info.iosb == 0 || h.info.num_iosb == 0 then (h, none) else (
      record h {
        info = record (h.info) { iosb_index = (h.info.iosb_index + 1) % h.info.num_iosb };
      },
      some (
        h.info.iosb_index,
        record {
          status = 0;
          header_valid = 1;
          action = 1;
          msg_size = (length msg.bytes / 4) % 2 ^ 24;
          message_slot = slot % 2 ^ 16;
          label = msg.label;
          msg_addr = dst;
          time_stamp = now;
          fc_header = record {
            source_id = msg.source_id % 2 ^ 24;
            destination_id = msg.label % 2 ^ 24;
            parameter = msg.recv_offset % 2 ^ 32;
          };
        },
      ),
    )

-- The address of the slot that is written next.
abbrev pub slot_addr : RecvHandle → ℕ
slot_addr h = h.info.buf + h.info.buf_index * h.info.buf_size

-- The copy into the next slot, and the step to the slot after it.
abbrev pub copy_in : RecvHandle → Message → Memory → Memory
copy_in h msg m = write_bytes m (slot_addr h + msg.recv_offset) msg.bytes

abbrev pub next_slot : RecvHandle → RecvHandle
next_slot h = record h {
  info = record (h.info) {
    recv_count = inc32 h.info.recv_count;
    buf_index = (h.info.buf_index + 1) % h.info.buf_slots;
  };
}

-- A delivery that ends with a status block for the slot, and signals or not.
unfoldable pub with_iosb : RecvHandle → Message → Memory → ℕ → ℕ → ℕ → ℕ × ℕ → Delivered
unfolding write_recv_iosb
with_iosb h msg m slot dst sem now =
    let (h', w) = write_recv_iosb h msg slot dst now in
    record { handle = h'; memory = m; iosb = w; signalled = sem }

unfoldable pub quiet : RecvHandle → Memory → ℕ → Delivered
quiet h m sem = record { handle = h; memory = m; iosb = none; signalled = sem }

unfoldable pub deliver_by_mode : SignalMode → RecvHandle → Message → Memory → ℕ × ℕ → Delivered
unfolding with_iosb quiet
deliver_by_mode overwrite h msg m now =
    with_iosb (next_slot h) msg (copy_in h msg m) h.info.buf_index (slot_addr h) 0 now
deliver_by_mode buffer_full h msg m now =
    if h.info.recv_count == h.info.buf_slots
    then quiet h m h.info.sem
    else if (next_slot h).info.recv_count == h.info.buf_slots
    then with_iosb (next_slot h) msg (copy_in h msg m) h.info.buf_index (slot_addr h) h.info.sem now
    else quiet (next_slot h) (copy_in h msg m) 0
deliver_by_mode every_message h msg m now =
    if ltb h.info.recv_count h.info.buf_slots
    then with_iosb (next_slot h) msg (copy_in h msg m) h.info.buf_index (slot_addr h) h.info.sem now
    else with_iosb h msg m h.info.buf_index (slot_addr h) h.info.sem now
deliver_by_mode signal_all_write_all h msg m now =
    with_iosb (next_slot h) msg (copy_in h msg m) h.info.buf_index (slot_addr h) h.info.sem now

-- The guards of the loop body, then the delivery under the handle's lock.
unfoldable pub deliver : RecvHandle → Message → Memory → ℕ × ℕ → Delivered
unfolding deliver_by_mode quiet
deliver h msg m now =
    if h.info.buf == 0
    then quiet h m 0
    else if h.info.buf_slots == 0
    then quiet h m 0
    else if h.info.buf_size == 0
    then quiet h m 0
    else if ltb h.info.buf_size msg.recv_offset
    then quiet h m 0
    else if h.is_idle
    then quiet h m 0
    else deliver_by_mode h.info.signal_mode h msg m now

unfoldable pub recv_count : RecvHandle → ℕ
recv_count h = h.info.recv_count

unfoldable pub recv_dismiss : RecvHandle → ℕ → RecvHandle
recv_dismiss h count =
    if ltb h.info.recv_count count
    then record h { info = record (h.info) { recv_count = 0 } }
    else record h { info = record (h.info) { recv_count = h.info.recv_count - count } }

unfoldable pub recv_idle : RecvHandle → RecvHandle
recv_idle h = record h { is_idle = true }

unfoldable pub recv_resume : RecvHandle → RecvHandle
recv_resume h = record h { is_idle = false }

unfoldable pub recv_reset : RecvHandle → RecvHandle
recv_reset h = record h { info = record (h.info) { recv_count = 0; buf_index = 0 } }

unfoldable pub recv_redirect : RecvHandle → RecvHandle
recv_redirect h = if h.info.buf == 0 then h else if h.info.aux_buf == 0 then h else record h {
  info = record (h.info) {
    buf = h.info.aux_buf;
    aux_buf = h.info.buf;
    buf_index = 0;
    recv_count = 0;
  };
}
