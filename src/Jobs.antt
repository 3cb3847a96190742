-- ===== src/Jobs.antt =====
-- eROIL/src/types/send_io_types.h and the send half of eROIL/src/comm/write_iosb.h: the buffer and
-- the job of one send, its completion, and the status block that a client gets of it.
-- A status block is written into the client's ring at a handle's index: the write is a pair of the
-- index and the block. The current time is an argument. The debug assertions do not stand in the
-- model. The fields of a status block that are always 0 are left out.
pub mod Senders
pub mod Tests
use netcomm.Prelude.{
  ℕ, ◌+◌, ◌-◌, ◌%◌, ◌^◌, ◌*◌, Bool, true, false, not, Option, none, some, List, [], ◌∷◌, ◌++◌, ◌==◌,
  ◌||◌, if◌then◌else◌, ltb, replicate,
}
use netcomm.Types.{
  Label, NodeId, HandleUid, SendHandle, invalid_node, invalid_label, sizeof_label_header,
}

pub record SendBuf : Type 0 where
  pub data_src_addr : ℕ
  pub bytes : List ℕ
  pub data_size : ℕ
  pub total_size : ℕ

-- What the constructor asserts, `send_label`, which alone calls it, has checked before.
unfoldable pub send_buf : ℕ → ℕ → SendBuf
send_buf src size = record {
  data_src_addr = src;
  bytes = replicate (size + sizeof_label_header) 0;
  data_size = size;
  total_size = size + sizeof_label_header;
}

pub data SendJobErr : Type 0 where
  no_error route_not_found size_mismatch size_too_large shm_missing socket_missing : SendJobErr
  unknown_handle no_publishers incorrect_publisher failed : SendJobErr

-- A receiver is the address of its transport, 0 for null.
pub record SendJob : Type 0 where
  pub source_id : NodeId
  pub label : Label
  pub send_buffer : SendBuf
  pub seq : ℕ
  pub publisher : Option SendHandle
  pub local_failure_count : ℕ
  pub local_recvrs : List ℕ
  pub remote_failure_count : ℕ
  pub remote_recvrs : List ℕ
  pub pending_sends : ℕ

-- The constructor leaves `seq` unset; `build_send_job` sets it next.
unfoldable pub new_job : SendBuf → ℕ → SendJob
new_job buf seq = record {
  source_id = invalid_node;
  label = invalid_label;
  send_buffer = buf;
  seq = seq;
  publisher = none;
  local_failure_count = 0;
  local_recvrs = [];
  remote_failure_count = 0;
  remote_recvrs = [];
  pending_sends = 0;
}

-- `FcHeader`: the two ids are bit fields of 24 bits.
pub record FcHeader : Type 0 where
  pub source_id : ℕ
  pub destination_id : ℕ
  pub parameter : ℕ

-- `status` is a bit field of 17 bits.
pub record SendIosb : Type 0 where
  pub status : ℕ
  pub header_valid : ℕ
  pub action : ℕ
  pub msg_addr : ℕ
  pub msg_size : ℕ
  pub time_stamp : ℕ × ℕ
  pub fc_header : FcHeader

-- The pattern of -1 in 17 bits.
abbrev pub failed_status : ℕ
failed_status = 2 ^ 17 - 1

unfoldable pub write_send_iosb :
    SendHandle → NodeId → Label → ℕ → ℕ → ℕ → ℕ × ℕ → SendHandle × Option (ℕ × SendIosb)
write_send_iosb h source_id label size fail_count src now =
    if h.info.iosb == 0 || h.info.num_iosb == 0 then (h, none) else (
      record h {
        info = record (h.info) { iosb_index = (h.info.iosb_index + 1) % h.info.num_iosb };
      },
      some (
        h.info.iosb_index,
        record {
          status = if ltb 0 fail_count then failed_status else 0;
          header_valid = 1;
          action = 0;
          msg_addr = src;
          msg_size = size % 2 ^ 32;
          time_stamp = now;
          fc_header = record {
            source_id = source_id % 2 ^ 24;
            destination_id = label % 2 ^ 24;
            parameter = 0;
          };
        },
      ),
    )

-- What finishing a job does: the publisher after it, the status block, the semaphore signalled.
pub record Finished : Type 0 where
  pub publisher : SendHandle
  pub iosb : Option (ℕ × SendIosb)
  pub signalled : ℕ

unfoldable pub finalize_send_iosb : SendJob → SendHandle → ℕ × ℕ → Finished
unfolding write_send_iosb
finalize_send_iosb job h now =
    let fails = (job.local_failure_count + job.remote_failure_count) % 2 ^ 32 in
    let (h', w) =
      write_send_iosb h job.source_id job.label job.send_buffer.data_size fails
        job.send_buffer.data_src_addr now in
    record { publisher = h'; iosb = w; signalled = h.info.sem }

-- The atomic decrement that the compare-and-exchange loop of `complete_one` comes to, and whether
-- this completion was the last. A completion too many changes nothing.
unfoldable pub complete_one : ℕ → ℕ × Bool
complete_one pending = if pending == 0 then (pending, false) else (pending - 1, pending - 1 == 0)
