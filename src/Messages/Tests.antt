-- ===== src/Messages/Tests.antt =====
-- Examples of the theorems on what a client reads.
use netcomm.Prelude.{◌+◌, ◌*◌, ◌/◌, ◌<◌, ◌≡◌, ◌↔◌, false, some, arith}
use netcomm.Types.{SendHandle}
use netcomm.Jobs.{SendIosb, write_send_iosb}
use netcomm.Messages.{of_send, get_msg_timestamp}
use netcomm.Messages.Readout.{SendReads, send_block_lem, get_msg_timestamp_lem}

abbrev sender : SendHandle
sender = record {
  addr = 500;
  uid = 1;
  info = record {
    label = 7;
    buf = 4096;
    buf_size = 64;
    is_offset = false;
    sem = 0;
    iosb = 9000;
    num_iosb = 4;
    iosb_index = 3;
  };
}

-- A send with one receiver that failed.
send_block_example :
    (b : SendIosb) × ((write_send_iosb sender 1 7 64 1 4096 (1700000000, 5000)).1 ≡ some (3, b))
    × SendReads 7 64 1 4096 (1700000000, 5000) (some (of_send b))
send_block_example =
    send_block_lem sender 1 7 64 1 4096 (1700000000, 5000) (omega arith) (omega arith) (omega arith)
      (omega arith)

-- A block of November 2023.
abbrev recent : SendIosb
recent = record {
  status = 0;
  header_valid = 1;
  action = 0;
  msg_addr = 4096;
  msg_size = 64;
  time_stamp = (1700000000, 5000);
  fc_header = record { source_id = 1; destination_id = 7; parameter = 0 };
}

get_msg_timestamp_example :
    (get_msg_timestamp (some (of_send recent)) ≡ 1700000000 * 1000000 + 5000 / 1000)
    ↔ (1700000000 < 4295)
get_msg_timestamp_example = get_msg_timestamp_lem (of_send recent)
