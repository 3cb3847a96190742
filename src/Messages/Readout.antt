-- ===== src/Messages/Readout.antt =====
-- The status blocks that the library writes, as a client reads them (write_iosb.h, root.cpp).
use netcomm.Prelude.{
  ℕ, ◌+◌, ◌*◌, ◌/◌, ◌%◌, ◌^◌, ◌<◌, ◌≡◌, ◌≢◌, ◌↔◌, refl, Option, some, ltb, if◌then◌else◌, length,
  arith,
}
use netcomm.Types.{SendHandle, RecvHandle, NodeId}
use netcomm.Jobs.{SendIosb, write_send_iosb, failed_status}
use netcomm.Delivery.{ReceiveIosb, Message, write_recv_iosb}
use netcomm.Messages.{
  Iosb, of_send, of_receive, get_msg_label, get_msg_status, get_msg_size, get_msg_address,
  get_msg_offset, get_msg_buffer, get_msg_slot, get_msg_timestamp, raw_time,
}

-- What a client reads of the block of a send.
pub record SendReads (label size fails src : ℕ) (now : ℕ × ℕ) (b : Option Iosb) : Type 0 where
  pub label_is : get_msg_label b ≡ label
  pub status_is : get_msg_status b ≡ (if ltb 0 fails then 0xffffffff else 0)
  pub size_is : get_msg_size b ≡ size
  pub address_is : get_msg_address b ≡ src
  pub buffer_is : get_msg_buffer b ≡ src
  pub offset_is : get_msg_offset b ≡ 0
  pub slot_is : get_msg_slot b ≡ 0
  pub time_is : get_msg_timestamp b ≡ raw_time now

-- A handle with a ring of status blocks gets one for a send at its index, from which the client
-- reads the label, the size, the source of the data, and success or, if any receiver failed, -1;
-- the label must fit the 24 bits of its field as a positive number.
pub send_block_lem :
    (h : SendHandle) (id : NodeId) (label size fails src : ℕ) (now : ℕ × ℕ)
    → h.info.iosb ≢ 0
    → h.info.num_iosb ≢ 0
    → label < 2 ^ 23
    → size < 2 ^ 32
    → (b : SendIosb) × ((write_send_iosb h id label size fails src now).1
        ≡ some (h.info.iosb_index, b))
      × SendReads label size fails src now (some (of_send b))
unfolding write_send_iosb get_msg_label get_msg_status get_msg_size get_msg_address get_msg_offset
    get_msg_buffer get_msg_slot get_msg_timestamp
send_block_lem h id label size fails src now ring some_blocks narrow small = (
  record {
    status = if ltb 0 fails then failed_status else 0;
    header_valid = 1;
    action = 0;
    msg_addr = src;
    msg_size = size % 2 ^ 32;
    time_stamp = now;
    fc_header = record { source_id = id % 2 ^ 24; destination_id = label % 2 ^ 24; parameter = 0 };
  },
  ground (arith, ring, some_blocks),
  record {
    label_is = ground arith;
    status_is = ground arith;
    size_is = ground arith;
    address_is = refl;
    buffer_is = refl;
    offset_is = refl;
    slot_is = refl;
    time_is = refl;
  },
)

-- What a client reads of the block of a message that arrived.
pub record ReceiveReads (msg : Message) (slot dst : ℕ) (now : ℕ × ℕ) (b : Option Iosb)
    : Type 0 where
  pub label_is : get_msg_label b ≡ msg.label
  pub status_is : get_msg_status b ≡ 0
  pub size_is : get_msg_size b ≡ length msg.bytes / 4
  pub address_is : get_msg_address b ≡ dst
  pub buffer_is : get_msg_buffer b ≡ dst
  pub offset_is : get_msg_offset b ≡ msg.recv_offset
  pub slot_is : get_msg_slot b ≡ slot
  pub time_is : get_msg_timestamp b ≡ raw_time now

-- A handle with a ring of status blocks gets one for an arrived message at its index, from which the
-- client reads the label, the slot and its address, the offset, and the size, which counts words of
-- four bytes; label, slot and size must fit their fields as positive numbers.
pub receive_block_lem :
    (h : RecvHandle) (msg : Message) (slot dst : ℕ) (now : ℕ × ℕ)
    → h.info.iosb ≢ 0
    → h.info.num_iosb ≢ 0
    → msg.label < 2 ^ 23
    → slot < 2 ^ 15
    → length msg.bytes < 2 ^ 25
    → msg.recv_offset < 2 ^ 32
    → (b : ReceiveIosb) × ((write_recv_iosb h msg slot dst now).1 ≡ some (h.info.iosb_index, b))
      × ReceiveReads msg slot dst now (some (of_receive b))
unfolding write_recv_iosb get_msg_label get_msg_status get_msg_size get_msg_address get_msg_offset
    get_msg_buffer get_msg_slot get_msg_timestamp
receive_block_lem h msg slot dst now ring some_blocks narrow slot_small short offset_small = (
  record {
    status = 0;
    header_valid = 1;
    action = 1;
    msg_size = (length msg.bytes / 4) % 2 ^ 24;
    message_slot = slot % 2 ^ 16;
    label = msg.label;
    msg_addr = dst;
    time_stamp = now;
    fc_header = record {
      source_id = msg.source_id % 2 ^ 24;
      destination_id = msg.label % 2 ^ 24;
      parameter = msg.recv_offset % 2 ^ 32;
    };
  },
  ground (arith, ring, some_blocks),
  record {
    label_is = ground arith;
    status_is = refl;
    size_is = ground arith;
    address_is = refl;
    buffer_is = refl;
    offset_is = ground arith;
    slot_is = ground arith;
    time_is = refl;
  },
)

-- The time of a block, of either kind.
abbrev pub time_of : Iosb → ℕ × ℕ
time_of (of_send b) = b.time_stamp
time_of (of_receive b) = b.time_stamp

-- The time that a client reads of a block, for a send or for a receive, is the block's time in
-- microseconds exactly if its seconds are below 4295: from there on the product of the seconds wraps.
pub get_msg_timestamp_lem :
    (b : Iosb)
    → (get_msg_timestamp (some b) ≡ (time_of b).0 * 1000000 + (time_of b).1 / 1000)
      ↔ ((time_of b).0 < 4295)
unfolding get_msg_timestamp
get_msg_timestamp_lem (of_send b) = (λ e. omega arith, λ l. omega arith)
get_msg_timestamp_lem (of_receive b) = (λ e. omega arith, λ l. omega arith)
