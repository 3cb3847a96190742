-- ===== src/Messages.antt =====
-- What a client reads of a status block: get_msg_* of eROIL/src/root.cpp, on the blocks of
-- eROIL/src/types/iosb.h.
-- The code casts a block by its action field, which both kinds have at the same place; here a block
-- is one of the two kinds. An `int32_t` is its pattern; a narrower signed bit field is widened to it.
pub mod Readout
pub mod Tests
use netcomm.Prelude.{ℕ, ◌+◌, ◌-◌, ◌*◌, ◌/◌, ◌%◌, ◌^◌, Option, none, some, ltb, if◌then◌else◌}
use netcomm.Jobs.{SendIosb}
use netcomm.Delivery.{ReceiveIosb}

pub data Iosb : Type 0 where
  of_send : SendIosb → Iosb
  of_receive : ReceiveIosb → Iosb

-- The pattern of a signed bit field of this width in 32 bits.
abbrev pub widened : ℕ → ℕ → ℕ
widened width x = if ltb x (2 ^ (width - 1)) then x else x + 2 ^ 32 - 2 ^ width

unfoldable pub get_msg_label : Option Iosb → ℕ
get_msg_label none = 0
get_msg_label (some (of_send b)) = widened 24 b.fc_header.destination_id
get_msg_label (some (of_receive b)) = widened 24 b.fc_header.destination_id

unfoldable pub get_msg_status : Option Iosb → ℕ
get_msg_status none = 0
get_msg_status (some (of_send b)) = widened 17 b.status
get_msg_status (some (of_receive b)) = widened 17 b.status

-- A field of 32 bits for a send, of 24 bits for a receive.
unfoldable pub get_msg_size : Option Iosb → ℕ
get_msg_size none = 0
get_msg_size (some (of_send b)) = b.msg_size
get_msg_size (some (of_receive b)) = widened 24 b.msg_size

unfoldable pub get_msg_address : Option Iosb → ℕ
get_msg_address none = 0
get_msg_address (some (of_send b)) = b.msg_addr
get_msg_address (some (of_receive b)) = b.msg_addr

unfoldable pub get_msg_offset : Option Iosb → ℕ
get_msg_offset none = 0
get_msg_offset (some (of_send b)) = 0
get_msg_offset (some (of_receive b)) = b.fc_header.parameter

unfoldable pub get_msg_buffer : Option Iosb → ℕ
get_msg_buffer none = 0
get_msg_buffer (some (of_send b)) = b.msg_addr
get_msg_buffer (some (of_receive b)) = b.msg_addr

unfoldable pub get_msg_slot : Option Iosb → ℕ
get_msg_slot none = 0
get_msg_slot (some (of_send b)) = 0
get_msg_slot (some (of_receive b)) = widened 16 b.message_slot

abbrev usec_per_sec : ℕ
usec_per_sec = 1000000

abbrev nsec_per_usec : ℕ
nsec_per_usec = 1000

-- The product is one of `uint32_t`; both parts are whole numbers that a double holds exactly.
abbrev pub raw_time : ℕ × ℕ → ℕ
raw_time (msb, lsb) = (msb * usec_per_sec) % 2 ^ 32 + lsb / nsec_per_usec

unfoldable pub get_msg_timestamp : Option Iosb → ℕ
get_msg_timestamp none = 0
get_msg_timestamp (some (of_send b)) = raw_time b.time_stamp
get_msg_timestamp (some (of_receive b)) = raw_time b.time_stamp
