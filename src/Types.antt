-- ===== src/Types.antt =====
-- The types and constants of eROIL/src/types: const_types.h, handles.h, iosb.h, label_io_types.h.
-- An `int32_t` is its two's complement bit pattern, a number below 2 ^ 32; a pointer is its
-- address, and 0 is the null pointer.
pub mod Words
use netcomm.Prelude.{ℕ, suc, ◌+◌, ◌*◌, ◌^◌, ◌%◌, ◌/◌, Bool, List, ◌==◌, not, if◌then◌else◌}
use Words.{bit_test}

abbrev pub Label : Type 0
Label = ℕ

abbrev pub NodeId : Type 0
NodeId = ℕ

abbrev pub HandleUid : Type 0
HandleUid = ℕ

-- The pattern of -1.
abbrev pub invalid_label : Label
invalid_label = 0xffffffff

abbrev pub invalid_node : NodeId
invalid_node = 0xffffffff

abbrev pub max_labels : ℕ
max_labels = 200

abbrev pub magic_num : ℕ
magic_num = 0x4c4f5245

abbrev pub version : ℕ
version = 1

abbrev pub max_label_size : ℕ
max_label_size = 1024 * 1024

abbrev pub shm_block_size : ℕ
shm_block_size = 128 * (1024 * 1024)

pub record OpenSendData : Type 0 where
  pub label : Label
  pub buf : ℕ
  pub buf_size : ℕ
  pub is_offset : Bool
  pub sem : ℕ
  pub iosb : ℕ
  pub num_iosb : ℕ
  pub iosb_index : ℕ

-- `addr` is the address of the object, by which the router compares pointers.
pub record SendHandle : Type 0 where
  pub addr : ℕ
  pub uid : HandleUid
  pub info : OpenSendData

pub data SignalMode : Type 0 where
  overwrite buffer_full every_message signal_all_write_all : SignalMode

pub record OpenReceiveData : Type 0 where
  pub label : Label
  pub buf : ℕ
  pub buf_size : ℕ
  pub buf_slots : ℕ
  pub buf_index : ℕ
  pub aux_buf : ℕ
  pub sem : ℕ
  pub iosb : ℕ
  pub num_iosb : ℕ
  pub iosb_index : ℕ
  pub signal_mode : SignalMode
  pub recv_count : ℕ

pub record RecvHandle : Type 0 where
  pub addr : ℕ
  pub uid : HandleUid
  pub is_idle : Bool
  pub info : OpenReceiveData

pub record LabelInfo : Type 0 where
  pub label : Label
  pub size : ℕ

abbrev pub no_label : LabelInfo
no_label = record { label = invalid_label; size = 0 }

pub record LabelsSnapshot : Type 0 where
  pub gen : ℕ
  pub labels : List LabelInfo

pub record BroadcastMessage : Type 0 where
  pub id : NodeId
  pub send_labels : LabelsSnapshot
  pub recv_labels : LabelsSnapshot

pub record LabelHeader : Type 0 where
  pub magic : ℕ
  pub version : ℕ
  pub source_id : NodeId
  pub flags : ℕ
  pub label : Label
  pub label_size : ℕ
  pub recv_offset : ℕ

-- `sizeof(LabelHeader)`: 4 + 2 (+ 2) + 4 + 2 (+ 2) + 4 + 4 + 4 bytes.
abbrev pub sizeof_label_header : ℕ
sizeof_label_header = 28

pub data LabelFlag : Type 0 where
  data_flag connect_flag disconnect_flag ping_flag : LabelFlag

abbrev pub flag_bit : LabelFlag → ℕ
flag_bit data_flag = 0
flag_bit connect_flag = 1
flag_bit disconnect_flag = 2
flag_bit ping_flag = 3

abbrev pub flag_value : LabelFlag → ℕ
flag_value f = 2 ^ flag_bit f

unfoldable pub has_flag : ℕ → LabelFlag → Bool
unfolding bit_test
has_flag flags flag = bit_test flags (flag_bit flag)
