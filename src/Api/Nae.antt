-- ===== src/Api/Nae.antt =====
-- eROIL/src/api/eroil_c.cpp, the interface in C. An `int` is its bit pattern. A product that does not
-- fit an `int` is taken to wrap.
use netcomm.Prelude.{ℕ, ◌+◌, ◌-◌, ◌*◌, ◌%◌, ◌^◌, Option, none, some, ◌==◌, if◌then◌else◌, ltb}
use netcomm.Types.{NodeId, SendHandle, RecvHandle}
use netcomm.Types.Words.{slt32}
use netcomm.Memory.{Memory}
use netcomm.Wire.{Padding}
use netcomm.Comms.{Enqueued}
use netcomm.Delivery
use netcomm.Messages
use netcomm.Messages.{Iosb}
use netcomm.Api
use netcomm.Api.{Program, Start, IoType, slot, offset, io_value, to_signal_mode}
use netcomm.Api.RoilIds.{get_roil_id}

-- A positive number, or 0.
abbrev pub clamped : ℕ → ℕ
clamped n = if slt32 0 n then n else 0

-- An `int` as a `size_t`, and a positive number of words in bytes.
abbrev pub to_size : ℕ → ℕ
to_size x = if ltb x (2 ^ 31) then x else x + 2 ^ 64 - 2 ^ 32

abbrev pub bytes_of_words : ℕ → ℕ
bytes_of_words n = if slt32 0 n then to_size (n * 4 % 2 ^ 32) else 0

abbrev pub io_type_of : ℕ → IoType
io_type_of mode = if mode == io_value offset then offset else slot

unfoldable pub nae_init : Program → NodeId → Start → Program × ℕ
unfolding Api.init_manager
nae_init p node start =
    let (p', success) = Api.init_manager p node start in (p', if success then 1 else 0)

unfoldable pub nae_is_agent_up : Program → ℕ
unfolding Api.is_ready
nae_is_agent_up p = if Api.is_ready p then 1 else 0

unfoldable pub nae_get_node_id : Program → ℕ
unfolding Api.get_manager_id
nae_get_node_id p = Api.get_manager_id p

unfoldable pub nae_get_roil_node_id : Program → ℕ
unfolding get_roil_id
nae_get_roil_node_id p = get_roil_id p.config_id

unfoldable pub nae_open_send_label :
    Program → ℕ → ℕ → ℕ → ℕ → ℕ → ℕ → ℕ → ℕ → Program × Option SendHandle
unfolding Api.open_send_label
nae_open_send_label p addr label buf size_in_words offset_mode sem iosb num_iosbs =
    Api.open_send_label p addr label buf (bytes_of_words size_in_words) (io_type_of offset_mode) sem
      iosb (clamped num_iosbs)

-- The message size and the two offsets of a send, as the caller gives them.
unfoldable pub nae_send_label :
    Program
    → ℕ
    → Padding
    → Memory
    → ℕ × ℕ
    → Option SendHandle
    → ℕ
    → ℕ
    → ℕ
    → ℕ
    → Option (Enqueued × ℕ)
unfolding Api.send_label
nae_send_label p seq gaps m now handle buf size_in_words send_offset recv_offset =
    Api.send_label p seq gaps m now handle (record {
      buf = buf;
      buf_size = bytes_of_words size_in_words;
      send_offset = clamped send_offset;
      recv_offset = clamped recv_offset;
    })

unfoldable pub nae_close_send_label : Program → Option SendHandle → Program
unfolding Api.close_send_label
nae_close_send_label p handle = Api.close_send_label p handle

-- The forward label is only reported if it is not -1.
unfoldable pub nae_open_receive_label :
    Program → ℕ → ℕ → ℕ → ℕ → ℕ → ℕ → ℕ → ℕ → ℕ → ℕ → ℕ → Program × Option RecvHandle
unfolding Api.open_recv_label to_signal_mode
nae_open_receive_label p addr label forward_label buf num_slots size_in_words aux_buf sem iosb
      num_iosbs signal_mode =
    Api.open_recv_label p addr label buf (bytes_of_words size_in_words) (clamped num_slots) aux_buf
      sem iosb (clamped num_iosbs) (to_signal_mode signal_mode)

unfoldable pub nae_close_receive_label : Program → Option RecvHandle → Program
unfolding Api.close_recv_label
nae_close_receive_label p handle = Api.close_recv_label p handle

-- The calls on a receive handle, which may be null.
abbrev pub at_handle : (RecvHandle → RecvHandle) → Option RecvHandle → Option RecvHandle
at_handle f none = none
at_handle f (some h) = some (f h)

unfoldable pub nae_receive_count : Option RecvHandle → ℕ
unfolding Delivery.recv_count
nae_receive_count none = 0
nae_receive_count (some h) = Delivery.recv_count h

unfoldable pub nae_receive_dismiss : Option RecvHandle → ℕ → Option RecvHandle
unfolding Delivery.recv_dismiss
nae_receive_dismiss handle count = at_handle (λ h. Delivery.recv_dismiss h (clamped count)) handle

unfoldable pub nae_receive_idle : Option RecvHandle → Option RecvHandle
unfolding Delivery.recv_idle
nae_receive_idle handle = at_handle Delivery.recv_idle handle

unfoldable pub nae_receive_resume : Option RecvHandle → Option RecvHandle
unfolding Delivery.recv_resume
nae_receive_resume handle = at_handle Delivery.recv_resume handle

unfoldable pub nae_receive_reset : Option RecvHandle → Option RecvHandle
unfolding Delivery.recv_reset
nae_receive_reset handle = at_handle Delivery.recv_reset handle

unfoldable pub nae_receive_redirect : Option RecvHandle → Option RecvHandle
unfolding Delivery.recv_redirect
nae_receive_redirect handle = at_handle Delivery.recv_redirect handle

-- What a client reads of a status block.
unfoldable pub nae_get_message_label : Option Iosb → ℕ
unfolding Messages.get_msg_label
nae_get_message_label iosb = Messages.get_msg_label iosb

unfoldable pub nae_get_message_status : Option Iosb → ℕ
unfolding Messages.get_msg_status
nae_get_message_status iosb = Messages.get_msg_status iosb

unfoldable pub nae_get_message_size : Option Iosb → ℕ
unfolding Messages.get_msg_size
nae_get_message_size iosb = Messages.get_msg_size iosb

unfoldable pub nae_get_message_address : Option Iosb → ℕ
unfolding Messages.get_msg_address
nae_get_message_address iosb = Messages.get_msg_address iosb

unfoldable pub nae_get_message_offset : Option Iosb → ℕ
unfolding Messages.get_msg_offset
nae_get_message_offset iosb = Messages.get_msg_offset iosb

unfoldable pub nae_get_message_buffer : Option Iosb → ℕ
unfolding Messages.get_msg_buffer
nae_get_message_buffer iosb = Messages.get_msg_buffer iosb

unfoldable pub nae_get_message_slot : Option Iosb → ℕ
unfolding Messages.get_msg_slot
nae_get_message_slot iosb = Messages.get_msg_slot iosb

unfoldable pub nae_get_message_timestamp : Option Iosb → ℕ
unfolding Messages.get_msg_timestamp
nae_get_message_timestamp iosb = Messages.get_msg_timestamp iosb
