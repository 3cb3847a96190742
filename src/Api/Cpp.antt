-- ===== src/Api/Cpp.antt =====
-- eROIL/src/api/eroil_cpp.cpp, the interface in C++. An `int32_t` is its bit pattern.
use netcomm.Prelude.{ℕ, Bool, Option, none, some, ◌==◌, if◌then◌else◌}
use netcomm.Types.{NodeId, Label, SendHandle, RecvHandle}
use netcomm.Memory.{Memory}
use netcomm.Wire.{Padding}
use netcomm.Comms.{Enqueued}
use netcomm.Delivery
use netcomm.Manager.SendLabel.{SendArgs}
use netcomm.Api
use netcomm.Api.{Program, Start, IoType, slot, offset, io_value, to_signal_mode}
use netcomm.Api.RoilIds

unfoldable pub init_manager : Program → NodeId → Start → Program × Bool
unfolding Api.init_manager
init_manager p id start = Api.init_manager p id start

unfoldable pub is_ready : Program → Bool
unfolding Api.is_ready
is_ready p = Api.is_ready p

unfoldable pub get_manager_id : Program → NodeId
unfolding Api.get_manager_id
get_manager_id p = Api.get_manager_id p

unfoldable pub get_roil_id : Program → ℕ
unfolding RoilIds.get_roil_id
get_roil_id p = RoilIds.get_roil_id p.config_id

unfoldable pub open_send_label :
    Program → ℕ → Label → ℕ → ℕ → ℕ → ℕ → ℕ → ℕ → Program × Option SendHandle
unfolding Api.open_send_label
open_send_label p addr label buf size offset_mode sem iosb num_iosb =
    Api.open_send_label p addr label buf size
      (if offset_mode == io_value offset then offset else slot) sem iosb num_iosb

unfoldable pub send_label :
    Program → ℕ → Padding → Memory → ℕ × ℕ → Option SendHandle → SendArgs → Option (Enqueued × ℕ)
unfolding Api.send_label
send_label p seq gaps m now handle args = Api.send_label p seq gaps m now handle args

unfoldable pub close_send_label : Program → Option SendHandle → Program
unfolding Api.close_send_label
close_send_label p handle = Api.close_send_label p handle

unfoldable pub open_recv_label :
    Program → ℕ → Label → ℕ → ℕ → ℕ → ℕ → ℕ → ℕ → ℕ → ℕ → Program × Option RecvHandle
unfolding Api.open_recv_label to_signal_mode
open_recv_label p addr label buf size num_slots aux_buf sem iosb num_iosb signal_mode =
    Api.open_recv_label p addr label buf size num_slots aux_buf sem iosb num_iosb
      (to_signal_mode signal_mode)

unfoldable pub close_recv_label : Program → Option RecvHandle → Program
unfolding Api.close_recv_label
close_recv_label p handle = Api.close_recv_label p handle

-- The calls on a receive handle, which may be null.
unfoldable pub recv_count : Option RecvHandle → ℕ
unfolding Delivery.recv_count
recv_count none = 0
recv_count (some h) = Delivery.recv_count h

unfoldable pub recv_dismiss : Option RecvHandle → ℕ → Option RecvHandle
unfolding Delivery.recv_dismiss
recv_dismiss none count = none
recv_dismiss (some h) count = some (Delivery.recv_dismiss h count)
