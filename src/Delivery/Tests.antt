-- ===== src/Delivery/Tests.antt =====
-- Examples of the theorems on deliveries.
use netcomm.Prelude.{◌≡◌, refl, inr, false, [], ◌∷◌, ◌++◌, drop, ltb, if◌then◌else◌, arith}
use netcomm.Types.{RecvHandle, every_message}
use netcomm.Memory.{Memory}
use netcomm.Delivery.{Message, deliver, recv_dismiss}
use netcomm.Delivery.Queue.{IsReady, unread, unread-deliver, unread-recv_dismiss}
use netcomm.Delivery.Bounds.{deliver_outside}

abbrev reader : RecvHandle
reader = record {
  addr = 1001;
  uid = 1;
  is_idle = false;
  info = record {
    label = 7;
    buf = 4096;
    buf_size = 2;
    buf_slots = 4;
    buf_index = 1;
    aux_buf = 0;
    sem = 0;
    iosb = 0;
    num_iosb = 0;
    iosb_index = 0;
    signal_mode = every_message;
    recv_count = 1;
  };
}

reader-IsReady : IsReady reader
reader-IsReady = record {
  has_buf = omega arith;
  has_slots = omega arith;
  few_slots = omega arith;
  has_size = omega arith;
  index = omega arith;
  count = omega arith;
}

abbrev arrived : Message
arrived = record { source_id = 3; label = 7; bytes = 11 ∷ 12 ∷ []; recv_offset = 0 }

abbrev memory : Memory
memory a = a

unread-deliver_example :
    IsReady (deliver reader arrived memory (5, 6)).handle
    × (unread
          (deliver reader arrived memory (5, 6)).handle
          (deliver reader arrived memory (5, 6)).memory
        ≡ (if ltb 1 4 then unread reader memory ++ ((11 ∷ 12 ∷ []) ∷ []) else unread reader memory))
unread-deliver_example =
    unread-deliver reader arrived memory (5, 6) reader-IsReady refl refl refl refl

unread-recv_dismiss_example :
    IsReady (recv_dismiss reader 1)
    × (unread (recv_dismiss reader 1) memory ≡ drop 1 (unread reader memory))
unread-recv_dismiss_example = unread-recv_dismiss reader memory 1 reader-IsReady

deliver_outside_example : (deliver reader arrived memory (5, 6)).memory 5000 ≡ memory 5000
deliver_outside_example =
    deliver_outside reader arrived memory (5, 6) 5000 reader-IsReady (omega arith)
      (inr (omega arith))
