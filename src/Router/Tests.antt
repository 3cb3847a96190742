-- ===== src/Router/Tests.antt =====
-- Examples of the theorems on the router.
use netcomm.Prelude.{
  ℕ, ◌+◌, ◌≡◌, ◌∙◌, ap, sym, subst, refl, false, some, inr, ltb, put, emplace, ◌++◌, arith, List,
  [], ◌∷◌, find, ◌==◌, if◌then◌else◌,
}
use netcomm.Types.{SendHandle, RecvHandle, every_message}
use netcomm.Routes.{get_recv_route}
use netcomm.Routes.Recv.{add_recv_subscriber}
use netcomm.Memory.{Memory}
use netcomm.Delivery.{Message}
use netcomm.Router.{empty_router, register_recv_subscriber}
use netcomm.Router.Calls.{opens_send}
use netcomm.Routes.{empty_table}
use netcomm.Router.Histories.{
  AnyCall, on_send_side, opens_recv, closes_recv, arrives, run_any, RouterInv, history-RouterInv,
}
use netcomm.Router.Arrivals
use netcomm.Router.Distribution.{distribute_recvd_label}
use netcomm.Router.Buffers.{IsApart}
use netcomm.Router.Received.{OtherReaders, received_by_label}
use netcomm.Delivery.Queue.{IsReady, unread}

abbrev handle : ℕ → SendHandle
handle uid = record {
  addr = 1000 + uid;
  uid = uid;
  info = record {
    label = 7;
    buf = 4096;
    buf_size = 64;
    is_offset = false;
    sem = 0;
    iosb = 0;
    num_iosb = 0;
    iosb_index = 0;
  };
}

abbrev reader : RecvHandle
reader = record {
  addr = 1001;
  uid = 1;
  is_idle = false;
  info = record {
    label = 7;
    buf = 4096;
    buf_size = 2;
    buf_slots = 4;
    buf_index = 1;
    aux_buf = 0;
    sem = 0;
    iosb = 0;
    num_iosb = 0;
    iosb_index = 0;
    signal_mode = every_message;
    recv_count = 1;
  };
}

abbrev arrived : Message
arrived = record { source_id = 3; label = 7; bytes = 11 ∷ 12 ∷ []; recv_offset = 0 }

abbrev no_memory : Memory
no_memory a = 0

abbrev history : List AnyCall
history =
    on_send_side (opens_send (handle 2))
    ∷ opens_recv reader
    ∷ arrives arrived (5, 6) no_memory
    ∷ opens_recv (record reader { addr = 1002; uid = 3 })
    ∷ closes_recv 1
    ∷ []

history-RouterInv_example : RouterInv (run_any empty_router history)
history-RouterInv_example = history-RouterInv history

abbrev second : RecvHandle
second = record reader { addr = 1002; uid = 3; info = record reader.info { buf = 8192 } }

abbrev two_readers : List AnyCall
two_readers = opens_recv reader ∷ opens_recv second ∷ []

two_open : (run_any empty_router two_readers).recv_handles ≡ (1, reader) ∷ (3, second) ∷ []
unfolding run_any empty_router empty_table find put emplace get_recv_route register_recv_subscriber
    add_recv_subscriber
two_open = refl

reader-IsReady : IsReady reader
reader-IsReady = record {
  has_buf = omega arith;
  has_slots = omega arith;
  few_slots = omega arith;
  has_size = omega arith;
  index = omega arith;
  count = omega arith;
}

second-IsReady : IsReady second
second-IsReady = record {
  has_buf = omega arith;
  has_slots = omega arith;
  few_slots = omega arith;
  has_size = omega arith;
  index = omega arith;
  count = omega arith;
}

second-IsApart : IsApart arrived reader second
second-IsApart = record { ready = second-IsReady; fits = ground arith; apart = inr (omega arith) }

two_apart : OtherReaders (run_any empty_router two_readers) arrived 1 reader
unfolding find
two_apart v g ne found same_label =
    subst (IsApart arrived reader) (is_second (ap (find v) (sym two_open) ∙ found)) second-IsApart
  where
    is_second : find v ((1, reader) ∷ (3, second) ∷ []) ≡ some g → second ≡ g
    is_second at_v = ground (arith, at_v, ne)

received_by_label_example :
    (h' : RecvHandle) × (find 1
        (Arrivals.arrived (run_any empty_router two_readers) arrived (5, 6) no_memory).recv_handles
      ≡ some h')
    × IsReady h'
    × (unread h'
          (distribute_recvd_label
            (run_any empty_router two_readers)
            arrived
            (5, 6)
            no_memory).memory
        ≡ (if reader.info.label == arrived.label
            then (if ltb reader.info.recv_count reader.info.buf_slots
                then unread reader no_memory ++ (arrived.bytes ∷ [])
                else unread reader no_memory)
            else unread reader no_memory))
unfolding find
received_by_label_example =
    received_by_label two_readers arrived (5, 6) no_memory 1 reader (ap (find 1) two_open) refl refl
      refl reader-IsReady refl refl two_apart
