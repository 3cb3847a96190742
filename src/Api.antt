-- ===== src/Api.antt =====
-- eROIL/src/root.cpp: the state that the library keeps for a process, its start, and the calls that it
-- forwards to the manager. What a client does with a receive handle or a status block is in Delivery
-- and in Messages; Nae and Cpp are the two interfaces of eROIL/src/api.
pub mod Nae
pub mod Cpp
pub mod Agreement
pub mod Starting
pub mod RoilIds
pub mod Tests
use netcomm.Prelude.{
  ℕ, Bool, true, false, not, ◌&&◌, Option, none, some, List, [], ◌∷◌, ◌==◌, if◌then◌else◌, is_some,
  ltb, Map,
}
use netcomm.Types.{
  Label, NodeId, SendHandle, OpenSendData, RecvHandle, OpenReceiveData, SignalMode, overwrite,
  buffer_full, every_message, signal_all_write_all,
}
use netcomm.Memory.{Memory}
use netcomm.Wire.{Padding}
use netcomm.Address.{
  NodeAddress, no_kind, get_address, all_shm_address_book, all_socket_address_book,
  test_network_address_book,
}
use netcomm.Address
use netcomm.Router.{empty_router}
use netcomm.Comms.{Enqueued}
use netcomm.Manager.{Manager}
use netcomm.Manager
use netcomm.Manager.SendLabel.{SendArgs}
use netcomm.Manager.SendLabel

pub data ManagerMode : Type 0 where
  normal test_mode_local_shm_only test_mode_local_socket_only test_mode_sim_network : ManagerMode

pub data IoType : Type 0 where
  slot offset : IoType

abbrev pub io_value : IoType → ℕ
io_value slot = 1
io_value offset = 2

unfoldable pub to_signal_mode : ℕ → SignalMode
to_signal_mode s =
    if s == 0
    then overwrite
    else if s == 1
    then buffer_full
    else if s == 2
    then every_message
    else if s == 3
    then signal_all_write_all
    else every_message

-- The static variables of root.cpp and of address.cpp, and the counter of `unique_id`. `config_id` is
-- the id in `config`.
pub record Program : Type 0 where
  pub manager : Option Manager
  pub initialized : Bool
  pub config_id : NodeId
  pub address_book : Map NodeAddress
  pub next_id : ℕ

-- What the files and the system give to a start: the mode of manager.cfg, the book of peer_ips.cfg with
-- the result of setting it up, whether there is a socket context, and whether the links and the
-- broadcast start.
pub record Start : Type 0 where
  pub mode : ManagerMode
  pub book : Map NodeAddress
  pub book_ok : Bool
  pub sock_context_ok : Bool
  pub comms_ok : Bool
  pub broadcast_ok : Bool

abbrev pub book_for : ManagerMode → Map NodeAddress → Map NodeAddress
book_for normal book = book
book_for test_mode_local_shm_only book = all_shm_address_book book
book_for test_mode_local_socket_only book = all_socket_address_book book
book_for test_mode_sim_network book = test_network_address_book book

abbrev pub has_kind : NodeAddress → Bool
has_kind a = elim a.kind [ no_kind ↦ false | _ ↦ true ]

-- `m_valid` of a new manager, and the result of its `init`.
unfoldable pub manager_valid : NodeId → Map NodeAddress → Bool → Bool
manager_valid id book sock_context_ok =
    if not (has_kind (get_address book id)) then false else sock_context_ok

unfoldable pub manager_init : Bool → Bool → Bool → Bool
manager_init valid comms_ok broadcast_ok =
    if not valid then false else if not comms_ok then false else broadcast_ok

abbrev pub new_manager : NodeId → ℕ → Manager
new_manager id next_id = record { id = id; router = empty_router; next_id = next_id }

-- The counter is the manager's while there is one.
abbrev pub counter : Program → ℕ
counter p = elim p.manager [ none ↦ p.next_id | some mgr ↦ mgr.next_id ]

unfoldable pub init_manager : Program → NodeId → Start → Program × Bool
unfolding manager_valid manager_init
init_manager p id start =
    if not start.book_ok
    then (record p { config_id = id; address_book = start.book }, false)
    else (let book = book_for start.mode start.book in
        let up =
          manager_init (manager_valid id book start.sock_context_ok) start.comms_ok
            start.broadcast_ok in
        (
          record {
            manager = some (new_manager id (counter p));
            initialized = up;
            config_id = id;
            address_book = book;
            next_id = p.next_id;
          },
          up,
        ))

unfoldable pub is_ready : Program → Bool
is_ready p = p.initialized && is_some p.manager

unfoldable pub get_manager_id : Program → NodeId
get_manager_id p = p.config_id

abbrev pub set_manager : Program → Manager → Program
set_manager p mgr = record p { manager = some mgr }

-- The manager, if the program is ready.
unfoldable pub ready_manager : Program → Option Manager
unfolding is_ready
ready_manager p = if is_ready p then p.manager else none

-- What the two openings hand to the manager.
abbrev pub send_data : Label → ℕ → ℕ → IoType → ℕ → ℕ → ℕ → OpenSendData
send_data label buf size io_type sem iosb num_iosb = record {
  label = label;
  buf = buf;
  buf_size = size;
  is_offset = io_value io_type == io_value offset;
  sem = sem;
  iosb = iosb;
  num_iosb = num_iosb;
  iosb_index = 0;
}

abbrev pub recv_data : Label → ℕ → ℕ → ℕ → ℕ → ℕ → ℕ → ℕ → SignalMode → OpenReceiveData
recv_data label buf size num_slots aux_buf sem iosb num_iosb signal_mode = record {
  label = label;
  buf = buf;
  buf_size = size;
  buf_slots = num_slots;
  buf_index = 0;
  aux_buf = aux_buf;
  sem = sem;
  iosb = iosb;
  num_iosb = num_iosb;
  iosb_index = 0;
  signal_mode = signal_mode;
  recv_count = 0;
}

-- `addr` is the address of the new handle, in this and in `open_recv_label`.
unfoldable pub open_send_label :
    Program → ℕ → Label → ℕ → ℕ → IoType → ℕ → ℕ → ℕ → Program × Option SendHandle
unfolding ready_manager
open_send_label p addr label buf size io_type sem iosb num_iosb = elim (ready_manager p) [
  | none ↦ (p, none)
  | some mgr ↦
      let (mgr', h) =
        Manager.open_send mgr addr (send_data label buf size io_type sem iosb num_iosb) in
      (set_manager p mgr', h)
]

-- The arguments of the send that the manager makes of the call, with the number of the next send and
-- what else it depends on; none if nothing is sent.
unfoldable pub send_label :
    Program → ℕ → Padding → Memory → ℕ × ℕ → Option SendHandle → SendArgs → Option (Enqueued × ℕ)
unfolding ready_manager
send_label p seq gaps m now handle args = elim (ready_manager p) [
  | none ↦ none
  | some mgr ↦ SendLabel.send_label mgr seq gaps m now handle args
]

unfoldable pub close_send_label : Program → Option SendHandle → Program
unfolding ready_manager
close_send_label p handle = elim (ready_manager p) [
  | none ↦ p
  | some mgr ↦ elim handle [ none ↦ p | some h ↦ set_manager p (Manager.close_send mgr (some h)) ]
]

unfoldable pub open_recv_label :
    Program → ℕ → Label → ℕ → ℕ → ℕ → ℕ → ℕ → ℕ → ℕ → SignalMode → Program × Option RecvHandle
unfolding ready_manager
open_recv_label p addr label buf size num_slots aux_buf sem iosb num_iosb signal_mode =
    elim (ready_manager p) [
      | none ↦ (p, none)
      | some mgr ↦
          let (mgr', h) =
            Manager.open_recv mgr addr
              (recv_data label buf size num_slots aux_buf sem iosb num_iosb signal_mode) in
          (set_manager p mgr', h)
    ]

unfoldable pub close_recv_label : Program → Option RecvHandle → Program
unfolding ready_manager
close_recv_label p handle = elim (ready_manager p) [
  | none ↦ p
  | some mgr ↦ set_manager p (Manager.close_recv mgr handle)
]
