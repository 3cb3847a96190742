-- ===== src/Manager.antt =====
-- eROIL/src/manager/manager.{h,cpp}: opening and closing handles, and the subscriptions that follow
-- from the broadcasts of the other nodes. Threads, the multicast socket and the event log are left
-- out; the loop of recv_broadcast is one step for each message that arrives.
pub mod Opening
pub mod SendLabel
pub mod Tests
use netcomm.Prelude.{
  ℕ, ◌+◌, ◌%◌, ◌^◌, Bool, true, false, not, Option, none, some, List, [], ◌∷◌, ◌==◌, if◌then◌else◌,
  is_some, ltb, length, Map, find, emplace,
}
use netcomm.Types.{
  Label, NodeId, HandleUid, SendHandle, OpenSendData, RecvHandle, OpenReceiveData, LabelInfo,
  BroadcastMessage, LabelsSnapshot, LabelHeader, LabelFlag, data_flag, flag_value, invalid_label,
  max_label_size, magic_num, version,
}
use netcomm.Types.Words.{sle32, inc64}
use netcomm.Routes.{has_send_route}
use netcomm.Routes.Labels
use netcomm.Address.{NodeAddress, RouteKind, no_kind, shm_kind, socket_kind, self_kind, get_address}
use netcomm.Router.{
  Router, register_send_publisher, unregister_send_publisher, register_recv_subscriber,
  unregister_recv_subscriber, get_send_handle, get_recv_handle, is_send_subscriber,
  add_local_send_subscriber, add_remote_send_subscriber, remove_local_send_subscriber,
  remove_remote_send_subscriber,
}

-- `next_id` is the counter of `unique_id`.
pub record Manager : Type 0 where
  pub id : NodeId
  pub router : Router
  pub next_id : ℕ

-- The constructors of the handles take the id as a `uint32_t`. `addr` is the address of the new
-- object.
abbrev pub new_send_handle : ℕ → ℕ → OpenSendData → SendHandle
new_send_handle addr id info = record { addr = addr; uid = id % 2 ^ 32; info = info }

abbrev pub new_recv_handle : ℕ → ℕ → OpenReceiveData → RecvHandle
new_recv_handle addr id info = record {
  addr = addr;
  uid = id % 2 ^ 32;
  is_idle = false;
  info = info;
}

abbrev pub bad_send_data : OpenSendData → Bool
bad_send_data d =
    if sle32 d.label invalid_label
    then true
    else if d.buf == 0
    then true
    else if d.buf_size == 0
    then true
    else ltb max_label_size d.buf_size

abbrev pub with_send : Manager → SendHandle → Manager
with_send mgr h = record mgr {
  router = register_send_publisher mgr.router (some h);
  next_id = inc64 mgr.next_id;
}

-- The result is the handle that the router has under the new uid, or null.
unfoldable pub open_send : Manager → ℕ → OpenSendData → Manager × Option SendHandle
open_send mgr addr d = if bad_send_data d then (mgr, none) else (
  with_send mgr (new_send_handle addr mgr.next_id d),
  get_send_handle (with_send mgr (new_send_handle addr mgr.next_id d)).router
      (new_send_handle addr mgr.next_id d).uid,
)

unfoldable pub close_send : Manager → Option SendHandle → Manager
close_send mgr none = mgr
close_send mgr (some h) = record mgr { router = unregister_send_publisher mgr.router (some h) }

abbrev pub bad_recv_data : OpenReceiveData → Bool
bad_recv_data d =
    if sle32 d.label invalid_label
    then true
    else if d.buf == 0
    then true
    else if d.buf_size == 0
    then true
    else if ltb max_label_size d.buf_size
    then true
    else d.buf_slots == 0

abbrev pub with_recv : Manager → RecvHandle → Manager
with_recv mgr h = record mgr {
  router = register_recv_subscriber mgr.router (some h);
  next_id = inc64 mgr.next_id;
}

unfoldable pub open_recv : Manager → ℕ → OpenReceiveData → Manager × Option RecvHandle
open_recv mgr addr d = if bad_recv_data d then (mgr, none) else (
  with_recv mgr (new_recv_handle addr mgr.next_id d),
  get_recv_handle (with_recv mgr (new_recv_handle addr mgr.next_id d)).router
      (new_recv_handle addr mgr.next_id d).uid,
)

unfoldable pub close_recv : Manager → Option RecvHandle → Manager
close_recv mgr none = mgr
close_recv mgr (some h) = record mgr { router = unregister_recv_subscriber mgr.router (some h) }

-- The labels that a broadcast asks for, with their sizes; a second entry for a label is ignored.
unfoldable pub wanted : List LabelInfo → Map ℕ → Map ℕ
wanted [] acc = acc
wanted (l ∷ ls) acc =
    wanted ls (if sle32 l.label invalid_label then acc else emplace l.label l.size acc)

-- The switch on how a peer is reached.
abbrev pub add_by_kind : Router → RouteKind → Label → ℕ → NodeId → Router
add_by_kind r self_kind label size id = add_local_send_subscriber r label size id
add_by_kind r shm_kind label size id = add_local_send_subscriber r label size id
add_by_kind r socket_kind label size id = add_remote_send_subscriber r label size id
add_by_kind r no_kind label size id = r

abbrev pub add_one_subscriber : Map NodeAddress → NodeId → Router → Label → ℕ → Router
add_one_subscriber book source_id r label size =
    if sle32 label invalid_label
    then r
    else if not (has_send_route r.routes label)
    then r
    else if is_send_subscriber r label source_id
    then r
    else add_by_kind r (get_address book source_id).kind label size source_id

unfoldable pub add_subscriber : Map NodeAddress → NodeId → Router → Map ℕ → Router
add_subscriber book source_id r [] = r
add_subscriber book source_id r ((label, size) ∷ recv_labels) =
    add_subscriber book source_id (add_one_subscriber book source_id r label size) recv_labels

abbrev pub remove_by_kind : Router → RouteKind → Label → NodeId → Router
remove_by_kind r self_kind label id = remove_local_send_subscriber r label id
remove_by_kind r shm_kind label id = remove_local_send_subscriber r label id
remove_by_kind r socket_kind label id = remove_remote_send_subscriber r label id
remove_by_kind r no_kind label id = r

abbrev pub remove_one_subscriber : Map NodeAddress → NodeId → Map ℕ → Router → Label → Router
remove_one_subscriber book source_id recv_labels r label =
    if sle32 label invalid_label
    then r
    else if not (is_send_subscriber r label source_id)
    then r
    else if is_some (find label recv_labels)
    then r
    else remove_by_kind r (get_address book source_id).kind label source_id

-- The loop over the labels that this node sends, as they were before it.
unfoldable pub remove_from : Map NodeAddress → NodeId → Map ℕ → Router → List LabelInfo → Router
remove_from book source_id recv_labels r [] = r
remove_from book source_id recv_labels r (l ∷ ls) =
    remove_from book source_id recv_labels
      (remove_one_subscriber book source_id recv_labels r l.label) ls

unfoldable pub remove_subscriber : Map NodeAddress → NodeId → Router → Map ℕ → Router
unfolding remove_from
remove_subscriber book source_id r recv_labels =
    remove_from book source_id recv_labels r (Labels.get_send_labels r.routes)

-- What one broadcast does: subscriptions for the labels it asks for, then removals.
unfoldable pub recv_broadcast : Map NodeAddress → Manager → BroadcastMessage → Manager
unfolding wanted add_subscriber remove_subscriber
recv_broadcast book mgr msg =
    let recv = wanted msg.recv_labels.labels [] in
    record mgr {
      router = remove_subscriber book msg.id (add_subscriber book msg.id mgr.router recv) recv;
    }

-- What `send_broadcast` sends.
unfoldable pub next_broadcast : Manager → BroadcastMessage
next_broadcast mgr = record {
  id = mgr.id;
  send_labels = Labels.get_send_labels_snapshot mgr.router.routes;
  recv_labels = Labels.get_recv_labels_snapshot mgr.router.routes;
}
