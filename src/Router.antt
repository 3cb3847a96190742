-- ===== src/Router.antt =====
-- eROIL/src/router/router.{h,cpp}: the routes, the transports and the open handles, under one lock.
-- Each function is one critical section. A handle pointer is the object that it points to, or `none`
-- for null; the map entry of a uid is the object that the shared pointer owns.
pub mod Inv
pub mod Closing
pub mod Subscribers
pub mod Unsubscribing
pub mod Peers
pub mod Calls
pub mod SendJobs
pub mod Distribution
pub mod Arrivals
pub mod Histories
pub mod Deliveries
pub mod Buffers
pub mod Received
pub mod Tests
use netcomm.Prelude.{
  ℕ, ◌+◌, ◌%◌, ◌^◌, Bool, true, false, not, Option, none, some, List, [], ◌∷◌, map, ◌==◌,
  if◌then◌else◌, is_some, is_empty, contains, length, Map, find, put, emplace, erase,
}
use netcomm.Types.{
  Label, NodeId, HandleUid, SendHandle, RecvHandle, LabelInfo, LabelsSnapshot, sizeof_label_header,
  invalid_node, invalid_label,
}
use netcomm.Types.Words.{inc32}
use netcomm.Routes.{
  SendRoute, RecvRoute, RouteTable, empty_table, get_send_route, get_recv_route, has_send_route,
  has_recv_route,
}
use netcomm.Routes.Send
use netcomm.Routes.Send.{
  is_local_send_subscriber, is_remote_send_subscriber, snapshot_send_publishers,
}
use netcomm.Routes.Recv
use netcomm.Routes.Labels
use netcomm.Transports
use netcomm.Transports.{TransportRegistry, SocketHeap, empty_registry}

pub record Router : Type 0 where
  pub routes : RouteTable
  pub transports : TransportRegistry
  pub send_handles : Map SendHandle
  pub recv_handles : Map RecvHandle

unfoldable pub empty_router : Router
empty_router = record {
  routes = empty_table;
  transports = empty_registry;
  send_handles = [];
  recv_handles = [];
}

-- The outcome of `add_send_publisher` on the new handle: a handle that is refused is forgotten.
keep_send_handle : Router → HandleUid → RouteTable × Bool → Router
keep_send_handle r uid (routes, added) =
    if not added
    then record r { routes = routes; send_handles = erase uid r.send_handles }
    else record r { routes = routes }

pub register_send_publisher : Router → Option SendHandle → Router
register_send_publisher r none = r
register_send_publisher r (some h) =
    if is_some (find h.uid r.send_handles)
    then r
    else keep_send_handle (record r { send_handles = emplace h.uid h r.send_handles }) h.uid
        (Send.add_send_publisher r.routes h.info.label (some h))

pub unregister_send_publisher : Router → Option SendHandle → Router
unregister_send_publisher r none = r
unregister_send_publisher r (some h) = elim (find h.uid r.send_handles) [
  | none ↦ r
  | some owned ↦ if not (owned.addr == h.addr) then r else record r {
    send_handles = erase h.uid r.send_handles;
    routes = (Send.remove_send_publisher r.routes h.info.label h.uid).0;
  }
]

keep_recv_handle : Router → HandleUid → RouteTable × Bool → Router
keep_recv_handle r uid (routes, added) =
    if not added
    then record r { routes = routes; recv_handles = erase uid r.recv_handles }
    else record r { routes = routes }

unfoldable pub register_recv_subscriber : Router → Option RecvHandle → Router
unfolding keep_recv_handle
register_recv_subscriber r none = r
register_recv_subscriber r (some h) =
    if is_some (find h.uid r.recv_handles)
    then r
    else keep_recv_handle (record r { recv_handles = emplace h.uid h r.recv_handles }) h.uid
        (Recv.add_recv_subscriber r.routes h.info.label (some h))

unfoldable pub unregister_recv_subscriber : Router → Option RecvHandle → Router
unregister_recv_subscriber r none = r
unregister_recv_subscriber r (some h) = elim (find h.uid r.recv_handles) [
  | none ↦ r
  | some owned ↦ if not (owned.addr == h.addr) then r else record r {
    recv_handles = erase h.uid r.recv_handles;
    routes = (Recv.remove_recv_subscriber r.routes h.info.label h.uid).0;
  }
]

unfoldable pub get_send_handle : Router → HandleUid → Option SendHandle
get_send_handle r uid = find uid r.send_handles

unfoldable pub get_recv_handle : Router → HandleUid → Option RecvHandle
get_recv_handle r uid = find uid r.recv_handles

pub add_local_send_subscriber : Router → Label → ℕ → NodeId → Router
add_local_send_subscriber r label size dst_id =
    if not (Transports.has_send_shm r.transports dst_id)
    then r
    else record r { routes = (Send.add_local_send_subscriber r.routes label size dst_id).0 }

pub add_remote_send_subscriber : Router → Label → ℕ → NodeId → Router
add_remote_send_subscriber r label size to_id =
    if not (Transports.has_socket r.transports to_id)
    then r
    else record r { routes = (Send.add_remote_send_subscriber r.routes label size to_id).0 }

pub remove_local_send_subscriber : Router → Label → NodeId → Router
remove_local_send_subscriber r label dst_id = record r {
  routes = (Send.remove_local_send_subscriber r.routes label dst_id).0;
}

pub remove_remote_send_subscriber : Router → Label → NodeId → Router
remove_remote_send_subscriber r label dst_id = record r {
  routes = (Send.remove_remote_send_subscriber r.routes label dst_id).0;
}

unfoldable pub is_send_subscriber : Router → Label → NodeId → Bool
is_send_subscriber r label to_id =
    if is_remote_send_subscriber r.routes label to_id
    then true
    else is_local_send_subscriber r.routes label to_id

unfoldable pub upsert_socket : Router → SocketHeap → NodeId → ℕ → Router × SocketHeap × Bool
upsert_socket r heap id sock =
    let (t, heap', done) = Transports.upsert_socket r.transports heap id sock in
    (record r { transports = t }, heap', done)

pub open_send_shm : Router → NodeId → ℕ → Bool → Router × Bool
open_send_shm r dst_id shm opened =
    let (t, done) = Transports.open_send_shm r.transports dst_id shm opened in
    (record r { transports = t }, done)

unfoldable pub open_recv_shm : Router → ℕ → Bool → Router × Bool
open_recv_shm r shm created =
    let (t, done) = Transports.open_recv_shm r.transports shm created in
    (record r { transports = t }, done)
