-- ===== src/Routes/Send.antt =====
-- route_table.cpp, the operations on send routes. A write through a `SendRoute*` is a `put`.
pub mod Laws
pub mod Removal
pub mod Inv
pub mod RoundTrip
use netcomm.Prelude.{
  ℕ, suc, ◌+◌, ◌%◌, ◌^◌, Bool, true, false, not, Option, none, some, List, [], ◌∷◌, ◌++◌, ◌==◌,
  if◌then◌else◌, is_empty, contains, erase_first, put, emplace, erase,
}
use netcomm.Types.{Label, NodeId, HandleUid, SendHandle}
use netcomm.Types.Words.{inc64}
use netcomm.Routes.{SendRoute, RouteTable, get_send_route, has_send_route}

pub store_send_route : RouteTable → Label → SendRoute → RouteTable
store_send_route t label r = record t { send_routes = put label r t.send_routes }

abbrev pub new_send_route : Label → SendHandle → SendRoute
new_send_route label h = record {
  label = label;
  label_size = h.info.buf_size;
  publishers = [];
  remote_subscribers = [];
  local_subscribers = [];
}

create_send_route : RouteTable → Label → SendHandle → RouteTable
create_send_route t label h = record t {
  send_routes = emplace label (new_send_route label h) t.send_routes;
}

-- The table in which `add_send_publisher` looks the route up.
ensure_send_route : RouteTable → Label → SendHandle → RouteTable
unfolding has_send_route create_send_route
ensure_send_route t label h =
    if has_send_route t label
    then t
    else (let t' = create_send_route t label h in record t' { send_gen = inc64 t'.send_gen })

publish : RouteTable → Label → SendHandle → Option SendRoute → RouteTable × Bool
unfolding store_send_route
publish t label h none = (t, false)
publish t label h (some route) =
    if not (route.label_size == h.info.buf_size)
    then (t, false)
    else if contains h.uid route.publishers
    then (t, false)
    else (
      store_send_route t label (record route { publishers = route.publishers ++ (h.uid ∷ []) }),
      true,
    )

pub add_send_publisher : RouteTable → Label → Option SendHandle → RouteTable × Bool
unfolding publish ensure_send_route get_send_route
add_send_publisher t label none = (t, false)
add_send_publisher t label (some h) =
    let t' = ensure_send_route t label h in publish t' label h (get_send_route t' label)

pub drop_send_route : RouteTable → Label → RouteTable
drop_send_route t label = record t {
  send_routes = erase label t.send_routes;
  send_gen = inc64 t.send_gen;
}

unpublish : RouteTable → Label → HandleUid → Option SendRoute → RouteTable × Bool
unfolding store_send_route drop_send_route
unpublish t label uid none = (t, false)
unpublish t label uid (some route) =
    if not (contains uid route.publishers)
    then (t, false)
    else (let left = erase_first uid route.publishers in
        let t' = store_send_route t label (record route { publishers = left }) in
        ((if is_empty left then drop_send_route t' label else t'), true))

pub remove_send_publisher : RouteTable → Label → HandleUid → RouteTable × Bool
unfolding unpublish get_send_route
remove_send_publisher t label uid = unpublish t label uid (get_send_route t label)

unfoldable pub is_send_publisher : RouteTable → Label → HandleUid → Bool
is_send_publisher t label uid = elim (get_send_route t label) [
  | none ↦ false
  | some route ↦ contains uid route.publishers
]

unfoldable pub is_local_send_subscriber : RouteTable → Label → NodeId → Bool
is_local_send_subscriber t label dst_id = elim (get_send_route t label) [
  | none ↦ false
  | some route ↦
      if is_empty route.local_subscribers then false else contains dst_id route.local_subscribers
]

unfoldable pub is_remote_send_subscriber : RouteTable → Label → NodeId → Bool
is_remote_send_subscriber t label dst_id = elim (get_send_route t label) [
  | none ↦ false
  | some route ↦
      if is_empty route.remote_subscribers then false else contains dst_id route.remote_subscribers
]

pub add_local_send_subscriber : RouteTable → Label → ℕ → NodeId → RouteTable × Bool
unfolding get_send_route is_local_send_subscriber store_send_route
add_local_send_subscriber t label size dst_id = elim (get_send_route t label) [
  | none ↦ (t, false)
  | some route ↦
      if not (route.label_size == size)
      then (t, false)
      else if is_local_send_subscriber t label dst_id
      then (t, false)
      else (
        store_send_route t label
            (record route { local_subscribers = route.local_subscribers ++ (dst_id ∷ []) }),
        true,
      )
]

pub remove_local_send_subscriber : RouteTable → Label → NodeId → RouteTable × Bool
unfolding get_send_route store_send_route
remove_local_send_subscriber t label dst_id = elim (get_send_route t label) [
  | none ↦ (t, false)
  | some route ↦ if not (contains dst_id route.local_subscribers) then (t, false) else (
    store_send_route t label
        (record route { local_subscribers = erase_first dst_id route.local_subscribers }),
    true,
  )
]

pub add_remote_send_subscriber : RouteTable → Label → ℕ → NodeId → RouteTable × Bool
unfolding get_send_route is_remote_send_subscriber store_send_route
add_remote_send_subscriber t label size dst_id = elim (get_send_route t label) [
  | none ↦ (t, false)
  | some route ↦
      if not (route.label_size == size)
      then (t, false)
      else if is_remote_send_subscriber t label dst_id
      then (t, false)
      else (
        store_send_route t label
            (record route { remote_subscribers = route.remote_subscribers ++ (dst_id ∷ []) }),
        true,
      )
]

pub remove_remote_send_subscriber : RouteTable → Label → NodeId → RouteTable × Bool
unfolding get_send_route store_send_route
remove_remote_send_subscriber t label dst_id = elim (get_send_route t label) [
  | none ↦ (t, false)
  | some route ↦ if not (contains dst_id route.remote_subscribers) then (t, false) else (
    store_send_route t label
        (record route { remote_subscribers = erase_first dst_id route.remote_subscribers }),
    true,
  )
]

unfoldable pub snapshot_send_publishers : RouteTable → Label → List HandleUid
snapshot_send_publishers t label = elim (get_send_route t label) [
  | none ↦ []
  | some route ↦ route.publishers
]
