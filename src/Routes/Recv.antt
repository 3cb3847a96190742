-- ===== src/Routes/Recv.antt =====
-- route_table.cpp, the operations on receive routes. A write through a `RecvRoute*` is a `put`.
pub mod Laws
pub mod Inv
pub mod RoundTrip
use netcomm.Prelude.{
  ℕ, Bool, true, false, not, Option, none, some, List, [], ◌∷◌, ◌++◌, ◌==◌, if◌then◌else◌, is_empty,
  contains, erase_first, put, emplace, erase,
}
use netcomm.Types.{Label, HandleUid, RecvHandle}
use netcomm.Types.Words.{inc64}
use netcomm.Routes.{RecvRoute, RouteTable, get_recv_route, has_recv_route}

pub store_recv_route : RouteTable → Label → RecvRoute → RouteTable
store_recv_route t label r = record t { recv_routes = put label r t.recv_routes }

abbrev pub new_recv_route : Label → RecvHandle → RecvRoute
new_recv_route label h = record { label = label; label_size = h.info.buf_size; subscribers = [] }

create_recv_route : RouteTable → Label → RecvHandle → RouteTable
create_recv_route t label h = record t {
  recv_routes = emplace label (new_recv_route label h) t.recv_routes;
}

-- The table in which `add_recv_subscriber` looks the route up.
ensure_recv_route : RouteTable → Label → RecvHandle → RouteTable
unfolding has_recv_route create_recv_route
ensure_recv_route t label h =
    if has_recv_route t label
    then t
    else (let t' = create_recv_route t label h in record t' { recv_gen = inc64 t'.recv_gen })

subscribe : RouteTable → Label → RecvHandle → Option RecvRoute → RouteTable × Bool
unfolding store_recv_route
subscribe t label h none = (t, false)
subscribe t label h (some route) =
    if not (route.label_size == h.info.buf_size)
    then (t, false)
    else if contains h.uid route.subscribers
    then (t, false)
    else (
      store_recv_route t label (record route { subscribers = route.subscribers ++ (h.uid ∷ []) }),
      true,
    )

unfoldable pub add_recv_subscriber : RouteTable → Label → Option RecvHandle → RouteTable × Bool
unfolding subscribe ensure_recv_route get_recv_route
add_recv_subscriber t label none = (t, false)
add_recv_subscriber t label (some h) =
    let t' = ensure_recv_route t label h in subscribe t' label h (get_recv_route t' label)

pub drop_recv_route : RouteTable → Label → RouteTable
drop_recv_route t label = record t {
  recv_routes = erase label t.recv_routes;
  recv_gen = inc64 t.recv_gen;
}

unsubscribe : RouteTable → Label → HandleUid → Option RecvRoute → RouteTable × Bool
unfolding store_recv_route drop_recv_route
unsubscribe t label uid none = (t, false)
unsubscribe t label uid (some route) =
    if not (contains uid route.subscribers)
    then (t, false)
    else (let left = erase_first uid route.subscribers in
        let t' = store_recv_route t label (record route { subscribers = left }) in
        ((if is_empty left then drop_recv_route t' label else t'), true))

pub remove_recv_subscriber : RouteTable → Label → HandleUid → RouteTable × Bool
unfolding unsubscribe get_recv_route
remove_recv_subscriber t label uid = unsubscribe t label uid (get_recv_route t label)

unfoldable pub is_recv_subscriber : RouteTable → Label → HandleUid → Bool
unfolding get_recv_route
is_recv_subscriber t label uid = elim (get_recv_route t label) [
  | none ↦ false
  | some route ↦ contains uid route.subscribers
]

unfoldable pub snapshot_recv_subscribers : RouteTable → Label → List HandleUid
unfolding get_recv_route
snapshot_recv_subscribers t label = elim (get_recv_route t label) [
  | none ↦ []
  | some route ↦ route.subscribers
]
