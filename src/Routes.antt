-- ===== src/Routes.antt =====
-- eROIL/src/router/route_table.{h,cpp}: the labels that this node sends and receives, with the
-- publishers, subscribers and peers of each. The lookups stand here, the operations on send routes
-- in Routes/Send, on receive routes in Routes/Recv, the label lists in Routes/Labels.
pub mod Send
pub mod Recv
pub mod Labels
pub mod Sides
use netcomm.Prelude.{ℕ, Bool, Option, List, [], is_some, Map, find}
use netcomm.Types.{Label, NodeId, HandleUid}

pub record SendRoute : Type 0 where
  pub label : Label
  pub label_size : ℕ
  pub publishers : List HandleUid
  pub remote_subscribers : List NodeId
  pub local_subscribers : List NodeId

pub record RecvRoute : Type 0 where
  pub label : Label
  pub label_size : ℕ
  pub subscribers : List HandleUid

pub record RouteTable : Type 0 where
  pub send_routes : Map SendRoute
  pub recv_routes : Map RecvRoute
  pub send_gen : ℕ
  pub recv_gen : ℕ

unfoldable pub empty_table : RouteTable
empty_table = record { send_routes = []; recv_routes = []; send_gen = 1; recv_gen = 1 }

unfoldable pub get_send_route : RouteTable → Label → Option SendRoute
get_send_route t label = find label t.send_routes

unfoldable pub get_recv_route : RouteTable → Label → Option RecvRoute
get_recv_route t label = find label t.recv_routes

pub has_send_route : RouteTable → Label → Bool
unfolding get_send_route
has_send_route t label = is_some (get_send_route t label)

pub has_recv_route : RouteTable → Label → Bool
unfolding get_recv_route
has_recv_route t label = is_some (get_recv_route t label)
