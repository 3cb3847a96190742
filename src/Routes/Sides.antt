-- ===== src/Routes/Sides.antt =====
-- The two sides of the route table (route_table.cpp): what the calls of one do to the other.
use netcomm.Prelude.{◌≡◌, ap, inl, inr, Bool, Option}
use netcomm.Types.{Label}
use netcomm.Routes.{SendRoute, RecvRoute, RouteTable}
use netcomm.Routes.Send.Inv.{
  SendCall, publishes, unpublishes, joins_local, leaves_local, joins_remote, leaves_remote, call,
}
use netcomm.Routes.Send
use netcomm.Routes.Send.Laws.{add_send_publisher_lem}
use netcomm.Routes.Send.Removal.{
  remove_send_publisher_lem, add_local_send_subscriber_lem, remove_local_send_subscriber_lem,
  add_remote_send_subscriber_lem, remove_remote_send_subscriber_lem,
}
use netcomm.Routes.Recv.Inv.{RecvCall, subscribes, unsubscribes, recv_call}
use netcomm.Routes.Recv
use netcomm.Routes.Recv.Laws.{add_recv_subscriber_lem, remove_recv_subscriber_lem}

sent_kept :
    {t : RouteTable} {label : Label} {allowed : SendRoute → Bool} {v : SendRoute → Option SendRoute}
    {out : RouteTable × Bool}
    → Send.Laws.Outcome t label allowed v out
    → out.0.recv_routes ≡ t.recv_routes
sent_kept (Send.Laws.Outcome.done r e y ok w) = w.recv_routes
sent_kept (Send.Laws.Outcome.missing e o) = ap (λ x. x.0.recv_routes) o
sent_kept (Send.Laws.Outcome.denied r e n o) = ap (λ x. x.0.recv_routes) o

-- No call on the send side changes a receive route.
pub call-recv_routes : (t : RouteTable) (c : SendCall) → (call t c).0.recv_routes ≡ t.recv_routes
call-recv_routes t (publishes label h) = elim (add_send_publisher_lem t label h) [
  | inl (a, _, w) ↦ w.recv_routes
  | inr (_, o) ↦ ap (λ x. x.0.recv_routes) o
]
call-recv_routes t (unpublishes label uid) = sent_kept (remove_send_publisher_lem t label uid)
call-recv_routes t (joins_local label size id) =
    sent_kept (add_local_send_subscriber_lem t label size id)
call-recv_routes t (leaves_local label id) = sent_kept (remove_local_send_subscriber_lem t label id)
call-recv_routes t (joins_remote label size id) =
    sent_kept (add_remote_send_subscriber_lem t label size id)
call-recv_routes t (leaves_remote label id) =
    sent_kept (remove_remote_send_subscriber_lem t label id)

received_kept :
    {t : RouteTable} {label : Label} {allowed : RecvRoute → Bool} {v : RecvRoute → Option RecvRoute}
    {out : RouteTable × Bool}
    → Recv.Laws.Outcome t label allowed v out
    → out.0.send_routes ≡ t.send_routes
received_kept (Recv.Laws.Outcome.done r e y ok w) = w.send_routes
received_kept (Recv.Laws.Outcome.missing e o) = ap (λ x. x.0.send_routes) o
received_kept (Recv.Laws.Outcome.denied r e n o) = ap (λ x. x.0.send_routes) o

-- No call on the receive side changes a send route.
pub recv_call-send_routes :
    (t : RouteTable) (c : RecvCall) → (recv_call t c).0.send_routes ≡ t.send_routes
recv_call-send_routes t (subscribes label h) = elim (add_recv_subscriber_lem t label h) [
  | inl (a, _, w) ↦ w.send_routes
  | inr (_, o) ↦ ap (λ x. x.0.send_routes) o
]
recv_call-send_routes t (unsubscribes label uid) =
    received_kept (remove_recv_subscriber_lem t label uid)
