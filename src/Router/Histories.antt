-- ===== src/Router/Histories.antt =====
-- Histories of calls and arrivals on both sides of the router (router.cpp).
use netcomm.Prelude.{
  ℕ, ◌≡◌, refl, sym, subst, some, List, [], ◌∷◌, inl, inr, Option-cases, find, arith,
}
use netcomm.Types.{HandleUid, RecvHandle}
use netcomm.Memory.{Memory}
use netcomm.Delivery.{Message}
use netcomm.Routes.{get_recv_route, get_send_route}
use netcomm.Routes.Sides.{call-recv_routes, recv_call-send_routes}
use netcomm.Routes.Send.Inv.{
  RouteAt as SendRouteAt, publishes, unpublishes, joins_local, leaves_local, joins_remote,
  leaves_remote,
}
use netcomm.Routes.Recv.Inv.{
  RouteAt as RecvRouteAt, empty_table-IsValid, subscribes, unsubscribes, no_recv_route,
}
use netcomm.Router.{
  Router, empty_router, get_recv_handle, register_recv_subscriber, unregister_recv_subscriber,
  register_send_publisher, unregister_send_publisher, keep_send_handle, keep_recv_handle,
  add_local_send_subscriber, add_remote_send_subscriber, remove_local_send_subscriber,
  remove_remote_send_subscriber, upsert_socket, open_send_shm, get_send_handle,
}
use netcomm.Router.Inv.{SendInv}
use netcomm.Router.Calls.{
  RouterCall, opens_send, closes_send, adds_local, adds_remote, removes_local, removes_remote,
  connects, opens_shm, step, step-SendInv, empty_router-SendInv,
}
use netcomm.Router.Subscribers.{RecvInv, register-RecvInv}
use netcomm.Router.Unsubscribing.{unregister-RecvInv}
use netcomm.Router.Arrivals.{arrived, arrived-RecvInv}

-- A client closes a receive handle by the pointer that it was given; a message arrives at a time, with
-- the memory as it is.
pub data AnyCall : Type 0 where
  on_send_side : RouterCall → AnyCall
  opens_recv : RecvHandle → AnyCall
  closes_recv : HandleUid → AnyCall
  arrives : Message → ℕ × ℕ → Memory → AnyCall

abbrev pub any_step : Router → AnyCall → Router
any_step r (on_send_side c) = step r c
any_step r (opens_recv h) = register_recv_subscriber r (some h)
any_step r (closes_recv uid) = unregister_recv_subscriber r (get_recv_handle r uid)
any_step r (arrives msg now m) = arrived r msg now m

unfoldable pub run_any : Router → List AnyCall → Router
run_any r [] = r
run_any r (c ∷ cs) = run_any (any_step r c) cs

-- Both halves of the router agree with themselves.
pub record RouterInv (r : Router) : Type 0 where
  pub send_side : SendInv r
  pub recv_side : RecvInv r

kept-RecvInv :
    {r r' : Router}
    → r'.routes.recv_routes ≡ r.routes.recv_routes
    → r'.recv_handles ≡ r.recv_handles
    → RecvInv r
    → RecvInv r'
unfolding get_recv_route
kept-RecvInv {r} {r'} routes handles inv = record {
  routes = λ label. subst (λ m. RecvRouteAt label (find label m)) (sym routes) (inv.routes label);
  handles = λ uid. ground (arith, routes, handles, inv.handles uid);
  subscribers = λ label uid. rw (routes, handles) (inv.subscribers label uid);
}

kept-SendInv :
    {r r' : Router}
    → r'.routes.send_routes ≡ r.routes.send_routes
    → r'.send_handles ≡ r.send_handles
    → r'.transports ≡ r.transports
    → SendInv r
    → SendInv r'
unfolding get_send_route
kept-SendInv {r} {r'} routes handles transports inv = record {
  routes = λ label. subst (λ m. SendRouteAt label (find label m)) (sym routes) (inv.routes label);
  handles = λ uid. ground (arith, routes, handles, inv.handles uid);
  publishers = λ label uid. rw (routes, handles) (inv.publishers label uid);
  locals = λ label id. rw (routes, transports) (inv.locals label id);
  remotes = λ label id. rw (routes, transports) (inv.remotes label id);
}

-- No call on the send side changes the receive side.
step_keeps :
    (r : Router) (c : RouterCall)
    → ((step r c).routes.recv_routes ≡ r.routes.recv_routes)
      × ((step r c).recv_handles ≡ r.recv_handles)
unfolding register_send_publisher keep_send_handle unregister_send_publisher
    add_local_send_subscriber add_remote_send_subscriber remove_local_send_subscriber
    remove_remote_send_subscriber upsert_socket open_send_shm
step_keeps r (opens_send h) = ground (arith, call-recv_routes r.routes (publishes h.info.label h))
step_keeps r (closes_send uid) = elim (Option-cases (get_send_handle r uid)) [
  | inl e ↦ rw e (refl, refl)
  | inr (h, e) ↦ rw e (ground (arith, call-recv_routes r.routes (unpublishes h.info.label h.uid)))
]
step_keeps r (adds_local label size id) =
    ground (arith, call-recv_routes r.routes (joins_local label size id))
step_keeps r (adds_remote label size id) =
    ground (arith, call-recv_routes r.routes (joins_remote label size id))
step_keeps r (removes_local label id) =
    ground (arith, call-recv_routes r.routes (leaves_local label id))
step_keeps r (removes_remote label id) =
    ground (arith, call-recv_routes r.routes (leaves_remote label id))
step_keeps r (connects heap id sock) = (refl, refl)
step_keeps r (opens_shm id shm opened) = (refl, refl)

register_keeps :
    (r : Router) (h : RecvHandle) → SendInv r → SendInv (register_recv_subscriber r (some h))
unfolding register_recv_subscriber keep_recv_handle
register_keeps r h inv =
    kept-SendInv (ground (arith, recv_call-send_routes r.routes (subscribes h.info.label h)))
      (ground arith) (ground arith) inv

unregister_keeps :
    (r : Router) (h : RecvHandle) → SendInv r → SendInv (unregister_recv_subscriber r (some h))
unfolding unregister_recv_subscriber
unregister_keeps r h inv =
    kept-SendInv (ground (arith, recv_call-send_routes r.routes (unsubscribes h.info.label h.uid)))
      (ground arith) (ground arith) inv

close_keeps :
    (r : Router) (uid : HandleUid)
    → RouterInv r
    → RouterInv (unregister_recv_subscriber r (get_recv_handle r uid))
unfolding get_recv_handle unregister_recv_subscriber
close_keeps r uid inv = elim (Option-cases (find uid r.recv_handles)) [
  | inl e ↦ rw e inv
  | inr (h, e) ↦
      let same_uid : h.uid ≡ uid = ground (arith, inv.recv_side.handles uid) in
      rw e (record {
        send_side = unregister_keeps r h inv.send_side;
        recv_side =
            unregister-RecvInv r h (subst (λ u. find u r.recv_handles ≡ some h) (sym same_uid) e)
              inv.recv_side;
      })
]

-- Each call keeps the invariant of both sides.
pub any_step-RouterInv : (r : Router) (c : AnyCall) → RouterInv r → RouterInv (any_step r c)
any_step-RouterInv r (on_send_side c) inv = record {
  send_side = step-SendInv r c inv.send_side;
  recv_side = kept-RecvInv (step_keeps r c).0 (step_keeps r c).1 inv.recv_side;
}
any_step-RouterInv r (opens_recv h) inv = record {
  send_side = register_keeps r h inv.send_side;
  recv_side = register-RecvInv r h inv.recv_side;
}
any_step-RouterInv r (closes_recv uid) inv = close_keeps r uid inv
any_step-RouterInv r (arrives msg now m) inv = record {
  send_side = kept-SendInv refl refl refl inv.send_side;
  recv_side = arrived-RecvInv r msg now m inv.recv_side;
}

run_any-RouterInv : (r : Router) (cs : List AnyCall) → RouterInv r → RouterInv (run_any r cs)
unfolding run_any
run_any-RouterInv r [] inv = inv
run_any-RouterInv r (c ∷ cs) inv = run_any-RouterInv (any_step r c) cs (any_step-RouterInv r c inv)

pub empty_router-RouterInv : RouterInv empty_router
unfolding empty_router find get_recv_route
empty_router-RouterInv = record {
  send_side = empty_router-SendInv;
  recv_side = record {
    routes = empty_table-IsValid;
    handles = λ uid. refl;
    subscribers = λ label uid. rw (no_recv_route label) refl;
  };
}

-- After every history of calls and arrivals on a new router, the send side agrees with itself, and so
-- does the receive side: each open receive handle subscribes to its label, each subscriber of a label
-- is an open handle for that label with slots of its size, and no label lists one twice.
pub history-RouterInv : (cs : List AnyCall) → RouterInv (run_any empty_router cs)
history-RouterInv cs = run_any-RouterInv empty_router cs empty_router-RouterInv
