-- ===== src/Router/Calls.antt =====
-- Every history of calls on the send side of the router keeps its invariant (router.cpp).
use netcomm.Prelude.{
  ℕ, ◌≡◌, refl, sym, subst, Bool, some, List, [], ◌∷◌, inl, inr, Option-cases, find, arith,
}
use netcomm.Types.{Label, NodeId, HandleUid, SendHandle}
use netcomm.Routes.Send.Inv.{empty_table-IsValid, no_route}
use netcomm.Transports.{SocketHeap}
use netcomm.Router.{
  Router, empty_router, register_send_publisher, unregister_send_publisher, get_send_handle,
  add_local_send_subscriber, add_remote_send_subscriber, remove_local_send_subscriber,
  remove_remote_send_subscriber, upsert_socket, open_send_shm,
}
use netcomm.Router.Inv.{SendInv, register-SendInv}
use netcomm.Router.Closing.{unregister-SendInv}
use netcomm.Router.Peers.{
  add_local-SendInv, add_remote-SendInv, remove_local-SendInv, remove_remote-SendInv,
  upsert_socket-SendInv, open_send_shm-SendInv,
}

-- A client closes a handle by the pointer that it was given; a transport call comes with what the
-- operating system answers.
pub data RouterCall : Type 0 where
  opens_send : SendHandle → RouterCall
  closes_send : HandleUid → RouterCall
  adds_local : Label → ℕ → NodeId → RouterCall
  adds_remote : Label → ℕ → NodeId → RouterCall
  removes_local : Label → NodeId → RouterCall
  removes_remote : Label → NodeId → RouterCall
  connects : SocketHeap → NodeId → ℕ → RouterCall
  opens_shm : NodeId → ℕ → Bool → RouterCall

abbrev pub step : Router → RouterCall → Router
step r (opens_send h) = register_send_publisher r (some h)
step r (closes_send uid) = unregister_send_publisher r (get_send_handle r uid)
step r (adds_local label size id) = add_local_send_subscriber r label size id
step r (adds_remote label size id) = add_remote_send_subscriber r label size id
step r (removes_local label id) = remove_local_send_subscriber r label id
step r (removes_remote label id) = remove_remote_send_subscriber r label id
step r (connects heap id sock) = (upsert_socket r heap id sock).0
step r (opens_shm id shm opened) = (open_send_shm r id shm opened).0

pub run_calls : Router → List RouterCall → Router
run_calls r [] = r
run_calls r (c ∷ cs) = run_calls (step r c) cs

close-SendInv :
    (r : Router) (uid : HandleUid)
    → SendInv r
    → SendInv (unregister_send_publisher r (get_send_handle r uid))
unfolding get_send_handle unregister_send_publisher
close-SendInv r uid inv = elim (Option-cases (find uid r.send_handles)) [
  | inl e ↦ rw e inv
  | inr (h, e) ↦
      let same_uid : h.uid ≡ uid = ground (arith, inv.handles uid) in
      rw e
        (unregister-SendInv r h (subst (λ u. find u r.send_handles ≡ some h) (sym same_uid) e) inv)
]

-- Each call keeps the invariant: routes, open handles and transports agree after it.
pub step-SendInv : (r : Router) (c : RouterCall) → SendInv r → SendInv (step r c)
step-SendInv r (opens_send h) inv = register-SendInv r h inv
step-SendInv r (closes_send uid) inv = close-SendInv r uid inv
step-SendInv r (adds_local label size id) inv = add_local-SendInv inv label id size
step-SendInv r (adds_remote label size id) inv = add_remote-SendInv inv label id size
step-SendInv r (removes_local label id) inv = remove_local-SendInv inv label id
step-SendInv r (removes_remote label id) inv = remove_remote-SendInv inv label id
step-SendInv r (connects heap id sock) inv = upsert_socket-SendInv inv id heap sock
step-SendInv r (opens_shm id shm opened) inv = open_send_shm-SendInv inv id shm opened

run_calls-SendInv : (r : Router) (cs : List RouterCall) → SendInv r → SendInv (run_calls r cs)
unfolding run_calls
run_calls-SendInv r [] inv = inv
run_calls-SendInv r (c ∷ cs) inv = run_calls-SendInv (step r c) cs (step-SendInv r c inv)

pub empty_router-SendInv : SendInv empty_router
unfolding empty_router find
empty_router-SendInv = record {
  routes = empty_table-IsValid;
  handles = λ uid. refl;
  publishers = λ label uid. rw (no_route label);
  locals = λ label id. rw (no_route label);
  remotes = λ label id. rw (no_route label);
}

-- After every history of calls on a new router the send side agrees with itself: each open
-- handle is a publisher of its label, each publisher is an open handle with its label and of
-- its size, each local subscriber has a shared memory block and each remote one a socket.
pub history-SendInv : (cs : List RouterCall) → SendInv (run_calls empty_router cs)
history-SendInv cs = run_calls-SendInv empty_router cs empty_router-SendInv
