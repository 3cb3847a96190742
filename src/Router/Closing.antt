-- ===== src/Router/Closing.antt =====
-- Closing a publisher keeps the invariant of the send side (router.cpp, unregister_send_publisher).
use netcomm.Prelude.{
  ◌≡◌, ◌≢◌, inl, inr, true, some, contains, erase_first, find, erase, find-erase, arith,
  Option-cases, contains-erase_first, Distinct, is_empty_of_contains,
}
use netcomm.Types.{Label, NodeId, HandleUid, SendHandle}
use netcomm.Routes.{SendRoute, RouteTable, get_send_route}
use netcomm.Routes.Send
use netcomm.Routes.Send.Laws.{Writes}
use netcomm.Routes.Send.Removal.{unpublished, remove_send_publisher_lem}
use netcomm.Routes.Send.Inv.{found-IsRoute, call-IsValid, unpublishes}
use netcomm.Routes.Send.RoundTrip.{Outcome-done}
use netcomm.Transports
use netcomm.Transports.{SocketHeap}
use netcomm.Router.{Router, unregister_send_publisher}
use netcomm.Router.Inv.{SendInv, handle_ok, publisher_ok, local_ok, remote_ok}

module _ {r : Router} (inv : SendInv r) (h : SendHandle) {route : SendRoute} {t : RouteTable}
    (open_handle : find h.uid r.send_handles ≡ some h)
    (at_label : get_send_route r.routes h.info.label ≡ some route)
    (w : Writes r.routes t h.info.label (unpublished route h.uid))
    (d : Distinct route.publishers) where
  closed-handles :
      (uid : HandleUid) → handle_ok t uid (find uid (erase h.uid r.send_handles)) ≡ true
  closed-handles uid = elim (Option-cases (find uid r.send_handles)) [
    | inl e ↦ ground (arith, find-erase uid h.uid r.send_handles)
    | inr (g, e) ↦ ground (
      arith,
      find-erase uid h.uid r.send_handles,
      w.routes g.info.label,
      inv.handles uid,
      contains-erase_first uid h.uid route.publishers d,
      is_empty_of_contains uid (erase_first h.uid route.publishers),
    )
  ]

  closed-publishers :
      (j : Label) (uid : HandleUid)
      → publisher_ok j (get_send_route t j) uid (find uid (erase h.uid r.send_handles)) ≡ true
  closed-publishers j uid = ground (
    arith,
    find-erase uid h.uid r.send_handles,
    w.routes j,
    inv.publishers j uid,
    contains-erase_first uid h.uid route.publishers d,
    inv.handles h.uid,
  )

  closed-locals :
      (j : Label) (id : NodeId)
      → local_ok (get_send_route t j) id (Transports.has_send_shm r.transports id) ≡ true
  closed-locals j id = ground (arith, w.routes j, inv.locals j id)

  closed-remotes :
      (j : Label) (id : NodeId)
      → remote_ok (get_send_route t j) id (Transports.has_socket r.transports id) ≡ true
  closed-remotes j id = ground (arith, w.routes j, inv.remotes j id)

unregister_found :
    (r : Router) (h : SendHandle)
    → find h.uid r.send_handles ≡ some h
    → unregister_send_publisher r (some h) ≡ record r {
      routes = (Send.remove_send_publisher r.routes h.info.label h.uid).0;
      send_handles = erase h.uid r.send_handles;
    }
unfolding unregister_send_publisher
unregister_found r h e = ground arith

-- Closing a handle by a pointer whose uid is open under another object changes nothing.
pub unregister_foreign :
    (r : Router) (h owned : SendHandle)
    → find h.uid r.send_handles ≡ some owned
    → owned.addr ≢ h.addr
    → unregister_send_publisher r (some h) ≡ r
unfolding unregister_send_publisher
unregister_foreign r h owned e ne = ground arith

handle_route :
    {r : Router} (inv : SendInv r) (h : SendHandle)
    → find h.uid r.send_handles ≡ some h
    → (route : SendRoute) × (get_send_route r.routes h.info.label ≡ some route)
      × (contains h.uid route.publishers ≡ true)
handle_route {r} inv h e = elim (Option-cases (get_send_route r.routes h.info.label)) [
  | inl n ↦ absurd (ground (arith, inv.handles h.uid))
  | inr (route, s) ↦ (route, s, ground (arith, inv.handles h.uid))
]

-- Closing an open publisher keeps the invariant.
pub unregister-SendInv :
    (r : Router) (h : SendHandle)
    → find h.uid r.send_handles ≡ some h
    → SendInv r
    → SendInv (unregister_send_publisher r (some h))
unregister-SendInv r h e inv =
    let (route, s, m) = handle_route inv h e in
    let o = Outcome-done route s m (remove_send_publisher_lem r.routes h.info.label h.uid) in
    let d = (found-IsRoute r.routes s inv.routes).publishers in
    rw (unregister_found r h e) (record {
      routes = call-IsValid r.routes (unpublishes h.info.label h.uid) inv.routes;
      handles = closed-handles inv h e s o.1 d;
      publishers = closed-publishers inv h e s o.1 d;
      locals = closed-locals inv h e s o.1 d;
      remotes = closed-remotes inv h e s o.1 d;
    })
