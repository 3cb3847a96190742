-- ===== src/Router/Unsubscribing.antt =====
-- Closing a subscriber and the invariant of the receive side (router.cpp, unregister_recv_subscriber).
use netcomm.Prelude.{
  ◌≡◌, inl, inr, Bool, true, some, contains, erase_first, find, erase, find-erase, arith,
  Option-cases, contains-erase_first, Distinct, is_empty_of_contains,
}
use netcomm.Types.{Label, HandleUid, RecvHandle}
use netcomm.Routes.{RecvRoute, RouteTable, get_recv_route}
use netcomm.Routes.Recv
use netcomm.Routes.Recv.Laws.{
  Writes, Outcome, done, missing, denied, unsubscribed, remove_recv_subscriber_lem,
}
use netcomm.Routes.Recv.Inv.{IsValid, recv_call-IsValid, unsubscribes, found-IsRoute}
use netcomm.Router.{Router, unregister_recv_subscriber}
use netcomm.Router.Subscribers.{RecvInv, recv_handle_ok, subscriber_ok}

module _ {r : Router} (inv : RecvInv r) (h : RecvHandle)
    (open_handle : find h.uid r.recv_handles ≡ some h) where
  module _ {route : RecvRoute} {t : RouteTable}
      (at_label : get_recv_route r.routes h.info.label ≡ some route)
      (w : Writes r.routes t h.info.label (unsubscribed route h.uid)) where
    left-handles :
        Distinct route.subscribers
        → (uid : HandleUid) → recv_handle_ok t uid (find uid (erase h.uid r.recv_handles)) ≡ true
    left-handles d uid = elim (Option-cases (find uid r.recv_handles)) [
      | inl e ↦ ground (arith, find-erase uid h.uid r.recv_handles)
      | inr (g, e) ↦ ground (
        arith,
        find-erase uid h.uid r.recv_handles,
        w.routes g.info.label,
        inv.handles uid,
        contains-erase_first uid h.uid route.subscribers d,
        is_empty_of_contains uid (erase_first h.uid route.subscribers),
      )
    ]

    left-subscribers :
        Distinct route.subscribers
        → (j : Label) (uid : HandleUid)
        → subscriber_ok j (get_recv_route t j) uid (find uid (erase h.uid r.recv_handles)) ≡ true
    left-subscribers d j uid = ground (
      arith,
      find-erase uid h.uid r.recv_handles,
      w.routes j,
      inv.subscribers j uid,
      contains-erase_first uid h.uid route.subscribers d,
      inv.handles h.uid,
    )

  closed-RecvInv :
      {out : RouteTable × Bool}
      → Outcome r.routes h.info.label
          (λ x. contains h.uid x.subscribers)
          (λ x. unsubscribed x h.uid)
          out
      → IsValid out.0
      → RecvInv (record r { recv_handles = erase h.uid r.recv_handles; routes = out.0 })
  closed-RecvInv (done route s m ok w) valid = record {
    routes = valid;
    handles = left-handles s w (found-IsRoute r.routes s inv.routes).subscribers;
    subscribers = left-subscribers s w (found-IsRoute r.routes s inv.routes).subscribers;
  }
  closed-RecvInv (missing e o) valid = absurd (ground (arith, e, inv.handles h.uid, open_handle))
  closed-RecvInv (denied route s n o) valid =
      absurd (ground (arith, s, n, inv.handles h.uid, open_handle))

unsubscribed_router :
    (r : Router) (h : RecvHandle)
    → find h.uid r.recv_handles ≡ some h
    → unregister_recv_subscriber r (some h) ≡ record r {
      recv_handles = erase h.uid r.recv_handles;
      routes = (Recv.remove_recv_subscriber r.routes h.info.label h.uid).0;
    }
unfolding unregister_recv_subscriber
unsubscribed_router r h e = ground arith

-- Closing an open handle keeps the invariant.
pub unregister-RecvInv :
    (r : Router) (h : RecvHandle)
    → find h.uid r.recv_handles ≡ some h
    → RecvInv r
    → RecvInv (unregister_recv_subscriber r (some h))
unregister-RecvInv r h e inv = rw (unsubscribed_router r h e) (
    closed-RecvInv inv h e (remove_recv_subscriber_lem r.routes h.info.label h.uid)
      (recv_call-IsValid r.routes (unsubscribes h.info.label h.uid) inv.routes))
