-- ===== src/Router/Subscribers.antt =====
-- The invariant that ties the receive side of the router together (router.cpp, under the lock).
use netcomm.Prelude.{
  ◌≡◌, ap, ◌∙◌, inl, inr, Bool, true, false, ◌&&◌, Option, none, some, ◌==◌, if◌then◌else◌,
  contains, find, emplace, find-emplace, erase-emplace, arith, Option-cases, contains-snoc,
}
use netcomm.Types.{Label, HandleUid, RecvHandle}
use netcomm.Routes.{RecvRoute, RouteTable, get_recv_route}
use netcomm.Routes.Recv
use netcomm.Routes.Recv.Laws.{
  Writes, base_route, accepts_subscriber, subscribed, add_recv_subscriber_accepted,
  add_recv_subscriber_lem,
}
use netcomm.Routes.Recv.Inv.{IsValid, recv_call-IsValid, subscribes}
use netcomm.Router.{Router, keep_recv_handle, register_recv_subscriber}

abbrev pub subscribes_to : Option RecvRoute → HandleUid → Bool
subscribes_to none uid = false
subscribes_to (some route) uid = contains uid route.subscribers

-- An open handle stands under its uid and subscribes to its label.
abbrev pub recv_handle_ok : RouteTable → HandleUid → Option RecvHandle → Bool
recv_handle_ok t uid none = true
recv_handle_ok t uid (some h) = h.uid == uid && subscribes_to (get_recv_route t h.info.label) uid

abbrev pub reads : Label → Option RecvRoute → Option RecvHandle → Bool
reads label none o = false
reads label (some route) none = false
reads label (some route) (some h) = h.info.label == label && h.info.buf_size == route.label_size

-- A subscriber of a route is an open handle for its label, with slots of its size.
abbrev pub subscriber_ok : Label → Option RecvRoute → HandleUid → Option RecvHandle → Bool
subscriber_ok label route uid o = if subscribes_to route uid then reads label route o else true

pub record RecvInv (r : Router) : Type 0 where
  pub routes : IsValid r.routes
  pub handles : (uid : HandleUid) → recv_handle_ok r.routes uid (find uid r.recv_handles) ≡ true
  pub subscribers :
      (label : Label) (uid : HandleUid)
      → subscriber_ok label (get_recv_route r.routes label) uid (find uid r.recv_handles) ≡ true

module _ {r : Router} (inv : RecvInv r) (h : RecvHandle) (fresh : find h.uid r.recv_handles ≡ none)
    {t : RouteTable}
    (w : Writes r.routes t h.info.label (some (subscribed (base_route r.routes h.info.label h) h)))
    (a : accepts_subscriber r.routes h.info.label h ≡ true) where
  opened-handles :
      (uid : HandleUid) → recv_handle_ok t uid (find uid (emplace h.uid h r.recv_handles)) ≡ true
  opened-handles uid = elim (Option-cases (find uid r.recv_handles)) [
    | inl e ↦ ground (
      arith,
      find-emplace uid h.uid h r.recv_handles fresh,
      w.routes h.info.label,
      contains-snoc uid h.uid (base_route r.routes h.info.label h).subscribers,
    )
    | inr (g, e) ↦ ground (
      arith,
      find-emplace uid h.uid h r.recv_handles fresh,
      w.routes g.info.label,
      contains-snoc uid h.uid (base_route r.routes h.info.label h).subscribers,
      inv.handles uid,
    )
  ]

  opened-subscribers :
      (j : Label) (uid : HandleUid)
      → subscriber_ok j (get_recv_route t j) uid (find uid (emplace h.uid h r.recv_handles)) ≡ true
  opened-subscribers j uid = ground (
    arith,
    find-emplace uid h.uid h r.recv_handles fresh,
    w.routes j,
    contains-snoc uid h.uid (base_route r.routes h.info.label h).subscribers,
    inv.subscribers j uid,
  )

known_subscriber :
    (r : Router) (h : RecvHandle) {g : RecvHandle}
    → find h.uid r.recv_handles ≡ some g
    → register_recv_subscriber r (some h) ≡ r
unfolding register_recv_subscriber
known_subscriber r h e = rw e

-- A handle under a new uid that the route of its label accepts.
pub subscriber_taken :
    (r : Router) (h : RecvHandle)
    → find h.uid r.recv_handles ≡ none
    → (Recv.add_recv_subscriber r.routes h.info.label (some h)).1 ≡ true
    → register_recv_subscriber r (some h) ≡ record r {
      routes = (Recv.add_recv_subscriber r.routes h.info.label (some h)).0;
      recv_handles = emplace h.uid h r.recv_handles;
    }
unfolding register_recv_subscriber keep_recv_handle
subscriber_taken r h fresh added = rw (fresh, added)

-- A handle that the route does not accept leaves the whole router as it was.
pub subscriber_refused :
    (r : Router) (h : RecvHandle)
    → find h.uid r.recv_handles ≡ none
    → Recv.add_recv_subscriber r.routes h.info.label (some h) ≡ (r.routes, false)
    → register_recv_subscriber r (some h) ≡ r
unfolding register_recv_subscriber keep_recv_handle
subscriber_refused r h fresh o = rw (fresh, o, erase-emplace h.uid h r.recv_handles fresh)

-- Opening a subscriber keeps the invariant, whether the handle is taken or refused.
pub register-RecvInv :
    (r : Router) (h : RecvHandle) → RecvInv r → RecvInv (register_recv_subscriber r (some h))
register-RecvInv r h inv = elim (Option-cases (find h.uid r.recv_handles)) [
  | inr (g, e) ↦ rw (known_subscriber r h e) inv
  | inl fresh ↦ elim (add_recv_subscriber_lem r.routes h.info.label h) [
    | inl (a, added, w) ↦ rw (subscriber_taken r h fresh added) (record {
      routes = recv_call-IsValid r.routes (subscribes h.info.label h) inv.routes;
      handles = opened-handles inv h fresh w a;
      subscribers = opened-subscribers inv h fresh w a;
    })
    | inr (n, o) ↦ rw (subscriber_refused r h fresh o) inv
  ]
]

-- A subscriber under a new uid that the route of its label accepts is open afterwards.
pub opened_subscriber :
    (r : Router) (h : RecvHandle)
    → find h.uid r.recv_handles ≡ none
    → accepts_subscriber r.routes h.info.label h ≡ true
    → find h.uid (register_recv_subscriber r (some h)).recv_handles ≡ some h
opened_subscriber r h fresh a =
    ap (λ x. find h.uid x.recv_handles)
      (subscriber_taken r h fresh (add_recv_subscriber_accepted r.routes h.info.label h a).0)
    ∙ ground (arith, find-emplace h.uid h.uid h r.recv_handles fresh)
