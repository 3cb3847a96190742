-- ===== src/Router/Inv.antt =====
-- The invariant that ties the send side of the router together (router.cpp, under the lock).
use netcomm.Prelude.{
  ℕ, ◌≡◌, inl, inr, Bool, true, false, ◌&&◌, Option, none, some, ◌==◌, if◌then◌else◌, contains,
  find, emplace, find-emplace, erase-emplace, arith, Option-cases, contains-snoc,
}
use netcomm.Types.{Label, NodeId, HandleUid, SendHandle}
use netcomm.Routes.{SendRoute, RouteTable, get_send_route}
use netcomm.Routes.Send
use netcomm.Routes.Send.Laws.{
  Writes, base_route, accepts_publisher, published, add_send_publisher_lem,
}
use netcomm.Routes.Send.Inv.{IsValid, call-IsValid, publishes}
use netcomm.Transports
use netcomm.Router.{Router, keep_send_handle, register_send_publisher}

abbrev pub listed : Option SendRoute → HandleUid → Bool
listed none uid = false
listed (some route) uid = contains uid route.publishers

-- An open handle stands under its uid and publishes its label.
abbrev pub handle_ok : RouteTable → HandleUid → Option SendHandle → Bool
handle_ok t uid none = true
handle_ok t uid (some h) = h.uid == uid && listed (get_send_route t h.info.label) uid

abbrev pub owned : Label → ℕ → Option SendHandle → Bool
owned label size none = false
owned label size (some h) = h.info.label == label && h.info.buf_size == size

-- A publisher of a route is an open handle for its label, of its size.
abbrev pub publisher_ok : Label → Option SendRoute → HandleUid → Option SendHandle → Bool
publisher_ok label none uid o = true
publisher_ok label (some route) uid o =
    if contains uid route.publishers then owned label route.label_size o else true

-- A peer of a route has a transport.
abbrev pub local_ok : Option SendRoute → NodeId → Bool → Bool
local_ok none id reached = true
local_ok (some route) id reached = if contains id route.local_subscribers then reached else true

abbrev pub remote_ok : Option SendRoute → NodeId → Bool → Bool
remote_ok none id reached = true
remote_ok (some route) id reached = if contains id route.remote_subscribers then reached else true

pub record SendInv (r : Router) : Type 0 where
  pub routes : IsValid r.routes
  pub handles : (uid : HandleUid) → handle_ok r.routes uid (find uid r.send_handles) ≡ true
  pub publishers :
      (label : Label) (uid : HandleUid)
      → publisher_ok label (get_send_route r.routes label) uid (find uid r.send_handles) ≡ true
  pub locals :
      (label : Label) (id : NodeId)
      → local_ok (get_send_route r.routes label) id (Transports.has_send_shm r.transports id) ≡ true
  pub remotes :
      (label : Label) (id : NodeId)
      → remote_ok (get_send_route r.routes label) id (Transports.has_socket r.transports id) ≡ true

module _ {r : Router} (inv : SendInv r) (h : SendHandle) where
  abbrev label : Label
  label = h.info.label

  module _ (fresh : find h.uid r.send_handles ≡ none) {t : RouteTable}
      (w : Writes r.routes t h.info.label (some (published (base_route r.routes h.info.label h) h)))
      (a : accepts_publisher r.routes h.info.label h ≡ true) where
    registered-handles :
        (uid : HandleUid) → handle_ok t uid (find uid (emplace h.uid h r.send_handles)) ≡ true
    registered-handles uid = elim (Option-cases (find uid r.send_handles)) [
      | inl e ↦ ground (
        arith,
        find-emplace uid h.uid h r.send_handles fresh,
        w.routes label,
        contains-snoc uid h.uid (base_route r.routes label h).publishers,
      )
      | inr (g, e) ↦ ground (
        arith,
        find-emplace uid h.uid h r.send_handles fresh,
        w.routes g.info.label,
        contains-snoc uid h.uid (base_route r.routes label h).publishers,
        inv.handles uid,
      )
    ]

    registered-publishers :
        (j : Label) (uid : HandleUid)
        → publisher_ok j (get_send_route t j) uid (find uid (emplace h.uid h r.send_handles)) ≡ true
    registered-publishers j uid = ground (
      arith,
      find-emplace uid h.uid h r.send_handles fresh,
      w.routes j,
      contains-snoc uid h.uid (base_route r.routes label h).publishers,
      inv.publishers j uid,
    )

    registered-locals :
        (j : Label) (id : NodeId)
        → local_ok (get_send_route t j) id (Transports.has_send_shm r.transports id) ≡ true
    registered-locals j id = ground (arith, w.routes j, inv.locals j id)

    registered-remotes :
        (j : Label) (id : NodeId)
        → remote_ok (get_send_route t j) id (Transports.has_socket r.transports id) ≡ true
    registered-remotes j id = ground (arith, w.routes j, inv.remotes j id)

register_known :
    (r : Router) (h : SendHandle) {g : SendHandle}
    → find h.uid r.send_handles ≡ some g
    → register_send_publisher r (some h) ≡ r
unfolding register_send_publisher
register_known r h e = rw e

pub register_taken :
    (r : Router) (h : SendHandle)
    → find h.uid r.send_handles ≡ none
    → (Send.add_send_publisher r.routes h.info.label (some h)).1 ≡ true
    → register_send_publisher r (some h) ≡ record r {
      routes = (Send.add_send_publisher r.routes h.info.label (some h)).0;
      send_handles = emplace h.uid h r.send_handles;
    }
unfolding register_send_publisher keep_send_handle
register_taken r h fresh added = rw (fresh, added)

-- Registering a handle that the route of its label does not accept leaves the whole router as
-- it was, the open handles included.
pub register_refused :
    (r : Router) (h : SendHandle)
    → accepts_publisher r.routes h.info.label h ≡ false
    → register_send_publisher r (some h) ≡ r
unfolding register_send_publisher keep_send_handle
register_refused r h n = elim (Option-cases (find h.uid r.send_handles)) [
  | inr (g, e) ↦ rw e
  | inl fresh ↦ elim (add_send_publisher_lem r.routes h.info.label h) [
    | inl (a, _, _) ↦ cc
    | inr (_, o) ↦ rw (fresh, o, erase-emplace h.uid h r.send_handles fresh)
  ]
]

-- Opening a publisher keeps the invariant, whether the handle is taken or refused.
pub register-SendInv :
    (r : Router) (h : SendHandle) → SendInv r → SendInv (register_send_publisher r (some h))
register-SendInv r h inv = elim (Option-cases (find h.uid r.send_handles)) [
  | inr (g, e) ↦ rw (register_known r h e) inv
  | inl fresh ↦ elim (add_send_publisher_lem r.routes h.info.label h) [
    | inl (a, added, w) ↦ rw (register_taken r h fresh added) (record {
      routes = call-IsValid r.routes (publishes h.info.label h) inv.routes;
      handles = registered-handles inv h fresh w a;
      publishers = registered-publishers inv h fresh w a;
      locals = registered-locals inv h fresh w a;
      remotes = registered-remotes inv h fresh w a;
    })
    | inr (n, o) ↦ rw (register_refused r h n) inv
  ]
]
