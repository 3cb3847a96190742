-- ===== src/Router/Deliveries.antt =====
-- The next message that arrives after a history of calls (router.cpp).
use netcomm.Prelude.{
  ℕ, ◌≡◌, refl, sym, ap, ◌∙◌, false, not, Option, none, some, List, [], ◌==◌, if◌then◌else◌, inl,
  inr, Option-cases, Bool-cases, on_if, find, contains, length, is_empty, Distinct, arith, ==→≡,
}
use netcomm.Types.{Label, HandleUid, RecvHandle}
use netcomm.Memory.{Memory}
use netcomm.Delivery.{Message, deliver}
use netcomm.Routes.{RecvRoute, RouteTable, get_recv_route}
use netcomm.Routes.Recv.{snapshot_recv_subscribers}
use netcomm.Routes.Recv.Inv.{RouteAt}
use netcomm.Router.{Router, empty_router}
use netcomm.Router.Subscribers.{RecvInv}
use netcomm.Router.Distribution.{
  Distributed, unchanged, distribute_on, distribute_recvd_label, deliver_all-other,
  distribute_recvd_label_lem,
}
use netcomm.Router.Arrivals.{arrived}
use netcomm.Router.Histories.{AnyCall, run_any, history-RouterInv}

-- A handle that the label does not list is left as it was, whatever becomes of the message.
unlisted_unchanged :
    (r : Router) (msg : Message) (now : ℕ × ℕ) (m : Memory) (uid : HandleUid)
    → contains uid (snapshot_recv_subscribers r.routes msg.label) ≡ false
    → find uid (distribute_recvd_label r msg now m).handles ≡ find uid r.recv_handles
unfolding distribute_recvd_label
unlisted_unchanged r msg now m uid out =
    on_if Same (is_empty msg.bytes) (λ y. refl) (λ n. on_route (get_recv_route r.routes msg.label))
  where
    Same : Distributed → Type 0
    Same d = find uid d.handles ≡ find uid r.recv_handles

    on_route : (o : Option RecvRoute) → Same (distribute_on r msg now m o)
    on_route none = refl
    on_route (some route) =
        on_if Same (not (route.label_size == length msg.bytes)) (λ y. refl)
          (λ n.
            on_if Same (is_empty (snapshot_recv_subscribers r.routes msg.label)) (λ y. refl)
              (λ k.
                deliver_all-other msg now (snapshot_recv_subscribers r.routes msg.label)
                  (unchanged r.recv_handles m) uid out))

abbrev subscribers_of : Option RecvRoute → List HandleUid
subscribers_of none = []
subscribers_of (some route) = route.subscribers

snapshot_is :
    (t : RouteTable) (label : Label)
    → snapshot_recv_subscribers t label ≡ subscribers_of (get_recv_route t label)
unfolding snapshot_recv_subscribers get_recv_route
snapshot_is t label = ground arith

subscribers-Distinct :
    (label : Label) (o : Option RecvRoute) → RouteAt label o → Distinct (subscribers_of o)
subscribers-Distinct label none ok = tt
subscribers-Distinct label (some route) ok = ok.subscribers

module _ (r : Router) (inv : RecvInv r) (msg : Message) (uid : HandleUid) (h : RecvHandle)
    (open_handle : find uid r.recv_handles ≡ some h) where
  pub snapshot-Distinct : Distinct (snapshot_recv_subscribers r.routes msg.label)
  snapshot-Distinct =
      rw (snapshot_is r.routes msg.label)
        (subscribers-Distinct msg.label (get_recv_route r.routes msg.label) (inv.routes msg.label))

  -- An open handle is listed exactly by its own label.
  pub listed_by_label :
      contains uid (snapshot_recv_subscribers r.routes msg.label) ≡ (h.info.label == msg.label)
  listed_by_label = elim (Option-cases (get_recv_route r.routes msg.label)) [
    | inl e ↦ ground (arith, e, open_handle, inv.handles uid, snapshot_is r.routes msg.label)
    | inr (route, e) ↦ ground (
      arith,
      e,
      open_handle,
      inv.handles uid,
      inv.subscribers msg.label uid,
      snapshot_is r.routes msg.label,
    )
  ]

  -- The route of an open handle's label has its size.
  pub own_route :
      h.info.label ≡ msg.label
      → (route : RecvRoute) × (get_recv_route r.routes msg.label ≡ some route)
        × (route.label_size ≡ h.info.buf_size)
  own_route e = elim (Option-cases (get_recv_route r.routes msg.label)) [
    | inl none_at ↦ absurd (ground (arith, e, none_at, open_handle, inv.handles uid))
    | inr (route, at_label) ↦ (
      route,
      at_label,
      ground (arith, e, at_label, open_handle, inv.handles uid, inv.subscribers msg.label uid),
    )
  ]

-- After every history of calls and arrivals on a new router, the next message, if it is not empty, is
-- delivered exactly once to each open handle for its label whose slots have its size, and no open
-- handle for another label changes.
pub delivered_by_label :
    (cs : List AnyCall) (msg : Message) (now : ℕ × ℕ) (m : Memory) (uid : HandleUid)
    (h : RecvHandle)
    → find uid (run_any empty_router cs).recv_handles ≡ some h
    → length msg.bytes ≡ h.info.buf_size
    → is_empty msg.bytes ≡ false
    → find uid (arrived (run_any empty_router cs) msg now m).recv_handles
      ≡ (if h.info.label == msg.label then some (deliver h msg m now).handle else some h)
delivered_by_label cs msg now m uid h opened size some_data =
    let r = run_any empty_router cs in
    let inv = (history-RouterInv cs).recv_side in
    let listed = listed_by_label r inv msg uid h opened in
    elim (Bool-cases (h.info.label == msg.label)) [
      | inl same_label ↦
          let (route, at_label, sized) =
            own_route r inv msg uid h opened (==→≡ h.info.label msg.label same_label) in
          distribute_recvd_label_lem r msg now m uid h route at_label
            (snapshot-Distinct r inv msg uid h opened) opened (size ∙ sym sized) some_data
          ∙ ap (λ b. if b then some (deliver h msg m now).handle else some h) listed
      | inr other ↦ rw other (unlisted_unchanged r msg now m uid (listed ∙ other) ∙ opened)
    ]
