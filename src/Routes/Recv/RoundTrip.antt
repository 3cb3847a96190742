-- ===== src/Routes/Recv/RoundTrip.antt =====
-- Opening and closing a subscriber (route_table.cpp, add_recv_subscriber and remove_recv_subscriber).
use netcomm.Prelude.{
  ◌≡◌, Bool, inl, inr, true, Option, some, erase_first-snoc, contains-snoc, arith, Option-cases,
  subst,
}
use netcomm.Types.{Label, RecvHandle}
use netcomm.Routes.{RecvRoute, RouteTable, get_recv_route}
use netcomm.Routes.Recv.{add_recv_subscriber, remove_recv_subscriber}
use netcomm.Routes.Recv.Laws.{
  Writes, Outcome, done, missing, denied, base_route, accepts_subscriber, subscribed,
  add_recv_subscriber_lem,
}
use netcomm.Routes.Recv.Laws.{unsubscribed, remove_recv_subscriber_lem}
use netcomm.Routes.Recv.Inv.{IsValid, found-IsRoute}

unsubscribed-subscribed :
    (t : RouteTable) (label : Label) (h : RecvHandle)
    → accepts_subscriber t label h ≡ true
    → IsValid t
    → unsubscribed (subscribed (base_route t label h) h) h.uid ≡ get_recv_route t label
unsubscribed-subscribed t label h a valid = elim (Option-cases (get_recv_route t label)) [
  | inl e ↦ ground arith
  | inr (r, e) ↦
      let ok = found-IsRoute t e valid in ground (arith, erase_first-snoc h.uid r.subscribers)
]

Outcome-done :
    {t : RouteTable} {label : Label} {allowed : RecvRoute → Bool} {v : RecvRoute → Option RecvRoute}
    {out : RouteTable × Bool} (r : RecvRoute)
    → get_recv_route t label ≡ some r
    → allowed r ≡ true
    → Outcome t label allowed v out
    → (out.1 ≡ true) × Writes t out.0 label (v r)
Outcome-done {t} {label} {v = v} {out} r e y (done r' e' y' ok w) =
    let same_route : r' ≡ r = cc in (ok, subst (λ x. Writes t out.0 label (v x)) same_route w)
Outcome-done r e y (missing e' o) = cc
Outcome-done {allowed} r e y (denied r' e' n o) = cc

-- If a well-formed table accepts a subscriber, taking it off again gives every lookup back:
-- the route that was made for it is gone, a route that was there has its old subscribers in
-- their old order.
pub remove-add_recv_subscriber :
    (t : RouteTable) (label : Label) (h : RecvHandle) (j : Label)
    → IsValid t
    → accepts_subscriber t label h ≡ true
    → let u = (add_recv_subscriber t label (some h)).0 in
      get_recv_route (remove_recv_subscriber u label h.uid).0 j ≡ get_recv_route t j
remove-add_recv_subscriber t label h j valid a = elim (add_recv_subscriber_lem t label h) [
  | inl (_, _, w) ↦
      let r = subscribed (base_route t label h) h in
      let d =
        Outcome-done r (ground (arith, w.routes label))
          (ground (arith, contains-snoc h.uid h.uid (base_route t label h).subscribers))
          (remove_recv_subscriber_lem (add_recv_subscriber t label (some h)).0 label h.uid) in
      ground (arith, d.1.routes j, w.routes j, unsubscribed-subscribed t label h a valid)
  | inr (n, _) ↦ cc
]
