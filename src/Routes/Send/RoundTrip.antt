-- ===== src/Routes/Send/RoundTrip.antt =====
-- Opening and closing a publisher (route_table.cpp, add_send_publisher and remove_send_publisher).
use netcomm.Prelude.{
  ◌≡◌, Bool, inl, inr, true, Option, some, erase_first-snoc, contains-snoc, arith, Option-cases,
  subst,
}
use netcomm.Types.{Label, SendHandle}
use netcomm.Routes.{SendRoute, RouteTable, get_send_route}
use netcomm.Routes.Send.{add_send_publisher, remove_send_publisher}
use netcomm.Routes.Send.Laws.{
  Writes, Outcome, done, missing, denied, base_route, accepts_publisher, published,
  add_send_publisher_lem,
}
use netcomm.Routes.Send.Removal.{unpublished, remove_send_publisher_lem}
use netcomm.Routes.Send.Inv.{IsValid, found-IsRoute}

unpublished-published :
    (t : RouteTable) (label : Label) (h : SendHandle)
    → accepts_publisher t label h ≡ true
    → IsValid t
    → unpublished (published (base_route t label h) h) h.uid ≡ get_send_route t label
unpublished-published t label h a valid = elim (Option-cases (get_send_route t label)) [
  | inl e ↦ ground arith
  | inr (r, e) ↦
      let ok = found-IsRoute t e valid in ground (arith, erase_first-snoc h.uid r.publishers)
]

pub Outcome-done :
    {t : RouteTable} {label : Label} {allowed : SendRoute → Bool} {v : SendRoute → Option SendRoute}
    {out : RouteTable × Bool} (r : SendRoute)
    → get_send_route t label ≡ some r
    → allowed r ≡ true
    → Outcome t label allowed v out
    → (out.1 ≡ true) × Writes t out.0 label (v r)
Outcome-done {t} {label} {v = v} {out} r e y (done r' e' y' ok w) =
    let same_route : r' ≡ r = cc in (ok, subst (λ x. Writes t out.0 label (v x)) same_route w)
Outcome-done r e y (missing e' o) = cc
Outcome-done {allowed} r e y (denied r' e' n o) = cc

-- If a well-formed table accepts a publisher, taking it off again gives every lookup back: the
-- route that was made for it is gone, a route that was there has its old publishers in their
-- old order.
pub remove-add_send_publisher :
    (t : RouteTable) (label : Label) (h : SendHandle) (j : Label)
    → IsValid t
    → accepts_publisher t label h ≡ true
    → let u = (add_send_publisher t label (some h)).0 in
      get_send_route (remove_send_publisher u label h.uid).0 j ≡ get_send_route t j
remove-add_send_publisher t label h j valid a = elim (add_send_publisher_lem t label h) [
  | inl (_, _, w) ↦
      let r = published (base_route t label h) h in
      let d =
        Outcome-done r (ground (arith, w.routes label))
          (ground (arith, contains-snoc h.uid h.uid (base_route t label h).publishers))
          (remove_send_publisher_lem (add_send_publisher t label (some h)).0 label h.uid) in
      ground (arith, d.1.routes j, w.routes j, unpublished-published t label h a valid)
  | inr (n, _) ↦ cc
]
