-- ===== src/Routes/Send/Laws.antt =====
-- What each operation on send routes does to the lookup of every label (route_table.cpp).
use netcomm.Prelude.{
  ◌≡◌, refl, ◌∙◌, ◌⊎◌, inl, inr, Bool, true, false, ◌&&◌, not, Option, none, some, [], ◌∷◌, ◌++◌,
  ◌==◌, if◌then◌else◌, is_some, same, contains, find-put, find-emplace, arith, Bool-cases,
  Option-cases,
}
use netcomm.Types.{Label, SendHandle}
use netcomm.Types.Words.{inc64}
use netcomm.Routes.{SendRoute, RouteTable, get_send_route, has_send_route}
use netcomm.Routes.Send.{
  store_send_route, new_send_route, ensure_send_route, create_send_route, publish,
  add_send_publisher,
}

-- `t'` is `t` but for the entry of `label`, which is `v`; the generation of the send labels moves
-- exactly if `label` comes or goes, and the receive side is the same.
pub record Writes (t t' : RouteTable) (label : Label) (v : Option SendRoute) : Type 0 where
  pub routes : (j : Label) → get_send_route t' j ≡ (if label == j then v else get_send_route t j)
  pub send_gen : t'.send_gen ≡ (
      if same (is_some (get_send_route t label)) (is_some v) then t.send_gen else inc64 t.send_gen)
  pub recv_routes : t'.recv_routes ≡ t.recv_routes
  pub recv_gen : t'.recv_gen ≡ t.recv_gen

pub store_send_route-Writes :
    (t : RouteTable) (label : Label) (r : SendRoute) {old : SendRoute}
    → get_send_route t label ≡ some old
    → Writes t (store_send_route t label r) label (some r)
unfolding store_send_route get_send_route
store_send_route-Writes t label r e = record {
  routes = λ j. find-put j label r t.send_routes;
  send_gen = ground arith;
  recv_routes = refl;
  recv_gen = refl;
}

-- At most one of the two steps may add or drop the label.
pub Writes-trans :
    {t u w : RouteTable} {label : Label} {a b : Option SendRoute}
    → (is_some (get_send_route t label) ≡ is_some a) ⊎ (is_some a ≡ is_some b)
    → Writes t u label a
    → Writes u w label b
    → Writes t w label b
Writes-trans {label} one p q = record {
  routes = λ j. ground (arith, p.routes j, q.routes j);
  send_gen = ground (arith, p.send_gen, q.send_gen, p.routes label);
  recv_routes = q.recv_routes ∙ p.recv_routes;
  recv_gen = q.recv_gen ∙ p.recv_gen;
}

-- The outcome of an operation on the route of a label: done on a route that allows it, or else
-- refused with the table as it was.
pub data Outcome (t : RouteTable) (label : Label) (allowed : SendRoute → Bool)
    (v : SendRoute → Option SendRoute) (out : RouteTable × Bool) : Type 0 where
  done :
      (r : SendRoute)
      → get_send_route t label ≡ some r
      → allowed r ≡ true
      → out.1 ≡ true
      → Writes t out.0 label (v r)
      → Outcome t label allowed v out
  missing : get_send_route t label ≡ none → out ≡ (t, false) → Outcome t label allowed v out
  denied :
      (r : SendRoute)
      → get_send_route t label ≡ some r
      → allowed r ≡ false
      → out ≡ (t, false)
      → Outcome t label allowed v out

-- The route that `add_send_publisher` finds or makes.
abbrev pub base_route : RouteTable → Label → SendHandle → SendRoute
base_route t label h = elim (get_send_route t label) [ none ↦ new_send_route label h | some r ↦ r ]

abbrev pub accepts_publisher : RouteTable → Label → SendHandle → Bool
accepts_publisher t label h =
    (base_route t label h).label_size == h.info.buf_size
    && not (contains h.uid (base_route t label h).publishers)

abbrev pub published : SendRoute → SendHandle → SendRoute
published r h = record r { publishers = r.publishers ++ (h.uid ∷ []) }

ensure_send_route-Writes :
    (t : RouteTable) (label : Label) (h : SendHandle)
    → Writes t (ensure_send_route t label h) label (some (base_route t label h))
unfolding ensure_send_route has_send_route create_send_route get_send_route
ensure_send_route-Writes t label h = record {
  routes = λ j. ground (arith, find-emplace j label (new_send_route label h) t.send_routes);
  send_gen = ground arith;
  recv_routes = ground arith;
  recv_gen = ground arith;
}

new_route-accepts :
    (t : RouteTable) (label : Label) (h : SendHandle)
    → get_send_route t label ≡ none
    → accepts_publisher t label h ≡ true
new_route-accepts t label h e = ground arith

ensure_send_route-id :
    (t : RouteTable) (label : Label) (h : SendHandle) {r : SendRoute}
    → get_send_route t label ≡ some r
    → ensure_send_route t label h ≡ t
unfolding ensure_send_route has_send_route
ensure_send_route-id t label h e = ground arith

publish-accepted :
    (u : RouteTable) (label : Label) (h : SendHandle) (r : SendRoute) (o : Option SendRoute)
    → o ≡ some r
    → (r.label_size == h.info.buf_size && not (contains h.uid r.publishers)) ≡ true
    → publish u label h o ≡ (store_send_route u label (published r h), true)
unfolding publish
publish-accepted u label h r o e a = ground arith

publish-refused :
    (u : RouteTable) (label : Label) (h : SendHandle) (r : SendRoute) (o : Option SendRoute)
    → o ≡ some r
    → (r.label_size == h.info.buf_size && not (contains h.uid r.publishers)) ≡ false
    → publish u label h o ≡ (u, false)
unfolding publish
publish-refused u label h r o e a = ground arith

base_route_found :
    (t : RouteTable) (label : Label) (h : SendHandle)
    → get_send_route (ensure_send_route t label h) label ≡ some (base_route t label h)
base_route_found t label h = ground (arith, (ensure_send_route-Writes t label h).routes label)

add_send_publisher-accepted :
    (t : RouteTable) (label : Label) (h : SendHandle)
    → accepts_publisher t label h ≡ true
    → add_send_publisher t label (some h) ≡ (
      store_send_route (ensure_send_route t label h) label (published (base_route t label h) h),
      true,
    )
unfolding add_send_publisher
add_send_publisher-accepted t label h a =
    publish-accepted (ensure_send_route t label h) label h (base_route t label h) _
      (base_route_found t label h) a

-- What `add_send_publisher` does with a handle that it accepts.
add_send_publisher_accepted :
    (t : RouteTable) (label : Label) (h : SendHandle)
    → accepts_publisher t label h ≡ true
    → ((add_send_publisher t label (some h)).1 ≡ true)
      × Writes t
          (add_send_publisher t label (some h)).0
          label
          (some (published (base_route t label h) h))
add_send_publisher_accepted t label h a = rw (add_send_publisher-accepted t label h a) (
  refl,
  Writes-trans (inr refl) (ensure_send_route-Writes t label h)
      (store_send_route-Writes _ label _ (base_route_found t label h)),
)

-- A handle that is refused leaves the table as it was.
add_send_publisher_refused :
    (t : RouteTable) (label : Label) (h : SendHandle)
    → accepts_publisher t label h ≡ false
    → add_send_publisher t label (some h) ≡ (t, false)
unfolding add_send_publisher
add_send_publisher_refused t label h a = elim (Option-cases (get_send_route t label)) [
  | inl e ↦ cc (new_route-accepts t label h e, a)
  | inr (r, e) ↦
      publish-refused (ensure_send_route t label h) label h (base_route t label h) _
        (base_route_found t label h) a
      ∙ rw (ensure_send_route-id t label h e)
]

-- A handle of the label's size whose uid is new becomes the last publisher of the label, and makes
-- the route if there is none; any other handle leaves the table as it was.
pub add_send_publisher_lem :
    (t : RouteTable) (label : Label) (h : SendHandle)
    → ((accepts_publisher t label h ≡ true)
        × ((add_send_publisher t label (some h)).1 ≡ true)
        × Writes t
            (add_send_publisher t label (some h)).0
            label
            (some (published (base_route t label h) h)))
      ⊎ ((accepts_publisher t label h ≡ false) × (add_send_publisher t label (some h) ≡ (t, false)))
add_send_publisher_lem t label h = elim (Bool-cases (accepts_publisher t label h)) [
  | inl y ↦ let d = add_send_publisher_accepted t label h y in inl (y, d.0, d.1)
  | inr n ↦ inr (n, add_send_publisher_refused t label h n)
]
