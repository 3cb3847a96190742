-- ===== src/Routes/Recv/Laws.antt =====
-- What each operation on receive routes does to the lookup of every label (route_table.cpp).
use netcomm.Prelude.{
  ==_refl, ◌≡◌, refl, ◌∙◌, ◌⊎◌, inl, inr, Bool, true, false, ◌&&◌, not, Option, none, some, [], ◌∷◌,
  ◌++◌, ◌==◌, if◌then◌else◌, is_some, same, is_empty, contains, erase_first, find-put, find-erase,
  find-emplace, arith, Bool-cases, Option-cases,
}
use netcomm.Types.{Label, HandleUid, RecvHandle}
use netcomm.Types.Words.{inc64}
use netcomm.Routes.{RecvRoute, RouteTable, get_recv_route, has_recv_route}
use netcomm.Routes.Recv.{
  store_recv_route, new_recv_route, ensure_recv_route, create_recv_route, subscribe,
  add_recv_subscriber, drop_recv_route, unsubscribe, remove_recv_subscriber,
}

-- `t'` is `t` but for the entry of `label`, which is `v`; the generation of the receive labels moves
-- exactly if `label` comes or goes, and the send side is the same.
pub record Writes (t t' : RouteTable) (label : Label) (v : Option RecvRoute) : Type 0 where
  pub routes : (j : Label) → get_recv_route t' j ≡ (if label == j then v else get_recv_route t j)
  pub recv_gen : t'.recv_gen ≡ (
      if same (is_some (get_recv_route t label)) (is_some v) then t.recv_gen else inc64 t.recv_gen)
  pub send_routes : t'.send_routes ≡ t.send_routes
  pub send_gen : t'.send_gen ≡ t.send_gen

pub store_recv_route-Writes :
    (t : RouteTable) (label : Label) (r : RecvRoute) {old : RecvRoute}
    → get_recv_route t label ≡ some old
    → Writes t (store_recv_route t label r) label (some r)
unfolding store_recv_route get_recv_route
store_recv_route-Writes t label r e = record {
  routes = λ j. find-put j label r t.recv_routes;
  recv_gen = ground arith;
  send_routes = refl;
  send_gen = refl;
}

-- At most one of the two steps may add or drop the label.
pub Writes-trans :
    {t u w : RouteTable} {label : Label} {a b : Option RecvRoute}
    → (is_some (get_recv_route t label) ≡ is_some a) ⊎ (is_some a ≡ is_some b)
    → Writes t u label a
    → Writes u w label b
    → Writes t w label b
Writes-trans {label} one p q = record {
  routes = λ j. ground (arith, p.routes j, q.routes j);
  recv_gen = ground (arith, p.recv_gen, q.recv_gen, p.routes label);
  send_routes = q.send_routes ∙ p.send_routes;
  send_gen = q.send_gen ∙ p.send_gen;
}

-- The outcome of an operation on the route of a label: done on a route that allows it, or else
-- refused with the table as it was.
pub data Outcome (t : RouteTable) (label : Label) (allowed : RecvRoute → Bool)
    (v : RecvRoute → Option RecvRoute) (out : RouteTable × Bool) : Type 0 where
  done :
      (r : RecvRoute)
      → get_recv_route t label ≡ some r
      → allowed r ≡ true
      → out.1 ≡ true
      → Writes t out.0 label (v r)
      → Outcome t label allowed v out
  missing : get_recv_route t label ≡ none → out ≡ (t, false) → Outcome t label allowed v out
  denied :
      (r : RecvRoute)
      → get_recv_route t label ≡ some r
      → allowed r ≡ false
      → out ≡ (t, false)
      → Outcome t label allowed v out

-- The route that `add_recv_subscriber` finds or makes.
abbrev pub base_route : RouteTable → Label → RecvHandle → RecvRoute
base_route t label h = elim (get_recv_route t label) [ none ↦ new_recv_route label h | some r ↦ r ]

abbrev pub accepts_subscriber : RouteTable → Label → RecvHandle → Bool
accepts_subscriber t label h =
    (base_route t label h).label_size == h.info.buf_size
    && not (contains h.uid (base_route t label h).subscribers)

abbrev pub subscribed : RecvRoute → RecvHandle → RecvRoute
subscribed r h = record r { subscribers = r.subscribers ++ (h.uid ∷ []) }

ensure_recv_route-Writes :
    (t : RouteTable) (label : Label) (h : RecvHandle)
    → Writes t (ensure_recv_route t label h) label (some (base_route t label h))
unfolding ensure_recv_route has_recv_route create_recv_route get_recv_route
ensure_recv_route-Writes t label h = record {
  routes = λ j. ground (arith, find-emplace j label (new_recv_route label h) t.recv_routes);
  recv_gen = ground arith;
  send_routes = ground arith;
  send_gen = ground arith;
}

new_route-accepts :
    (t : RouteTable) (label : Label) (h : RecvHandle)
    → get_recv_route t label ≡ none
    → accepts_subscriber t label h ≡ true
new_route-accepts t label h e = ground arith

ensure_recv_route-id :
    (t : RouteTable) (label : Label) (h : RecvHandle) {r : RecvRoute}
    → get_recv_route t label ≡ some r
    → ensure_recv_route t label h ≡ t
unfolding ensure_recv_route has_recv_route
ensure_recv_route-id t label h e = ground arith

subscribe-accepted :
    (u : RouteTable) (label : Label) (h : RecvHandle) (r : RecvRoute) (o : Option RecvRoute)
    → o ≡ some r
    → (r.label_size == h.info.buf_size && not (contains h.uid r.subscribers)) ≡ true
    → subscribe u label h o ≡ (store_recv_route u label (subscribed r h), true)
unfolding subscribe
subscribe-accepted u label h r o e a = ground arith

subscribe-refused :
    (u : RouteTable) (label : Label) (h : RecvHandle) (r : RecvRoute) (o : Option RecvRoute)
    → o ≡ some r
    → (r.label_size == h.info.buf_size && not (contains h.uid r.subscribers)) ≡ false
    → subscribe u label h o ≡ (u, false)
unfolding subscribe
subscribe-refused u label h r o e a = ground arith

base_route_found :
    (t : RouteTable) (label : Label) (h : RecvHandle)
    → get_recv_route (ensure_recv_route t label h) label ≡ some (base_route t label h)
base_route_found t label h = ground (arith, (ensure_recv_route-Writes t label h).routes label)

add_recv_subscriber-accepted :
    (t : RouteTable) (label : Label) (h : RecvHandle)
    → accepts_subscriber t label h ≡ true
    → add_recv_subscriber t label (some h) ≡ (
      store_recv_route (ensure_recv_route t label h) label (subscribed (base_route t label h) h),
      true,
    )
unfolding add_recv_subscriber
add_recv_subscriber-accepted t label h a =
    subscribe-accepted (ensure_recv_route t label h) label h (base_route t label h) _
      (base_route_found t label h) a

-- What `add_recv_subscriber` does with a handle that it accepts.
pub add_recv_subscriber_accepted :
    (t : RouteTable) (label : Label) (h : RecvHandle)
    → accepts_subscriber t label h ≡ true
    → ((add_recv_subscriber t label (some h)).1 ≡ true)
      × Writes t
          (add_recv_subscriber t label (some h)).0
          label
          (some (subscribed (base_route t label h) h))
add_recv_subscriber_accepted t label h a = rw (add_recv_subscriber-accepted t label h a) (
  refl,
  Writes-trans (inr refl) (ensure_recv_route-Writes t label h)
      (store_recv_route-Writes _ label _ (base_route_found t label h)),
)

-- A handle that is refused leaves the table as it was.
add_recv_subscriber_refused :
    (t : RouteTable) (label : Label) (h : RecvHandle)
    → accepts_subscriber t label h ≡ false
    → add_recv_subscriber t label (some h) ≡ (t, false)
unfolding add_recv_subscriber
add_recv_subscriber_refused t label h a = elim (Option-cases (get_recv_route t label)) [
  | inl e ↦ cc (new_route-accepts t label h e, a)
  | inr (r, e) ↦
      subscribe-refused (ensure_recv_route t label h) label h (base_route t label h) _
        (base_route_found t label h) a
      ∙ rw (ensure_recv_route-id t label h e)
]

-- A handle of the label's size whose uid is new becomes the last subscriber of the label, and makes
-- the route if there is none; any other handle leaves the table as it was.
pub add_recv_subscriber_lem :
    (t : RouteTable) (label : Label) (h : RecvHandle)
    → ((accepts_subscriber t label h ≡ true)
        × ((add_recv_subscriber t label (some h)).1 ≡ true)
        × Writes t
            (add_recv_subscriber t label (some h)).0
            label
            (some (subscribed (base_route t label h) h)))
      ⊎ ((accepts_subscriber t label h ≡ false)
          × (add_recv_subscriber t label (some h) ≡ (t, false)))
add_recv_subscriber_lem t label h = elim (Bool-cases (accepts_subscriber t label h)) [
  | inl y ↦ let d = add_recv_subscriber_accepted t label h y in inl (y, d.0, d.1)
  | inr n ↦ inr (n, add_recv_subscriber_refused t label h n)
]

-- The route without one subscriber; the last subscriber takes the route along.
abbrev pub unsubscribed : RecvRoute → HandleUid → Option RecvRoute
unsubscribed r uid =
    if is_empty (erase_first uid r.subscribers)
    then none
    else some (record r { subscribers = erase_first uid r.subscribers })

drop_recv_route-Writes :
    (t : RouteTable) (label : Label)
    → is_some (get_recv_route t label) ≡ true
    → Writes t (drop_recv_route t label) label none
unfolding drop_recv_route get_recv_route
drop_recv_route-Writes t label e = record {
  routes = λ j. find-erase j label t.recv_routes;
  recv_gen = ground arith;
  send_routes = refl;
  send_gen = refl;
}

module _ (t : RouteTable) (label : Label) where
  unsubscribe-Writes :
      (uid : HandleUid) (r : RecvRoute) (o : Option RecvRoute)
      → get_recv_route t label ≡ some r
      → o ≡ some r
      → contains uid r.subscribers ≡ true
      → ((unsubscribe t label uid o).1 ≡ true)
        × Writes t (unsubscribe t label uid o).0 label (unsubscribed r uid)
  unfolding unsubscribe
  unsubscribe-Writes uid r o g e m =
      let s =
        store_recv_route-Writes t label (record r { subscribers = erase_first uid r.subscribers })
          g in
      elim (Bool-cases (is_empty (erase_first uid r.subscribers))) [
        | inl last ↦
            rw (e, m, last, unsubscribe)
              (
                refl,
                Writes-trans (inl (rw g)) s
                    (drop_recv_route-Writes _ label (rw (s.routes label, ==_refl) refl)),
              )
        | inr more ↦ rw (e, m, more, unsubscribe) (refl, s)
      ]

  -- A subscriber of the label is taken off it, and its route goes with the last one; any other uid
  -- leaves the table as it was.
  pub remove_recv_subscriber_lem :
      (uid : HandleUid)
      → Outcome t label
          (λ r. contains uid r.subscribers)
          (λ r. unsubscribed r uid)
          (remove_recv_subscriber t label uid)
  unfolding remove_recv_subscriber
  remove_recv_subscriber_lem uid = elim (Option-cases (get_recv_route t label)) [
    | inl e ↦ missing e (rw (e, unsubscribe))
    | inr (r, e) ↦ elim (Bool-cases (contains uid r.subscribers)) [
      | inl y ↦ let w = unsubscribe-Writes uid r _ e e y in done r e y w.0 w.1
      | inr n ↦ denied r e n (rw (e, n, unsubscribe))
    ]
  ]
