-- ===== src/Routes/Send/Removal.antt =====
-- What removing a publisher, and adding or removing a peer, does to the lookup of every label
-- (route_table.cpp).
use netcomm.Prelude.{
  ℕ, ◌≡◌, refl, ap, ◌∙◌, inl, inr, Bool, true, false, ◌&&◌, not, Option, none, some, [], ◌∷◌, ◌++◌,
  ◌==◌, if◌then◌else◌, is_some, is_empty, contains, erase_first, find-erase, arith, ==_refl,
  Bool-cases, Option-cases,
}
use netcomm.Types.{Label, NodeId, HandleUid}
use netcomm.Routes.{SendRoute, RouteTable, get_send_route}
use netcomm.Routes.Send.{
  store_send_route, drop_send_route, unpublish, remove_send_publisher, is_local_send_subscriber,
  is_remote_send_subscriber, add_local_send_subscriber, remove_local_send_subscriber,
  add_remote_send_subscriber, remove_remote_send_subscriber,
}
use netcomm.Routes.Send.Laws.{
  Writes, store_send_route-Writes, Writes-trans, Outcome, done, missing, denied,
}

-- The route without one publisher; the last publisher takes the route along.
abbrev pub unpublished : SendRoute → HandleUid → Option SendRoute
unpublished r uid =
    if is_empty (erase_first uid r.publishers)
    then none
    else some (record r { publishers = erase_first uid r.publishers })

abbrev pub with_local : SendRoute → NodeId → SendRoute
with_local r id = record r { local_subscribers = r.local_subscribers ++ (id ∷ []) }

abbrev pub without_local : SendRoute → NodeId → SendRoute
without_local r id = record r { local_subscribers = erase_first id r.local_subscribers }

abbrev pub with_remote : SendRoute → NodeId → SendRoute
with_remote r id = record r { remote_subscribers = r.remote_subscribers ++ (id ∷ []) }

abbrev pub without_remote : SendRoute → NodeId → SendRoute
without_remote r id = record r { remote_subscribers = erase_first id r.remote_subscribers }

drop_send_route-Writes :
    (t : RouteTable) (label : Label)
    → is_some (get_send_route t label) ≡ true
    → Writes t (drop_send_route t label) label none
unfolding drop_send_route get_send_route
drop_send_route-Writes t label e = record {
  routes = λ j. find-erase j label t.send_routes;
  send_gen = ground arith;
  recv_routes = refl;
  recv_gen = refl;
}

module _ (t : RouteTable) (label : Label) where
  unpublish-Writes :
      (uid : HandleUid) (r : SendRoute) (o : Option SendRoute)
      → get_send_route t label ≡ some r
      → o ≡ some r
      → contains uid r.publishers ≡ true
      → ((unpublish t label uid o).1 ≡ true)
        × Writes t (unpublish t label uid o).0 label (unpublished r uid)
  unfolding unpublish
  unpublish-Writes uid r o g e m =
      let s =
        store_send_route-Writes t label (record r { publishers = erase_first uid r.publishers })
          g in
      elim (Bool-cases (is_empty (erase_first uid r.publishers))) [
        | inl last ↦
            rw (e, m, last, unpublish)
              (
                refl,
                Writes-trans (inl (rw g)) s
                    (drop_send_route-Writes _ label (rw (s.routes label, ==_refl) refl)),
              )
        | inr more ↦ rw (e, m, more, unpublish) (refl, s)
      ]

  -- An update of the route found, under a test, in the form that all peer operations share.
  stored :
      (allowed : SendRoute → Bool) (f : SendRoute → SendRoute) (out : RouteTable × Bool)
      → (get_send_route t label ≡ none → out ≡ (t, false))
      → ((r : SendRoute)
          → get_send_route t label ≡ some r
          → out ≡ (if allowed r then (store_send_route t label (f r), true) else (t, false)))
      → Outcome t label allowed (λ r. some (f r)) out
  stored allowed f out no_route route = elim (Option-cases (get_send_route t label)) [
    | inl e ↦ missing e (no_route e)
    | inr (r, e) ↦ elim (Bool-cases (allowed r)) [
      | inl y ↦
          let o : out ≡ (store_send_route t label (f r), true) = route r e ∙ rw y in
          done r e y (ap (λ p. p.1) o) (rw o (store_send_route-Writes t label (f r) e))
      | inr n ↦ denied r e n (route r e ∙ rw n)
    ]
  ]

  -- A publisher of the label is taken off it, and its route goes with the last one; any other uid
  -- leaves the table as it was.
  pub remove_send_publisher_lem :
      (uid : HandleUid)
      → Outcome t label
          (λ r. contains uid r.publishers)
          (λ r. unpublished r uid)
          (remove_send_publisher t label uid)
  unfolding remove_send_publisher
  remove_send_publisher_lem uid = elim (Option-cases (get_send_route t label)) [
    | inl e ↦ missing e (rw (e, unpublish))
    | inr (r, e) ↦ elim (Bool-cases (contains uid r.publishers)) [
      | inl y ↦ let w = unpublish-Writes uid r _ e e y in done r e y w.0 w.1
      | inr n ↦ denied r e n (rw (e, n, unpublish))
    ]
  ]

  -- A node becomes the last local subscriber of a known label if it names the label's size and
  -- is not one yet; an unknown label, another size or a second time leaves the table as it
  -- was.
  pub add_local_send_subscriber_lem :
      (size : ℕ) (id : NodeId)
      → Outcome t label
          (λ r. r.label_size == size && not (contains id r.local_subscribers))
          (λ r. some (with_local r id))
          (add_local_send_subscriber t label size id)
  unfolding add_local_send_subscriber is_local_send_subscriber
  add_local_send_subscriber_lem size id =
      stored _ (λ r. with_local r id) _ (λ e. ground arith) (λ r e. ground arith)

  -- A local subscriber of a known label is taken off it.
  pub remove_local_send_subscriber_lem :
      (id : NodeId)
      → Outcome t label
          (λ r. contains id r.local_subscribers)
          (λ r. some (without_local r id))
          (remove_local_send_subscriber t label id)
  unfolding remove_local_send_subscriber
  remove_local_send_subscriber_lem id =
      stored _ (λ r. without_local r id) _ (λ e. ground arith) (λ r e. ground arith)

  -- A node becomes the last remote subscriber of a known label if it names the label's size
  -- and is not one yet; an unknown label, another size or a second time leaves the table as it
  -- was.
  pub add_remote_send_subscriber_lem :
      (size : ℕ) (id : NodeId)
      → Outcome t label
          (λ r. r.label_size == size && not (contains id r.remote_subscribers))
          (λ r. some (with_remote r id))
          (add_remote_send_subscriber t label size id)
  unfolding add_remote_send_subscriber is_remote_send_subscriber
  add_remote_send_subscriber_lem size id =
      stored _ (λ r. with_remote r id) _ (λ e. ground arith) (λ r e. ground arith)

  -- A remote subscriber of a known label is taken off it.
  pub remove_remote_send_subscriber_lem :
      (id : NodeId)
      → Outcome t label
          (λ r. contains id r.remote_subscribers)
          (λ r. some (without_remote r id))
          (remove_remote_send_subscriber t label id)
  unfolding remove_remote_send_subscriber
  remove_remote_send_subscriber_lem id =
      stored _ (λ r. without_remote r id) _ (λ e. ground arith) (λ r e. ground arith)
