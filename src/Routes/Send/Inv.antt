-- ===== src/Routes/Send/Inv.antt =====
-- The well-formedness of send routes, kept by every sequence of calls (route_table.cpp).
use netcomm.Prelude.{
  ℕ, ◌≡◌, refl, ◌≢◌, ◌⊎◌, inl, inr, Bool, true, false, Option, none, some, List, [], ◌∷◌, ◌==◌,
  is_some, is_empty, erase_first, Distinct, find, arith, snoc-Distinct, erase_first-Distinct,
  Bool-cases, Option-cases, same, subst, ==→≡, is_empty-snoc,
}
use netcomm.Types.{Label, NodeId, HandleUid, SendHandle}
use netcomm.Types.Words.{inc64}
use netcomm.Routes.{SendRoute, RouteTable, empty_table, get_send_route, has_send_route}
use netcomm.Routes.Send.{
  add_send_publisher, remove_send_publisher, add_local_send_subscriber,
  remove_local_send_subscriber, add_remote_send_subscriber, remove_remote_send_subscriber,
}
use netcomm.Routes.Send.Laws.{
  Writes, Outcome, done, missing, denied, base_route, accepts_publisher, published,
  add_send_publisher_lem,
}
use netcomm.Routes.Send.Removal.{
  unpublished, remove_send_publisher_lem, add_local_send_subscriber_lem,
  remove_local_send_subscriber_lem, add_remote_send_subscriber_lem,
  remove_remote_send_subscriber_lem,
}

-- A route stands under its own label, is published, and lists no publisher or peer twice.
pub record IsRoute (label : Label) (r : SendRoute) : Type 0 where
  pub named : r.label ≡ label
  pub used : is_empty r.publishers ≡ false
  pub publishers : Distinct r.publishers
  pub locals : Distinct r.local_subscribers
  pub remotes : Distinct r.remote_subscribers

abbrev pub RouteAt : Label → Option SendRoute → Type 0
RouteAt label none = Unit {0}
RouteAt label (some r) = IsRoute label r

abbrev pub IsValid : RouteTable → Type 0
IsValid t = (label : Label) → RouteAt label (get_send_route t label)

-- The calls of the router on the send side of the table.
pub data SendCall : Type 0 where
  publishes : Label → SendHandle → SendCall
  unpublishes : Label → HandleUid → SendCall
  joins_local : Label → ℕ → NodeId → SendCall
  leaves_local : Label → NodeId → SendCall
  joins_remote : Label → ℕ → NodeId → SendCall
  leaves_remote : Label → NodeId → SendCall

abbrev pub call : RouteTable → SendCall → RouteTable × Bool
call t (publishes label h) = add_send_publisher t label (some h)
call t (unpublishes label uid) = remove_send_publisher t label uid
call t (joins_local label size id) = add_local_send_subscriber t label size id
call t (leaves_local label id) = remove_local_send_subscriber t label id
call t (joins_remote label size id) = add_remote_send_subscriber t label size id
call t (leaves_remote label id) = remove_remote_send_subscriber t label id

pub run : RouteTable → List SendCall → RouteTable
run t [] = t
run t (c ∷ cs) = run (call t c).0 cs

Writes-IsValid :
    {t t' : RouteTable} {label : Label} {v : Option SendRoute}
    → Writes t t' label v
    → RouteAt label v
    → IsValid t
    → IsValid t'
Writes-IsValid {label} {v} w ok valid j = elim (Bool-cases (label == j)) [
  | inl e ↦ rw (w.routes j, e) (subst (λ k. RouteAt k v) (==→≡ label j e) ok)
  | inr e ↦ rw (w.routes j, e) (valid j)
]

pub found-IsRoute :
    (t : RouteTable) {label : Label} {r : SendRoute}
    → get_send_route t label ≡ some r
    → IsValid t
    → IsRoute label r
found-IsRoute t {label} e valid = subst (RouteAt label) e (valid label)

published-IsRoute :
    (t : RouteTable) (label : Label) (h : SendHandle)
    → accepts_publisher t label h ≡ true
    → IsValid t
    → IsRoute label (published (base_route t label h) h)
published-IsRoute t label h a valid = elim (Option-cases (get_send_route t label)) [
  | inl e ↦ ground arith
  | inr (r, e) ↦
      let ok : IsRoute label r = found-IsRoute t e valid in
      ground (arith, is_empty-snoc r.publishers h.uid, snoc-Distinct h.uid r.publishers)
]

unpublished-RouteAt :
    (label : Label) (r : SendRoute) (uid : HandleUid)
    → IsRoute label r
    → RouteAt label (unpublished r uid)
unpublished-RouteAt label r uid ok = elim (Bool-cases (is_empty (erase_first uid r.publishers))) [
  | inl e ↦ rw e tt
  | inr e ↦ rw e (record {
    named = ok.named;
    used = e;
    publishers = erase_first-Distinct uid r.publishers ok.publishers;
    locals = ok.locals;
    remotes = ok.remotes;
  })
]

Outcome-IsValid :
    {t : RouteTable} {label : Label} {allowed : SendRoute → Bool} {v : SendRoute → Option SendRoute}
    {out : RouteTable × Bool}
    → Outcome t label allowed v out
    → ((r : SendRoute) → allowed r ≡ true → IsRoute label r → RouteAt label (v r))
    → IsValid t
    → IsValid out.0
Outcome-IsValid {t} (done r e y ok w) keep valid =
    Writes-IsValid w (keep r y (found-IsRoute t e valid)) valid
Outcome-IsValid (missing e o) keep valid = rw o valid
Outcome-IsValid (denied r e n o) keep valid = rw o valid

-- Every call on the send side, accepted or refused, keeps the routes well formed.
pub call-IsValid : (t : RouteTable) (c : SendCall) → IsValid t → IsValid (call t c).0
call-IsValid t (publishes label h) valid = elim (add_send_publisher_lem t label h) [
  | inl (a, _, w) ↦ Writes-IsValid w (published-IsRoute t label h a valid) valid
  | inr (_, o) ↦ rw o valid
]
call-IsValid t (unpublishes label uid) valid =
    Outcome-IsValid (remove_send_publisher_lem t label uid)
      (λ r y ok. unpublished-RouteAt label r uid ok) valid
call-IsValid t (joins_local label size id) valid =
    Outcome-IsValid (add_local_send_subscriber_lem t label size id)
      (λ r y ok. ground (arith, snoc-Distinct id r.local_subscribers)) valid
call-IsValid t (leaves_local label id) valid =
    Outcome-IsValid (remove_local_send_subscriber_lem t label id)
      (λ r y ok. ground (arith, erase_first-Distinct id r.local_subscribers)) valid
call-IsValid t (joins_remote label size id) valid =
    Outcome-IsValid (add_remote_send_subscriber_lem t label size id)
      (λ r y ok. ground (arith, snoc-Distinct id r.remote_subscribers)) valid
call-IsValid t (leaves_remote label id) valid =
    Outcome-IsValid (remove_remote_send_subscriber_lem t label id)
      (λ r y ok. ground (arith, erase_first-Distinct id r.remote_subscribers)) valid

run_from-IsValid : (t : RouteTable) (cs : List SendCall) → IsValid t → IsValid (run t cs)
unfolding run
run_from-IsValid t [] valid = valid
run_from-IsValid t (c ∷ cs) valid = run_from-IsValid (call t c).0 cs (call-IsValid t c valid)

pub empty_table-IsValid : IsValid empty_table
unfolding empty_table get_send_route find
empty_table-IsValid label = tt

-- After every sequence of calls on an empty table each send route stands under its own label,
-- has a publisher, and lists no publisher and no subscriber of either kind twice.
pub run-IsValid : (cs : List SendCall) → IsValid (run empty_table cs)
run-IsValid cs = run_from-IsValid empty_table cs empty_table-IsValid

-- A call either keeps the set of labels that are sent, and then the generation, or makes one label
-- come or go, and then moves the generation on by one.
abbrev pub GenTracks : RouteTable → RouteTable → Type 0
GenTracks t t' =
    (((j : Label) → has_send_route t' j ≡ has_send_route t j) × (t'.send_gen ≡ t.send_gen))
    ⊎ ((label : Label) × (has_send_route t' label ≢ has_send_route t label)
        × (t'.send_gen ≡ inc64 t.send_gen))

Writes-GenTracks :
    {t t' : RouteTable} {label : Label} {v : Option SendRoute}
    → Writes t t' label v
    → GenTracks t t'
unfolding has_send_route
Writes-GenTracks {t} {t'} {label} {v} w =
    elim (Bool-cases (same (is_some (get_send_route t label)) (is_some v))) [
      | inl e ↦ inl ((λ j. ground (arith, w.routes j)), ground (arith, w.send_gen))
      | inr e ↦ inr (label, ground (arith, w.routes label), ground (arith, w.send_gen))
    ]

Outcome-GenTracks :
    {t : RouteTable} {label : Label} {allowed : SendRoute → Bool} {v : SendRoute → Option SendRoute}
    {out : RouteTable × Bool}
    → Outcome t label allowed v out
    → GenTracks t out.0
Outcome-GenTracks (done r e y ok w) = Writes-GenTracks w
Outcome-GenTracks (missing e o) = rw o (inl ((λ j. refl), refl))
Outcome-GenTracks (denied r e n o) = rw o (inl ((λ j. refl), refl))

-- Each call on the send side, accepted or refused, either keeps the set of labels that are
-- sent and the generation, or makes a label come or go and moves the generation on by one.
pub call-GenTracks : (t : RouteTable) (c : SendCall) → GenTracks t (call t c).0
call-GenTracks t (publishes label h) = elim (add_send_publisher_lem t label h) [
  | inl (a, _, w) ↦ Writes-GenTracks w
  | inr (_, o) ↦ rw o (inl ((λ j. refl), refl))
]
call-GenTracks t (unpublishes label uid) = Outcome-GenTracks (remove_send_publisher_lem t label uid)
call-GenTracks t (joins_local label size id) =
    Outcome-GenTracks (add_local_send_subscriber_lem t label size id)
call-GenTracks t (leaves_local label id) =
    Outcome-GenTracks (remove_local_send_subscriber_lem t label id)
call-GenTracks t (joins_remote label size id) =
    Outcome-GenTracks (add_remote_send_subscriber_lem t label size id)
call-GenTracks t (leaves_remote label id) =
    Outcome-GenTracks (remove_remote_send_subscriber_lem t label id)

pub no_route : (label : Label) → get_send_route empty_table label ≡ none
unfolding empty_table get_send_route find
no_route label = refl
