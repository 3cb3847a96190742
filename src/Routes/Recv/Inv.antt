-- ===== src/Routes/Recv/Inv.antt =====
-- The well-formedness of receive routes, kept by every sequence of calls (route_table.cpp).
use netcomm.Prelude.{
  ◌≡◌, refl, ◌≢◌, ◌⊎◌, inl, inr, Bool, true, false, Option, none, some, List, [], ◌∷◌, ◌==◌,
  is_some, is_empty, erase_first, Distinct, find, arith, snoc-Distinct, erase_first-Distinct,
  Bool-cases, Option-cases, same, subst, ==→≡, is_empty-snoc,
}
use netcomm.Types.{Label, HandleUid, RecvHandle}
use netcomm.Types.Words.{inc64}
use netcomm.Routes.{RecvRoute, RouteTable, empty_table, get_recv_route, has_recv_route}
use netcomm.Routes.Recv.{add_recv_subscriber, remove_recv_subscriber}
use netcomm.Routes.Recv.Laws.{
  Writes, Outcome, done, missing, denied, base_route, accepts_subscriber, subscribed,
  add_recv_subscriber_lem, unsubscribed, remove_recv_subscriber_lem,
}

-- A route stands under its own label, has a subscriber, and lists none twice.
pub record IsRoute (label : Label) (r : RecvRoute) : Type 0 where
  pub named : r.label ≡ label
  pub used : is_empty r.subscribers ≡ false
  pub subscribers : Distinct r.subscribers

abbrev pub RouteAt : Label → Option RecvRoute → Type 0
RouteAt label none = Unit {0}
RouteAt label (some r) = IsRoute label r

abbrev pub IsValid : RouteTable → Type 0
IsValid t = (label : Label) → RouteAt label (get_recv_route t label)

-- The calls of the router on the receive side of the table.
pub data RecvCall : Type 0 where
  subscribes : Label → RecvHandle → RecvCall
  unsubscribes : Label → HandleUid → RecvCall

abbrev pub recv_call : RouteTable → RecvCall → RouteTable × Bool
recv_call t (subscribes label h) = add_recv_subscriber t label (some h)
recv_call t (unsubscribes label uid) = remove_recv_subscriber t label uid

pub recv_run : RouteTable → List RecvCall → RouteTable
recv_run t [] = t
recv_run t (c ∷ cs) = recv_run (recv_call t c).0 cs

Writes-IsValid :
    {t t' : RouteTable} {label : Label} {v : Option RecvRoute}
    → Writes t t' label v
    → RouteAt label v
    → IsValid t
    → IsValid t'
Writes-IsValid {label} {v} w ok valid j = elim (Bool-cases (label == j)) [
  | inl e ↦ rw (w.routes j, e) (subst (λ k. RouteAt k v) (==→≡ label j e) ok)
  | inr e ↦ rw (w.routes j, e) (valid j)
]

pub found-IsRoute :
    (t : RouteTable) {label : Label} {r : RecvRoute}
    → get_recv_route t label ≡ some r
    → IsValid t
    → IsRoute label r
found-IsRoute t {label} e valid = subst (RouteAt label) e (valid label)

subscribed-IsRoute :
    (t : RouteTable) (label : Label) (h : RecvHandle)
    → accepts_subscriber t label h ≡ true
    → IsValid t
    → IsRoute label (subscribed (base_route t label h) h)
subscribed-IsRoute t label h a valid = elim (Option-cases (get_recv_route t label)) [
  | inl e ↦ ground arith
  | inr (r, e) ↦
      let ok : IsRoute label r = found-IsRoute t e valid in
      ground (arith, is_empty-snoc r.subscribers h.uid, snoc-Distinct h.uid r.subscribers)
]

unsubscribed-RouteAt :
    (label : Label) (r : RecvRoute) (uid : HandleUid)
    → IsRoute label r
    → RouteAt label (unsubscribed r uid)
unsubscribed-RouteAt label r uid ok = elim (Bool-cases (is_empty (erase_first uid r.subscribers))) [
  | inl e ↦ rw e tt
  | inr e ↦ rw e (record {
    named = ok.named;
    used = e;
    subscribers = erase_first-Distinct uid r.subscribers ok.subscribers;
  })
]

Outcome-IsValid :
    {t : RouteTable} {label : Label} {allowed : RecvRoute → Bool} {v : RecvRoute → Option RecvRoute}
    {out : RouteTable × Bool}
    → Outcome t label allowed v out
    → ((r : RecvRoute) → allowed r ≡ true → IsRoute label r → RouteAt label (v r))
    → IsValid t
    → IsValid out.0
Outcome-IsValid {t} (done r e y ok w) keep valid =
    Writes-IsValid w (keep r y (found-IsRoute t e valid)) valid
Outcome-IsValid (missing e o) keep valid = rw o valid
Outcome-IsValid (denied r e n o) keep valid = rw o valid

-- Every call on the receive side, accepted or refused, keeps the routes well formed.
pub recv_call-IsValid : (t : RouteTable) (c : RecvCall) → IsValid t → IsValid (recv_call t c).0
recv_call-IsValid t (subscribes label h) valid = elim (add_recv_subscriber_lem t label h) [
  | inl (a, _, w) ↦ Writes-IsValid w (subscribed-IsRoute t label h a valid) valid
  | inr (_, o) ↦ rw o valid
]
recv_call-IsValid t (unsubscribes label uid) valid =
    Outcome-IsValid (remove_recv_subscriber_lem t label uid)
      (λ r y ok. unsubscribed-RouteAt label r uid ok) valid

recv_run_from-IsValid : (t : RouteTable) (cs : List RecvCall) → IsValid t → IsValid (recv_run t cs)
unfolding recv_run
recv_run_from-IsValid t [] valid = valid
recv_run_from-IsValid t (c ∷ cs) valid =
    recv_run_from-IsValid (recv_call t c).0 cs (recv_call-IsValid t c valid)

pub empty_table-IsValid : IsValid empty_table
unfolding empty_table get_recv_route find
empty_table-IsValid label = tt

-- After every sequence of calls on an empty table each receive route stands under its own
-- label, has a subscriber, and lists no subscriber twice.
pub recv_run-IsValid : (cs : List RecvCall) → IsValid (recv_run empty_table cs)
recv_run-IsValid cs = recv_run_from-IsValid empty_table cs empty_table-IsValid

-- A call either keeps the set of labels that are received, and then the generation, or makes one label
-- come or go, and then moves the generation on by one.
abbrev pub GenTracks : RouteTable → RouteTable → Type 0
GenTracks t t' =
    (((j : Label) → has_recv_route t' j ≡ has_recv_route t j) × (t'.recv_gen ≡ t.recv_gen))
    ⊎ ((label : Label) × (has_recv_route t' label ≢ has_recv_route t label)
        × (t'.recv_gen ≡ inc64 t.recv_gen))

Writes-GenTracks :
    {t t' : RouteTable} {label : Label} {v : Option RecvRoute}
    → Writes t t' label v
    → GenTracks t t'
unfolding has_recv_route
Writes-GenTracks {t} {t'} {label} {v} w =
    elim (Bool-cases (same (is_some (get_recv_route t label)) (is_some v))) [
      | inl e ↦ inl ((λ j. ground (arith, w.routes j)), ground (arith, w.recv_gen))
      | inr e ↦ inr (label, ground (arith, w.routes label), ground (arith, w.recv_gen))
    ]

Outcome-GenTracks :
    {t : RouteTable} {label : Label} {allowed : RecvRoute → Bool} {v : RecvRoute → Option RecvRoute}
    {out : RouteTable × Bool}
    → Outcome t label allowed v out
    → GenTracks t out.0
Outcome-GenTracks (done r e y ok w) = Writes-GenTracks w
Outcome-GenTracks (missing e o) = rw o (inl ((λ j. refl), refl))
Outcome-GenTracks (denied r e n o) = rw o (inl ((λ j. refl), refl))

-- The generation of the receive labels tells apart the label sets before and after each call.
pub recv_call-GenTracks : (t : RouteTable) (c : RecvCall) → GenTracks t (recv_call t c).0
recv_call-GenTracks t (subscribes label h) = elim (add_recv_subscriber_lem t label h) [
  | inl (a, _, w) ↦ Writes-GenTracks w
  | inr (_, o) ↦ rw o (inl ((λ j. refl), refl))
]
recv_call-GenTracks t (unsubscribes label uid) =
    Outcome-GenTracks (remove_recv_subscriber_lem t label uid)

pub no_recv_route : (label : Label) → get_recv_route empty_table label ≡ none
unfolding empty_table get_recv_route find
no_recv_route label = refl
