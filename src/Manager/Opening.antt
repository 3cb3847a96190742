-- ===== src/Manager/Opening.antt =====
-- Opening a send handle (manager.cpp, open_send).
use netcomm.Prelude.{
  ℕ, ◌≡◌, ◌≢◌, ◌<◌, ◌≤◌, ◌^◌, refl, ap, sym, subst, ◌∙◌, true, false, Option, none, some,
  Option-cases, ◌==◌, contains, ==→≡, inl, inr, Bool-cases, if◌then◌else◌, find, find-emplace,
  arith,
}
use netcomm.Types.{Label, HandleUid, SendHandle, OpenSendData, max_label_size}
use netcomm.Types.Words.{inc64}
use netcomm.Routes.{SendRoute, get_send_route}
use netcomm.Routes.Send
use netcomm.Routes.Send.Laws.{
  Writes, base_route, published, accepts_publisher, add_send_publisher_lem,
}
use netcomm.Router.{Router, register_send_publisher, get_send_handle}
use netcomm.Router.Inv.{SendInv, register-SendInv, register_refused, register_taken}
use netcomm.Manager.{Manager, new_send_handle, bad_send_data, with_send, open_send}

-- The handle that a call with this data makes.
abbrev pub made : Manager → ℕ → OpenSendData → SendHandle
made mgr addr d = new_send_handle addr mgr.next_id d

pub opened_handle :
    (r : Router) (h : SendHandle)
    → find h.uid r.send_handles ≡ none
    → get_send_handle (register_send_publisher r (some h)) h.uid
      ≡ (if accepts_publisher r.routes h.info.label h then some h else none)
unfolding get_send_handle
opened_handle r h fresh = elim (add_send_publisher_lem r.routes h.info.label h) [
  | inl (a, added, w) ↦
      ap (λ x. find h.uid x.send_handles) (register_taken r h fresh added)
      ∙ rw a (ground (arith, find-emplace h.uid h.uid h r.send_handles fresh))
  | inr (n, o) ↦ ap (λ x. find h.uid x.send_handles) (register_refused r h n) ∙ rw n fresh
]

-- What a client may ask for: a label that is not negative, a buffer, and a size that a label may have.
abbrev pub IsAllowed : OpenSendData → Type 0
IsAllowed d = (d.label < 2 ^ 31) × (d.buf ≢ 0) × (0 < d.buf_size) × (d.buf_size ≤ max_label_size)

-- A label without a route takes any size, and one with a route the size of the route.
abbrev pub TakesSize : Option SendRoute → ℕ → Type 0
TakesSize none size = Unit {0}
TakesSize (some route) size = route.label_size ≡ size

-- A manager after a handle was opened: of the handles, routes and transports, only the handle's uid
-- and the send route of its label are new.
pub record HasOpened (mgr : Manager) (h : SendHandle) (after : Manager) : Type 0 where
  pub handles :
      (uid : HandleUid)
      → find uid after.router.send_handles
        ≡ (if h.uid == uid then some h else find uid mgr.router.send_handles)
  pub routes :
      (label : Label)
      → get_send_route after.router.routes label ≡ (
          if h.info.label == label
          then some (published (base_route mgr.router.routes label h) h)
          else get_send_route mgr.router.routes label)
  pub recv_routes : after.router.routes.recv_routes ≡ mgr.router.routes.recv_routes
  pub recv_handles : after.router.recv_handles ≡ mgr.router.recv_handles
  pub transports : after.router.transports ≡ mgr.router.transports
  pub next_id : after.next_id ≡ inc64 mgr.next_id

-- What opening a send handle comes to.
pub data Opening (mgr : Manager) (addr : ℕ) (d : OpenSendData)
    : Manager × Option SendHandle → Type 0 where
  rejected : ¬ IsAllowed d → Opening mgr addr d (mgr, none)
  refused :
      IsAllowed d
      → ¬ TakesSize (get_send_route mgr.router.routes d.label) d.buf_size
      → Opening mgr addr d (record mgr { next_id = inc64 mgr.next_id }, none)
  opened :
      {after : Manager}
      → IsAllowed d
      → TakesSize (get_send_route mgr.router.routes d.label) d.buf_size
      → HasOpened mgr (made mgr addr d) after
      → Opening mgr addr d (after, some (made mgr addr d))

IsAllowed-data : (d : OpenSendData) → d.label < 2 ^ 32 → bad_send_data d ≡ false → IsAllowed d
IsAllowed-data d word good =
    (ground (arith, good), ground (arith, good), ground (arith, good), ground (arith, good))

rejected_data : (d : OpenSendData) → d.label < 2 ^ 32 → bad_send_data d ≡ true → ¬ IsAllowed d
rejected_data d word bad (a, b, c, e) = ground (arith, bad, a, b, c, e)

module _ (mgr : Manager) (addr : ℕ) (d : OpenSendData) (inv : SendInv mgr.router)
    (fresh : find (made mgr addr d).uid mgr.router.send_handles ≡ none) where
  abbrev h : SendHandle
  h = made mgr addr d

  -- A uid that is not in use is no publisher.
  no_publisher :
      (route : SendRoute)
      → get_send_route mgr.router.routes d.label ≡ some route
      → contains h.uid route.publishers ≡ false
  no_publisher route e = ground (arith, e, fresh, inv.publishers d.label h.uid)

  takes :
      accepts_publisher mgr.router.routes d.label h ≡ true
      → TakesSize (get_send_route mgr.router.routes d.label) d.buf_size
  takes a = elim (Option-cases (get_send_route mgr.router.routes d.label)) [
    | inl e ↦ subst (λ o. TakesSize o d.buf_size) (sym e) tt
    | inr (route, e) ↦ subst (λ o. TakesSize o d.buf_size) (sym e) (ground (arith, e, a))
  ]

  takes_not :
      accepts_publisher mgr.router.routes d.label h ≡ false
      → ¬ TakesSize (get_send_route mgr.router.routes d.label) d.buf_size
  takes_not n = elim (Option-cases (get_send_route mgr.router.routes d.label)) [
    | inl e ↦ λ t. absurd (ground (arith, e, n))
    | inr (route, e) ↦ λ t.
        absurd (ground (arith, e, n, no_publisher route e, subst (λ o. TakesSize o d.buf_size) e t))
  ]

  taken-HasOpened :
      (Send.add_send_publisher mgr.router.routes d.label (some h)).1 ≡ true
      → Writes mgr.router.routes
          (Send.add_send_publisher mgr.router.routes d.label (some h)).0
          d.label
          (some (published (base_route mgr.router.routes d.label h) h))
      → HasOpened mgr h (with_send mgr h)
  taken-HasOpened added w =
      let taken = register_taken mgr.router h fresh added in
      record {
        handles = λ uid.
            ap (λ r. find uid r.send_handles) taken
            ∙ find-emplace uid h.uid h mgr.router.send_handles fresh;
        routes = λ label.
            ap (λ r. get_send_route r.routes label) taken ∙ w.routes label ∙ same_base label;
        recv_routes = ap (λ r. r.routes.recv_routes) taken ∙ w.recv_routes;
        recv_handles = ap (λ r. r.recv_handles) taken;
        transports = ap (λ r. r.transports) taken;
        next_id = refl;
      }
    where
      same_base :
          (label : Label)
          → (if d.label == label
              then some (published (base_route mgr.router.routes d.label h) h)
              else get_send_route mgr.router.routes label)
            ≡ (if h.info.label == label
                then some (published (base_route mgr.router.routes label h) h)
                else get_send_route mgr.router.routes label)
      same_base label = elim (Bool-cases (d.label == label)) [
        | inl y ↦
            subst
              (λ l.
                (if d.label == l
                  then some (published (base_route mgr.router.routes d.label h) h)
                  else get_send_route mgr.router.routes l)
                ≡ (if d.label == l
                    then some (published (base_route mgr.router.routes l h) h)
                    else get_send_route mgr.router.routes l))
              (==→≡ d.label label y) refl
        | inr n ↦ rw n refl
      ]

  -- Opening a send handle, for a label of 32 bits and with a new id that is not in use, in a router that
  -- keeps its invariant: without a buffer, for a negative label, or for a size that is 0 or larger than
  -- a label may be, it returns null and changes nothing. Else, if the label has a route of another
  -- size, it returns null and only the counter of ids goes on. Else it returns the new handle, which
  -- is open under its id and the last publisher of its label's route; the other handles and routes
  -- and the transports stay, and the counter of ids goes on. The router keeps its invariant.
  pub open_send_lem :
      d.label < 2 ^ 32
      → Opening mgr addr d (open_send mgr addr d) × SendInv (open_send mgr addr d).0.router
  unfolding open_send
  open_send_lem word = elim (Bool-cases (bad_send_data d)) [
    | inl bad ↦ rw bad (rejected (rejected_data d word bad), inv)
    | inr good ↦
        let allowed = IsAllowed-data d word good in
        elim (add_send_publisher_lem mgr.router.routes d.label h) [
          | inl (a, added, w) ↦
              rw (good, opened_handle mgr.router h fresh, a)
                (
                  opened allowed (takes a) (taken-HasOpened added w),
                  register-SendInv mgr.router h inv,
                )
          | inr (n, o) ↦
              rw (good, opened_handle mgr.router h fresh, n, register_refused mgr.router h n)
                (refused allowed (takes_not n), inv)
        ]
  ]
