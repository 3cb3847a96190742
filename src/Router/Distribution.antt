-- ===== src/Router/Distribution.antt =====
-- Router::distribute_recvd_label (router.cpp): the checks on an arrived message, and its delivery to
-- every open handle that subscribes to the label. The handles of the router are updated in place, so
-- that the result is the router's handles and the memory afterwards.
use native.Mathlib.Decide.{ℕ_discrete}
use netcomm.Prelude.{
  ◌≢◌, Bool-cases, inl, inr, is_empty_of_contains, ℕ, ◌≡◌, refl, ap, sym, ◌∙◌, subst, true, false,
  not, Option, none, some, List, [], ◌∷◌, ◌++◌, ◌==◌, if◌then◌else◌, is_empty, contains, length,
  Map, find, put, find-put, Distinct, arith,
}
use netcomm.Types.{
  HandleUid, RecvHandle, SignalMode, overwrite, buffer_full, every_message, signal_all_write_all,
}
use netcomm.Routes.{RecvRoute, get_recv_route}
use netcomm.Routes.Recv.{snapshot_recv_subscribers}
use netcomm.Memory.{Memory}
use netcomm.Delivery.{Message, ReceiveIosb, deliver, deliver_by_mode}
use netcomm.Router.{Router}

-- What a distribution leaves: the handles, the memory, the status blocks written with the uid of the
-- handle they belong to, and the semaphores signalled in order.
pub record Distributed : Type 0 where
  pub handles : Map RecvHandle
  pub memory : Memory
  pub iosbs : List (HandleUid × Option (ℕ × ReceiveIosb))
  pub signals : List ℕ

abbrev pub unchanged : Map RecvHandle → Memory → Distributed
unchanged handles m = record { handles = handles; memory = m; iosbs = []; signals = [] }

-- One subscriber of the loop, from its uid; a uid without a handle was left out of the list.
abbrev pub deliver_to : Message → ℕ × ℕ → HandleUid → Distributed → Option RecvHandle → Distributed
deliver_to msg now uid s none = s
deliver_to msg now uid s (some h) =
    let d = deliver h msg s.memory now in
    record {
      handles = put uid d.handle s.handles;
      memory = d.memory;
      iosbs = s.iosbs ++ ((uid, d.iosb) ∷ []);
      signals = s.signals ++ (d.signalled ∷ []);
    }

unfoldable pub deliver_all : Message → ℕ × ℕ → List HandleUid → Distributed → Distributed
deliver_all msg now [] s = s
deliver_all msg now (uid ∷ uids) s =
    deliver_all msg now uids (deliver_to msg now uid s (find uid s.handles))

-- The guards under the router's lock, on the route that was found.
abbrev pub distribute_on : Router → Message → ℕ × ℕ → Memory → Option RecvRoute → Distributed
distribute_on r msg now m none = unchanged r.recv_handles m
distribute_on r msg now m (some route) =
    if not (route.label_size == length msg.bytes)
    then unchanged r.recv_handles m
    else if is_empty (snapshot_recv_subscribers r.routes msg.label)
    then unchanged r.recv_handles m
    else deliver_all msg now (snapshot_recv_subscribers r.routes msg.label)
        (unchanged r.recv_handles m)

-- A null buffer is a message without bytes.
unfoldable pub distribute_recvd_label : Router → Message → ℕ × ℕ → Memory → Distributed
unfolding deliver_all
distribute_recvd_label r msg now m =
    if is_empty msg.bytes
    then unchanged r.recv_handles m
    else distribute_on r msg now m (get_recv_route r.routes msg.label)

pub deliver_to-other :
    (msg : Message) (now : ℕ × ℕ) (u uid : HandleUid) (s : Distributed) (o : Option RecvHandle)
    → u ≢ uid
    → find uid (deliver_to msg now u s o).handles ≡ find uid s.handles
deliver_to-other msg now u uid s none ne = refl
deliver_to-other msg now u uid s (some x) ne =
    ground (arith, find-put uid u (deliver x msg s.memory now).handle s.handles)

-- A handle that no uid of the list names is left as it was.
pub deliver_all-other :
    (msg : Message) (now : ℕ × ℕ) (uids : List HandleUid) (s : Distributed) (uid : HandleUid)
    → contains uid uids ≡ false
    → find uid (deliver_all msg now uids s).handles ≡ find uid s.handles
unfolding deliver_all
deliver_all-other msg now [] s uid h = refl
deliver_all-other msg now (u ∷ uids) s uid h =
    deliver_all-other msg now uids (deliver_to msg now u s (find u s.handles)) uid (ground arith)
    ∙ deliver_to-other msg now u uid s (find u s.handles) (ground arith)

-- What happens to a handle does not depend on what the buffers hold.
by_mode-handle :
    (mode : SignalMode) (h : RecvHandle) (msg : Message) (m m' : Memory) (now : ℕ × ℕ)
    → (deliver_by_mode mode h msg m now).handle ≡ (deliver_by_mode mode h msg m' now).handle
unfolding deliver_by_mode
by_mode-handle overwrite h msg m m' now = refl
by_mode-handle buffer_full h msg m m' now = ground arith
by_mode-handle every_message h msg m m' now = ground arith
by_mode-handle signal_all_write_all h msg m m' now = refl

deliver-handle :
    (h : RecvHandle) (msg : Message) (m m' : Memory) (now : ℕ × ℕ)
    → (deliver h msg m now).handle ≡ (deliver h msg m' now).handle
unfolding deliver
deliver-handle h msg m m' now = ground (arith, by_mode-handle h.info.signal_mode h msg m m' now)

deliver_to-here :
    (msg : Message) (now : ℕ × ℕ) (uid : HandleUid) (s : Distributed) (h : RecvHandle) (m : Memory)
    → find uid s.handles ≡ some h
    → find uid (deliver_to msg now uid s (find uid s.handles)).handles
      ≡ some (deliver h msg m now).handle
deliver_to-here msg now uid s h m f =
    ap (λ o. find uid (deliver_to msg now uid s o).handles) f
    ∙ find-put uid uid (deliver h msg s.memory now).handle s.handles
    ∙ here
  where
    here :
        (if uid == uid then some (deliver h msg s.memory now).handle else find uid s.handles)
        ≡ some (deliver h msg m now).handle
    here = ground (arith, deliver-handle h msg s.memory m now)

deliver_all-each :
    (msg : Message) (now : ℕ × ℕ) (uids : List HandleUid) (s : Distributed) (uid : HandleUid)
    (h : RecvHandle) (m : Memory)
    → Distinct uids
    → contains uid uids ≡ true
    → find uid s.handles ≡ some h
    → find uid (deliver_all msg now uids s).handles ≡ some (deliver h msg m now).handle
unfolding deliver_all
deliver_all-each msg now [] s uid h m d c f = cc
deliver_all-each msg now (u ∷ uids) s uid h m d c f = elim (ℕ_discrete u uid) [
  | yes e ↦
      deliver_all-other msg now uids (deliver_to msg now u s (find u s.handles)) uid
        (subst (λ x. contains x uids ≡ false) e d.0)
      ∙ subst
          (λ x.
            find uid (deliver_to msg now x s (find x s.handles)).handles
            ≡ some (deliver h msg m now).handle)
          (sym e) (deliver_to-here msg now uid s h m f)
  | no ne ↦
      deliver_all-each msg now uids (deliver_to msg now u s (find u s.handles)) uid h m d.1
        (ground arith) (deliver_to-other msg now u uid s (find u s.handles) ne ∙ f)
]

-- Distributing a message that is not empty and has the size of its label, which is known and
-- lists no subscriber twice, delivers it exactly once to each open handle that subscribes to
-- the label, and leaves every other open handle as it was.
pub distribute_recvd_label_lem :
    (r : Router) (msg : Message) (now : ℕ × ℕ) (m : Memory) (uid : HandleUid) (h : RecvHandle)
    (route : RecvRoute)
    → get_recv_route r.routes msg.label ≡ some route
    → Distinct (snapshot_recv_subscribers r.routes msg.label)
    → find uid r.recv_handles ≡ some h
    → length msg.bytes ≡ route.label_size
    → is_empty msg.bytes ≡ false
    → find uid (distribute_recvd_label r msg now m).handles ≡ (
        if contains uid (snapshot_recv_subscribers r.routes msg.label)
        then some (deliver h msg m now).handle
        else some h)
unfolding distribute_recvd_label
distribute_recvd_label_lem r msg now m uid h route e d f len some_data =
    elim (Bool-cases (contains uid (snapshot_recv_subscribers r.routes msg.label))) [
      | inl yes_sub ↦ ground (
        arith,
        e,
        some_data,
        len,
        is_empty_of_contains uid (snapshot_recv_subscribers r.routes msg.label) yes_sub,
        deliver_all-each msg now (snapshot_recv_subscribers r.routes msg.label)
            (unchanged r.recv_handles m) uid h m d yes_sub f,
      )
      | inr no_sub ↦ ground (
        arith,
        e,
        f,
        some_data,
        len,
        deliver_all-other msg now (snapshot_recv_subscribers r.routes msg.label)
            (unchanged r.recv_handles m) uid no_sub,
      )
    ]
