-- ===== src/Router/Received.antt =====
-- What the client of an open handle has to read after the next message (router.cpp,
-- distribute_recvd_label).
use netcomm.Prelude.{
  ℕ, zero, suc, ◌+◌, ◌*◌, ◌%◌, ◌≤◌, ◌<◌, ◌≡◌, ◌≢◌, refl, sym, ap₂, ◌∙◌, true, false, not, Option,
  none, some, List, [], ◌∷◌, ◌++◌, ◌==◌, ltb, if◌then◌else◌, inl, inr, Bool-cases, on_if, find,
  contains, length, is_empty, is_empty_of_contains, arith, ==→≡,
}
use netcomm.Types.{
  HandleUid, RecvHandle, SignalMode, overwrite, buffer_full, every_message, signal_all_write_all,
}
use netcomm.Memory.{Memory, read_bytes_alike}
use netcomm.Delivery.{Message, deliver, deliver_by_mode}
use netcomm.Delivery.Slots.{messages}
use netcomm.Delivery.Queue.{IsReady, keeps_unread, unread, oldest, unread-deliver}
use netcomm.Delivery.Bounds.{slot_end}
use netcomm.Routes.{RecvRoute, get_recv_route}
use netcomm.Routes.Recv.{snapshot_recv_subscribers}
use netcomm.Router.{Router, empty_router}
use netcomm.Router.Subscribers.{RecvInv}
use netcomm.Router.Distribution.{Distributed, unchanged, distribute_on, distribute_recvd_label}
use netcomm.Router.Arrivals.{arrived}
use netcomm.Router.Histories.{AnyCall, run_any, history-RouterInv}
use netcomm.Router.Deliveries.{snapshot-Distinct, listed_by_label, own_route, delivered_by_label}
use netcomm.Router.Buffers.{InSlots, IsApart, Others, slots_end, unlisted_slots, listed_slots}

messages_alike :
    (buf size slots : ℕ) (m m' : Memory) (start n : ℕ)
    → start < slots
    → ((x : ℕ) → buf ≤ x → x < buf + slots * size → m x ≡ m' x)
    → messages buf size slots m start n ≡ messages buf size slots m' start n
messages_alike buf size slots m m' start zero low same = refl
messages_alike buf size slots m m' start (suc n) low same =
    ap₂ ◌∷◌
      (read_bytes_alike m m' (buf + start * size) size
        (λ x l u. same x (omega arith) (omega (arith, u, slot_end start slots size low))))
      (messages_alike buf size slots m m' ((start + 1) % slots) n (omega (arith, low)) same)

-- What is unread depends on the slots only.
unread_alike :
    (h : RecvHandle) (m m' : Memory)
    → IsReady h
    → ((x : ℕ) → InSlots h x → m x ≡ m' x)
    → unread h m ≡ unread h m'
unread_alike h m m' ok same =
    messages_alike h.info.buf h.info.buf_size h.info.buf_slots m m' (oldest h) h.info.recv_count
      (omega (arith, ok.has_slots)) (λ x l u. same x (l, u))

by_mode-slots :
    (mode : SignalMode) (h : RecvHandle) (msg : Message) (m : Memory) (now : ℕ × ℕ)
    → let g = (deliver_by_mode mode h msg m now).handle in
      (g.info.buf ≡ h.info.buf) × (slots_end g ≡ slots_end h)
unfolding deliver_by_mode
by_mode-slots overwrite h msg m now = ground arith
by_mode-slots buffer_full h msg m now = ground arith
by_mode-slots every_message h msg m now = ground arith
by_mode-slots signal_all_write_all h msg m now = ground arith

deliver-slots :
    (h : RecvHandle) (msg : Message) (m : Memory) (now : ℕ × ℕ)
    → let g = (deliver h msg m now).handle in
      (g.info.buf ≡ h.info.buf) × (slots_end g ≡ slots_end h)
unfolding deliver
deliver-slots h msg m now = ground (arith, by_mode-slots h.info.signal_mode h msg m now)

-- The other open handles for the label of the message are apart from `h`.
abbrev pub OtherReaders : Router → Message → HandleUid → RecvHandle → Type 0
OtherReaders r msg uid h =
    (v : HandleUid) (g : RecvHandle)
    → v ≢ uid
    → find v r.recv_handles ≡ some g
    → g.info.label ≡ msg.label
    → IsApart msg h g

module _ (r : Router) (inv : RecvInv r) (msg : Message) (now : ℕ × ℕ) (m : Memory) (uid : HandleUid)
    (h : RecvHandle) (opened : find uid r.recv_handles ≡ some h)
    (size : length msg.bytes ≡ h.info.buf_size) (some_data : is_empty msg.bytes ≡ false)
    (apart : OtherReaders r msg uid h) (x : ℕ) (inside : InSlots h x) where
  abbrev subscribers : List HandleUid
  subscribers = snapshot_recv_subscribers r.routes msg.label

  others : Others msg uid h subscribers (unchanged r.recv_handles m)
  others v g listed ne found =
      apart v g ne found
        (==→≡ g.info.label msg.label (sym (listed_by_label r inv msg v g found) ∙ listed))

  listed_byte :
      (route : RecvRoute)
      → get_recv_route r.routes msg.label ≡ some route
      → length msg.bytes ≡ route.label_size
      → contains uid subscribers ≡ true
      → (distribute_recvd_label r msg now m).memory x ≡ (deliver h msg m now).memory x
  unfolding distribute_recvd_label
  listed_byte route at_label len listed = ground (
    arith,
    at_label,
    some_data,
    len,
    is_empty_of_contains uid subscribers listed,
    listed_slots msg now uid h x inside subscribers (unchanged r.recv_handles m) m
        (snapshot-Distinct r inv msg uid h opened) listed opened refl others,
  )

  unlisted_byte :
      contains uid subscribers ≡ false → (distribute_recvd_label r msg now m).memory x ≡ m x
  unfolding distribute_recvd_label
  unlisted_byte out =
      on_if Same (is_empty msg.bytes) (λ y. refl)
        (λ n. on_route (get_recv_route r.routes msg.label))
    where
      Same : Distributed → Type 0
      Same d = d.memory x ≡ m x

      on_route : (o : Option RecvRoute) → Same (distribute_on r msg now m o)
      on_route none = refl
      on_route (some route) =
          on_if Same (not (route.label_size == length msg.bytes)) (λ y. refl)
            (λ n.
              on_if Same (is_empty subscribers) (λ y. refl)
                (λ k.
                  unlisted_slots msg now uid h x inside subscribers (unchanged r.recv_handles m)
                    (snapshot-Distinct r inv msg uid h opened) out others))

  received_byte :
      (distribute_recvd_label r msg now m).memory x
      ≡ (if h.info.label == msg.label then (deliver h msg m now).memory x else m x)
  received_byte = elim (Bool-cases (h.info.label == msg.label)) [
    | inl same_label ↦
        let (route, at_label, sized) =
          own_route r inv msg uid h opened (==→≡ h.info.label msg.label same_label) in
        rw same_label (
          listed_byte route at_label (size ∙ sym sized)
            (listed_by_label r inv msg uid h opened ∙ same_label))
    | inr other ↦ rw other (unlisted_byte (listed_by_label r inv msg uid h opened ∙ other))
  ]

-- After every history of calls and arrivals on a new router, a message arrives that is not empty and
-- has offset 0, and a handle is open with slots of its size, is ready and not idle, and has a mode
-- that keeps unread messages; the other open handles for the label of the message are ready, with
-- slots that the message fits and that are apart from the slots of the handle. If the handle is for
-- that label and has a free slot, its client then has the same messages to read as before and behind
-- them the bytes of the new one; if not, exactly the same messages as before.
pub received_by_label :
    (cs : List AnyCall) (msg : Message) (now : ℕ × ℕ) (m : Memory) (uid : HandleUid)
    (h : RecvHandle)
    → find uid (run_any empty_router cs).recv_handles ≡ some h
    → length msg.bytes ≡ h.info.buf_size
    → is_empty msg.bytes ≡ false
    → msg.recv_offset ≡ 0
    → IsReady h
    → h.is_idle ≡ false
    → keeps_unread h.info.signal_mode ≡ true
    → OtherReaders (run_any empty_router cs) msg uid h
    → let r = run_any empty_router cs in
      (h' : RecvHandle) × (find uid (arrived r msg now m).recv_handles ≡ some h')
      × IsReady h'
      × (unread h' (distribute_recvd_label r msg now m).memory ≡ (
          if h.info.label == msg.label
          then (if ltb h.info.recv_count h.info.buf_slots
              then unread h m ++ (msg.bytes ∷ [])
              else unread h m)
          else unread h m))
received_by_label cs msg now m uid h opened size some_data at_zero ok awake keeps apart =
    let r = run_any empty_router cs in
    let byte =
      received_byte r (history-RouterInv cs).recv_side msg now m uid h opened size some_data
        apart in
    let kept = delivered_by_label cs msg now m uid h opened size some_data in
    let d = deliver h msg m now in
    let (ready, queued) = unread-deliver h msg m now ok awake keeps at_zero size in
    let (same_buf, same_end) = deliver-slots h msg m now in
    elim (Bool-cases (h.info.label == msg.label)) [
      | inl same_label ↦ (
        d.handle,
        ground (arith, kept, same_label),
        ready,
        rw same_label (
            unread_alike d.handle (distribute_recvd_label r msg now m).memory d.memory ready
              (λ x inside.
                byte x (omega (arith, inside.0, same_buf), omega (arith, inside.1, same_end))
                ∙ ground (arith, same_label))
            ∙ queued),
      )
      | inr other ↦ (
        h,
        ground (arith, kept, other),
        ok,
        rw other (
            unread_alike h (distribute_recvd_label r msg now m).memory m ok
              (λ x inside. byte x inside ∙ ground (arith, other))),
      )
    ]
