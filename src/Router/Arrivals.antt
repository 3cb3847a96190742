-- ===== src/Router/Arrivals.antt =====
-- A message that arrives and the invariant of the receive side (router.cpp, distribute_recvd_label).
use netcomm.Prelude.{
  ℕ, ◌≡◌, refl, sym, ◌∙◌, subst, true, Option, none, some, List, [], ◌∷◌, ◌==◌, Option-cases, inl,
  inr, find, find-put, on_if, ==→≡, not, length, is_empty, arith,
}
use netcomm.Types.{
  Label, HandleUid, RecvHandle, SignalMode, overwrite, buffer_full, every_message,
  signal_all_write_all,
}
use netcomm.Memory.{Memory}
use netcomm.Delivery.{Message, deliver, deliver_by_mode, with_iosb, quiet}
use netcomm.Routes.{RecvRoute, RouteTable, get_recv_route}
use netcomm.Routes.Recv.{snapshot_recv_subscribers}
use netcomm.Router.{Router}
use netcomm.Router.Distribution.{
  Distributed, unchanged, distribute_on, deliver_to, deliver_all, distribute_recvd_label,
}
use netcomm.Router.Subscribers.{RecvInv, recv_handle_ok, subscriber_ok}

-- The same handle, up to what a delivery changes.
abbrev pub Alike : RecvHandle → RecvHandle → Type 0
Alike g h = (g.uid ≡ h.uid) × (g.info.label ≡ h.info.label) × (g.info.buf_size ≡ h.info.buf_size)

by_mode-Alike :
    (mode : SignalMode) (h : RecvHandle) (msg : Message) (m : Memory) (now : ℕ × ℕ)
    → Alike (deliver_by_mode mode h msg m now).handle h
unfolding deliver_by_mode with_iosb quiet
by_mode-Alike overwrite h msg m now = ground arith
by_mode-Alike buffer_full h msg m now = ground arith
by_mode-Alike every_message h msg m now = ground arith
by_mode-Alike signal_all_write_all h msg m now = ground arith

deliver-Alike :
    (h : RecvHandle) (msg : Message) (m : Memory) (now : ℕ × ℕ)
    → Alike (deliver h msg m now).handle h
unfolding deliver quiet
deliver-Alike h msg m now = ground (arith, by_mode-Alike h.info.signal_mode h msg m now)

abbrev AlikeAt : Option RecvHandle → Option RecvHandle → Type 0
AlikeAt none none = Unit {0}
AlikeAt none (some h) = ⊥
AlikeAt (some g) none = ⊥
AlikeAt (some g) (some h) = Alike g h

alike_refl : (o : Option RecvHandle) → AlikeAt o o
alike_refl none = tt
alike_refl (some h) = (refl, refl, refl)

alike_trans : (a b c : Option RecvHandle) → AlikeAt a b → AlikeAt b c → AlikeAt a c
alike_trans none none none p q = tt
alike_trans none none (some h) p q = q
alike_trans none (some g) c p q = absurd p
alike_trans (some f) none c p q = absurd p
alike_trans (some f) (some g) none p q = q
alike_trans (some f) (some g) (some h) p q = (p.0 ∙ q.0, p.1 ∙ q.1, p.2 ∙ q.2)

deliver_to-AlikeAt :
    (msg : Message) (now : ℕ × ℕ) (u uid : HandleUid) (s : Distributed)
    → AlikeAt (find uid (deliver_to msg now u s (find u s.handles)).handles) (find uid s.handles)
deliver_to-AlikeAt msg now u uid s = elim (Option-cases (find u s.handles)) [
  | inl e ↦ rw e (alike_refl (find uid s.handles))
  | inr (x, e) ↦
      rw (e, find-put uid u (deliver x msg s.memory now).handle s.handles)
        (on_if (λ o. AlikeAt o (find uid s.handles)) (u == uid)
          (λ y.
            subst (λ o. AlikeAt (some (deliver x msg s.memory now).handle) o)
              (sym (subst (λ k. find k s.handles ≡ some x) (==→≡ u uid y) e))
              (deliver-Alike x msg s.memory now))
          (λ n. alike_refl (find uid s.handles)))
]

deliver_all-AlikeAt :
    (msg : Message) (now : ℕ × ℕ) (uids : List HandleUid) (s : Distributed) (uid : HandleUid)
    → AlikeAt (find uid (deliver_all msg now uids s).handles) (find uid s.handles)
unfolding deliver_all
deliver_all-AlikeAt msg now [] s uid = alike_refl (find uid s.handles)
deliver_all-AlikeAt msg now (u ∷ uids) s uid =
    alike_trans _ _ _
      (deliver_all-AlikeAt msg now uids (deliver_to msg now u s (find u s.handles)) uid)
      (deliver_to-AlikeAt msg now u uid s)

distribute_on-AlikeAt :
    (r : Router) (msg : Message) (now : ℕ × ℕ) (m : Memory) (uid : HandleUid) (o : Option RecvRoute)
    → AlikeAt (find uid (distribute_on r msg now m o).handles) (find uid r.recv_handles)
distribute_on-AlikeAt r msg now m uid none = alike_refl (find uid r.recv_handles)
distribute_on-AlikeAt r msg now m uid (some route) =
    on_if (λ (d : Distributed). AlikeAt (find uid d.handles) (find uid r.recv_handles))
      (not (route.label_size == length msg.bytes)) (λ y. alike_refl (find uid r.recv_handles))
      (λ n.
        on_if (λ (d : Distributed). AlikeAt (find uid d.handles) (find uid r.recv_handles))
          (is_empty (snapshot_recv_subscribers r.routes msg.label))
          (λ y. alike_refl (find uid r.recv_handles))
          (λ k.
            deliver_all-AlikeAt msg now (snapshot_recv_subscribers r.routes msg.label)
              (unchanged r.recv_handles m) uid))

distribute-AlikeAt :
    (r : Router) (msg : Message) (now : ℕ × ℕ) (m : Memory) (uid : HandleUid)
    → AlikeAt (find uid (distribute_recvd_label r msg now m).handles) (find uid r.recv_handles)
unfolding distribute_recvd_label
distribute-AlikeAt r msg now m uid =
    on_if (λ (d : Distributed). AlikeAt (find uid d.handles) (find uid r.recv_handles))
      (is_empty msg.bytes) (λ y. alike_refl (find uid r.recv_handles))
      (λ n. distribute_on-AlikeAt r msg now m uid (get_recv_route r.routes msg.label))

alike-recv_handle_ok :
    (t : RouteTable) (uid : HandleUid) (a b : Option RecvHandle)
    → AlikeAt a b
    → recv_handle_ok t uid b ≡ true
    → recv_handle_ok t uid a ≡ true
alike-recv_handle_ok t uid none b p h = refl
alike-recv_handle_ok t uid (some g) none p h = absurd p
alike-recv_handle_ok t uid (some g) (some k) p h = rw (p.0, p.1) h

alike-subscriber_ok :
    (label : Label) (route : Option RecvRoute) (uid : HandleUid) (a b : Option RecvHandle)
    → AlikeAt a b
    → subscriber_ok label route uid b ≡ true
    → subscriber_ok label route uid a ≡ true
alike-subscriber_ok label route uid none none p h = h
alike-subscriber_ok label route uid none (some k) p h = absurd p
alike-subscriber_ok label route uid (some g) none p h = absurd p
alike-subscriber_ok label none uid (some g) (some k) p h = h
alike-subscriber_ok label (some route) uid (some g) (some k) p h = rw (p.1, p.2) h

-- The router after a message was distributed.
abbrev pub arrived : Router → Message → ℕ × ℕ → Memory → Router
arrived r msg now m = record r { recv_handles = (distribute_recvd_label r msg now m).handles }

pub arrived-RecvInv :
    (r : Router) (msg : Message) (now : ℕ × ℕ) (m : Memory)
    → RecvInv r
    → RecvInv (arrived r msg now m)
arrived-RecvInv r msg now m inv = record {
  routes = inv.routes;
  handles = λ uid.
      alike-recv_handle_ok r.routes uid _ _ (distribute-AlikeAt r msg now m uid) (inv.handles uid);
  subscribers = λ label uid.
      alike-subscriber_ok label (get_recv_route r.routes label) uid _ _
        (distribute-AlikeAt r msg now m uid) (inv.subscribers label uid);
}
