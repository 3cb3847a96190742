-- ===== src/Router/Buffers.antt =====
-- What a distribution does to the slots of one open handle (router.cpp, distribute_recvd_label).
use native.Mathlib.Decide.{ℕ_discrete}
use netcomm.Prelude.{
  ℕ, ◌+◌, ◌*◌, ◌≤◌, ◌<◌, ◌≡◌, ◌≢◌, ◌⊎◌, refl, ap, sym, subst, ◌∙◌, inl, inr, true, false, Option,
  none, some, List, [], ◌∷◌, contains, length, find, Distinct, arith,
}
use netcomm.Types.{
  HandleUid, RecvHandle, SignalMode, overwrite, buffer_full, every_message, signal_all_write_all,
}
use netcomm.Memory.{Memory, write_bytes_alike}
use netcomm.Delivery.{Message, deliver, deliver_by_mode, copy_in, slot_addr}
use netcomm.Delivery.Queue.{IsReady}
use netcomm.Delivery.Bounds.{deliver_outside}
use netcomm.Router.Distribution.{Distributed, deliver_to, deliver_all, deliver_to-other}

abbrev pub slots_end : RecvHandle → ℕ
slots_end h = h.info.buf + h.info.buf_slots * h.info.buf_size

abbrev pub InSlots : RecvHandle → ℕ → Type 0
InSlots h x = (h.info.buf ≤ x) × (x < slots_end h)

-- Another handle that is ready, with slots that the message fits and that are apart from those of `h`.
pub record IsApart (msg : Message) (h g : RecvHandle) : Type 0 where
  pub ready : IsReady g
  pub fits : msg.recv_offset + length msg.bytes ≤ g.info.buf_size
  pub apart : (slots_end g ≤ h.info.buf) ⊎ (slots_end h ≤ g.info.buf)

-- The other handles that a loop over these subscribers delivers to are apart from `h`.
abbrev pub Others : Message → HandleUid → RecvHandle → List HandleUid → Distributed → Type 0
Others msg uid h uids s =
    (u : HandleUid) (g : RecvHandle)
    → contains u uids ≡ true
    → u ≢ uid
    → find u s.handles ≡ some g
    → IsApart msg h g

by_mode-alike :
    (mode : SignalMode) (h : RecvHandle) (msg : Message) (m m' : Memory) (now : ℕ × ℕ) (x : ℕ)
    → m x ≡ m' x
    → copy_in h msg m x ≡ copy_in h msg m' x
    → (deliver_by_mode mode h msg m now).memory x ≡ (deliver_by_mode mode h msg m' now).memory x
unfolding deliver_by_mode
by_mode-alike overwrite h msg m m' now x e c = c
by_mode-alike buffer_full h msg m m' now x e c = ground (arith, e, c)
by_mode-alike every_message h msg m m' now x e c = ground (arith, e, c)
by_mode-alike signal_all_write_all h msg m m' now x e c = c

-- A byte after a delivery depends on no other byte before it.
deliver-alike :
    (h : RecvHandle) (msg : Message) (m m' : Memory) (now : ℕ × ℕ) (x : ℕ)
    → m x ≡ m' x
    → (deliver h msg m now).memory x ≡ (deliver h msg m' now).memory x
unfolding deliver
deliver-alike h msg m m' now x e = ground (
  arith,
  e,
  by_mode-alike h.info.signal_mode h msg m m' now x e
      (write_bytes_alike m m' (slot_addr h + msg.recv_offset) msg.bytes x e),
)

module _ (msg : Message) (now : ℕ × ℕ) (uid : HandleUid) (h : RecvHandle) (x : ℕ)
    (inside : InSlots h x) where
  apart_unchanged :
      (g : RecvHandle) (m : Memory) → IsApart msg h g → (deliver g msg m now).memory x ≡ m x
  apart_unchanged g m a = deliver_outside g msg m now x a.ready a.fits (away a.apart)
    where
      away :
          (slots_end g ≤ h.info.buf) ⊎ (slots_end h ≤ g.info.buf)
          → (x < g.info.buf) ⊎ (slots_end g ≤ x)
      away (inl below) = inr (omega (arith, inside.0, below))
      away (inr above) = inl (omega (arith, inside.1, above))

  others_on :
      (u : HandleUid) (uids : List HandleUid) (s : Distributed) (o : Option RecvHandle)
      → contains u uids ≡ false
      → Others msg uid h (u ∷ uids) s
      → Others msg uid h uids (deliver_to msg now u s o)
  others_on u uids s o new others v g c ne f =
      others v g (ground (arith, c)) ne (sym (deliver_to-other msg now u v s o (λ e. differ e)) ∙ f)
    where
      differ : u ≡ v → ⊥
      differ e = absurd (ground (arith, new, c, subst (λ k. contains k uids ≡ false) e new))

  deliver_to-unchanged :
      (u : HandleUid) (s : Distributed) (o : Option RecvHandle)
      → find u s.handles ≡ o
      → ((g : RecvHandle) → find u s.handles ≡ some g → IsApart msg h g)
      → (deliver_to msg now u s o).memory x ≡ s.memory x
  deliver_to-unchanged u s none f a = refl
  deliver_to-unchanged u s (some g) f a = apart_unchanged g s.memory (a g f)

  pub unlisted_slots :
      (uids : List HandleUid) (s : Distributed)
      → Distinct uids
      → contains uid uids ≡ false
      → Others msg uid h uids s
      → (deliver_all msg now uids s).memory x ≡ s.memory x
  unfolding deliver_all
  unlisted_slots [] s d c others = refl
  unlisted_slots (u ∷ uids) s d c others =
      unlisted_slots uids (deliver_to msg now u s (find u s.handles)) d.1 (ground (arith, c))
        (others_on u uids s (find u s.handles) d.0 others)
      ∙ deliver_to-unchanged u s (find u s.handles) refl
          (λ g f. others u g (ground arith) (ground (arith, c)) f)

  -- A byte of the slots of `h` after the loop: what its own delivery leaves there, if it is listed.
  pub listed_slots :
      (uids : List HandleUid) (s : Distributed) (m : Memory)
      → Distinct uids
      → contains uid uids ≡ true
      → find uid s.handles ≡ some h
      → s.memory x ≡ m x
      → Others msg uid h uids s
      → (deliver_all msg now uids s).memory x ≡ (deliver h msg m now).memory x
  unfolding deliver_all
  listed_slots [] s m d c f e others = cc
  listed_slots (u ∷ uids) s m d c f e others = elim (ℕ_discrete u uid) [
    | yes same ↦
        unlisted_slots uids (deliver_to msg now u s (find u s.handles)) d.1
          (subst (λ k. contains k uids ≡ false) same d.0)
          (others_on u uids s (find u s.handles) d.0 others)
        ∙ ap (λ o. (deliver_to msg now u s o).memory x)
            (subst (λ k. find k s.handles ≡ some h) (sym same) f)
        ∙ deliver-alike h msg s.memory m now x e
    | no ne ↦
        listed_slots uids (deliver_to msg now u s (find u s.handles)) m d.1 (ground (arith, c, ne))
          (deliver_to-other msg now u uid s (find u s.handles) ne ∙ f)
          (deliver_to-unchanged u s (find u s.handles) refl (λ g k. others u g (ground arith) ne k)
            ∙ e)
          (others_on u uids s (find u s.handles) d.0 others)
  ]
