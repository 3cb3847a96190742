-- ===== src/Delivery/Bounds.antt =====
-- Where a delivery writes (router.cpp, distribute_recvd_label).
use netcomm.Prelude.{ℕ, ◌+◌, ◌*◌, ◌≤◌, ◌<◌, ◌≡◌, ◌⊎◌, inl, inr, length, arith}
use netcomm.Types.{
  RecvHandle, SignalMode, overwrite, buffer_full, every_message, signal_all_write_all,
}
use netcomm.Memory.{Memory, write_bytes_outside}
use netcomm.Delivery.{Message, deliver, deliver_by_mode, copy_in, slot_addr}
use netcomm.Delivery.Queue.{IsReady}

-- A slot lies within the slots.
pub slot_end : (i slots size : ℕ) → i < slots → i * size + size ≤ slots * size
slot_end i slots size h = grind arith

copy_outside :
    (h : RecvHandle) (msg : Message) (m : Memory) (x : ℕ)
    → IsReady h
    → msg.recv_offset + length msg.bytes ≤ h.info.buf_size
    → (x < h.info.buf) ⊎ (h.info.buf + h.info.buf_slots * h.info.buf_size ≤ x)
    → copy_in h msg m x ≡ m x
copy_outside h msg m x ok fits o =
    write_bytes_outside m (slot_addr h + msg.recv_offset) msg.bytes x (away o)
  where
    last : h.info.buf_index * h.info.buf_size + h.info.buf_size ≤ h.info.buf_slots * h.info.buf_size
    last = slot_end h.info.buf_index h.info.buf_slots h.info.buf_size ok.index

    away :
        (x < h.info.buf) ⊎ (h.info.buf + h.info.buf_slots * h.info.buf_size ≤ x)
        → (x < slot_addr h + msg.recv_offset)
          ⊎ (slot_addr h + msg.recv_offset + length msg.bytes ≤ x)
    away (inl l) = inl (omega arith)
    away (inr g) = inr (omega (arith, last))

by_mode-outside :
    (mode : SignalMode) (h : RecvHandle) (msg : Message) (m : Memory) (now : ℕ × ℕ) (x : ℕ)
    → copy_in h msg m x ≡ m x
    → (deliver_by_mode mode h msg m now).memory x ≡ m x
unfolding deliver_by_mode
by_mode-outside overwrite h msg m now x e = e
by_mode-outside buffer_full h msg m now x e = ground (arith, e)
by_mode-outside every_message h msg m now x e = ground (arith, e)
by_mode-outside signal_all_write_all h msg m now x e = e

-- A delivery to a ready handle, in any signal mode and on every path, of a message that with its
-- offset is no longer than a slot, changes no byte outside the client's slots.
pub deliver_outside :
    (h : RecvHandle) (msg : Message) (m : Memory) (now : ℕ × ℕ) (x : ℕ)
    → IsReady h
    → msg.recv_offset + length msg.bytes ≤ h.info.buf_size
    → (x < h.info.buf) ⊎ (h.info.buf + h.info.buf_slots * h.info.buf_size ≤ x)
    → (deliver h msg m now).memory x ≡ m x
unfolding deliver
deliver_outside h msg m now x ok fits o =
    ground
      (arith, by_mode-outside h.info.signal_mode h msg m now x (copy_outside h msg m x ok fits o))
