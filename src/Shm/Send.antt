-- ===== src/Shm/Send.antt =====
-- ShmSend::send (shm_send.cpp) as the enqueue operation of a bounded queue of messages.
use netcomm.Prelude.{
  ℕ, ◌+◌, ◌*◌, ◌%◌, ◌^◌, ◌≤◌, ◌<◌, ◌≡◌, refl, ap, sym, subst, ◌∙◌, Bool, true, false, List, [], ◌∷◌,
  ◌++◌, ◌==◌, if◌then◌else◌, ltb, not, length, arith,
}
use netcomm.Types.{NodeId, Label}
use netcomm.Shm.Layout.{data_block_size}
use netcomm.Shm.{
  Block, ShmRecvData, reserved_size, shm_ready, allocate, finish_send, send, ShmSendErr, send_ok,
  not_enough_space,
}
use netcomm.Shm.Alloc.{Allocated, room, full, allocate-Allocated}
use netcomm.Shm.Writes.{published, sent, publish-IsRing}
use netcomm.Shm.Ring.{Segment, message, gap, messages, IsRing}

-- How a send ends on a ring.
pub data Sent (b : Block) (segs : List Segment) (m : ShmRecvData)
    : ShmSendErr × Block → Type 0 where
  delivered :
      (c : Block) (segs' : List Segment)
      → IsRing c segs'
      → messages segs' ≡ messages segs ++ (m ∷ [])
      → Sent b segs m (send_ok, c)
  refused :
      (c : Block) (segs' : List Segment)
      → IsRing c segs'
      → messages segs' ≡ messages segs
      → c.tail_bytes ≡ b.tail_bytes
      → c.tail_bytes + data_block_size < c.head_bytes + reserved_size m.buf
      → Sent b segs m (not_enough_space, c)

messages-snoc :
    (segs : List Segment) (m : ShmRecvData)
    → messages (segs ++ (message m ∷ [])) ≡ messages segs ++ (m ∷ [])
messages-snoc [] m = refl
messages-snoc (message d ∷ segs) m = ap (λ x. d ∷ x) (messages-snoc segs m)
messages-snoc (gap ∷ segs) m = messages-snoc segs m

if_false_two {ℓ} :
    {A : Type ℓ} (x y z : A) (p q : Bool)
    → p ≡ true
    → q ≡ false
    → (if not p then x else if q then y else z) ≡ z
if_false_two x y z p q hp hq = ground arith

-- A ready block of the generation that was loaded is published into.
finish_ready :
    (c : Block) (id label seq : ℕ) (buf : List ℕ)
    → c.state ≡ shm_ready
    → finish_send id label seq buf c.generation (reserved_size buf) (
      send_ok,
      record c { head_bytes = (c.head_bytes + reserved_size buf) % 2 ^ 64 },
      c.head_bytes,
    )
      ≡ (send_ok, published c id label seq buf)
finish_ready c id label seq buf ready = ground arith

finish-Sent :
    (b : Block) (segs : List Segment) (id label seq : ℕ) (buf : List ℕ) (r : ShmSendErr × Block × ℕ)
    → 0 < length buf
    → Allocated b segs (reserved_size buf) r
    → Sent b segs
        (sent id label seq buf)
        (finish_send id label seq buf b.generation (reserved_size buf) r)
finish-Sent b segs id label seq buf r some_data (full c segs' ring m t no_room) =
    refused c segs' ring m t no_room
finish-Sent b segs id label seq buf r some_data (room c segs' ring m g t small fits lap) =
    subst
      (λ gen. Sent b segs (sent id label seq buf) (
        finish_send id label seq buf gen (reserved_size buf) (
          send_ok,
          record c { head_bytes = (c.head_bytes + reserved_size buf) % 2 ^ 64 },
          c.head_bytes,
        )))
      g
      (subst (Sent b segs (sent id label seq buf))
        (sym (finish_ready c id label seq buf ring.ready))
        (delivered (published c id label seq buf) (segs' ++ (message (sent id label seq buf) ∷ []))
          (publish-IsRing c segs' id label seq buf ring some_data small fits lap)
          (messages-snoc segs' (sent id label seq buf)
            ∙ ap (λ x. x ++ (sent id label seq buf ∷ [])) m)))

open_send :
    (b : Block) (id label seq : ℕ) (buf : List ℕ)
    → b.state ≡ shm_ready
    → reserved_size buf ≤ data_block_size
    → send b id label seq buf
      ≡ finish_send id label seq buf b.generation
          (reserved_size buf)
          (allocate 100 b b.generation (reserved_size buf) b.head_bytes)
unfolding send
open_send b id label seq buf ready le =
    if_false_two _ _ _ (b.state == shm_ready) (ltb data_block_size (reserved_size buf))
      (ground arith) (ground arith)

-- Sending a message that is not empty and fits the data block, into a block that holds a ring of
-- records and whose counters are three laps below overflow, either adds the message at the end of the
-- messages that wait, or finds less room than the record needs and leaves them as they are.
pub send-Sent :
    (b : Block) (segs : List Segment) (id : NodeId) (label : Label) (seq : ℕ) (buf : List ℕ)
    → IsRing b segs
    → 0 < length buf
    → reserved_size buf ≤ data_block_size
    → b.head_bytes + 3 * data_block_size < 2 ^ 64
    → Sent b segs (sent id label seq buf) (send b id label seq buf)
unfolding send
send-Sent b segs id label seq buf ring some_data le small =
    subst (Sent b segs (sent id label seq buf)) (sym (open_send b id label seq buf ring.ready le)) (
      finish-Sent b segs id label seq buf
        (allocate 100 b b.generation (reserved_size buf) b.head_bytes) some_data
        (allocate-Allocated 98 b segs (reserved_size buf) ring le small))
