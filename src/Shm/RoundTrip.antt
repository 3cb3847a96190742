-- ===== src/Shm/RoundTrip.antt =====
-- A message through a shared-memory block: ShmSend::send, then ShmRecv::recv (shm_send.cpp,
-- shm_recv.cpp).
use netcomm.Prelude.{
  ℕ, ◌+◌, ◌*◌, ◌^◌, ◌≤◌, ◌<◌, ◌≡◌, refl, ap, ◌∙◌, Option, some, List, [], ◌∷◌, ◌++◌, length, arith,
}
use netcomm.Types.{NodeId, Label}
use netcomm.Shm.Layout.{data_block_size}
use netcomm.Shm.{
  Block, ShmRecvData, ShmSendErr, send_ok, ShmRecvErr, recv_ok, reserved_size, send, recv,
}
use netcomm.Shm.Ring.{Segment, messages, IsRing}
use netcomm.Shm.Writes.{sent}
use netcomm.Shm.Send.{Sent, delivered, refused, send-Sent}
use netcomm.Shm.Recv.{Received, none_left, got, stuck, recv-Received}

take_oldest :
    (segs : List Segment) (m : ShmRecvData) (later : List ShmRecvData) (max_size : ℕ)
    (r : ShmRecvErr × Option ShmRecvData × Block)
    → messages segs ≡ m ∷ later
    → length m.buf ≤ max_size
    → Received segs max_size r
    → (r.0 ≡ recv_ok) × (r.1 ≡ some m)
take_oldest segs m later max_size r e le (none_left c none_there ring) = cc
take_oldest segs m later max_size r e le (got c d rest f fits ring) = (refl, cc)
take_oldest segs m later max_size r e le (stuck c d rest f large ring) = ground (arith, e, f)

through :
    (b : Block) (segs : List Segment) (m : ShmRecvData) (max_size : ℕ) (r : ShmSendErr × Block)
    → messages segs ≡ []
    → length m.buf ≤ max_size
    → Sent b segs m r
    → r.0 ≡ send_ok
    → r.1.head_bytes + data_block_size < 2 ^ 64
    → ((recv r.1 max_size).0 ≡ recv_ok) × ((recv r.1 max_size).1 ≡ some m)
through b segs m max_size r empty le (refused c segs' ring e t full) ok small = cc
through b segs m max_size r empty le (delivered c segs' ring e) ok small =
    take_oldest segs' m [] max_size (recv c max_size) (e ∙ ap (λ x. x ++ (m ∷ [])) empty) le
      (recv-Received c segs' max_size ring small)

-- If a send into a ring without messages succeeds, and the counters stay below overflow, the next
-- receive with a buffer that is large enough gives that message: its source, its label, its sequence
-- number and its bytes.
pub recv-send :
    (b : Block) (segs : List Segment) (id : NodeId) (label : Label) (seq : ℕ) (buf : List ℕ)
    (max_size : ℕ)
    → IsRing b segs
    → messages segs ≡ []
    → 0 < length buf
    → reserved_size buf ≤ data_block_size
    → b.head_bytes + 3 * data_block_size < 2 ^ 64
    → length buf ≤ max_size
    → (send b id label seq buf).0 ≡ send_ok
    → (send b id label seq buf).1.head_bytes + data_block_size < 2 ^ 64
    → ((recv (send b id label seq buf).1 max_size).0 ≡ recv_ok)
      × ((recv (send b id label seq buf).1 max_size).1 ≡ some (sent id label seq buf))
recv-send b segs id label seq buf max_size ring empty some_data fits small le ok small' =
    through b segs (sent id label seq buf) max_size (send b id label seq buf) empty le
      (send-Sent b segs id label seq buf ring some_data fits small) ok small'
