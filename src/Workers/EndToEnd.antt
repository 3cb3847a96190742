-- ===== src/Workers/EndToEnd.antt =====
-- A label from send_label (manager.cpp) on one node to the clients of another, over TCP and over
-- shared memory (send_plan.h, socket_recv_worker.cpp, shm_recv_worker.cpp).
use netcomm.Prelude.{
  ℕ, suc, ◌+◌, ◌*◌, ◌%◌, ◌^◌, ◌≤◌, ◌<◌, ◌≡◌, refl, sym, ap, ap₂, ◌∙◌, subst, true, false, some,
  List, [], ◌∷◌, ◌++◌, length, length-append, arith,
}
use native.Mathlib.Nat.{mod-eq_of_lt}
use netcomm.Types.{NodeId, SendHandle, max_label_size, has_flag}
use netcomm.Types.Words.{bit_test}
use netcomm.Memory.{Memory, read_bytes, buffer_of, length-read_bytes, read_bytes-write_bytes}
use netcomm.Wire.{Padding, header_bytes}
use netcomm.Wire.RoundTrip.{length-header_bytes}
use netcomm.Delivery.{Message}
use netcomm.Jobs.{SendJob, send_buf}
use netcomm.Manager.{Manager}
use netcomm.Manager.SendLabel.{
  message_buf, filled_buf, filled_buf_lem, SendArgs, data_header, data_buf, data_size, send_offset,
  recv_offset,
}
use netcomm.Socket.{TcpSocket, moved, is_connected}
use netcomm.Workers.{distributed}
use netcomm.Workers.Plans.{shm_send_one, is_send_ok, tcp_send_one, tcp_send_one_lem}
use netcomm.Workers.Delivery.{Frame, Good, frame_bytes, Carries, deliver_each}
use netcomm.Shm.{Block, ShmSendErr, ShmRecvData, send_ok, reserved_size}
use netcomm.Shm
use netcomm.Shm.Layout.{data_block_size}
use netcomm.Shm.Ring.{Segment, messages, IsRing}
use netcomm.Shm.Writes.{sent}
use netcomm.Shm.Send.{Sent, delivered, refused, send-Sent}
use netcomm.Workers.ShmRecv.{ShmWorker, drain}
use netcomm.Workers.Draining.{alone, Emptied, drain_all}
use netcomm.Workers.SocketRecv.{SocketWorker, Turn, goes_on, socket_turn}
use netcomm.Workers.Stream.{Undisturbed, socket_turn-carries}

-- The worker on a ring that a message was just put into, with nothing before it.
drain_sent :
    (w : ShmWorker) (segs : List Segment) (d : ShmRecvData) (f : Frame) (r : ShmSendErr × Block)
    (spins fuel : ℕ) (now : ℕ → ℕ × ℕ) (id : NodeId)
    → Sent w.block segs d r
    → messages segs ≡ []
    → d.buf ≡ frame_bytes f
    → Good f
    → is_send_ok r.0 ≡ true
    → r.1.head_bytes + data_block_size < 2 ^ 64
    → 1 < fuel
    → Emptied now 0
        (record w { block = r.1 })
        (f ∷ [])
        (drain fuel (suc spins) (λ i. alone) id now 0 (record w { block = r.1 }))
drain_sent w segs d f _ spins fuel now id (delivered c segs' ring e) empty buf good ok small
      enough =
    drain_all spins id now (f ∷ []) fuel (record w { block = c }) segs' ring small
      (subst (λ ms. Carries ms (f ∷ [])) (sym (e ∙ ap (λ x. x ++ (d ∷ [])) empty)) (buf, good, tt))
      (omega arith)
drain_sent w segs d f _ spins fuel now id (refused c segs' ring e t full) empty buf good ok small
      enough =
    absurd (ground (arith, ok))

-- The frame that a send of these arguments makes.
abbrev pub label_frame : Manager → Padding → Memory → SendHandle → SendArgs → Frame
label_frame mgr p m h a = record {
  padding = p;
  header = data_header mgr.id h.info.label (data_size h a) (recv_offset h a);
  body = read_bytes m (data_buf h a + send_offset h a) (data_size h a);
}

-- The message of a send: who sent it, its label, the data at the send offset, and where it goes.
abbrev pub label_message : Manager → Memory → SendHandle → SendArgs → Message
label_message mgr m h a = record {
  source_id = mgr.id;
  label = h.info.label;
  bytes = read_bytes m (data_buf h a + send_offset h a) (data_size h a);
  recv_offset = recv_offset h a % 2 ^ 32;
}

module _ (mgr : Manager) (p : Padding) (m : Memory) (h : SendHandle) (a : SendArgs)
    (id_ok : mgr.id < 2 ^ 32) (label_ok : h.info.label < 2 ^ 32) (some_data : 0 < data_size h a)
    (fits : data_size h a ≤ max_label_size) where
  abbrev f : Frame
  f = label_frame mgr p m h a

  abbrev size : ℕ
  size = data_size h a

  size_kept : size % 2 ^ 32 ≡ size
  size_kept = mod-eq_of_lt {n = size} {m = 2 ^ 32} (omega arith)

  frame-Good : Good f
  frame-Good = record {
    in_range = record {
      magic = omega arith;
      version = omega arith;
      source_id = id_ok;
      flags = omega arith;
      label = label_ok;
      label_size = omega (arith, size_kept);
      recv_offset = omega arith;
    };
    magic = refl;
    version_is = refl;
    sized = length-read_bytes m (data_buf h a + send_offset h a) size ∙ sym size_kept;
    small = omega (arith, size_kept);
  }

  length-frame : length (frame_bytes f) ≡ 28 + size
  unfolding frame_bytes
  length-frame =
      length-append (header_bytes p f.header) f.body
      ∙ ap₂ ◌+◌ (length-header_bytes p f.header)
          (length-read_bytes m (data_buf h a + send_offset h a) size)

  bytes_are : (message_buf mgr p m h a).bytes ≡ frame_bytes f
  unfolding frame_bytes
  bytes_are = filled_buf_lem p f.header m (data_buf h a) size (data_buf h a + send_offset h a)

  total_is : (message_buf mgr p m h a).total_size ≡ 28 + size
  unfolding filled_buf send_buf
  total_is = omega arith

  module _ (job : SendJob) (filled : job.send_buffer ≡ message_buf mgr p m h a) where
    on_the_wire :
        (s : TcpSocket)
        → is_connected s ≡ true
        → (tcp_send_one s job (moved (28 + size))).2 ≡ frame_bytes f
    on_the_wire s up =
        ap (λ r. r.2)
          (tcp_send_one_lem s job (28 + size) up (omega arith)
            (omega (arith, total_is, ap (λ b. b.total_size) filled))
            (omega (arith, total_is, ap (λ b. b.total_size) filled)))
        ∙ ap (λ b. read_bytes (buffer_of b.bytes) 0 (28 + size)) filled
        ∙ ap (λ bs. read_bytes (buffer_of bs) 0 (28 + size)) bytes_are
        ∙ ap (read_bytes (buffer_of (frame_bytes f)) 0) (sym length-frame)
        ∙ read_bytes-write_bytes (λ x. 0) 0 (frame_bytes f)

    -- If the system takes a whole job of `send_label` at once, and the stream of the peer's socket
    -- goes on with what went out, one turn of the peer's worker, whose receives get through and
    -- whom nobody asks to stop, distributes exactly that label from that node, with the data that
    -- the sender's memory holds at the send offset, and the receive offset.
    pub label_over_tcp :
        (s : TcpSocket) (w : SocketWorker) (t : Turn) (k : ℕ)
        → is_connected s ≡ true
        → w.stop ≡ false
        → is_connected w.sock ≡ true
        → Undisturbed t k (data_size h a)
        → read_bytes w.stream w.received (28 + data_size h a)
          ≡ (tcp_send_one s job (moved (28 + data_size h a))).2
        → (w' : SocketWorker) × (socket_turn w t ≡ goes_on w')
          × (w'.target ≡ distributed w.target (label_message mgr m h a) t.now)
    unfolding has_flag bit_test
    label_over_tcp s w t k up running up' calm on_stream =
        let (w', q, target, received, sock, stop) =
          socket_turn-carries w t k f running up' (subst (Undisturbed t k) (sym size_kept) calm)
            frame-Good refl (omega (arith, size_kept))
            (ap (λ n. read_bytes w.stream w.received (28 + n)) size_kept
              ∙ on_stream
              ∙ on_the_wire s up) in
        (w', q, target)

    -- If a job of `send_label` is put into a shared memory block without messages, and no other node
    -- touches the block meanwhile, the peer's worker, once woken, distributes exactly that label
    -- from that node, once, with the data that the sender's memory holds at the send offset, and the
    -- receive offset, and leaves the block empty.
    pub label_over_shm :
        (w : ShmWorker) (segs : List Segment) (spins fuel : ℕ) (now : ℕ → ℕ × ℕ) (id : NodeId)
        → IsRing w.block segs
        → messages segs ≡ []
        → w.block.head_bytes + 3 * data_block_size < 2 ^ 64
        → (shm_send_one w.block job).0 ≡ true
        → (shm_send_one w.block job).1.head_bytes + data_block_size < 2 ^ 64
        → 1 < fuel
        → (w' : ShmWorker) × (drain fuel
              (suc spins)
              (λ i. alone)
              id
              now
              0
              (record w { block = (shm_send_one w.block job).1 })
            ≡ some w')
          × IsRing w'.block []
          × (w'.target ≡ distributed w.target (label_message mgr m h a) (now 0))
    unfolding shm_send_one deliver_each
    label_over_shm w segs spins fuel now id ring empty small ok small' enough =
        let bytes : job.send_buffer.bytes ≡ frame_bytes f = ap (λ b. b.bytes) filled ∙ bytes_are in
        let long : length job.send_buffer.bytes ≡ 28 + size = ap length bytes ∙ length-frame in
        let (w', q, done, target, stop) =
          drain_sent w segs (sent job.source_id job.label job.seq job.send_buffer.bytes) f
            (Shm.send w.block job.source_id job.label job.seq job.send_buffer.bytes) spins fuel now
            id
            (send-Sent w.block segs job.source_id job.label job.seq job.send_buffer.bytes ring
              (omega (arith, long)) (omega (arith, long, fits)) small)
            empty bytes frame-Good ok small' enough in
        (w', q, done, target)
