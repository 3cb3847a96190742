-- ===== src/Manager/SendLabel.antt =====
-- Manager::send_label (manager.cpp): the checks, the message with its header, and the hand-over to the
-- connection manager.
use netcomm.Prelude.{
  ℕ, ◌+◌, ◌%◌, ◌^◌, ◌<◌, ◌≤◌, ◌≡◌, ◌≢◌, true, subst, sym, ap, ◌∙◌, not, Option, none, some, ◌++◌,
  ◌==◌, ◌||◌, ◌&&◌, if◌then◌else◌, replicate, length-replicate, is_empty, find, inl, inr, arith,
}
use netcomm.Types.{
  NodeId, Label, SendHandle, LabelHeader, magic_num, version, data_flag, flag_value,
  sizeof_label_header, max_label_size,
}
use netcomm.Types.Words.{inc32}
use netcomm.Memory.{Memory, read_bytes, length-read_bytes}
use netcomm.Wire.{Padding, header_bytes, copy_into}
use netcomm.Wire.RoundTrip.{copy_into-twice, length-header_bytes}
use netcomm.Routes.{SendRoute, get_send_route}
use netcomm.Jobs.{SendBuf, SendJob, SendJobErr, no_error, send_buf, finalize_send_iosb}
use netcomm.Router.Inv.{SendInv}
use netcomm.Router.SendJobs.{
  build_send_job, build_send_job-buffer, build_send_job-seq, build_send_job_open, Addressed,
  within_assert,
}
use netcomm.Comms.{Enqueued, finished, queued, hand_over, enqueue_send}
use netcomm.Manager.{Manager}

abbrev pub data_header : NodeId → Label → ℕ → ℕ → LabelHeader
data_header my_id label size recv_offset = record {
  magic = magic_num;
  version = version;
  source_id = my_id;
  flags = flag_value data_flag;
  label = label;
  label_size = size % 2 ^ 32;
  recv_offset = recv_offset % 2 ^ 32;
}

-- The buffer of a send, after the header and the data were copied into it. `from` is where the data
-- is read.
unfoldable pub filled_buf : Padding → LabelHeader → Memory → ℕ → ℕ → ℕ → SendBuf
unfolding send_buf copy_into
filled_buf p hdr m src size from = record (send_buf src size) {
  bytes =
      copy_into (copy_into (send_buf src size).bytes 0 (header_bytes p hdr)) sizeof_label_header
        (read_bytes m from size);
}

-- The arguments of a send: a buffer, null for the handle's own, its size, and the two offsets.
pub record SendArgs : Type 0 where
  pub buf : ℕ
  pub buf_size : ℕ
  pub send_offset : ℕ
  pub recv_offset : ℕ

abbrev pub data_buf : SendHandle → SendArgs → ℕ
data_buf h a = if a.buf == 0 then h.info.buf else a.buf

abbrev pub data_size : SendHandle → SendArgs → ℕ
data_size h a = if a.buf == 0 then h.info.buf_size else a.buf_size

abbrev pub send_offset : SendHandle → SendArgs → ℕ
send_offset h a = if not h.info.is_offset then 0 else a.send_offset

abbrev pub recv_offset : SendHandle → SendArgs → ℕ
recv_offset h a = if not h.info.is_offset then 0 else a.recv_offset

abbrev pub message_buf : Manager → Padding → Memory → SendHandle → SendArgs → SendBuf
message_buf mgr p m h a =
    filled_buf p (data_header mgr.id h.info.label (data_size h a) (recv_offset h a)) m
      (data_buf h a) (data_size h a) (data_buf h a + send_offset h a)

-- None if the call is refused; else what the hand-over gives.
unfoldable pub send_label :
    Manager → ℕ → Padding → Memory → ℕ × ℕ → Option SendHandle → SendArgs → Option (Enqueued × ℕ)
unfolding filled_buf enqueue_send
send_label mgr seq p m now none a = none
send_label mgr seq p m now (some h) a =
    if data_size h a == 0 || not (data_size h a == h.info.buf_size)
    then none
    else if data_buf h a == 0
    then none
    else some (enqueue_send mgr.router seq mgr.id now h.uid h.info.label (message_buf mgr p m h a))

-- The message of a send: the header's bytes, then the data as it stands in memory.
pub filled_buf_lem :
    (p : Padding) (hdr : LabelHeader) (m : Memory) (src size from : ℕ)
    → (filled_buf p hdr m src size from).bytes ≡ header_bytes p hdr ++ read_bytes m from size
unfolding filled_buf send_buf
filled_buf_lem p hdr m src size from =
    ap
      (λ n.
        copy_into (copy_into (replicate (size + 28) 0) 0 (header_bytes p hdr)) n
          (read_bytes m from size))
      (sym (length-header_bytes p hdr))
    ∙ copy_into-twice (replicate (size + 28) 0) (header_bytes p hdr) (read_bytes m from size) (
        omega (
          arith,
          length-replicate {A = ℕ} (size + 28) 0,
          length-header_bytes p hdr,
          length-read_bytes m from size,
        ))

-- What becomes of a job that is accepted.
abbrev pub given_out : SendHandle → ℕ × ℕ → SendJob → Enqueued
given_out h now job =
    if is_empty job.local_recvrs && is_empty job.remote_recvrs
    then finished (some (finalize_send_iosb job h now))
    else queued job (not (is_empty job.local_recvrs)) (not (is_empty job.remote_recvrs))

module _ (mgr : Manager) (inv : SendInv mgr.router) (h : SendHandle)
    (open_handle : find h.uid mgr.router.send_handles ≡ some h) where
  module _ (seq : ℕ) (p : Padding) (m : Memory) (now : ℕ × ℕ) (a : SendArgs)
      (whole : data_size h a ≡ h.info.buf_size) (some_data : 0 < h.info.buf_size)
      (good_buf : data_buf h a ≢ 0)
      (small : h.info.buf_size + sizeof_label_header ≤ max_label_size) where
    abbrev buf : SendBuf
    buf = message_buf mgr p m h a

    abbrev built : (SendJobErr × SendJob) × ℕ
    built = build_send_job mgr.router seq mgr.id h.info.label h.uid buf

    send_label_tried :
        send_label mgr seq p m now (some h) a
        ≡ some (enqueue_send mgr.router seq mgr.id now h.uid h.info.label buf)
    unfolding send_label
    send_label_tried = ground (arith, whole, some_data, good_buf)

    asserted : {b : SendBuf} → b ≡ buf → within_assert b ≡ true
    unfolding filled_buf send_buf
    asserted e = subst (λ x. within_assert x ≡ true) (sym e) (ground (arith, whole, small))

    handed_over :
        (built.0.0 ≡ no_error)
        → (built.0.1.publisher ≡ some h)
        → enqueue_send mgr.router seq mgr.id now h.uid h.info.label buf
          ≡ (given_out h now built.0.1, inc32 seq)
    unfolding enqueue_send hand_over
    handed_over ok pub_is =
        ground (arith, ok, pub_is, build_send_job-seq mgr.router seq mgr.id h.info.label h.uid buf)

    -- In a router that keeps its invariant, sending through an open handle, with a buffer of the
    -- handle's size that is neither empty nor null, and that with its header is no larger than a
    -- label may be, so that no assertion of the send fails, makes a job that carries a data header for the
    -- label, with the receive offset, followed by the data as it stands in memory from the send
    -- offset, and that is addressed to every peer of the label; the job goes to the queue of each
    -- kind of peers that there are, and is finished at once if there are none. Both offsets are 0
    -- unless the handle was opened for offsets.
    pub send_label_lem :
        (job : SendJob) × (route : SendRoute) × (get_send_route mgr.router.routes h.info.label
          ≡ some route)
        × Addressed mgr.router route h job
        × (within_assert job.send_buffer ≡ true)
        × (job.send_buffer ≡ message_buf mgr p m h a)
        × (job.send_buffer.bytes
            ≡ header_bytes p (data_header mgr.id h.info.label (data_size h a) (recv_offset h a))
              ++ read_bytes m (data_buf h a + send_offset h a) (data_size h a))
        × (send_label mgr seq p m now (some h) a ≡ some (given_out h now job, inc32 seq))
    unfolding filled_buf send_buf
    send_label_lem = elim (build_send_job_open inv h seq mgr.id buf open_handle) [
      | inl (fits, ok, (route, e, to)) ↦ (
        built.0.1,
        route,
        e,
        to,
        asserted (build_send_job-buffer mgr.router seq mgr.id h.info.label h.uid buf),
        build_send_job-buffer mgr.router seq mgr.id h.info.label h.uid buf,
        ap (λ b. b.bytes) (build_send_job-buffer mgr.router seq mgr.id h.info.label h.uid buf)
            ∙ filled_buf_lem p (data_header mgr.id h.info.label (data_size h a) (recv_offset h a)) m
                (data_buf h a) (data_size h a) (data_buf h a + send_offset h a),
        send_label_tried ∙ ap some (handed_over ok to.publisher),
      )
      | inr (misfit, err) ↦ absurd (misfit (ap (λ n. n + sizeof_label_header) whole))
    ]
