-- ===== src/Workers/Stream.antt =====
-- A message that arrives over TCP (socket_recv_worker.cpp).
use netcomm.Prelude.{
  ℕ, suc, ◌+◌, ◌*◌, ◌≤◌, ◌<◌, ◌≡◌, refl, sym, ap, ◌∙◌, Bool, true, false, not, ◌||◌, ◌&&◌, ◌==◌,
  some, ◌++◌, take, drop, ltb, arith,
}
use netcomm.Types.{LabelHeader, max_label_size, has_flag, data_flag, ping_flag}
use netcomm.Memory.{
  Memory, read_bytes, write_bytes, length-read_bytes, read_bytes-write_bytes, read_bytes_add,
}
use netcomm.Wire.{read_header, header_bytes}
use netcomm.Wire.RoundTrip.{take_all, drop-append, length-header_bytes, read_header_alone}
use netcomm.Socket.{Calls, is_connected, disconnect, close, shutdown, int32_max}
use netcomm.Socket.Transfer.{Reliable}
use netcomm.Socket.RoundTrip.{recv_all_complete}
use netcomm.Workers.{bad_magic, announced, distributed}
use netcomm.Workers.Delivery.{Frame, Good, frame_bytes, carried}
use netcomm.Workers.SocketRecv.{
  of_run, taken_for_done, SocketWorker, Turn, goes_on, exits, recv_exact, on_payload, on_checked,
  on_header, socket_turn, disconnect_and_stop,
}

-- Nobody asks the worker to stop, and its receives of a header and of this much data get through.
pub record Undisturbed (t : Turn) (k size : ℕ) : Type 0 where
  pub unstopped : (i : ℕ) → t.stops i ≡ false
  pub hdr_os : Reliable t.hdr_os k
  pub payload_os : Reliable t.payload_os k
  pub hdr_enough : 28 * suc k + suc k ≤ t.fuel
  pub payload_enough : size * suc k + suc k ≤ t.fuel

-- What a receive of `size` bytes puts into a buffer.
abbrev next_bytes : SocketWorker → Memory → ℕ → Memory
next_bytes w buf size = write_bytes buf 0 (read_bytes w.stream w.received size)

-- A receive of `recv_exact` that gets through.
recv_exact_done :
    (w : SocketWorker) (os : Calls) (k fuel size : ℕ) (buf : Memory)
    → Reliable os k
    → is_connected w.sock ≡ true
    → 0 < size
    → size ≤ int32_max
    → size * suc k + suc k ≤ fuel
    → recv_exact w false os fuel buf size ≡ some (true, w.sock, next_bytes w buf size, size)
unfolding recv_exact taken_for_done
recv_exact_done w os k fuel size buf rel up pos small enough =
    ap of_run
      (recv_all_complete k size fuel pos small enough os w.sock buf 0 w.stream w.received rel up)
    ∙ ground (arith, pos)

-- The next bytes of a stream, as they are read from the buffer that they were received into.
read_next :
    (w : SocketWorker) (buf : Memory) (size : ℕ)
    → read_bytes (next_bytes w buf size) 0 size ≡ read_bytes w.stream w.received size
read_next w buf size =
    ap (read_bytes (next_bytes w buf size) 0) (sym (length-read_bytes w.stream w.received size))
    ∙ read_bytes-write_bytes buf 0 (read_bytes w.stream w.received size)

-- A header that the worker cannot go on after.
abbrev pub refused_header : LabelHeader → Bool
refused_header h =
    bad_magic h
    || (ltb max_label_size h.label_size
        || (((h.label_size == 0) && has_flag h.flags data_flag)
            || (not (has_flag h.flags data_flag) && not (has_flag h.flags ping_flag))))

-- The header of a turn that nobody disturbs.
module _ (w : SocketWorker) (t : Turn) (k size : ℕ) (running : w.stop ≡ false)
    (up : is_connected w.sock ≡ true) (calm : Undisturbed t k size) where
  entered : socket_turn w t ≡ on_header w t (some (true, w.sock, next_bytes w w.hdr 28, 28))
  unfolding socket_turn
  entered = ground (
    arith,
    running,
    up,
    calm.unstopped 0,
    calm.unstopped 1,
    recv_exact_done w t.hdr_os k t.fuel 28 w.hdr calm.hdr_os up (omega arith) (omega arith)
        calm.hdr_enough,
  )

  after_hdr : SocketWorker
  after_hdr = record w { hdr = next_bytes w w.hdr 28; received = w.received + 28 }

  with_next_header :
      on_header w t (some (true, w.sock, next_bytes w w.hdr 28, 28))
      ≡ on_checked after_hdr t (read_header (read_bytes w.stream w.received 28))
  unfolding after_hdr
  with_next_header =
      ground (arith, running, calm.unstopped 2)
      ∙ ap (λ bs. on_checked after_hdr t (read_header bs)) (read_next w w.hdr 28)

  refused_ends :
      (h : LabelHeader)
      → refused_header h ≡ true
      → on_checked after_hdr t h ≡ exits (disconnect_and_stop after_hdr false)
  unfolding after_hdr
  refused_ends h bad = ground (arith, running, calm.unstopped 3, bad)

  -- A turn on a connected socket whose receives get through, with nobody asking the worker to stop
  -- before it or during it, that receives a header of another format or version, of data without
  -- bytes or with too many, or of neither data nor a ping, ends the worker with its socket
  -- disconnected, and nothing of it reaches the clients.
  pub socket_turn-rejects :
      refused_header (read_header (read_bytes w.stream w.received 28)) ≡ true
      → (w' : SocketWorker) × (socket_turn w t ≡ exits w')
        × (is_connected w'.sock ≡ false)
        × (w'.target ≡ w.target)
        × (w'.stop ≡ true)
  unfolding disconnect_and_stop after_hdr is_connected disconnect close shutdown
  socket_turn-rejects bad = (
    disconnect_and_stop after_hdr false,
    entered ∙ with_next_header ∙ refused_ends (read_header (read_bytes w.stream w.received 28)) bad,
    refl,
    refl,
    refl,
  )

module _ (w : SocketWorker) (t : Turn) (k : ℕ) (f : Frame) (running : w.stop ≡ false)
    (up : is_connected w.sock ≡ true) (calm : Undisturbed t k f.header.label_size) (good : Good f)
    (is_data : has_flag f.header.flags data_flag ≡ true) (some_data : 0 < f.header.label_size)
    (on_stream : read_bytes w.stream w.received (28 + f.header.label_size) ≡ frame_bytes f) where
  two_reads :
      read_bytes w.stream w.received 28 ++ read_bytes w.stream (w.received + 28) f.header.label_size
      ≡ header_bytes f.padding f.header ++ f.body
  unfolding frame_bytes
  two_reads = sym (read_bytes_add w.stream w.received 28 f.header.label_size) ∙ on_stream

  header_read : read_bytes w.stream w.received 28 ≡ header_bytes f.padding f.header
  header_read =
      sym (
        take_all 28 (read_bytes w.stream w.received 28) _
          (length-read_bytes w.stream w.received 28))
      ∙ ap (take 28) two_reads
      ∙ take_all 28 (header_bytes f.padding f.header) f.body
          (length-header_bytes f.padding f.header)

  body_read : read_bytes w.stream (w.received + 28) f.header.label_size ≡ f.body
  body_read =
      sym (
        drop-append 28 (read_bytes w.stream w.received 28) _
          (length-read_bytes w.stream w.received 28))
      ∙ ap (drop 28) two_reads
      ∙ drop-append 28 (header_bytes f.padding f.header) f.body
          (length-header_bytes f.padding f.header)

  -- The worker with the header, and with the data.
  abbrev with_hdr : SocketWorker
  with_hdr = record w { hdr = next_bytes w w.hdr 28; received = w.received + 28 }

  abbrev with_payload : SocketWorker
  with_payload = record with_hdr {
    payload = next_bytes with_hdr w.payload f.header.label_size;
    received = w.received + 28 + f.header.label_size;
  }

  header_in :
      on_header w t (some (true, w.sock, next_bytes w w.hdr 28, 28))
      ≡ on_checked with_hdr t f.header
  header_in =
      ground (arith, running, calm.unstopped 2)
      ∙ ap (λ bs. on_checked with_hdr t (read_header bs)) (read_next w w.hdr 28 ∙ header_read)
      ∙ ap (on_checked with_hdr t) (read_header_alone f.padding f.header good.in_range)

  checked :
      on_checked with_hdr t f.header
      ≡ on_payload with_hdr t f.header (
          some
            (true, w.sock, next_bytes with_hdr w.payload f.header.label_size, f.header.label_size))
  checked = ground (
    arith,
    running,
    good.magic,
    good.version_is,
    good.small,
    some_data,
    is_data,
    calm.unstopped 3,
    recv_exact_done with_hdr t.payload_os k t.fuel f.header.label_size w.payload calm.payload_os up
        some_data (omega (arith, good.small)) calm.payload_enough,
  )

  announced_is : announced f.header with_payload.payload 0 ≡ carried f
  announced_is =
      ap (λ bs. record (carried f) { bytes = bs })
        (read_next with_hdr w.payload f.header.label_size ∙ body_read)

  handed_on :
      on_payload with_hdr t f.header (
        some (true, w.sock, next_bytes with_hdr w.payload f.header.label_size, f.header.label_size))
      ≡ goes_on (record with_payload { target = distributed w.target (carried f) t.now })
  handed_on =
      ground (arith, running, calm.unstopped 4)
      ∙ ap (λ msg. goes_on (record with_payload { target = distributed w.target msg t.now }))
          announced_is

  -- A turn of the socket's worker on a stream that goes on with a frame of data of this version,
  -- on a connected socket whose receives get through, with nobody asking it to stop, distributes
  -- exactly the message that the frame carries, leaves the stream behind the frame, and goes on.
  pub socket_turn-carries :
      (w' : SocketWorker) × (socket_turn w t ≡ goes_on w')
      × (w'.target ≡ distributed w.target (carried f) t.now)
      × (w'.received ≡ w.received + 28 + f.header.label_size)
      × (w'.sock ≡ w.sock)
      × (w'.stop ≡ false)
  socket_turn-carries = (
    record with_payload { target = distributed w.target (carried f) t.now },
    entered w t k f.header.label_size running up calm ∙ header_in ∙ checked ∙ handed_on,
    refl,
    refl,
    refl,
    running,
  )
