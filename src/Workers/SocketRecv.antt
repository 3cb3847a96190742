-- ===== src/Workers/SocketRecv.antt =====
-- socket_recv_worker.cpp: one turn of the loop of run, with recv_exact and disconnect_and_stop.
-- Requests to stop come from another thread: which of the worker's five looks at the flag see one is
-- an argument. The socket's stream, and how much of it was received, stand in the worker.
use netcomm.Prelude.{
  ℕ, ◌+◌, Bool, true, false, not, ◌||◌, ◌&&◌, ◌==◌, Option, none, some, ltb, if◌then◌else◌,
}
use netcomm.Types.{LabelHeader, max_label_size, sizeof_label_header, has_flag, data_flag, ping_flag}
use netcomm.Memory.{Memory, read_bytes}
use netcomm.Wire.{read_header}
use netcomm.Socket.{
  TcpSocket, SockErr, would_block, SockResult, Calls, Run, is_connected, disconnect, recv_all,
  is_no_error,
}
use netcomm.Workers.{Target, bad_magic, announced, distributed}

pub record SocketWorker : Type 0 where
  pub stop : Bool
  pub sock : TcpSocket
  pub stream : Memory
  pub received : ℕ
  pub hdr : Memory
  pub payload : Memory
  pub target : Target

-- What the system and the other threads do in one turn.
pub record Turn : Type 0 where
  pub stops : ℕ → Bool
  pub hdr_os : Calls
  pub payload_os : Calls
  pub fuel : ℕ
  pub now : ℕ × ℕ

-- The loop goes on, ends, or waits in a receive that has not returned.
pub data Turned : Type 0 where
  goes_on : SocketWorker → Turned
  exits : SocketWorker → Turned
  waits : Turned

abbrev pub sees_stop : SocketWorker → Turn → ℕ → Bool
sees_stop w t i = w.stop || t.stops i

abbrev is_would_block : SockErr → Bool
is_would_block would_block = true
is_would_block _ = false

-- Whether `recv_exact` takes a result for a success.
unfoldable pub taken_for_done : SockResult → Bool
taken_for_done r = if is_no_error r.code then not (r.bytes == 0) else is_would_block r.code

-- The end of a receive into a buffer: its result, the socket, the buffer and the count received.
abbrev pub Received : Type 0
Received = Option (Bool × TcpSocket × Memory × ℕ)

abbrev pub of_run : Run Memory → Received
of_run run = elim run.result [
  | none ↦ none
  | some r ↦ some (taken_for_done r, run.sock, run.moved_data, r.bytes)
]

unfoldable pub recv_exact : SocketWorker → Bool → Calls → ℕ → Memory → ℕ → Received
unfolding recv_all taken_for_done
recv_exact w stopping os fuel buf size =
    if stopping
    then some (false, w.sock, buf, 0)
    else of_run (recv_all os fuel w.sock buf 0 size w.stream w.received)

unfoldable pub disconnect_and_stop : SocketWorker → Bool → SocketWorker
unfolding disconnect
disconnect_and_stop w stopping =
    if stopping
    then record w { stop = true }
    else record w { stop = true; sock = disconnect w.sock }

-- After the payload was received.
abbrev pub on_payload : SocketWorker → Turn → LabelHeader → Received → Turned
on_payload w t hdr none = waits
on_payload w t hdr (some (done, s, m, n)) =
    let w' = record w { sock = s; payload = m; received = w.received + n } in
    if not done
    then exits w'
    else if sees_stop w' t 4
    then exits w'
    else goes_on (record w' { target = distributed w'.target (announced hdr m 0) t.now })

-- The checks of a header.
abbrev pub on_checked : SocketWorker → Turn → LabelHeader → Turned
on_checked w t hdr =
    if bad_magic hdr
    then exits (disconnect_and_stop w (sees_stop w t 3))
    else if ltb max_label_size hdr.label_size
    then exits (disconnect_and_stop w (sees_stop w t 3))
    else if (hdr.label_size == 0) && has_flag hdr.flags data_flag
    then exits (disconnect_and_stop w (sees_stop w t 3))
    else if not (has_flag hdr.flags data_flag)
    then (if has_flag hdr.flags ping_flag
        then goes_on w
        else exits (disconnect_and_stop w (sees_stop w t 3)))
    else on_payload w t hdr
        (recv_exact w (sees_stop w t 3) t.payload_os t.fuel w.payload hdr.label_size)

abbrev pub on_header : SocketWorker → Turn → Received → Turned
on_header w t none = waits
on_header w t (some (done, s, m, n)) =
    let w' = record w { sock = s; hdr = m; received = w.received + n } in
    if not done
    then exits w'
    else if sees_stop w' t 2
    then exits w'
    else on_checked w' t (read_header (read_bytes m 0 sizeof_label_header))

unfoldable pub socket_turn : SocketWorker → Turn → Turned
unfolding recv_exact disconnect_and_stop read_header distributed
socket_turn w t =
    if sees_stop w t 0
    then exits w
    else if not (is_connected w.sock)
    then exits w
    else on_header w t (recv_exact w (sees_stop w t 1) t.hdr_os t.fuel w.hdr sizeof_label_header)
