-- ===== src/Workers/Plans.antt =====
-- send_plan.h: one job to one receiver, over shared memory and over TCP.
use netcomm.Prelude.{
  ℕ, ◌≤◌, ◌<◌, ◌≡◌, true, false, not, Bool, List, [], none, some, if◌then◌else◌, arith,
}
use netcomm.Memory.{buffer_of, read_bytes}
use netcomm.Jobs.{SendJob}
use netcomm.Shm.{Block, ShmSendErr, send_ok}
use netcomm.Shm
use netcomm.Socket.{TcpSocket, Io, moved, Run, is_connected, send, ok, int32_max, refused}

abbrev pub is_send_ok : ShmSendErr → Bool
is_send_ok send_ok = true
is_send_ok _ = false

unfoldable pub shm_send_one : Block → SendJob → Bool × Block
unfolding Shm.send
shm_send_one b job =
    let (e, b') = Shm.send b job.source_id job.label job.seq job.send_buffer.bytes in
    (is_send_ok e, b')

abbrev pub run_ok : Run (List ℕ) → Bool
run_ok run = elim run.result [ none ↦ false | some r ↦ ok r ]

-- Whether the send counts as one that succeeded, with the socket and the bytes that went out.
unfoldable pub tcp_send_one : TcpSocket → SendJob → Io → Bool × TcpSocket × List ℕ
unfolding send ok is_connected
tcp_send_one s job os =
    if not (is_connected s)
    then (false, s, [])
    else let run = send s (buffer_of job.send_buffer.bytes) 0 job.send_buffer.total_size os in
      (run_ok run, run.sock, run.moved_data)

-- A job of at most 2 ^ 31 - 1 bytes to a connected peer counts as sent if the system takes any number
-- of its bytes above 0, and exactly that number goes out: a part of a message counts as the message.
pub tcp_send_one_lem :
    (s : TcpSocket) (job : SendJob) (n : ℕ)
    → is_connected s ≡ true
    → 0 < n
    → n ≤ job.send_buffer.total_size
    → job.send_buffer.total_size ≤ int32_max
    → tcp_send_one s job (moved n) ≡ (true, s, read_bytes (buffer_of job.send_buffer.bytes) 0 n)
unfolding tcp_send_one send refused ok
tcp_send_one_lem s job n up pos le small = ground (arith, up)
