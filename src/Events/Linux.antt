-- ===== src/Events/Linux.antt =====
-- linux/linux_semaphore.cpp and linux/linux_named_semaphore.cpp. The calls of one loop are a function
-- of the number of the call, none for success. A loop runs on fuel, the number of calls, and gives
-- none if it has not returned yet.
use netcomm.Prelude.{
  ℕ, zero, suc, ◌+◌, ◌-◌, ◌*◌, ◌/◌, ◌%◌, ◌^◌, ◌++◌, Bool, false, not, Option, none, some, List, [],
  ◌∷◌, ◌==◌, if◌then◌else◌, leb, codes, int_text,
}
use netcomm.Types.{NodeId}
use netcomm.Events.{
  SemErr, no_error, not_initialized, timed_out, would_block, max_count_reached, sys_error, SemOp,
  post_op, try_wait_op, wait_op, SemResult, Semaphore, NamedSemErr, no_named_error, double_open,
  not_created, invalid_name, open_failed, signal_failed, wait_timeout, wait_would_block, max_count,
  named_sys_error, NamedSemOp, open_named_op, post_named_op, try_wait_named_op, wait_named_op,
  NamedSemResult, NamedSemaphore,
}

pub data SemErrno : Type 0 where
  eintr eagain einval etimedout eoverflow : SemErrno
  other_errno : ℕ → SemErrno

abbrev pub Calls : Type 0
Calls = ℕ → Option SemErrno

-- The loop that each wait runs: the first call, from call `i`, that is not interrupted.
unfoldable pub retry : Calls → ℕ → ℕ → Option (Option SemErrno)
retry os zero i = none
retry os (suc fuel) i = elim (os i) [
  | none ↦ some none
  | some eintr ↦ retry os fuel (suc i)
  | some e ↦ some (some e)
]

-- Seconds and nanoseconds of the clock, none if it cannot be read, and `timeout_ms` later.
unfoldable pub make_abs_deadline_realtime : Option (ℕ × ℕ) → ℕ → Option (ℕ × ℕ)
make_abs_deadline_realtime none timeout_ms = none
make_abs_deadline_realtime (some (sec, nsec)) timeout_ms =
    let add_ns = timeout_ms % 1000 * 1000000 % 2 ^ 32 in
    if leb 1000000000 (nsec + add_ns)
    then some (sec + timeout_ms / 1000 + 1, nsec + add_ns - 1000000000)
    else some (sec + timeout_ms / 1000, nsec + add_ns)

-- The constructor: the semaphore of the system starts at 0, and has no bound of its own.
unfoldable pub new_semaphore : ℕ → ℕ → Semaphore
new_semaphore bound os = record { m_sem = os; m_max_count = bound }

abbrev pub post_code : Option SemErrno → SemErr
post_code none = no_error
post_code (some einval) = not_initialized
post_code (some eoverflow) = max_count_reached
post_code (some e) = sys_error

unfoldable pub post : Semaphore → Option SemErrno → SemResult
post s os =
    if s.m_sem == 0
    then record { code = not_initialized; op = post_op }
    else record { code = post_code os; op = post_op }

abbrev pub try_wait_code : Option SemErrno → SemErr
try_wait_code none = no_error
try_wait_code (some eagain) = would_block
try_wait_code (some einval) = not_initialized
try_wait_code (some e) = sys_error

abbrev pub wait_code : Option SemErrno → SemErr
wait_code none = no_error
wait_code (some einval) = not_initialized
wait_code (some e) = sys_error

abbrev pub timed_wait_code : Option SemErrno → SemErr
timed_wait_code none = no_error
timed_wait_code (some etimedout) = timed_out
timed_wait_code (some einval) = not_initialized
timed_wait_code (some e) = sys_error

-- The result of a wait once its loop has returned.
abbrev pub waited : SemOp → (Option SemErrno → SemErr) → Option (Option SemErrno) → Option SemResult
waited op code none = none
waited op code (some o) = some (record { code = code o; op = op })

unfoldable pub try_wait : Semaphore → Calls → ℕ → Option SemResult
unfolding retry
try_wait s os fuel =
    if s.m_sem == 0
    then some (record { code = not_initialized; op = try_wait_op })
    else waited try_wait_op try_wait_code (retry os fuel 0)

-- `os` are the calls by the deadline that they are given, none for a wait without one.
unfoldable pub wait :
    Semaphore → ℕ → Option (ℕ × ℕ) → (Option (ℕ × ℕ) → Calls) → ℕ → Option SemResult
unfolding retry make_abs_deadline_realtime
wait s milliseconds clock os fuel =
    if s.m_sem == 0
    then some (record { code = not_initialized; op = wait_op })
    else if milliseconds == 0
    then waited wait_op wait_code (retry (os none) fuel 0)
    else elim (make_abs_deadline_realtime clock milliseconds) [
      | none ↦ some (record { code = sys_error; op = wait_op })
      | some d ↦ waited wait_op timed_wait_code (retry (os (some d)) fuel 0)
    ]

-- The text "/eroil.evt." with the number of the node.
unfoldable pub name : NodeId → List ℕ
unfolding int_text
name id = codes "/eroil.evt." ++ int_text id

abbrev pub is_name : List ℕ → Bool
is_name [] = false
is_name (c ∷ cs) = c == b'/'

abbrev pub named : NamedSemErr → NamedSemOp → NamedSemResult
named e o = record { code = e; op = o }

-- `os` is what `sem_open` gives for a name: the address of a semaphore, or a failure.
unfoldable pub open_named : NamedSemaphore → (List ℕ → Option ℕ) → NamedSemaphore × NamedSemResult
unfolding name
open_named s os =
    if not (s.m_sem == 0)
    then (s, named double_open open_named_op)
    else if not (is_name (name s.m_dst_id))
    then (record s { m_sem = 0 }, named invalid_name open_named_op)
    else elim (os (name s.m_dst_id)) [
      | none ↦ (s, named open_failed open_named_op)
      | some a ↦ (record s { m_sem = a }, named no_named_error open_named_op)
    ]

-- The constructor opens the semaphore of the node.
unfoldable pub new_named : NodeId → (List ℕ → Option ℕ) → NamedSemaphore
unfolding open_named
new_named id os = (open_named (record { m_dst_id = id; m_sem = 0 }) os).0

abbrev pub post_named_code : Option SemErrno → NamedSemErr
post_named_code none = no_named_error
post_named_code (some eoverflow) = max_count
post_named_code (some e) = signal_failed

unfoldable pub post_named : NamedSemaphore → Option SemErrno → NamedSemResult
post_named s os =
    if s.m_sem == 0
    then named not_created post_named_op
    else named (post_named_code os) post_named_op

abbrev pub map_wait_errno : SemErrno → NamedSemErr
map_wait_errno eintr = named_sys_error
map_wait_errno etimedout = wait_timeout
map_wait_errno eagain = named_sys_error
map_wait_errno einval = not_created
map_wait_errno e = named_sys_error

abbrev pub try_wait_named_code : Option SemErrno → NamedSemErr
try_wait_named_code none = no_named_error
try_wait_named_code (some eagain) = wait_would_block
try_wait_named_code (some e) = map_wait_errno e

abbrev pub wait_named_code : Option SemErrno → NamedSemErr
wait_named_code none = no_named_error
wait_named_code (some e) = map_wait_errno e

abbrev pub waited_named :
    NamedSemOp → (Option SemErrno → NamedSemErr) → Option (Option SemErrno) → Option NamedSemResult
waited_named op code none = none
waited_named op code (some o) = some (named (code o) op)

unfoldable pub try_wait_named : NamedSemaphore → Calls → ℕ → Option NamedSemResult
unfolding retry
try_wait_named s os fuel =
    if s.m_sem == 0
    then some (named not_created try_wait_named_op)
    else waited_named try_wait_named_op try_wait_named_code (retry os fuel 0)

unfoldable pub wait_named :
    NamedSemaphore → ℕ → Option (ℕ × ℕ) → (Option (ℕ × ℕ) → Calls) → ℕ → Option NamedSemResult
unfolding retry make_abs_deadline_realtime
wait_named s milliseconds clock os fuel =
    if s.m_sem == 0
    then some (named not_created wait_named_op)
    else if milliseconds == 0
    then waited_named wait_named_op wait_named_code (retry (os none) fuel 0)
    else elim (make_abs_deadline_realtime clock milliseconds) [
      | none ↦ some (named named_sys_error wait_named_op)
      | some d ↦ waited_named wait_named_op wait_named_code (retry (os (some d)) fuel 0)
    ]
