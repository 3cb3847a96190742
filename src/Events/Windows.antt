-- ===== src/Events/Windows.antt =====
-- win/win_semaphore.cpp and win/win_named_semaphore.cpp.
use netcomm.Prelude.{
  ℕ, ◌++◌, Bool, true, false, not, Option, none, some, List, [], ◌∷◌, ◌==◌, if◌then◌else◌, codes,
  int_text,
}
use netcomm.Types.{NodeId}
use netcomm.Events.{
  SemErr, no_error, not_initialized, timed_out, would_block, max_count_reached, sys_error, post_op,
  try_wait_op, wait_op, SemResult, Semaphore, NamedSemErr, no_named_error, double_open, not_created,
  invalid_name, open_failed, signal_failed, wait_timeout, wait_would_block, max_count,
  named_sys_error, NamedSemOp, open_named_op, post_named_op, try_wait_named_op, wait_named_op,
  NamedSemResult, NamedSemaphore,
}

-- What `ReleaseSemaphore` fails with.
pub data ReleaseErr : Type 0 where
  too_many_posts : ReleaseErr
  other_error : ℕ → ReleaseErr

-- What `WaitForSingleObject` gives.
pub data WaitRc : Type 0 where
  object_0 timeout failed abandoned : WaitRc

abbrev pub long_max : ℕ
long_max = 0x7fffffff

abbrev pub infinite : ℕ
infinite = 0xffffffff

-- The constructor. `os` is what the system makes for the bits of a largest count: an address, or
-- null.
unfoldable pub new_semaphore : ℕ → (ℕ → ℕ) → Semaphore
new_semaphore bound os =
    let max = if bound == 0 then long_max else bound in record { m_sem = os max; m_max_count = max }

abbrev pub post_code : Option ReleaseErr → SemErr
post_code none = no_error
post_code (some too_many_posts) = max_count_reached
post_code (some (other_error n)) = sys_error

unfoldable pub post : Semaphore → Option ReleaseErr → SemResult
post s os =
    if s.m_sem == 0
    then record { code = not_initialized; op = post_op }
    else record { code = post_code os; op = post_op }

abbrev pub try_wait_code : WaitRc → SemErr
try_wait_code object_0 = no_error
try_wait_code timeout = would_block
try_wait_code failed = sys_error
try_wait_code abandoned = sys_error

-- The calls are a function of the milliseconds that the system is asked to wait.
unfoldable pub try_wait : Semaphore → (ℕ → WaitRc) → SemResult
try_wait s os =
    if s.m_sem == 0
    then record { code = not_initialized; op = try_wait_op }
    else record { code = try_wait_code (os 0); op = try_wait_op }

abbrev pub wait_code : WaitRc → SemErr
wait_code object_0 = no_error
wait_code timeout = timed_out
wait_code failed = sys_error
wait_code abandoned = sys_error

unfoldable pub wait : Semaphore → ℕ → (ℕ → WaitRc) → SemResult
wait s milliseconds os =
    if s.m_sem == 0 then record { code = not_initialized; op = wait_op } else record {
      code = wait_code (os (if milliseconds == 0 then infinite else milliseconds));
      op = wait_op;
    }

-- The text "Local\eroil.evt." with the number of the node.
unfoldable pub name : NodeId → List ℕ
unfolding int_text
name id = codes "Local\\eroil.evt." ++ int_text id

abbrev pub named : NamedSemErr → NamedSemOp → NamedSemResult
named e o = record { code = e; op = o }

abbrev pub is_empty_text : List ℕ → Bool
is_empty_text [] = true
is_empty_text (c ∷ cs) = false

-- `widen` is the system's conversion of a name, empty if it fails, and `os` what it makes for one.
unfoldable pub open_named :
    NamedSemaphore → (List ℕ → List ℕ) → (List ℕ → ℕ) → NamedSemaphore × NamedSemResult
unfolding name
open_named s widen os =
    let wname = widen (name s.m_dst_id) in
    if not (s.m_sem == 0)
    then (s, named double_open open_named_op)
    else if is_empty_text wname
    then (record s { m_sem = 0 }, named invalid_name open_named_op)
    else if os wname == 0
    then (record s { m_sem = 0 }, named open_failed open_named_op)
    else (record s { m_sem = os wname }, named no_named_error open_named_op)

unfoldable pub new_named : NodeId → (List ℕ → List ℕ) → (List ℕ → ℕ) → NamedSemaphore
unfolding open_named
new_named id widen os = (open_named (record { m_dst_id = id; m_sem = 0 }) widen os).0

abbrev pub post_named_code : Option ReleaseErr → NamedSemErr
post_named_code none = no_named_error
post_named_code (some too_many_posts) = max_count
post_named_code (some (other_error n)) = signal_failed

unfoldable pub post_named : NamedSemaphore → Option ReleaseErr → NamedSemResult
post_named s os =
    if s.m_sem == 0
    then named not_created post_named_op
    else named (post_named_code os) post_named_op

abbrev pub try_wait_named_code : WaitRc → NamedSemErr
try_wait_named_code object_0 = no_named_error
try_wait_named_code timeout = wait_would_block
try_wait_named_code failed = named_sys_error
try_wait_named_code abandoned = named_sys_error

unfoldable pub try_wait_named : NamedSemaphore → (ℕ → WaitRc) → NamedSemResult
try_wait_named s os =
    if s.m_sem == 0
    then named not_created try_wait_named_op
    else named (try_wait_named_code (os 0)) try_wait_named_op

abbrev pub wait_named_code : WaitRc → NamedSemErr
wait_named_code object_0 = no_named_error
wait_named_code timeout = wait_timeout
wait_named_code failed = named_sys_error
wait_named_code abandoned = named_sys_error

unfoldable pub wait_named : NamedSemaphore → ℕ → (ℕ → WaitRc) → NamedSemResult
wait_named s milliseconds os =
    if s.m_sem == 0
    then named not_created wait_named_op
    else named (wait_named_code (os (if milliseconds == 0 then infinite else milliseconds)))
        wait_named_op
