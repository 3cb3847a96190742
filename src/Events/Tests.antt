-- ===== src/Events/Tests.antt =====
-- Examples of the theorems on the semaphores.
use netcomm.Prelude.{
  ℕ, ◌+◌, ◌*◌, ◌≡◌, ◌≢◌, refl, ltb, ◌==◌, if◌then◌else◌, Option, none, some, arith,
}
use netcomm.Events.{Semaphore, NamedSemaphore}
use netcomm.Events.Linux
use netcomm.Events.Linux.{SemErrno, eintr, einval, etimedout, Calls}
use netcomm.Events.Windows
use netcomm.Events.Windows.{WaitRc}
use netcomm.Events.Waiting.{Settles}
use netcomm.Events.Agreement.{wait_rc, SameSystem, waits_agree}

abbrev sem : Semaphore
sem = record { m_sem = 640; m_max_count = 1 }

abbrev named_sem : NamedSemaphore
named_sem = record { m_dst_id = 3; m_sem = 704 }

-- The semaphore is posted after 100 milliseconds.
abbrev answer : Option ℕ → Option SemErrno
answer none = none
answer (some t) = if ltb t 100 then some etimedout else none

-- Two interruptions, then the answer.
abbrev twice_interrupted : Option SemErrno → Calls
twice_interrupted o i = if ltb i 2 then some eintr else o

answered-Settles : (o : Option SemErrno) → o ≢ some eintr → Settles (twice_interrupted o) 2 o
answered-Settles o ne = record { before = λ i l. ground arith; settled = refl; last = ne }

not_interrupted : (limit : Option ℕ) → answer limit ≢ some eintr
not_interrupted none e = cc
not_interrupted (some t) e = ground arith

known : (limit : Option ℕ) → answer limit ≢ some einval
known none e = cc
known (some t) e = ground arith

-- The clock shows 5 seconds.
abbrev on_linux : Option (ℕ × ℕ) → Calls
on_linux none = twice_interrupted (answer none)
on_linux (some d) =
    twice_interrupted (if ltb (d.0 * 1000000000 + d.1) 5100000000 then some etimedout else none)

abbrev on_windows : ℕ → WaitRc
on_windows t = if t == 0xffffffff then wait_rc (answer none) else wait_rc (answer (some t))

by_deadline :
    (t : ℕ) (d : ℕ × ℕ)
    → d.0 * 1000000000 + d.1 ≡ 5 * 1000000000 + 0 + t * 1000000
    → ltb (d.0 * 1000000000 + d.1) 5100000000 ≡ ltb t 100
by_deadline t d e = ground arith

same : SameSystem answer (5, 0) 2 on_linux on_windows
same = record {
  unlimited = answered-Settles none (λ e. cc);
  limited = λ t d low e.
      rw (by_deadline t d e) (answered-Settles (answer (some t)) (not_interrupted (some t)));
  infinitely = refl;
  within = λ t l. ground arith;
}

waits_agree_example :
    (Linux.wait sem 50 (some (5, 0)) on_linux 3 ≡ some (Windows.wait sem 50 on_windows))
    × (Linux.wait_named named_sem 50 (some (5, 0)) on_linux 3
        ≡ some (Windows.wait_named named_sem 50 on_windows))
waits_agree_example =
    waits_agree sem named_sem 2 3 (omega arith) answer (5, 0) on_linux on_windows same 50
      (omega arith) (omega arith) known (λ e. cc)
