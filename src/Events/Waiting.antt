-- ===== src/Events/Waiting.antt =====
-- The waits of linux_semaphore.cpp and linux_named_semaphore.cpp: the deadline, and the loop that
-- begins an interrupted call again.
use netcomm.Prelude.{
  ℕ, zero, suc, ◌+◌, ◌-◌, ◌*◌, ◌/◌, ◌%◌, ◌^◌, ◌<◌, ◌≡◌, ◌≢◌, refl, subst, ap, ◌∙◌, Option, none,
  some, arith,
}
use native.Mathlib.Decide.{dec_lt}
use netcomm.Events.Linux.{SemErrno, eintr, Calls, retry, make_abs_deadline_realtime}

-- The deadline of a timed wait is later than the clock by exactly the milliseconds that are asked
-- for, and its nanoseconds stay below a second.
pub make_abs_deadline_realtime_lem :
    (sec nsec timeout_ms : ℕ)
    → nsec < 1000000000
    → (d : ℕ × ℕ) × (make_abs_deadline_realtime (some (sec, nsec)) timeout_ms ≡ some d)
      × (d.1 < 1000000000)
      × (d.0 * 1000000000 + d.1 ≡ sec * 1000000000 + nsec + timeout_ms * 1000000)
unfolding make_abs_deadline_realtime
make_abs_deadline_realtime_lem sec nsec timeout_ms h =
    let add_ns = timeout_ms % 1000 * 1000000 % 2 ^ 32 in
    elim (dec_lt (nsec + add_ns) 1000000000) [
      | yes l ↦ (
        (sec + timeout_ms / 1000, nsec + add_ns),
        ground (arith, l),
        omega (arith, l),
        omega arith,
      )
      | no g ↦ (
        (sec + timeout_ms / 1000 + 1, nsec + add_ns - 1000000000),
        ground (arith, g),
        omega arith,
        omega (arith, g),
      )
    ]

-- The first `k` calls are interrupted, and the next one gives `o`, which is no interruption.
pub record Settles (os : Calls) (k : ℕ) (o : Option SemErrno) : Type 0 where
  pub before : (i : ℕ) → i < k → os i ≡ some eintr
  pub settled : os k ≡ o
  pub last : o ≢ some eintr

stops :
    (o : Option SemErrno) (os : Calls) (fuel i : ℕ)
    → os i ≡ o
    → o ≢ some eintr
    → retry os (suc fuel) i ≡ some o
unfolding retry
stops none os fuel i e ne = rw (e, retry)
stops (some SemErrno.eintr) os fuel i e ne = absurd (ne refl)
stops (some o) os fuel i e ne = rw (e, retry)

goes_on :
    (os : Calls) (fuel i : ℕ) → os i ≡ some eintr → retry os (suc fuel) i ≡ retry os fuel (suc i)
unfolding retry
goes_on os fuel i e = rw (e, retry)

retry_from :
    (os : Calls) (o : Option SemErrno) (j i fuel : ℕ)
    → Settles os (i + j) o
    → j < fuel
    → retry os fuel i ≡ some o
retry_from os o j i zero s h = absurd (omega arith)
retry_from os o zero i (suc fuel) s h = stops o os fuel i (ap os (omega arith) ∙ s.settled) s.last
retry_from os o (suc j) i (suc fuel) s h =
    goes_on os fuel i (s.before i (omega arith))
    ∙ retry_from os o j (suc i) fuel (subst (λ k. Settles os k o) (omega arith) s) (omega arith)

-- More calls than are interrupted are enough for the loop to return, with what the first other call
-- gives.
pub retry-Settles :
    (os : Calls) (k fuel : ℕ) (o : Option SemErrno)
    → Settles os k o
    → k < fuel
    → retry os fuel 0 ≡ some o
retry-Settles os k fuel o s h =
    retry_from os o k 0 fuel (subst (λ n. Settles os n o) (omega arith) s) h
