-- ===== src/Events/Agreement.antt =====
-- The waits of the two implementations compared, where their systems answer alike.
use netcomm.Prelude.{ℕ, ◌<◌, ◌≡◌, ◌≢◌, refl, sym, subst, ◌+◌, ◌*◌, Option, none, some, arith}
use native.Mathlib.Decide.{ℕ_discrete}
use netcomm.Events.{Semaphore, NamedSemaphore}
use netcomm.Events.Linux
use netcomm.Events.Linux.{SemErrno, eintr, eagain, einval, etimedout, Calls}
use netcomm.Events.Windows
use netcomm.Events.Windows.{WaitRc, object_0, timeout, failed}
use netcomm.Events.Waiting.{Settles, retry-Settles, make_abs_deadline_realtime_lem}

-- What Windows gives where a call of Linux that does not wait gives `o`, and one that waits.
abbrev pub try_rc : Option SemErrno → WaitRc
try_rc none = object_0
try_rc (some eagain) = timeout
try_rc (some e) = failed

abbrev pub wait_rc : Option SemErrno → WaitRc
wait_rc none = object_0
wait_rc (some etimedout) = timeout
wait_rc (some e) = failed

try_codes :
    (o : Option SemErrno)
    → o ≢ some einval
    → o ≢ some etimedout
    → (Linux.try_wait_code o ≡ Windows.try_wait_code (try_rc o))
      × (Linux.try_wait_named_code o ≡ Windows.try_wait_named_code (try_rc o))
try_codes none k w = (refl, refl)
try_codes (some SemErrno.eintr) k w = (refl, refl)
try_codes (some SemErrno.eagain) k w = (refl, refl)
try_codes (some SemErrno.einval) k w = absurd (k refl)
try_codes (some SemErrno.etimedout) k w = absurd (w refl)
try_codes (some SemErrno.eoverflow) k w = (refl, refl)
try_codes (some (SemErrno.other_errno n)) k w = (refl, refl)

timed_codes :
    (o : Option SemErrno)
    → o ≢ some einval
    → (Linux.timed_wait_code o ≡ Windows.wait_code (wait_rc o))
      × (Linux.wait_named_code o ≡ Windows.wait_named_code (wait_rc o))
timed_codes none k = (refl, refl)
timed_codes (some SemErrno.eintr) k = (refl, refl)
timed_codes (some SemErrno.eagain) k = (refl, refl)
timed_codes (some SemErrno.einval) k = absurd (k refl)
timed_codes (some SemErrno.etimedout) k = (refl, refl)
timed_codes (some SemErrno.eoverflow) k = (refl, refl)
timed_codes (some (SemErrno.other_errno n)) k = (refl, refl)

-- Without a timeout the two switches of linux_semaphore.cpp agree.
untimed_code :
    (o : Option SemErrno) → o ≢ some etimedout → Linux.wait_code o ≡ Linux.timed_wait_code o
untimed_code none w = refl
untimed_code (some SemErrno.eintr) w = refl
untimed_code (some SemErrno.eagain) w = refl
untimed_code (some SemErrno.einval) w = refl
untimed_code (some SemErrno.etimedout) w = absurd (w refl)
untimed_code (some SemErrno.eoverflow) w = refl
untimed_code (some (SemErrno.other_errno n)) w = refl

-- One system's semaphore as both implementations see it. `answer` is what a wait comes to, by its
-- limit in milliseconds, none for a wait without one: on Linux after `k` interrupted calls, given the
-- deadline that is the limit later than the clock; on Windows, given the limit, or INFINITE.
pub record SameSystem (answer : Option ℕ → Option SemErrno) (now : ℕ × ℕ) (k : ℕ)
    (linux : Option (ℕ × ℕ) → Calls) (windows : ℕ → WaitRc) : Type 0 where
  pub unlimited : Settles (linux none) k (answer none)
  pub limited :
      (t : ℕ) (d : ℕ × ℕ)
      → d.1 < 1000000000
      → d.0 * 1000000000 + d.1 ≡ now.0 * 1000000000 + now.1 + t * 1000000
      → Settles (linux (some d)) k (answer (some t))
  pub infinitely : windows 0xffffffff ≡ wait_rc (answer none)
  pub within : (t : ℕ) → t < 0xffffffff → windows t ≡ wait_rc (answer (some t))

module _ (s : Semaphore) (n : NamedSemaphore) (k fuel : ℕ) (enough : k < fuel) where
  -- A wait that does not block gives the same result on both systems, for both kinds of semaphore:
  -- on Linux after `k` interrupted calls, for which `k + 1` rounds of the loop are enough. The call
  -- that is not interrupted knows the semaphore and gives no timeout, which only a wait gives.
  pub try_waits_agree :
      (os : Calls) (o : Option SemErrno)
      → Settles os k o
      → o ≢ some einval
      → o ≢ some etimedout
      → (Linux.try_wait s os fuel ≡ some (Windows.try_wait s (λ t. try_rc o)))
        × (Linux.try_wait_named n os fuel ≡ some (Windows.try_wait_named n (λ t. try_rc o)))
  unfolding Linux.try_wait Linux.try_wait_named Windows.try_wait Windows.try_wait_named
  try_waits_agree os o answered known waits =
      let codes = try_codes o known waits in
      let found = retry-Settles os k fuel o answered enough in
      (ground (arith, found, codes.0), ground (arith, found, codes.1))

  module _ (answer : Option ℕ → Option SemErrno) (now : ℕ × ℕ) (linux : Option (ℕ × ℕ) → Calls)
      (windows : ℕ → WaitRc) (same : SameSystem answer now k linux windows) where
    unlimited_agree :
        answer none ≢ some einval
        → answer none ≢ some etimedout
        → (Linux.wait s 0 (some now) linux fuel ≡ some (Windows.wait s 0 windows))
          × (Linux.wait_named n 0 (some now) linux fuel ≡ some (Windows.wait_named n 0 windows))
    unfolding Linux.wait Linux.wait_named Windows.wait Windows.wait_named
    unlimited_agree known waits =
        let o = answer none in
        let codes = timed_codes o known in
        let found = retry-Settles (linux none) k fuel o same.unlimited enough in
        (
          ground (arith, found, codes.0, untimed_code o waits, same.infinitely),
          ground (arith, found, codes.1, same.infinitely),
        )

    limited_agree :
        (milliseconds : ℕ)
        → milliseconds ≢ 0
        → milliseconds < 0xffffffff
        → now.1 < 1000000000
        → answer (some milliseconds) ≢ some einval
        → (Linux.wait s milliseconds (some now) linux fuel
            ≡ some (Windows.wait s milliseconds windows))
          × (Linux.wait_named n milliseconds (some now) linux fuel
              ≡ some (Windows.wait_named n milliseconds windows))
    unfolding Linux.wait Linux.wait_named Windows.wait Windows.wait_named
    limited_agree milliseconds some_limit short in_second known =
        let o = answer (some milliseconds) in
        let codes = timed_codes o known in
        let (d, deadline, low, sum) =
          make_abs_deadline_realtime_lem now.0 now.1 milliseconds in_second in
        let found =
          retry-Settles (linux (some d)) k fuel o (same.limited milliseconds d low sum) enough in
        let rc = same.within milliseconds short in
        (
          ground (arith, some_limit, deadline, found, codes.0, rc),
          ground (arith, some_limit, deadline, found, codes.1, rc),
        )

    -- If the system's waits on Linux and on Windows come to the same for each limit, on Linux after
    -- `k` interrupted calls, for which `k + 1` rounds of the loop are enough, then waiting gives the
    -- same result in both implementations, for both kinds of semaphore: 0 milliseconds is no limit,
    -- and any other number below 2 ^ 32 - 1 is that limit, on Linux as a deadline that much later than
    -- the clock, which can be read. The call that is not interrupted knows the semaphore, and times
    -- out only under a limit.
    pub waits_agree :
        (milliseconds : ℕ)
        → milliseconds < 0xffffffff
        → now.1 < 1000000000
        → ((limit : Option ℕ) → answer limit ≢ some einval)
        → answer none ≢ some etimedout
        → (Linux.wait s milliseconds (some now) linux fuel
            ≡ some (Windows.wait s milliseconds windows))
          × (Linux.wait_named n milliseconds (some now) linux fuel
              ≡ some (Windows.wait_named n milliseconds windows))
    waits_agree milliseconds short in_second known waits = elim (ℕ_discrete milliseconds 0) [
      | yes e ↦
          subst
            (λ t.
              (Linux.wait s t (some now) linux fuel ≡ some (Windows.wait s t windows))
              × (Linux.wait_named n t (some now) linux fuel
                  ≡ some (Windows.wait_named n t windows)))
            (sym e) (unlimited_agree (known none) waits)
      | no ne ↦ limited_agree milliseconds ne short in_second (known (some milliseconds))
    ]
