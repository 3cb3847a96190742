-- ===== src/EventLog/Ring.antt =====
-- What the event log keeps (evtlog.cpp).
use netcomm.Prelude.{
  ℕ, zero, suc, ◌+◌, ◌-◌, ◌%◌, ◌^◌, ◌≤◌, ◌<◌, ◌≡◌, ◌≢◌, refl, ap, ap₂, sym, ◌∙◌, subst, Option,
  none, some, List, [], ◌∷◌, length, ◌⊎◌, inl, inr, arith,
}
use native.Mathlib.Decide.{ℕ_discrete}
use native.Mathlib.Nat.{mod-lt}
use netcomm.EventLog.{
  EventRecord, EventLog, capacity, has_tick, filled, with_payload, store, log_payload, log_hot,
  log_hot_no_time, line_of, lines_from, write_evtlog, empty_log,
}
use netcomm.EventLog.Lines.{Call, with_bytes, hot, hot_no_time, expected, line_with_bytes, line_hot}

abbrev pub log_call : EventLog → Call → EventLog
log_call log (with_bytes e payload) = log_payload log e payload
log_call log (hot e) = log_hot log e
log_call log (hot_no_time e) = log_hot_no_time log e

-- The log after these calls, the latest first.
unfoldable pub logged : List Call → EventLog
unfolding empty_log log_payload log_hot log_hot_no_time
logged [] = empty_log
logged (x ∷ xs) = log_call (logged xs) x

module _ (log : EventLog) (write : EventRecord → ℕ → EventRecord) where
  store_here :
      (store log write).m_evt_logs (log.m_idx % capacity)
      ≡ write (log.m_evt_logs (log.m_idx % capacity)) log.m_seq
  store_here = ground arith

  store_other :
      (i : ℕ) → log.m_idx % capacity ≢ i → (store log write).m_evt_logs i ≡ log.m_evt_logs i
  store_other i ne = ground arith

-- The latest call stands in the record that its index names.
newest :
    (log : EventLog) (x : Call)
    → log.m_seq ≢ 0
    → line_of ((log_call log x).m_evt_logs (log.m_idx % capacity)) ≡ some (expected x log.m_seq)
unfolding log_payload log_hot log_hot_no_time
newest log (with_bytes e payload) live =
    ap line_of (store_here log (λ r seq. with_payload r e payload seq))
    ∙ line_with_bytes (log.m_evt_logs (log.m_idx % capacity)) e payload log.m_seq live
newest log (hot e) live =
    ap line_of (store_here log (λ r seq. filled r e e.tick has_tick seq 0 r.payload))
    ∙ line_hot (log.m_evt_logs (log.m_idx % capacity)) e e.tick has_tick log.m_seq live
newest log (hot_no_time e) live =
    ap line_of (store_here log (λ r seq. filled r e 0 0 seq 0 r.payload))
    ∙ line_hot (log.m_evt_logs (log.m_idx % capacity)) e 0 0 log.m_seq live

older :
    (log : EventLog) (x : Call) (i : ℕ)
    → log.m_idx % capacity ≢ i
    → (log_call log x).m_evt_logs i ≡ log.m_evt_logs i
unfolding log_payload log_hot log_hot_no_time
older log (with_bytes e payload) i ne = store_other log (λ r seq. with_payload r e payload seq) i ne
older log (hot e) i ne = store_other log (λ r seq. filled r e e.tick has_tick seq 0 r.payload) i ne
older log (hot_no_time e) i ne = store_other log (λ r seq. filled r e 0 0 seq 0 r.payload) i ne

counters :
    (xs : List Call)
    → suc (length xs) < 2 ^ 32
    → ((logged xs).m_seq ≡ suc (length xs)) × ((logged xs).m_idx ≡ length xs)
unfolding logged empty_log log_payload log_hot log_hot_no_time
counters [] small = (refl, refl)
counters (with_bytes e bs ∷ xs) small = ground (arith, counters xs)
counters (hot e ∷ xs) small = ground (arith, counters xs)
counters (hot_no_time e ∷ xs) small = ground (arith, counters xs)

-- The call that was made this many calls before the latest.
abbrev pub back : ℕ → List Call → Option Call
back p [] = none
back zero (x ∷ xs) = some x
back (suc p) (x ∷ xs) = back p xs

back_within : (p : ℕ) (xs : List Call) (x : Call) → back p xs ≡ some x → p < length xs
back_within p [] x h = cc
back_within zero (y ∷ ys) x h = omega arith
back_within (suc p) (y ∷ ys) x h = omega (arith, back_within p ys x h)

-- Each of the latest calls has its line in the record that its index names.
logged_line :
    (xs : List Call) (p : ℕ) (x : Call)
    → length xs + 1 < 2 ^ 32
    → p < capacity
    → back p xs ≡ some x
    → line_of ((logged xs).m_evt_logs ((length xs - 1 - p) % capacity))
      ≡ some (expected x (length xs - p))
unfolding logged
logged_line [] p x small recent b = cc
logged_line (y ∷ ys) zero x small recent b =
    let (seq, idx) = counters ys (omega arith) in
    let same : y ≡ x = cc in
    ap (λ i. line_of ((log_call (logged ys) y).m_evt_logs (i % capacity))) (omega (arith, idx))
    ∙ newest (logged ys) y (λ z. absurd (omega (arith, seq, z)))
    ∙ ap₂ (λ z n. some (expected z n)) same (omega (arith, seq))
logged_line (y ∷ ys) (suc p) x small recent b =
    let (seq, idx) = counters ys (omega arith) in
    let within = back_within p ys x b in
    ap line_of (
      older (logged ys) y ((suc (length ys) - 1 - suc p) % capacity)
        (λ e. absurd (omega (arith, idx, e, within))))
    ∙ ap (λ i. line_of ((logged ys).m_evt_logs (i % capacity))) (omega arith)
    ∙ logged_line ys p x (omega arith) (omega arith) b
    ∙ ap (λ n. some (expected x n)) (omega (arith, within))

-- A line stands among these.
abbrev pub Stands : EventRecord → List EventRecord → Type 0
Stands l [] = ⊥
Stands l (x ∷ xs) = (x ≡ l) ⊎ Stands l xs

lines_from-Stands :
    (log : EventLog) (n i j : ℕ) (l : EventRecord)
    → line_of (log.m_evt_logs j) ≡ some l
    → i ≤ j
    → j < i + n
    → Stands l (lines_from log n i)
unfolding lines_from
lines_from-Stands log zero i j l e low high = absurd (omega arith)
lines_from-Stands log (suc n) i j l e low high = elim (ℕ_discrete i j) [
  | yes same ↦
      subst
        (λ o. Stands l (elim o [
          | none ↦ lines_from log n (suc i)
          | some line ↦ line ∷ lines_from log n (suc i)
        ]))
        (sym (ap (λ k. line_of (log.m_evt_logs k)) same ∙ e)) (inl refl)
  | no ne ↦
      skip (line_of (log.m_evt_logs i))
        (lines_from-Stands log n (suc i) j l e (omega arith) (omega arith))
]
  where
    skip :
        (o : Option EventRecord)
        → Stands l (lines_from log n (suc i))
        → Stands l (elim o [
          | none ↦ lines_from log n (suc i)
          | some line ↦ line ∷ lines_from log n (suc i)
        ])
    skip none h = h
    skip (some line) h = inr h

-- As long as fewer than 2 ^ 32 - 1 events were logged, each of the latest 1024 has its line among
-- those written, with its own number and with exactly what was logged, whatever the record held
-- before: the bytes of its payload, cut at 20 and filled up with zeros.
pub write_evtlog-logged :
    (xs : List Call) (p : ℕ) (x : Call)
    → length xs + 1 < 2 ^ 32
    → p < capacity
    → back p xs ≡ some x
    → Stands (expected x (length xs - p)) (write_evtlog (logged xs))
unfolding write_evtlog
write_evtlog-logged xs p x small recent b =
    lines_from-Stands (logged xs) capacity 0 ((length xs - 1 - p) % capacity)
      (expected x (length xs - p)) (logged_line xs p x small recent b) (omega arith)
      (mod-lt (length xs - 1 - p) (omega arith))
