-- ===== src/EventLog/Lines.antt =====
-- The line of the event log that each kind of call should give, and that its record gives it (evtlog.cpp).
use netcomm.Prelude.{
  ℕ, zero, suc, ◌+◌, ◌≤◌, ◌≡◌, ◌≢◌, refl, ap, ◌∙◌, some, List, [], ◌∷◌, if◌then◌else◌, ltb, length,
  ◌⊎◌, inl, inr, arith,
}
use native.Mathlib.Decide.{dec_lt}
use netcomm.EventLog.{
  EventRecord, Event, payload_bytes, has_tick, has_payload, padded, fitting, filled, with_payload,
  masked, line_of,
}

-- A call of the log.
pub data Call : Type 0 where
  with_bytes : Event → List ℕ → Call
  hot : Event → Call
  hot_no_time : Event → Call

-- The line that a call should give, whatever was logged before.
abbrev pub expected : Call → ℕ → EventRecord
expected (with_bytes e []) seq = record {
  tick = e.tick;
  a = e.a;
  b = e.b;
  c = e.c;
  kind = e.kind;
  severity = e.severity;
  category = e.category;
  flags = has_tick;
  payload_len = 0;
  payload = padded payload_bytes [];
  commit_seq = seq;
}
expected (with_bytes e (p ∷ ps)) seq = record {
  tick = e.tick;
  a = e.a;
  b = e.b;
  c = e.c;
  kind = e.kind;
  severity = e.severity;
  category = e.category;
  flags = has_tick + has_payload;
  payload_len = fitting (length (p ∷ ps));
  payload = padded payload_bytes (p ∷ ps);
  commit_seq = seq;
}
expected (hot e) seq = record {
  tick = e.tick;
  a = e.a;
  b = e.b;
  c = e.c;
  kind = e.kind;
  severity = e.severity;
  category = e.category;
  flags = has_tick;
  payload_len = 0;
  payload = padded payload_bytes [];
  commit_seq = seq;
}
expected (hot_no_time e) seq = record {
  tick = 0;
  a = e.a;
  b = e.b;
  c = e.c;
  kind = e.kind;
  severity = e.severity;
  category = e.category;
  flags = 0;
  payload_len = 0;
  payload = padded payload_bytes [];
  commit_seq = seq;
}

masked_none : (n : ℕ) (bs : List ℕ) → masked n 0 bs ≡ padded n []
unfolding masked padded
masked_none zero bs = refl
masked_none (suc n) bs = ap (λ xs. 0 ∷ xs) (masked_none n bs)

masked-padded :
    (n : ℕ) (bs : List ℕ) (size : ℕ)
    → ((size ≡ length bs) × (length bs ≤ n)) ⊎ ((size ≡ n) × (n ≤ length bs))
    → masked n size (padded n bs) ≡ padded n bs
unfolding masked padded
masked-padded zero bs size h = refl
masked-padded (suc n) [] zero h = ap (λ xs. 0 ∷ xs) (masked_none n (padded (suc n) []))
masked-padded (suc n) [] (suc size) h = absurd (ground arith)
masked-padded (suc n) (b ∷ bs) zero h = absurd (ground arith)
masked-padded (suc n) (b ∷ bs) (suc size) h =
    ap (λ xs. b ∷ xs) (masked-padded n bs size (ground arith))

capped : (n : ℕ) → (if ltb payload_bytes (fitting n) then payload_bytes else fitting n) ≡ fitting n
capped n = ground arith

covers :
    (bs : List ℕ)
    → ((fitting (length bs) ≡ length bs) × (length bs ≤ payload_bytes))
      ⊎ ((fitting (length bs) ≡ payload_bytes) × (payload_bytes ≤ length bs))
covers bs = elim (dec_lt (length bs) payload_bytes) [
  | yes l ↦ inl (ground arith, omega arith)
  | no g ↦ inr (ground arith, omega arith)
]

line_committed :
    (r : EventRecord)
    → r.commit_seq ≢ 0
    → line_of r
      ≡ some (record r {
        payload =
            masked payload_bytes
              (if ltb payload_bytes r.payload_len then payload_bytes else r.payload_len)
              r.payload;
      })
unfolding line_of
line_committed r live = ground (arith, live)

-- The line of a record as each of the three functions leaves it.
pub line_with_bytes :
    (r : EventRecord) (e : Event) (payload : List ℕ) (seq : ℕ)
    → seq ≢ 0
    → line_of (with_payload r e payload seq) ≡ some (expected (with_bytes e payload) seq)
unfolding line_of
line_with_bytes r e [] seq live =
    ground (arith, live, masked_none payload_bytes (padded payload_bytes []))
line_with_bytes r e (p ∷ ps) seq live =
    let shown : masked payload_bytes
          (if ltb payload_bytes (fitting (length (p ∷ ps)))
            then payload_bytes
            else fitting (length (p ∷ ps)))
          (padded payload_bytes (p ∷ ps))
        ≡ padded payload_bytes (p ∷ ps) =
      ap (λ size. masked payload_bytes size (padded payload_bytes (p ∷ ps)))
        (capped (length (p ∷ ps)))
      ∙ masked-padded payload_bytes (p ∷ ps) (fitting (length (p ∷ ps))) (covers (p ∷ ps)) in
    let stored =
      filled r e e.tick (has_tick + has_payload) seq (fitting (length (p ∷ ps)))
        (padded payload_bytes (p ∷ ps)) in
    line_committed stored live ∙ ap (λ bs. some (record stored { payload = bs })) shown

pub line_hot :
    (r : EventRecord) (e : Event) (tick flags seq : ℕ)
    → seq ≢ 0
    → line_of (filled r e tick flags seq 0 r.payload)
      ≡ some (filled r e tick flags seq 0 (padded payload_bytes []))
unfolding line_of
line_hot r e tick flags seq live = ground (arith, live, masked_none payload_bytes r.payload)
