-- ===== src/EventLog.antt =====
-- eROIL/src/log/evtlog.{h,cpp} and evtrecord.h: the ring of event records, and the lines written of it.
-- One thread logs at a time. The tick of the clock is part of an event. A line is its fields: how
-- they are printed is left out. The numbers of kinds, severities and categories are the event's.
pub mod Lines
pub mod Ring
pub mod Tests
use netcomm.Prelude.{
  ℕ, zero, suc, ◌+◌, ◌%◌, ◌^◌, Option, none, some, List, [], ◌∷◌, ◌==◌, if◌then◌else◌, ltb, length,
}

abbrev pub capacity : ℕ
capacity = 1024

abbrev pub payload_bytes : ℕ
payload_bytes = 20

abbrev pub has_tick : ℕ
has_tick = 1

abbrev pub has_payload : ℕ
has_payload = 2

pub record EventRecord : Type 0 where
  pub tick : ℕ
  pub a : ℕ
  pub b : ℕ
  pub c : ℕ
  pub kind : ℕ
  pub severity : ℕ
  pub category : ℕ
  pub flags : ℕ
  pub payload_len : ℕ
  pub payload : List ℕ
  pub commit_seq : ℕ

-- `m_seq` and `m_idx` count on with every event; a record is told by its place in the array.
pub record EventLog : Type 0 where
  pub m_seq : ℕ
  pub m_idx : ℕ
  pub m_evt_logs : ℕ → EventRecord

-- What a caller logs: a null payload has no bytes.
pub record Event : Type 0 where
  pub kind : ℕ
  pub severity : ℕ
  pub category : ℕ
  pub a : ℕ
  pub b : ℕ
  pub c : ℕ
  pub tick : ℕ

-- The bytes of a payload that fit, with zeros behind them.
unfoldable pub padded : ℕ → List ℕ → List ℕ
padded zero bs = []
padded (suc n) [] = 0 ∷ padded n []
padded (suc n) (b ∷ bs) = b ∷ padded n bs

abbrev pub fitting : ℕ → ℕ
fitting size = if ltb size payload_bytes then size else payload_bytes

-- The fields that all three functions set.
abbrev pub filled : EventRecord → Event → ℕ → ℕ → ℕ → ℕ → List ℕ → EventRecord
filled r e tick flags seq len payload = record {
  tick = tick;
  a = e.a;
  b = e.b;
  c = e.c;
  kind = e.kind;
  severity = e.severity;
  category = e.category;
  flags = flags;
  payload_len = len;
  payload = payload;
  commit_seq = seq;
}

abbrev pub with_payload : EventRecord → Event → List ℕ → ℕ → EventRecord
with_payload r e [] seq = filled r e e.tick has_tick seq 0 (padded payload_bytes [])
with_payload r e (p ∷ ps) seq =
    filled r e e.tick (has_tick + has_payload) seq (fitting (length (p ∷ ps)))
      (padded payload_bytes (p ∷ ps))

-- Both counters go on, and the record at the old index is written with the old number.
abbrev pub store : EventLog → (EventRecord → ℕ → EventRecord) → EventLog
store log write = record {
  m_seq = (log.m_seq + 1) % 2 ^ 32;
  m_idx = (log.m_idx + 1) % 2 ^ 64;
  m_evt_logs = λ i.
      if log.m_idx % capacity == i then write (log.m_evt_logs i) log.m_seq else log.m_evt_logs i;
}

unfoldable pub log_payload : EventLog → Event → List ℕ → EventLog
unfolding padded
log_payload log e payload = store log (λ r seq. with_payload r e payload seq)

unfoldable pub log_hot : EventLog → Event → EventLog
log_hot log e = store log (λ r seq. filled r e e.tick has_tick seq 0 r.payload)

unfoldable pub log_hot_no_time : EventLog → Event → EventLog
log_hot_no_time log e = store log (λ r seq. filled r e 0 0 seq 0 r.payload)

-- `i < size ? payload[i] : 0`, for the places that are left.
unfoldable pub masked : ℕ → ℕ → List ℕ → List ℕ
masked zero size bs = []
masked (suc n) zero bs = 0 ∷ masked n zero bs
masked (suc n) (suc size) [] = 0 ∷ masked n size []
masked (suc n) (suc size) (b ∷ bs) = b ∷ masked n size bs

-- The line of a record, none for one that is not committed.
unfoldable pub line_of : EventRecord → Option EventRecord
unfolding masked
line_of r =
    if r.commit_seq == 0
    then none
    else some (record r {
      payload =
          masked payload_bytes
            (if ltb payload_bytes r.payload_len then payload_bytes else r.payload_len) r.payload;
    })

-- The lines from this place of the array, with this many records to go.
unfoldable pub lines_from : EventLog → ℕ → ℕ → List EventRecord
lines_from log zero i = []
lines_from log (suc n) i = elim (line_of (log.m_evt_logs i)) [
  | none ↦ lines_from log n (suc i)
  | some line ↦ line ∷ lines_from log n (suc i)
]

unfoldable pub write_evtlog : EventLog → List EventRecord
unfolding lines_from
write_evtlog log = lines_from log capacity 0

abbrev no_record : EventRecord
no_record = record {
  tick = 0;
  a = 0;
  b = 0;
  c = 0;
  kind = 0;
  severity = 0;
  category = 0;
  flags = 0;
  payload_len = 0;
  payload = [];
  commit_seq = 0;
}

unfoldable pub empty_log : EventLog
empty_log = record { m_seq = 1; m_idx = 0; m_evt_logs = λ i. no_record }
