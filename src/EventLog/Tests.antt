-- ===== src/EventLog/Tests.antt =====
-- An example of the theorem on the event log.
use netcomm.Prelude.{ℕ, ◌+◌, refl, List, [], ◌∷◌, arith}
use netcomm.EventLog.{Event, write_evtlog}
use netcomm.EventLog.Lines.{Call, with_bytes, hot, hot_no_time, expected}
use netcomm.EventLog.Ring.{logged, Stands, write_evtlog-logged}

abbrev event : ℕ → Event
event k = record { kind = k; severity = 2; category = 1; a = 7; b = 0; c = 0; tick = 1000 + k }

abbrev calls : List Call
calls = hot (event 5) ∷ with_bytes (event 6) (1 ∷ 2 ∷ 3 ∷ []) ∷ hot_no_time (event 4) ∷ []

write_evtlog_example :
    Stands (expected (with_bytes (event 6) (1 ∷ 2 ∷ 3 ∷ [])) 2) (write_evtlog (logged calls))
write_evtlog_example =
    write_evtlog-logged calls 1 (with_bytes (event 6) (1 ∷ 2 ∷ 3 ∷ [])) (omega arith) (omega arith)
      refl
