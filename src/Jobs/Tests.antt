-- ===== src/Jobs/Tests.antt =====
-- Examples of the theorems on the send workers.
use netcomm.Prelude.{◌+◌, ◌<◌, ◌≡◌, refl, ◌⊎◌, [], ◌∷◌, arith}
use netcomm.Jobs.Senders.{
  Sending, failed, near_begins, start, Reach, here, later, finished_once, can_finish,
}

-- One local receiver and two remote ones; the send to the local one has just failed.
abbrev begun : Sending
begun = record {
  pending = 3;
  near = record { left = 0; busy = 1; fails = 1 };
  far = record { left = 2; busy = 0; fails = 0 };
  finals = [];
}

reached : Reach (start 1 2) begun
unfolding start
reached = later here (near_begins (failed (omega arith) refl))

finished_once_example :
    ((0 < begun.near.left + begun.near.busy + begun.far.left + begun.far.busy)
      × (begun.finals ≡ []))
    ⊎ ((begun.near.left + begun.near.busy + begun.far.left + begun.far.busy ≡ 0)
        × (begun.finals ≡ (begun.near.fails + begun.far.fails) ∷ []))
finished_once_example = finished_once 1 2 {s = begun} (omega arith) reached

can_finish_example : (t : Sending) × Reach begun t × (t.finals ≡ (t.near.fails + t.far.fails) ∷ [])
can_finish_example = can_finish 1 2 {s = begun} (omega arith) reached
