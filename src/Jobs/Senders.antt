-- ===== src/Jobs/Senders.antt =====
-- The two send workers of a job (send_worker.h, the loop over the receivers, with complete_one and
-- finalize_send_iosb of send_io_types.h): any interleaving of the local and the remote worker.
use netcomm.Prelude.{
  ℕ, zero, suc, ◌*◌, ◌+◌, ◌-◌, ◌≤◌, ◌<◌, ◌≡◌, ◌⊎◌, List, [], ◌∷◌, ◌==◌, if◌then◌else◌, arith,
}
use native.Mathlib.Decide.{ℕ_discrete, dec_lt}
use netcomm.Jobs.{complete_one}

-- One worker on one job: the receivers that it has not begun, whether it is between a send and its
-- completion, and its failure count.
pub record Worker : Type 0 where
  pub left : ℕ
  pub busy : ℕ
  pub fails : ℕ

-- `finals` lists the failure counts with which the job was finished, the latest first.
pub record Sending : Type 0 where
  pub pending : ℕ
  pub near : Worker
  pub far : Worker
  pub finals : List ℕ

-- A send to the next receiver, which succeeds or finds no receiver, or which fails and is counted.
pub data Begin (w : Worker) : Worker → Type 0 where
  delivered : 0 < w.left → w.busy ≡ 0 → Begin w (record w { left = w.left - 1; busy = 1 })
  failed :
      0 < w.left
      → w.busy ≡ 0
      → Begin w (record { left = w.left - 1; busy = 1; fails = w.fails + 1 })

-- The job guard of a receiver counts it as complete; the last one finishes the job.
pub complete : Sending → Worker → Worker → Sending
unfolding complete_one
complete s near far =
    let (pending, last) = complete_one s.pending in
    record {
      pending = pending;
      near = near;
      far = far;
      finals = if last then (near.fails + far.fails) ∷ s.finals else s.finals;
    }

pub data Step (s : Sending) : Sending → Type 0 where
  near_begins : {w : Worker} → Begin s.near w → Step s (record s { near = w })
  far_begins : {w : Worker} → Begin s.far w → Step s (record s { far = w })
  near_completes : s.near.busy ≡ 1 → Step s (complete s (record (s.near) { busy = 0 }) s.far)
  far_completes : s.far.busy ≡ 1 → Step s (complete s s.near (record (s.far) { busy = 0 }))

-- A job as `build_send_job` leaves it, with this many receivers of each kind.
unfoldable pub start : ℕ → ℕ → Sending
start locals remotes = record {
  pending = locals + remotes;
  near = record { left = locals; busy = 0; fails = 0 };
  far = record { left = remotes; busy = 0; fails = 0 };
  finals = [];
}

pub data Reach (s : Sending) : Sending → Type 0 where
  here : Reach s s
  later : {t u : Sending} → Reach s t → Step t u → Reach s u

-- The count of open completions is right, and the job is finished once, at the end, with all the
-- failures of both workers.
pub record Inv (s : Sending) : Type 0 where
  pub counted : s.pending ≡ s.near.left + s.near.busy + s.far.left + s.far.busy
  pub busy : (s.near.busy ≤ 1) × (s.far.busy ≤ 1)
  pub finals : s.finals ≡ (if s.pending == 0 then (s.near.fails + s.far.fails) ∷ [] else [])

Begin-near : {s : Sending} {w : Worker} → Begin s.near w → Inv s → Inv (record s { near = w })
Begin-near (delivered h b) inv = ground arith
Begin-near (failed h b) inv = ground arith

Begin-far : {s : Sending} {w : Worker} → Begin s.far w → Inv s → Inv (record s { far = w })
Begin-far (delivered h b) inv = ground arith
Begin-far (failed h b) inv = ground arith

Step-Inv : {s t : Sending} → Step s t → Inv s → Inv t
unfolding complete
Step-Inv (near_begins b) inv = Begin-near b inv
Step-Inv (far_begins b) inv = Begin-far b inv
Step-Inv (near_completes b) inv = ground arith
Step-Inv (far_completes b) inv = ground arith

start-Inv : (locals remotes : ℕ) → 0 < locals + remotes → Inv (start locals remotes)
unfolding start
start-Inv locals remotes some_receiver = ground arith

Reach-Inv : {s t : Sending} → Inv s → Reach s t → Inv t
Reach-Inv inv here = inv
Reach-Inv inv (later r st) = Step-Inv st (Reach-Inv inv r)

-- In every interleaving a job with a receiver is not finished while a receiver is open, and is
-- finished exactly once, with the failures of both workers, when none is.
pub finished_once :
    (locals remotes : ℕ) {s : Sending}
    → 0 < locals + remotes
    → Reach (start locals remotes) s
    → ((0 < s.near.left + s.near.busy + s.far.left + s.far.busy) × (s.finals ≡ []))
      ⊎ ((s.near.left + s.near.busy + s.far.left + s.far.busy ≡ 0)
          × (s.finals ≡ (s.near.fails + s.far.fails) ∷ []))
finished_once locals remotes {s} h r =
    let inv = Reach-Inv (start-Inv locals remotes h) r in ground arith

-- What the workers still have to do.
abbrev pub work : Sending → ℕ
work s = 2 * s.near.left + s.near.busy + (2 * s.far.left + s.far.busy)

Step-trans : {s t u : Sending} → Step s t → Reach t u → Reach s u
Step-trans st here = later here st
Step-trans st (later r st') = later (Step-trans st r) st'

-- Some worker can go on while a receiver is open, and each of its steps leaves less to do.
progress : (s : Sending) → Inv s → 0 < s.pending → (t : Sending) × Step s t × (work t < work s)
unfolding complete
progress s inv h = elim (ℕ_discrete s.near.busy 1) [
  | yes b ↦ (complete s (record (s.near) { busy = 0 }) s.far, near_completes b, ground arith)
  | no nb ↦ elim (ℕ_discrete s.far.busy 1) [
    | yes b ↦ (complete s s.near (record (s.far) { busy = 0 }), far_completes b, ground arith)
    | no fb ↦ elim (dec_lt 0 s.near.left) [
      | yes l ↦ (_, near_begins (delivered l (ground arith)), ground arith)
      | no z ↦ (_, far_begins (delivered (ground arith) (ground arith)), ground arith)
    ]
  ]
]

run_out : (k : ℕ) (s : Sending) → work s < k → Inv s → (t : Sending) × Reach s t × (t.pending ≡ 0)
run_out zero s h inv = absurd (omega arith)
run_out (suc k) s h inv = elim (ℕ_discrete s.pending 0) [
  | yes e ↦ (s, here, e)
  | no ne ↦
      let (t, st, less) = progress s inv (omega arith) in
      let (u, r, e) = run_out k t (omega arith) (Step-Inv st inv) in (u, Step-trans st r, e)
]

-- From every state that the workers reach on a job with a receiver, they can go on to a state
-- in which the job is finished, once, with the failures of both workers.
pub can_finish :
    (locals remotes : ℕ) {s : Sending}
    → 0 < locals + remotes
    → Reach (start locals remotes) s
    → (t : Sending) × Reach s t × (t.finals ≡ (t.near.fails + t.far.fails) ∷ [])
can_finish locals remotes {s} h r =
    let inv = Reach-Inv (start-Inv locals remotes h) r in
    let (t, q, e) = run_out (suc (work s)) s (omega arith) inv in
    let last = Reach-Inv inv q in (t, q, ground arith)
