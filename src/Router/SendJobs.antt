-- ===== src/Router/SendJobs.antt =====
-- Router::build_send_job (router.cpp): the checks before a send, and the snapshot of the receivers.
use netcomm.Prelude.{
  ℕ, ◌+◌, ◌%◌, ◌^◌, ◌≡◌, ◌≢◌, refl, ap, sym, ◌∙◌, subst, Bool, true, not, ◌&&◌, leb, Option, none,
  some, List, [], ◌∷◌, map, ◌==◌, if◌then◌else◌, is_empty, contains, length, length-map, find, inl,
  inr, ◌⊎◌, ◌↔◌, ◌<◌, Bool-cases, Option-cases, arith, is_empty_of_contains,
}
use native.Mathlib.Decide.{ℕ_discrete}
use netcomm.Types.{Label, NodeId, HandleUid, SendHandle, sizeof_label_header, max_label_size}
use netcomm.Types.Words.{inc32}
use netcomm.Routes.{SendRoute, get_send_route}
use netcomm.Routes.Send.{snapshot_send_publishers}
use netcomm.Transports
use netcomm.Transports.Laws.{get_socket-ne-null, get_send_shm-ne-null}
use netcomm.Jobs.{
  SendBuf, SendJob, new_job, SendJobErr, no_error, route_not_found, size_mismatch, unknown_handle,
  no_publishers, incorrect_publisher,
}
use netcomm.Router.{Router}
use netcomm.Router.Inv.{SendInv}

started_job : NodeId → Label → SendBuf → ℕ → SendJob
unfolding new_job
started_job my_id label buf seq = record (new_job buf seq) { source_id = my_id; label = label }

-- The job with the publisher and the snapshots of both kinds of receivers.
addressed_job : Router → SendRoute → SendHandle → SendJob → SendJob
addressed_job r route h job = record job {
  publisher = some h;
  local_recvrs = locals;
  remote_recvrs = remotes;
  pending_sends = (length locals + length remotes) % 2 ^ 32;
}
  where
    locals : List ℕ
    locals = map (Transports.get_send_shm r.transports) route.local_subscribers

    remotes : List ℕ
    remotes = map (Transports.get_socket r.transports) route.remote_subscribers

checked_job :
    Router
    → Label
    → HandleUid
    → SendJob
    → Option SendRoute
    → Option SendHandle
    → SendJobErr × SendJob
unfolding addressed_job
checked_job r label uid job none o = (route_not_found, job)
checked_job r label uid job (some route) o =
    if not (route.label_size + sizeof_label_header == job.send_buffer.total_size)
    then (size_mismatch, job)
    else elim o [
      | none ↦ (unknown_handle, job)
      | some h ↦
          if is_empty (snapshot_send_publishers r.routes label)
          then (no_publishers, job)
          else if not (contains uid (snapshot_send_publishers r.routes label))
          then (incorrect_publisher, job)
          else (no_error, addressed_job r route h job)
    ]

-- The call in a build without assertions (NDEBUG). `seq` is the counter before the call; the new
-- counter is the second result.
pub build_send_job : Router → ℕ → NodeId → Label → HandleUid → SendBuf → (SendJobErr × SendJob) × ℕ
unfolding checked_job started_job
build_send_job r seq my_id label uid buf = (
  checked_job r label uid (started_job my_id label buf seq) (get_send_route r.routes label)
      (find uid r.send_handles),
  inc32 seq,
)

-- The condition that DB_ASSERT checks (assertion.h).
abbrev pub within_assert : SendBuf → Bool
within_assert buf = leb buf.total_size max_label_size

-- The call in any build; `asserts` is whether it has assertions, and none that one of them ends the
-- program.
unfoldable pub build_send_job_in :
    Bool → Router → ℕ → NodeId → Label → HandleUid → SendBuf → Option ((SendJobErr × SendJob) × ℕ)
unfolding build_send_job
build_send_job_in asserts r seq my_id label uid buf =
    if asserts && not (within_assert buf)
    then none
    else some (build_send_job r seq my_id label uid buf)

checked_job-buffer :
    (r : Router) (label : Label) (uid : HandleUid) (job : SendJob) (route : Option SendRoute)
    (o : Option SendHandle)
    → (checked_job r label uid job route o).1.send_buffer ≡ job.send_buffer
unfolding checked_job addressed_job
checked_job-buffer r label uid job none o = refl
checked_job-buffer r label uid job (some route) o = ground arith

-- Whatever comes of it, a job has the buffer of the send, and the counter goes on.
pub build_send_job-buffer :
    (r : Router) (seq : ℕ) (my_id : NodeId) (label : Label) (uid : HandleUid) (buf : SendBuf)
    → (build_send_job r seq my_id label uid buf).0.1.send_buffer ≡ buf
unfolding build_send_job started_job new_job
build_send_job-buffer r seq my_id label uid buf =
    checked_job-buffer r label uid (started_job my_id label buf seq) (get_send_route r.routes label)
      (find uid r.send_handles)

pub build_send_job-seq :
    (r : Router) (seq : ℕ) (my_id : NodeId) (label : Label) (uid : HandleUid) (buf : SendBuf)
    → (build_send_job r seq my_id label uid buf).1 ≡ inc32 seq
unfolding build_send_job
build_send_job-seq r seq my_id label uid buf = refl

-- No receiver of the list is null.
abbrev pub AllPresent : List ℕ → Type 0
AllPresent [] = Unit {0}
AllPresent (a ∷ rest) = (a ≢ 0) × AllPresent rest

local-AllPresent :
    {r : Router} (inv : SendInv r) (label : Label) (route : SendRoute)
    → get_send_route r.routes label ≡ some route
    → (ids : List NodeId)
    → ((id : NodeId) → contains id ids ≡ true → contains id route.local_subscribers ≡ true)
    → AllPresent (map (Transports.get_send_shm r.transports) ids)
local-AllPresent inv label route e [] sub = tt
local-AllPresent {r} inv label route e (id ∷ ids) sub = (
  get_send_shm-ne-null r.transports id (ground (arith, inv.locals label id, sub id)),
  local-AllPresent inv label route e ids (λ j m. sub j (ground arith)),
)

remote-AllPresent :
    {r : Router} (inv : SendInv r) (label : Label) (route : SendRoute)
    → get_send_route r.routes label ≡ some route
    → (ids : List NodeId)
    → ((id : NodeId) → contains id ids ≡ true → contains id route.remote_subscribers ≡ true)
    → AllPresent (map (Transports.get_socket r.transports) ids)
remote-AllPresent inv label route e [] sub = tt
remote-AllPresent {r} inv label route e (id ∷ ids) sub = (
  get_socket-ne-null r.transports id (ground (arith, inv.remotes label id, sub id)),
  remote-AllPresent inv label route e ids (λ j m. sub j (ground arith)),
)

-- What a successful send is given: the publisher, one live transport for each peer of the label in
-- order, and a completion count of both together.
pub record Addressed (r : Router) (route : SendRoute) (h : SendHandle) (job : SendJob)
    : Type 0 where
  pub publisher : job.publisher ≡ some h
  pub locals : job.local_recvrs ≡ map (Transports.get_send_shm r.transports) route.local_subscribers
  pub remotes :
      job.remote_recvrs ≡ map (Transports.get_socket r.transports) route.remote_subscribers
  pub locals_present : AllPresent job.local_recvrs
  pub remotes_present : AllPresent job.remote_recvrs
  pub pending :
      job.pending_sends
      ≡ (length route.local_subscribers + length route.remote_subscribers) % 2 ^ 32

addressed :
    {r : Router} (inv : SendInv r) (h : SendHandle) (route : SendRoute) (job : SendJob)
    → get_send_route r.routes h.info.label ≡ some route
    → Addressed r route h (addressed_job r route h job)
unfolding addressed_job
addressed {r} inv h route job e = record {
  publisher = refl;
  locals = refl;
  remotes = refl;
  locals_present = local-AllPresent inv h.info.label route e route.local_subscribers (λ id m. m);
  remotes_present = remote-AllPresent inv h.info.label route e route.remote_subscribers (λ id m. m);
  pending = rw (
    length-map (Transports.get_send_shm r.transports) route.local_subscribers,
    length-map (Transports.get_socket r.transports) route.remote_subscribers,
  );
}

module _ (r : Router) (h : SendHandle) (job : SendJob) (route : SendRoute)
    (e : get_send_route r.routes h.info.label ≡ some route) where
  checked_job-accepted :
      find h.uid r.send_handles ≡ some h
      → contains h.uid route.publishers ≡ true
      → route.label_size + sizeof_label_header ≡ job.send_buffer.total_size
      → checked_job r h.info.label h.uid job
          (get_send_route r.routes h.info.label)
          (find h.uid r.send_handles)
        ≡ (no_error, addressed_job r route h job)
  unfolding checked_job snapshot_send_publishers
  checked_job-accepted f m s = ground (arith, is_empty_of_contains h.uid route.publishers m)

  checked_job-sized :
      ¬ (route.label_size + sizeof_label_header ≡ job.send_buffer.total_size)
      → checked_job r h.info.label h.uid job
          (get_send_route r.routes h.info.label)
          (find h.uid r.send_handles)
        ≡ (size_mismatch, job)
  unfolding checked_job
  checked_job-sized s = ground arith

module _ {r : Router} (inv : SendInv r) (h : SendHandle) (seq : ℕ) (my_id : NodeId) (buf : SendBuf)
    (open_handle : find h.uid r.send_handles ≡ some h) where
  abbrev built : (SendJobErr × SendJob) × ℕ
  built = build_send_job r seq my_id h.info.label h.uid buf

  -- Without assertions, a buffer of the handle's size gets a job, and any other one is refused.
  pub build_send_job_open :
      ((buf.total_size ≡ h.info.buf_size + sizeof_label_header)
        × (built.0.0 ≡ no_error)
        × ((route : SendRoute) × (get_send_route r.routes h.info.label ≡ some route)
            × Addressed r route h built.0.1))
      ⊎ ((buf.total_size ≢ h.info.buf_size + sizeof_label_header) × (built.0.0 ≡ size_mismatch))
  unfolding build_send_job
  build_send_job_open = elim (Option-cases (get_send_route r.routes h.info.label)) [
    | inl n ↦ absurd (ground (arith, inv.handles h.uid))
    | inr (route, e) ↦
        let member : contains h.uid route.publishers ≡ true = ground (arith, inv.handles h.uid) in
        let sized : h.info.buf_size ≡ route.label_size =
          ground (arith, inv.publishers h.info.label h.uid) in
        elim (ℕ_discrete buf.total_size (h.info.buf_size + sizeof_label_header)) [
          | yes fits ↦
              let job = started_job my_id h.info.label buf seq in
              let o =
                checked_job-accepted r h job route e open_handle member (rw (← sized) (sym fits)) in
              inl (
                fits,
                ap (λ p. p.0) o,
                (
                  route,
                  e,
                  subst (λ p. Addressed r route h p.1) (sym o) (addressed inv h route job e),
                ),
              )
          | no bad ↦ inr (
            bad,
            ap (λ p. p.0)
                (checked_job-sized r h (started_job my_id h.info.label buf seq) route e
                  (λ q. bad (sym q ∙ rw sized))),
          )
        ]
  ]

  -- What becomes of a send: an assertion ends the program; a job is made; or the size is refused.
  pub data SendOutcome (asserts : Bool) : Option ((SendJobErr × SendJob) × ℕ) → Type 0 where
    stopped : asserts ≡ true → max_label_size < buf.total_size → SendOutcome asserts none
    accepted :
        {x : (SendJobErr × SendJob) × ℕ}
        → buf.total_size ≡ h.info.buf_size + sizeof_label_header
        → x.0.0 ≡ no_error
        → ((route : SendRoute) × (get_send_route r.routes h.info.label ≡ some route)
            × Addressed r route h x.0.1)
        → SendOutcome asserts (some x)
    refused :
        {x : (SendJobErr × SendJob) × ℕ}
        → buf.total_size ≢ h.info.buf_size + sizeof_label_header
        → x.0.0 ≡ size_mismatch
        → SendOutcome asserts (some x)

  made_outcome : (asserts : Bool) → SendOutcome asserts (some built)
  made_outcome asserts = elim build_send_job_open [
    | inl (fits, ok, to) ↦ accepted fits ok to
    | inr (misfit, err) ↦ refused misfit err
  ]

  -- In a router that keeps its invariant, a send through an open handle on its own label, in a build
  -- with or without assertions: if the build has assertions and the buffer with its header is larger
  -- than a label may be, the program ends, even if that is the handle's size; and the program ends
  -- only then. Otherwise a buffer of the handle's size gets a job with every peer addressed, and any
  -- other one is refused with the size error.
  pub build_send_job_in_lem :
      (asserts : Bool)
      → SendOutcome asserts (build_send_job_in asserts r seq my_id h.info.label h.uid buf)
        × ((build_send_job_in asserts r seq my_id h.info.label h.uid buf ≡ none)
            ↔ (asserts ≡ true) × (max_label_size < buf.total_size))
  unfolding build_send_job_in
  build_send_job_in_lem asserts = elim (Bool-cases (asserts && not (within_assert buf))) [
    | inl ends ↦ rw ends (
      stopped (ground (arith, ends)) (ground (arith, ends)),
      (λ e. (ground (arith, ends), ground (arith, ends)), λ e. refl),
    )
    | inr goes_on ↦ rw goes_on (
      made_outcome asserts,
      (λ e. absurd (ground (arith, e)), λ (a, l). absurd (ground (arith, goes_on, a, l))),
    )
  ]
