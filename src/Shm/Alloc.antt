-- ===== src/Shm/Alloc.antt =====
-- The allocation loop of ShmSend::send (shm_send.cpp).
use native.Mathlib.Nat.{mod-eq_of_lt}
use native.Mathlib.Decide.{dec_lt}
use netcomm.Prelude.{
  ℕ, suc, ◌+◌, ◌*◌, ◌%◌, ◌^◌, ◌≤◌, ◌<◌, ◌≡◌, refl, ap, sym, subst, ◌∙◌, ◌⊎◌, inl, inr, List, [],
  ◌∷◌, ◌++◌, arith,
}
use netcomm.Shm.Layout.{data_block_size, data_usable_limit}
use netcomm.Shm.{
  Block, space_til_wrap, write_wrap, allocate, alloc_round, retry, ended, ShmSendErr, send_ok,
  not_enough_space,
}
use netcomm.Shm.Writes.{gap-lap, next_lap, wrap-IsRing}
use netcomm.Shm.Ring.{Segment, message, gap, messages, IsRing, Chain-le}

-- How an allocation ends on a ring: it finds room after the records there are, with a gap added or
-- not, or it does not and the messages stay.
pub data Allocated (b : Block) (segs : List Segment) (size : ℕ)
    : ShmSendErr × Block × ℕ → Type 0 where
  room :
      (c : Block) (segs' : List Segment)
      → IsRing c segs'
      → messages segs' ≡ messages segs
      → c.generation ≡ b.generation
      → c.tail_bytes ≡ b.tail_bytes
      → c.head_bytes + size < 2 ^ 64
      → c.head_bytes % data_block_size + size ≤ data_usable_limit
      → c.head_bytes + size ≤ c.tail_bytes + data_block_size
      → Allocated b segs size
          (send_ok, record c { head_bytes = (c.head_bytes + size) % 2 ^ 64 }, c.head_bytes)
  full :
      (c : Block) (segs' : List Segment)
      → IsRing c segs'
      → messages segs' ≡ messages segs
      → c.tail_bytes ≡ b.tail_bytes
      → c.tail_bytes + data_block_size < c.head_bytes + size
      → Allocated b segs size (not_enough_space, c, c.head_bytes)

messages-gap : (segs : List Segment) → messages (segs ++ (gap ∷ [])) ≡ messages segs
messages-gap [] = refl
messages-gap (message d ∷ segs) = ap (λ x. d ∷ x) (messages-gap segs)
messages-gap (gap ∷ segs) = messages-gap segs

round-full :
    (b : Block) (size : ℕ)
    → b.tail_bytes ≤ b.head_bytes
    → b.tail_bytes + data_block_size < b.head_bytes + size
    → alloc_round b b.generation size b.head_bytes ≡ ended (not_enough_space, b, b.head_bytes)
unfolding alloc_round
round-full b size le f = ground arith

round-room :
    (b : Block) (size : ℕ)
    → b.tail_bytes ≤ b.head_bytes
    → b.head_bytes + size ≤ b.tail_bytes + data_block_size
    → b.head_bytes % data_block_size + size ≤ data_usable_limit
    → alloc_round b b.generation size b.head_bytes
      ≡ ended (send_ok, record b { head_bytes = (b.head_bytes + size) % 2 ^ 64 }, b.head_bytes)
unfolding alloc_round
round-room b size le lap fits = ground arith

round-wrap :
    (b : Block) (size : ℕ)
    → b.tail_bytes ≤ b.head_bytes
    → b.head_bytes % data_block_size ≤ data_usable_limit
    → b.head_bytes + size ≤ b.tail_bytes + data_block_size
    → data_usable_limit < b.head_bytes % data_block_size + size
    → alloc_round b b.generation size b.head_bytes
      ≡ retry (write_wrap b b.generation b.head_bytes) (b.head_bytes + space_til_wrap b.head_bytes)
unfolding alloc_round
round-wrap b size le ok lap far = ground arith

allocate-ended :
    (n : ℕ) (b : Block) (gen size head : ℕ) (r : ShmSendErr × Block × ℕ)
    → alloc_round b gen size head ≡ ended r
    → allocate (suc n) b gen size head ≡ r
unfolding allocate
allocate-ended n b gen size head r e =
    ap
      (λ x. elim x as (λ y. ShmSendErr × Block × ℕ) [
        | retry b' head' ↦ allocate n b' gen size head'
        | ended q ↦ q
      ])
      e

allocate-retry :
    (n : ℕ) (b c : Block) (gen size head next : ℕ)
    → alloc_round b gen size head ≡ retry c next
    → allocate (suc n) b gen size head ≡ allocate n c gen size next
unfolding allocate
allocate-retry n b c gen size head next e =
    ap
      (λ x. elim x as (λ y. ShmSendErr × Block × ℕ) [
        | retry b' head' ↦ allocate n b' gen size head'
        | ended q ↦ q
      ])
      e

last_round :
    (n : ℕ) (b : Block) (segs : List Segment) (size : ℕ)
    → IsRing b segs
    → b.head_bytes + size < 2 ^ 64
    → (b.tail_bytes + data_block_size < b.head_bytes + size)
      ⊎ (b.head_bytes % data_block_size + size ≤ data_usable_limit)
    → Allocated b segs size (allocate (suc n) b b.generation size b.head_bytes)
last_round n b segs size ring small o =
    let le = Chain-le b b.tail_bytes segs ring.chain in
    elim (dec_lt (b.tail_bytes + data_block_size) (b.head_bytes + size)) [
      | yes f ↦
          subst (Allocated b segs size)
            (sym (
              allocate-ended n b b.generation size b.head_bytes (not_enough_space, b, b.head_bytes)
                (round-full b size le f)))
            (full b segs ring refl refl f)
      | no g ↦
          let lap : b.head_bytes + size ≤ b.tail_bytes + data_block_size = omega arith in
          let fits : b.head_bytes % data_block_size + size ≤ data_usable_limit = omega (arith, o) in
          subst (Allocated b segs size)
            (sym (
              allocate-ended n b b.generation size b.head_bytes
                (send_ok, record b { head_bytes = (b.head_bytes + size) % 2 ^ 64 }, b.head_bytes)
                (round-room b size le lap fits)))
            (room b segs ring refl refl refl small fits lap)
    ]

-- The records and the messages after a gap was added are what they were before it.
across_gap :
    (b c : Block) (segs : List Segment) (size : ℕ) (r : ShmSendErr × Block × ℕ)
    → c.generation ≡ b.generation
    → c.tail_bytes ≡ b.tail_bytes
    → Allocated c (segs ++ (gap ∷ [])) size r
    → Allocated b segs size r
across_gap b c segs size r g t (room d segs' ring m e f small fits lap) =
    room d segs' ring (m ∙ messages-gap segs) (e ∙ g) (f ∙ t) small fits lap
across_gap b c segs size r g t (full d segs' ring m f no_room) =
    full d segs' ring (m ∙ messages-gap segs) (f ∙ t) no_room

-- At the start of a lap a record fits, or it is too large for what a gap leaves.
start_of_lap :
    (head tail size : ℕ)
    → tail ≤ head
    → head % data_block_size ≤ data_usable_limit
    → head + 2 * data_block_size < 2 ^ 64
    → (tail + data_block_size < (head + space_til_wrap head) % 2 ^ 64 + size)
      ⊎ ((head + space_til_wrap head) % 2 ^ 64 % data_block_size + size ≤ data_usable_limit)
start_of_lap head tail size le ok small =
    let e : (head + space_til_wrap head) % 2 ^ 64 ≡ head + space_til_wrap head =
      mod-eq_of_lt (omega arith) in
    elim (dec_lt data_usable_limit size) [
      | yes large ↦ inl (omega (arith, e))
      | no fits ↦ inr (omega (arith, ap (λ x. x % data_block_size) e, next_lap head))
    ]

after_gap :
    (n : ℕ) (b : Block) (segs : List Segment) (size : ℕ)
    → IsRing b segs
    → size ≤ data_block_size
    → b.head_bytes + 3 * data_block_size < 2 ^ 64
    → b.head_bytes + size ≤ b.tail_bytes + data_block_size
    → data_usable_limit < b.head_bytes % data_block_size + size
    → Allocated b segs size (allocate (suc (suc n)) b b.generation size b.head_bytes)
after_gap n b segs size ring le small lap far =
    let tail = Chain-le b b.tail_bytes segs ring.chain in
    let room_for_gap = gap-lap b.head_bytes b.tail_bytes size tail ring.tail_ok lap far in
    let wrapped = wrap-IsRing b segs ring (omega arith) room_for_gap in
    let head : (b.head_bytes + space_til_wrap b.head_bytes) % 2 ^ 64
        ≡ b.head_bytes + space_til_wrap b.head_bytes =
      mod-eq_of_lt (omega arith) in
    subst (Allocated b segs size)
      (sym (
        allocate-retry (suc n) b (write_wrap b b.generation b.head_bytes) b.generation size
          b.head_bytes (b.head_bytes + space_til_wrap b.head_bytes)
          (round-wrap b size tail ring.head_ok lap far)))
      (across_gap b (write_wrap b b.generation b.head_bytes) segs size
        (allocate (suc n) (write_wrap b b.generation b.head_bytes) b.generation size
          (b.head_bytes + space_til_wrap b.head_bytes))
        refl refl
        (subst
          (λ h.
            Allocated (write_wrap b b.generation b.head_bytes) (segs ++ (gap ∷ [])) size
              (allocate (suc n) (write_wrap b b.generation b.head_bytes) b.generation size h))
          head
          (last_round n (write_wrap b b.generation b.head_bytes) (segs ++ (gap ∷ [])) size wrapped
            (omega (arith, head))
            (start_of_lap b.head_bytes b.tail_bytes size tail ring.head_ok (omega arith)))))

-- Two rounds are enough: after a gap the record stands at the start of a lap.
pub allocate-Allocated :
    (n : ℕ) (b : Block) (segs : List Segment) (size : ℕ)
    → IsRing b segs
    → size ≤ data_block_size
    → b.head_bytes + 3 * data_block_size < 2 ^ 64
    → Allocated b segs size (allocate (suc (suc n)) b b.generation size b.head_bytes)
allocate-Allocated n b segs size ring le small =
    let tail = Chain-le b b.tail_bytes segs ring.chain in
    elim (dec_lt (b.tail_bytes + data_block_size) (b.head_bytes + size)) [
      | yes f ↦ last_round (suc n) b segs size ring (omega arith) (inl f)
      | no g ↦
          let lap : b.head_bytes + size ≤ b.tail_bytes + data_block_size = omega arith in
          elim (dec_lt data_usable_limit (b.head_bytes % data_block_size + size)) [
            | no near ↦ last_round (suc n) b segs size ring (omega arith) (inr (omega arith))
            | yes far ↦ after_gap n b segs size ring le small lap far
          ]
    ]
