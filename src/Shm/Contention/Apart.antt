-- ===== src/Shm/Contention/Apart.antt =====
-- The regions of several senders do not meet (shm_send.cpp).
use netcomm.Prelude.{
  ℕ, ◌+◌, ◌-◌, ◌*◌, ◌%◌, ◌^◌, ◌≤◌, ◌<◌, ◌≡◌, refl, sym, subst, ◌⊎◌, true, false, List, [], ◌∷◌,
  ◌++◌, ltb, ◌==◌, ==→≡, on_if, length, spans_apart, arith,
}
use netcomm.Shm.Layout.{data_block_size, data_usable_limit}
use netcomm.Shm.{Block, Round, alloc_round, write_wrap, space_til_wrap}
use netcomm.Shm.Writes.{gap-lap}
use netcomm.Shm.Contention.{
  Region, Contended, Act, attempt, release, after_round, released, act, run,
}

-- The regions follow one another from a position up to another, none across the usable limit.
abbrev pub Follow : ℕ → ℕ → List Region → Type 0
Follow low high [] = low ≤ high
Follow low high ((p, n) ∷ rest) =
    (low ≤ p) × (p % data_block_size + n ≤ data_usable_limit) × Follow (p + n) high rest

record Inv (s : Contended) (most : ℕ) : Type 0 where
  pub follow : Follow s.block.tail_bytes s.block.head_bytes s.held
  pub lap : s.block.head_bytes ≤ s.block.tail_bytes + data_block_size
  pub tail_ok : s.block.tail_bytes % data_block_size ≤ data_usable_limit
  pub small : s.block.head_bytes ≤ most

Follow-low : (low high : ℕ) (rs : List Region) → Follow low high rs → low ≤ high
Follow-low low high [] h = h
Follow-low low high ((p, n) ∷ rest) (a, b, h) = omega (arith, Follow-low (p + n) high rest h)

Follow-higher :
    (low high high' : ℕ) (rs : List Region)
    → high ≤ high'
    → Follow low high rs
    → Follow low high' rs
Follow-higher low high high' [] le h = omega arith
Follow-higher low high high' ((p, n) ∷ rest) le (a, b, h) =
    (a, b, Follow-higher (p + n) high high' rest le h)

Follow-snoc :
    (low high size high' : ℕ) (rs : List Region)
    → high % data_block_size + size ≤ data_usable_limit
    → high + size ≤ high'
    → Follow low high rs
    → Follow low high' (rs ++ ((high, size) ∷ []))
Follow-snoc low high size high' [] fits le h = (h, fits, le)
Follow-snoc low high size high' ((p, n) ∷ rest) fits le (a, b, h) =
    (a, b, Follow-snoc (p + n) high size high' rest fits le h)

ltb-false : (a b : ℕ) → ltb a b ≡ false → b ≤ a
ltb-false a b h = ground arith

ltb-true : (a b : ℕ) → ltb a b ≡ true → a < b
ltb-true a b h = ground arith

module _ (s : Contended) (most : ℕ) (inv : Inv s most) (low : most + data_block_size < 2 ^ 64) where
  kept : Inv s (most + data_block_size)
  kept = record {
    follow = inv.follow;
    lap = inv.lap;
    tail_ok = inv.tail_ok;
    small = omega (arith, inv.small);
  }

  module _ (size head : ℕ) (at : s.block.head_bytes ≡ head) (le : s.block.tail_bytes ≤ head)
      (room : head - s.block.tail_bytes + size ≤ data_block_size) where
    wraps :
        data_usable_limit < head % data_block_size + size
        → Inv
            (record s { block = write_wrap s.block s.block.generation head })
            (most + data_block_size)
    wraps far =
        let lap = gap-lap head s.block.tail_bytes size le inv.tail_ok (omega arith) far in
        let next : (head + space_til_wrap head) % 2 ^ 64 ≡ head + space_til_wrap head =
          omega (arith, inv.small, at) in
        record {
          follow =
              Follow-higher s.block.tail_bytes s.block.head_bytes
                ((head + space_til_wrap head) % 2 ^ 64) s.held (omega (arith, next, at)) inv.follow;
          lap = omega (arith, lap, next);
          tail_ok = inv.tail_ok;
          small = omega (arith, inv.small, at, next);
        }

    fits :
        head % data_block_size + size ≤ data_usable_limit
        → Inv
            (record {
              block = record (s.block) { head_bytes = (head + size) % 2 ^ 64 };
              held = s.held ++ ((head, size) ∷ []);
            })
            (most + data_block_size)
    fits ok =
        let next : (head + size) % 2 ^ 64 ≡ head + size = omega (arith, inv.small, at) in
        record {
          follow =
              Follow-snoc s.block.tail_bytes head size ((head + size) % 2 ^ 64) s.held ok
                (omega (arith, next))
                (subst (λ h. Follow s.block.tail_bytes h s.held) at inv.follow);
          lap = omega (arith, next);
          tail_ok = inv.tail_ok;
          small = omega (arith, inv.small, at, next);
        }

  attempt-Inv : (size head : ℕ) → Inv (act s (attempt size head)) (most + data_block_size)
  unfolding act alloc_round
  attempt-Inv size head =
      on_if Stays (ltb head s.block.tail_bytes) (λ t. kept)
        (λ not_past.
          on_if Stays (ltb data_block_size (head - s.block.tail_bytes + size)) (λ t. kept)
            (λ room.
              on_if Stays (ltb data_usable_limit (head % data_block_size)) (λ t. kept)
                (λ in_use.
                  on_if Stays (ltb data_usable_limit (head % data_block_size + size))
                    (λ far.
                      on_if Stays (s.block.head_bytes == head)
                        (λ same.
                          wraps size head (==→≡ s.block.head_bytes head same)
                            (ltb-false head s.block.tail_bytes not_past)
                            (ltb-false data_block_size (head - s.block.tail_bytes + size) room)
                            (ltb-true data_usable_limit (head % data_block_size + size) far))
                        (λ other. kept))
                    (λ ok.
                      on_if Stays (s.block.head_bytes == head)
                        (λ same.
                          fits size head (==→≡ s.block.head_bytes head same)
                            (ltb-false head s.block.tail_bytes not_past)
                            (ltb-false data_block_size (head - s.block.tail_bytes + size) room)
                            (ltb-false data_usable_limit (head % data_block_size + size) ok))
                        (λ other. kept)))))
    where
      Stays : Round → Type 0
      Stays r = Inv (after_round s size r) (most + data_block_size)

  released-Inv :
      (rs : List Region)
      → Follow s.block.tail_bytes s.block.head_bytes rs
      → s.held ≡ rs
      → Inv (released s rs) (most + data_block_size)
  released-Inv [] h e = kept
  released-Inv ((p, n) ∷ rest) (after, fits, h) e =
      let below = Follow-low (p + n) s.block.head_bytes rest h in
      let next : (p + n) % 2 ^ 64 ≡ p + n = omega (arith, inv.small, below) in
      record {
        follow = subst (λ t. Follow t s.block.head_bytes rest) (sym next) h;
        lap = omega (arith, inv.lap, after, next);
        tail_ok = omega (arith, next, fits);
        small = omega (arith, inv.small);
      }

act-Inv :
    (s : Contended) (most : ℕ) (a : Act)
    → Inv s most
    → most + data_block_size < 2 ^ 64
    → Inv (act s a) (most + data_block_size)
unfolding act
act-Inv s most (attempt size head) inv low = attempt-Inv s most inv low size head
act-Inv s most release inv low = released-Inv s most inv low s.held inv.follow refl

run-Inv :
    (s : Contended) (most : ℕ) (acts : List Act)
    → Inv s most
    → most + length acts * data_block_size < 2 ^ 64
    → (m : ℕ) × Inv (run s acts) m
unfolding run
run-Inv s most [] inv low = (most, inv)
run-Inv s most (a ∷ acts) inv low =
    run-Inv (act s a) (most + data_block_size) acts (act-Inv s most a inv (omega arith))
      (omega arith)

-- Two regions do not share a byte of the ring.
abbrev pub Apart : Region → Region → Type 0
Apart (p, n) (q, k) =
    (p % data_block_size + n ≤ q % data_block_size)
    ⊎ (q % data_block_size + k ≤ p % data_block_size)

abbrev pub ApartFrom : Region → List Region → Type 0
ApartFrom r [] = Unit {0}
ApartFrom r (q ∷ qs) = Apart r q × ApartFrom r qs

-- No two of these regions do.
abbrev pub AllApart : List Region → Type 0
AllApart [] = Unit {0}
AllApart (r ∷ rs) = ApartFrom r rs × AllApart rs

Follow-ApartFrom :
    (p n low high : ℕ) (rs : List Region)
    → p + n ≤ low
    → high ≤ p + data_block_size
    → p % data_block_size + n ≤ data_usable_limit
    → Follow low high rs
    → ApartFrom (p, n) rs
Follow-ApartFrom p n low high [] le lap fits h = tt
Follow-ApartFrom p n low high ((q, k) ∷ rs) le lap fits (after, fits', h) = (
  subst (λ x. Apart (p, n) (x, k)) {x = p + (q - p)} (omega arith)
      (spans_apart data_block_size p n (q - p) k (omega arith) (omega arith) (omega arith)
        (omega (arith, Follow-low (q + k) high rs h))),
  Follow-ApartFrom p n (q + k) high rs (omega arith) lap fits h,
)

Follow-AllApart :
    (low high : ℕ) (rs : List Region)
    → high ≤ low + data_block_size
    → Follow low high rs
    → AllApart rs
Follow-AllApart low high [] lap h = tt
Follow-AllApart low high ((p, n) ∷ rs) lap (after, fits, h) = (
  Follow-ApartFrom p n (p + n) high rs (omega arith) (omega arith) fits h,
  Follow-AllApart (p + n) high rs (omega arith) h,
)

-- From a block without records, whatever rounds any number of senders run, with whatever heads they
-- loaded before, and whenever the receiver takes the oldest region back: no two regions that are
-- given out share a byte of the ring, as long as there are so few steps that the counters stay below
-- 2 ^ 64.
pub run-AllApart :
    (b : Block) (acts : List Act)
    → b.tail_bytes ≡ b.head_bytes
    → b.head_bytes % data_block_size ≤ data_usable_limit
    → b.head_bytes + length acts * data_block_size < 2 ^ 64
    → AllApart (run (record { block = b; held = [] }) acts).held
run-AllApart b acts empty ok low =
    let (m, inv) =
      run-Inv (record { block = b; held = [] }) b.head_bytes acts
        (record {
          follow = omega (arith, empty);
          lap = omega (arith, empty);
          tail_ok = omega (arith, empty, ok);
          small = omega arith;
        })
        low in
    let s = run (record { block = b; held = [] }) acts in
    Follow-AllApart s.block.tail_bytes s.block.head_bytes s.held inv.lap inv.follow
