-- ===== src/Prelude/Maps.antt =====
-- `std::unordered_map` with an integer key, as a list of entries. The order of the list stands for
-- the order of iteration, which the library leaves open.
use Prim.Native.Nat.{ℕ}
use mathlib.Core.Path.{◌≡◌, refl}
use mathlib.Core.List.{List, [], ◌∷◌}
use mathlib.Core.Option.{Option, none, some}
use native.Mathlib.Omega.{arith}
use netcomm.Prelude.Tests.{◌==◌, if◌then◌else◌, is_some}
use netcomm.Prelude.Lists.{contains, Distinct}

abbrev pub Map {ℓ} : Type ℓ → Type ℓ
Map V = List (ℕ × V)

module _ {ℓ} {V : Type ℓ} where
  unfoldable pub find : ℕ → Map V → Option V
  find k [] = none
  find k ((j, v) ∷ m) = if j == k then some v else find k m

  -- `insert_or_assign`, and a write through a pointer to the value of a key.
  unfoldable pub put : ℕ → V → Map V → Map V
  put k v [] = (k, v) ∷ []
  put k v ((j, w) ∷ m) = if j == k then (k, v) ∷ m else (j, w) ∷ put k v m

  -- `emplace`: a key that is there keeps its value.
  unfoldable pub emplace : ℕ → V → Map V → Map V
  unfolding find put
  emplace k v m = if is_some (find k m) then m else put k v m

  unfoldable pub erase : ℕ → Map V → Map V
  erase k [] = []
  erase k ((j, v) ∷ m) = let rest = erase k m in if j == k then rest else (j, v) ∷ rest

  unfoldable pub keys : Map V → List ℕ
  keys [] = []
  keys ((j, v) ∷ m) = j ∷ keys m

  pub find-put :
      (j k : ℕ) (v : V) (m : Map V) → find j (put k v m) ≡ (if k == j then some v else find j m)
  unfolding find put
  find-put j k v [] = refl
  find-put j k v ((i, w) ∷ m) = ground (arith, find-put j k v m)

  pub find-erase : (j k : ℕ) (m : Map V) → find j (erase k m) ≡ (if k == j then none else find j m)
  unfolding find erase
  find-erase j k [] = ground arith
  find-erase j k ((i, w) ∷ m) = ground (arith, find-erase j k m)

  pub find-emplace :
      (j k : ℕ) (v : V) (m : Map V)
      → find k m ≡ none
      → find j (emplace k v m) ≡ (if k == j then some v else find j m)
  unfolding emplace
  find-emplace j k v m h = ground (arith, find-put j k v m)

  pub contains-keys : (k : ℕ) (m : Map V) → contains k (keys m) ≡ is_some (find k m)
  unfolding find keys
  contains-keys k [] = refl
  contains-keys k ((j, v) ∷ m) = ground (arith, contains-keys k m)

  pub keys-put : (k : ℕ) (v : V) (m : Map V) → Distinct (keys m) → Distinct (keys (put k v m))
  unfolding keys put
  keys-put k v [] d = (refl, tt)
  keys-put k v ((j, w) ∷ m) d =
      ground (
        arith,
        keys-put k v m d.1,
        contains-keys j m,
        contains-keys j (put k v m),
        find-put j k v m,
      )

  pub keys-erase : (k : ℕ) (m : Map V) → Distinct (keys m) → Distinct (keys (erase k m))
  unfolding keys erase
  keys-erase k [] d = tt
  keys-erase k ((j, w) ∷ m) d =
      ground (
        arith,
        keys-erase k m d.1,
        contains-keys j m,
        contains-keys j (erase k m),
        find-erase j k m,
      )

  erase-put : (k : ℕ) (v : V) (m : Map V) → find k m ≡ none → erase k (put k v m) ≡ m
  unfolding find put erase
  erase-put k v [] h = ground arith
  erase-put k v ((j, w) ∷ m) h = ground (arith, erase-put k v m, erase_missing k m)
    where
      erase_missing : (k : ℕ) (m : Map V) → find k m ≡ none → erase k m ≡ m
      erase_missing k [] h = refl
      erase_missing k ((j, w) ∷ m) h = ground (arith, erase_missing k m)

  -- Erasing an entry that was just made gives the map back.
  pub erase-emplace : (k : ℕ) (v : V) (m : Map V) → find k m ≡ none → erase k (emplace k v m) ≡ m
  unfolding emplace
  erase-emplace k v m h = ground (arith, erase-put k v m h)
