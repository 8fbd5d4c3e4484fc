-- ===== src/StdMap.antt =====
-- std::map with an unsigned integer key, as the list of its entries in ascending order of the keys.
-- An iterator is the entry at which it stands, and `none` is end().
pub mod Lookup
use atomkv.Prelude.{ℕ, suc, ◌≤◌, List, [], ◌∷◌, Option, none, some, ltb, ◌==◌, if◌then◌else◌}

abbrev pub StdMap {ℓ} : Type ℓ → Type ℓ
StdMap V = List (ℕ × V)

module _ {ℓ} {V : Type ℓ} where
  unfoldable pub find : ℕ → StdMap V → Option V
  find k [] = none
  find k ((j, v) ∷ m) = if j == k then some v else find k m

  -- The first entry whose key is not below `k`.
  unfoldable pub lower_bound : ℕ → StdMap V → Option (ℕ × V)
  lower_bound k [] = none
  lower_bound k ((j, v) ∷ m) = if ltb j k then lower_bound k m else some (j, v)

  -- --iter at the entry of key `k`. At begin() the decrement is undefined in C++: `none` says that, and a caller
  -- has no iterator to go on with.
  unfoldable pub prev_from : Option (ℕ × V) → ℕ → StdMap V → Option (ℕ × V)
  prev_from p k [] = p
  prev_from p k ((j, v) ∷ m) = if ltb j k then prev_from (some (j, v)) k m else p

  unfoldable pub prev : ℕ → StdMap V → Option (ℕ × V)
  unfolding prev_from
  prev k m = prev_from none k m

  -- --end(), where the map is not empty.
  unfoldable pub last_from : Option (ℕ × V) → StdMap V → Option (ℕ × V)
  last_from p [] = p
  last_from p (e ∷ m) = last_from (some e) m

  unfoldable pub last : StdMap V → Option (ℕ × V)
  unfolding last_from
  last m = last_from none m

  unfoldable pub erase : ℕ → StdMap V → StdMap V
  erase k [] = []
  erase k ((j, v) ∷ m) = if j == k then m else (j, v) ∷ erase k m

  -- insert({k, v}): an entry that has the key already is left as it is.
  unfoldable pub insert : ℕ → V → StdMap V → StdMap V
  insert k v [] = (k, v) ∷ []
  insert k v ((j, w) ∷ m) =
      if ltb k j then (k, v) ∷ (j, w) ∷ m else if k == j then (j, w) ∷ m else (j, w) ∷ insert k v m

  -- iter->second = v at the entry of key `k`.
  unfoldable pub assign : ℕ → V → StdMap V → StdMap V
  assign k v [] = []
  assign k v ((j, w) ∷ m) = if j == k then (j, v) ∷ m else (j, w) ∷ assign k v m

  -- The keys ascend, and are not below `lo`.
  abbrev pub IsSortedFrom : ℕ → StdMap V → Type 0
  IsSortedFrom lo [] = Unit
  IsSortedFrom lo ((k, v) ∷ m) = (lo ≤ k) × IsSortedFrom (suc k) m
