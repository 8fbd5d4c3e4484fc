-- ===== src/StdMap/Lookup.antt =====
-- What a lookup answers after each operation on a map.
use atomkv.Prelude.{
  ℕ, suc, ◌≤◌, ◌<◌, ◌≡◌, refl, [], ◌∷◌, Option, none, some, arith, ◌==◌, if◌then◌else◌,
}
use atomkv.StdMap.{
  StdMap, find, lower_bound, prev, prev_from, last, last_from, erase, insert, assign, IsSortedFrom,
}

module _ {ℓ} {V : Type ℓ} where
  pub IsSortedFrom-mono :
      (lo lo' : ℕ) (m : StdMap V) → lo' ≤ lo → IsSortedFrom lo m → IsSortedFrom lo' m
  IsSortedFrom-mono lo lo' [] h s = tt
  IsSortedFrom-mono lo lo' ((k, v) ∷ m) h s = (omega arith, s.1)

  pub find_below : (lo k : ℕ) (m : StdMap V) → IsSortedFrom lo m → k < lo → find k m ≡ none
  unfolding find
  find_below lo k [] s h = refl
  find_below lo k ((j, v) ∷ m) s h = ground (arith, find_below (suc j) k m s.1)

  pub find-insert :
      (k i : ℕ) (v : V) (m : StdMap V)
      → find k m ≡ none
      → find i (insert k v m) ≡ (if k == i then some v else find i m)
  unfolding find insert
  find-insert k i v [] h = refl
  find-insert k i v ((j, w) ∷ m) h = ground (arith, find-insert k i v m)

  pub find-assign :
      (k i : ℕ) (v w : V) (m : StdMap V)
      → find k m ≡ some w
      → find i (assign k v m) ≡ (if k == i then some v else find i m)
  unfolding find assign
  find-assign k i v w [] h = ground arith
  find-assign k i v w ((j, u) ∷ m) h = ground (arith, find-assign k i v w m)

  pub find-erase :
      (lo k i : ℕ) (m : StdMap V)
      → IsSortedFrom lo m
      → find i (erase k m) ≡ (if k == i then none else find i m)
  unfolding find erase
  find-erase lo k i [] s = ground arith
  find-erase lo k i ((j, u) ∷ m) s =
      ground (arith, find-erase (suc j) k i m s.1, find_below (suc j) i m s.1)

  pub insert-IsSortedFrom :
      (lo k : ℕ) (v : V) (m : StdMap V)
      → lo ≤ k
      → IsSortedFrom lo m
      → IsSortedFrom lo (insert k v m)
  unfolding insert
  insert-IsSortedFrom lo k v [] h s = (h, tt)
  insert-IsSortedFrom lo k v ((j, w) ∷ m) h s = ground (arith, insert-IsSortedFrom (suc j) k v m)

  pub assign-IsSortedFrom :
      (lo k : ℕ) (v : V) (m : StdMap V) → IsSortedFrom lo m → IsSortedFrom lo (assign k v m)
  unfolding assign
  assign-IsSortedFrom lo k v [] s = tt
  assign-IsSortedFrom lo k v ((j, w) ∷ m) s = ground (arith, assign-IsSortedFrom (suc j) k v m)

  pub erase-IsSortedFrom :
      (lo k : ℕ) (m : StdMap V) → IsSortedFrom lo m → IsSortedFrom lo (erase k m)
  unfolding erase
  erase-IsSortedFrom lo k [] s = tt
  erase-IsSortedFrom lo k ((j, w) ∷ m) s =
      ground (arith, erase-IsSortedFrom (suc j) k m, IsSortedFrom-mono (suc j) lo m)

  pub find-lower_bound :
      (lo k j : ℕ) (v : V) (m : StdMap V)
      → IsSortedFrom lo m
      → lower_bound k m ≡ some (j, v)
      → (find j m ≡ some v) × (k ≤ j) × (lo ≤ j)
  unfolding find lower_bound
  find-lower_bound lo k j v [] s e = ground arith
  find-lower_bound lo k j v ((i, w) ∷ m) s e = ground (arith, find-lower_bound (suc i) k j v m s.1)

  -- An iterator is end(), or stands at an entry of the map.
  abbrev pub IsEntry : Option (ℕ × V) → StdMap V → Type ℓ
  IsEntry none m = Unit
  IsEntry (some (k, v)) m = find k m ≡ some v

  last_from-find :
      (lo j i : ℕ) (v w : V) (m : StdMap V)
      → IsSortedFrom lo m
      → i < lo
      → last_from (some (i, w)) m ≡ some (j, v)
      → find j ((i, w) ∷ m) ≡ some v
  unfolding find last_from
  last_from-find lo j i v w [] s h e = ground arith
  last_from-find lo j i v w ((n, u) ∷ m) s h e =
      ground (arith, last_from-find (suc n) j n v u m s.1, find_below lo i ((n, u) ∷ m) s h)

  last-find :
      (lo j : ℕ) (v : V) (m : StdMap V)
      → IsSortedFrom lo m
      → last m ≡ some (j, v)
      → find j m ≡ some v
  unfolding last
  last-find lo j v [] s e = ground arith
  last-find lo j v ((n, u) ∷ m) s e = last_from-find (suc n) j n v u m s.1 (omega arith) e

  prev_from-find :
      (lo k j i : ℕ) (v w : V) (m : StdMap V)
      → IsSortedFrom lo m
      → i < lo
      → prev_from (some (i, w)) k m ≡ some (j, v)
      → find j ((i, w) ∷ m) ≡ some v
  unfolding find prev_from
  prev_from-find lo k j i v w [] s h e = ground arith
  prev_from-find lo k j i v w ((n, u) ∷ m) s h e =
      ground (arith, prev_from-find (suc n) k j n v u m s.1, find_below lo i ((n, u) ∷ m) s h)

  prev_from-lt :
      (k j i : ℕ) (v w : V) (m : StdMap V)
      → i < k
      → prev_from (some (i, w)) k m ≡ some (j, v)
      → j < k
  unfolding prev_from
  prev_from-lt k j i v w [] h e = ground arith
  prev_from-lt k j i v w ((n, u) ∷ m) h e = ground (arith, prev_from-lt k j n v u m)

  prev-find :
      (lo k j : ℕ) (v : V) (m : StdMap V)
      → IsSortedFrom lo m
      → prev k m ≡ some (j, v)
      → find j m ≡ some v
  unfolding prev prev_from
  prev-find lo k j v [] s e = ground arith
  prev-find lo k j v ((n, u) ∷ m) s e = ground (arith, prev_from-find (suc n) k j n v u m s.1)

  prev-lt : (k j : ℕ) (v : V) (m : StdMap V) → prev k m ≡ some (j, v) → j < k
  unfolding prev prev_from
  prev-lt k j v [] e = ground arith
  prev-lt k j v ((n, u) ∷ m) e = ground (arith, prev_from-lt k j n v u m)

  IsEntry-of_find :
      (o : Option (ℕ × V)) (m : StdMap V)
      → ((k : ℕ) (v : V) → o ≡ some (k, v) → find k m ≡ some v)
      → IsEntry o m
  IsEntry-of_find none m f = tt
  IsEntry-of_find (some (k, v)) m f = f k v refl

  pub last-IsEntry : (lo : ℕ) (m : StdMap V) → IsSortedFrom lo m → IsEntry (last m) m
  last-IsEntry lo m s = IsEntry-of_find (last m) m (λ k v. last-find lo k v m s)

  -- The entry before that of `k` is still there once that one is erased.
  pub prev-IsEntry-erase :
      (lo k : ℕ) (m : StdMap V) → IsSortedFrom lo m → IsEntry (prev k m) (erase k m)
  prev-IsEntry-erase lo k m s =
      IsEntry-of_find (prev k m) (erase k m)
        λ j v e. ground (arith, prev-find lo k j v m s e, prev-lt k j v m e, find-erase lo k j m s)
