-- ===== src/Pager/Covers.antt =====
-- The set of pages that a free map stands for, and its well-formedness.
use atomkv.Prelude.{
  ℕ, ◌+◌, ◌≤◌, ◌<◌, ◌≡◌, refl, ◌⊎◌, Bool, true, false, ◌&&◌, ◌||◌, not, List, [], ◌∷◌, none, some,
  arith, ltb, leb,
}
use atomkv.StdMap.{find, erase, insert, assign}
use atomkv.Format.{page_invalid_id}
use atomkv.Pager.{PagePair, FreeMap}

-- The page lies in the block.
abbrev pub within : ℕ → ℕ → ℕ → Bool
within pgid count p = leb pgid p && ltb p (pgid + count)

-- The page lies in one of the blocks.
unfoldable pub covers : List PagePair → ℕ → Bool
covers [] p = false
covers ((pgid, count) ∷ m) p = within pgid count p || covers m p

-- The blocks are not empty, ascend without overlap from `lo` on, and hold valid page ids.
abbrev pub IsFreeMap : ℕ → FreeMap → Type 0
IsFreeMap lo [] = Unit
IsFreeMap lo ((pgid, count) ∷ m) =
    (lo ≤ pgid) × (0 < count) × (pgid + count ≤ page_invalid_id) × IsFreeMap (pgid + count) m

-- No page of the block is covered.
abbrev pub IsApart : ℕ → ℕ → List PagePair → Type 0
IsApart pgid count m = (p : ℕ) → pgid ≤ p → p < pgid + count → covers m p ≡ false

-- The same, block by block.
abbrev pub AllApart : ℕ → ℕ → List PagePair → Type 0
AllApart pgid count [] = Unit
AllApart pgid count ((k, c) ∷ m) = ((pgid + count ≤ k) ⊎ (k + c ≤ pgid)) × AllApart pgid count m

pub IsFreeMap-mono : (lo lo' : ℕ) (m : FreeMap) → lo' ≤ lo → IsFreeMap lo m → IsFreeMap lo' m
IsFreeMap-mono lo lo' [] h w = tt
IsFreeMap-mono lo lo' ((k, c) ∷ m) h w = (omega arith, w.1, w.2, w.3)

covers_below : (lo p : ℕ) (m : FreeMap) → IsFreeMap lo m → p < lo → covers m p ≡ false
unfolding covers
covers_below lo p [] w h = refl
covers_below lo p ((k, c) ∷ m) w h = ground (arith, covers_below (k + c) p m w.3)

one_apart :
    (pgid count k c : ℕ)
    → 0 < count
    → 0 < c
    → ((p : ℕ) → pgid ≤ p → p < pgid + count → within k c p ≡ false)
    → (pgid + count ≤ k) ⊎ (k + c ≤ pgid)
one_apart pgid count k c h hc f = ground (arith, f pgid, f k)

pub AllApart-of_IsApart :
    (lo pgid count : ℕ) (m : FreeMap)
    → 0 < count
    → IsFreeMap lo m
    → IsApart pgid count m
    → AllApart pgid count m
unfolding covers
AllApart-of_IsApart lo pgid count [] h w f = tt
AllApart-of_IsApart lo pgid count ((k, c) ∷ m) h w f = (
  one_apart pgid count k c h w.1 (λ p a b. ground (arith, f p a b)),
  AllApart-of_IsApart (k + c) pgid count m h w.3 (λ p a b. ground (arith, f p a b)),
)

pub find-covers :
    (k c p : ℕ) (m : FreeMap) → find k m ≡ some c → within k c p ≡ true → covers m p ≡ true
unfolding find covers
find-covers k c p [] e h = ground arith
find-covers k c p ((j, d) ∷ m) e h = ground (arith, find-covers k c p m)

pub find-IsFreeMap :
    (lo k c : ℕ) (m : FreeMap)
    → IsFreeMap lo m
    → find k m ≡ some c
    → (lo ≤ k) × (0 < c) × (k + c ≤ page_invalid_id)
unfolding find
find-IsFreeMap lo k c [] w e = ground arith
find-IsFreeMap lo k c ((j, d) ∷ m) w e = ground (arith, find-IsFreeMap (j + d) k c m w.3)

pub covers-erase :
    (lo k c p : ℕ) (m : FreeMap)
    → IsFreeMap lo m
    → find k m ≡ some c
    → covers (erase k m) p ≡ (covers m p && not (within k c p))
unfolding find covers erase
covers-erase lo k c p [] w e = ground arith
covers-erase lo k c p ((j, d) ∷ m) w e = ground (
  arith,
  covers-erase (j + d) k c p m w.3,
  covers_below (j + d) p m w.3,
  find-IsFreeMap (j + d) k c m w.3,
)

pub covers-insert :
    (k c p : ℕ) (m : FreeMap)
    → find k m ≡ none
    → covers (insert k c m) p ≡ (within k c p || covers m p)
unfolding find covers insert
covers-insert k c p [] e = ground arith
covers-insert k c p ((j, d) ∷ m) e = ground (arith, covers-insert k c p m)

pub covers-assign :
    (k c c' p : ℕ) (m : FreeMap)
    → find k m ≡ some c
    → c ≤ c'
    → covers (assign k c' m) p ≡ (within k c' p || covers m p)
unfolding find covers assign
covers-assign k c c' p [] e h = ground arith
covers-assign k c c' p ((j, d) ∷ m) e h = ground (arith, covers-assign k c c' p m)
