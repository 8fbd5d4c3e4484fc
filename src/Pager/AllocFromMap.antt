-- ===== src/Pager/AllocFromMap.antt =====
-- AllocFromMap of src/pager.cpp: first fit, and the pages it takes.
use atomkv.Prelude.{
  ℕ, suc, ◌+◌, ◌-◌, ◌≤◌, ◌<◌, ◌≡◌, refl, ◌⊎◌, inl, inr, true, ◌&&◌, not, [], ◌∷◌, ◌++◌, Option,
  none, some, arith, ltb, ltb→lt, Bool-cases,
}
use atomkv.StdMap.{find, erase, IsSortedFrom}
use atomkv.Format.{page_invalid_id}
use atomkv.Pager.{PagePair, FreeMap, Pager, first_fit, take_front, alloc_at, alloc_from_map}
use atomkv.Pager.Covers.{
  within, covers, IsFreeMap, IsApart, AllApart-of_IsApart, find-covers, find-IsFreeMap,
  covers-erase, covers-insert,
}
use atomkv.Pager.FreeToMap.{
  IsSortedFrom-of_IsFreeMap, find-of_IsApart, insert-IsFreeMap, erase-IsFreeMap, wrap32,
}

first_fit-find :
    (lo count k c : ℕ) (m : FreeMap)
    → IsSortedFrom lo m
    → first_fit count m ≡ some (k, c)
    → (find k m ≡ some c) × (count ≤ c) × (lo ≤ k)
unfolding first_fit find
first_fit-find lo count k c [] s e = ground arith
first_fit-find lo count k c ((j, d) ∷ m) s e =
    ground (arith, first_fit-find (suc j) count k c m s.1)

-- No entry has `count` pages.
first_fit-none :
    (count k c : ℕ) (m : FreeMap) → first_fit count m ≡ none → find k m ≡ some c → c < count
unfolding first_fit find
first_fit-none count k c [] e h = ground arith
first_fit-none count k c ((j, d) ∷ m) e h = ground (arith, first_fit-none count k c m)

-- `m'` is a well-formed free map that covers the pages of `m` but those of the block, which `m` has.
pub record Removes (pgid count : ℕ) (m m' : FreeMap) : Type 0 where
  pub well_formed : IsFreeMap 0 m'
  pub owned : (p : ℕ) → within pgid count p ≡ true → covers m p ≡ true
  pub pages : (p : ℕ) → covers m' p ≡ (covers m p && not (within pgid count p))

-- What is left of the entry is apart from the other entries.
IsApart-rest :
    (k c count : ℕ) (m : FreeMap)
    → IsFreeMap 0 m
    → find k m ≡ some c
    → count < c
    → IsApart (k + count) (c - count) (erase k m)
IsApart-rest k c count m w e h p h1 h2 = ground (arith, covers-erase 0 k c p m w e)

take_front-Removes :
    (k c count : ℕ) (m : FreeMap)
    → IsFreeMap 0 m
    → find k m ≡ some c
    → 0 < count
    → count ≤ c
    → Removes k count m (take_front m k c count)
unfolding take_front
take_front-Removes k c count m w e hc h =
    let bounds = find-IsFreeMap 0 k c m w e in
    let w' = erase-IsFreeMap 0 k m w in
    rw (wrap32 (k + count) (omega arith)) (elim (Bool-cases (ltb count c)) [
      | inl t ↦
          let lt = ltb→lt count c t in
          let f = IsApart-rest k c count m w e lt in
          rw t (record {
            well_formed =
                insert-IsFreeMap 0 (k + count) (c - count) (erase k m) (omega arith) (omega arith)
                  (omega arith) w'
                  (AllApart-of_IsApart 0 (k + count) (c - count) (erase k m) (omega arith) w' f);
            owned = λ p x. find-covers k c p m e (ground arith);
            pages = λ p. ground (
              arith,
              covers-insert (k + count) (c - count) p (erase k m)
                  (find-of_IsApart 0 (k + count) (c - count) (erase k m) (omega arith) w' f),
              covers-erase 0 k c p m w e,
              find-covers k c p m e,
            );
          })
      | inr t ↦ rw t (record {
        well_formed = w';
        owned = λ p x. find-covers k c p m e (ground arith);
        pages = λ p. ground (arith, covers-erase 0 k c p m w e);
      })
    ])

-- What AllocFromMap does: no entry is large enough and nothing changes, or a block of free pages is
-- taken out and recorded.
abbrev pub Allocates : ℕ → Pager → ℕ × Pager → Type 0
Allocates count pager r =
    (((k c : ℕ) → find k pager.free_map ≡ some c → c < count) × (r ≡ (page_invalid_id, pager)))
    ⊎ ((m : FreeMap) × (r.1
          ≡ record pager { free_map = m; alloc_records = pager.alloc_records ++ (r.0, count) ∷ [] })
        × (r.0 + count ≤ page_invalid_id)
        × Removes r.0 count pager.free_map m)

alloc_at-Allocates :
    (pager : Pager) (o : Option PagePair) (count : ℕ)
    → IsFreeMap 0 pager.free_map
    → 0 < count
    → first_fit count pager.free_map ≡ o
    → Allocates count pager (alloc_at pager o count)
unfolding alloc_at
alloc_at-Allocates pager none count w hc e =
    inl (λ k c h. first_fit-none count k c pager.free_map e h, refl)
alloc_at-Allocates pager (some (k, c)) count w hc e =
    let found =
      first_fit-find 0 count k c pager.free_map (IsSortedFrom-of_IsFreeMap 0 pager.free_map w) e in
    let bounds = find-IsFreeMap 0 k c pager.free_map w found.0 in
    inr (
      take_front pager.free_map k c count,
      refl,
      omega arith,
      take_front-Removes k c count pager.free_map w found.0 hc found.1,
    )

-- AllocFromMap of one page or more, on a well-formed free map: if every free block is shorter than
-- the request, the answer is kPageInvalidId and nothing changes; otherwise the answer starts a block
-- of as many free pages, exactly these leave the free map, which stays well-formed, the block is
-- added to the allocation records, and the rest of the pager is unchanged.
pub alloc_from_map-Allocates :
    (pager : Pager) (count : ℕ)
    → IsFreeMap 0 pager.free_map
    → 0 < count
    → Allocates count pager (alloc_from_map pager count)
unfolding alloc_from_map
alloc_from_map-Allocates pager count w hc =
    alloc_at-Allocates pager (first_fit count pager.free_map) count w hc refl
