-- ===== src/Pager/FreeToMap.antt =====
-- FreeToMap of src/pager.cpp adds its block to the free pages, whichever neighbours it merges with.
use atomkv.Prelude.{
  true, ℕ, suc, ◌+◌, ◌≤◌, ◌<◌, ◌≡◌, refl, inl, inr, ◌||◌, [], ◌∷◌, Option, none, some, arith,
  Option-cases, Bool-cases, sym, subst, ◌%◌, ◌==◌, ==_iff,
}
use atomkv.StdMap.{find, lower_bound, prev, last, erase, insert, assign, IsSortedFrom}
use atomkv.StdMap.Lookup.{
  IsSortedFrom-mono, find-lower_bound, IsEntry, last-IsEntry, prev-IsEntry-erase,
}
use atomkv.Format.{page_invalid_id, u32_mod}
use atomkv.Pager.{
  PagePair, FreeMap, merge_with_previous, merge_with_next, exists, is_defined_at, is_defined,
  free_at, free_to_map,
}
use atomkv.Pager.Covers.{
  within, covers, IsFreeMap, IsFreeMap-mono, IsApart, AllApart, AllApart-of_IsApart, find-covers,
  find-IsFreeMap, covers-erase, covers-insert, covers-assign,
}

pub IsSortedFrom-of_IsFreeMap : (lo : ℕ) (m : FreeMap) → IsFreeMap lo m → IsSortedFrom lo m
IsSortedFrom-of_IsFreeMap lo [] w = tt
IsSortedFrom-of_IsFreeMap lo ((k, c) ∷ m) w = (
  w.0,
  IsSortedFrom-mono (k + c) (suc k) m (omega arith) (IsSortedFrom-of_IsFreeMap (k + c) m w.3),
)

pub find-of_IsApart :
    (lo pgid count : ℕ) (m : FreeMap)
    → 0 < count
    → IsFreeMap lo m
    → IsApart pgid count m
    → find pgid m ≡ none
find-of_IsApart lo pgid count m h w f = elim (Option-cases (find pgid m)) [
  | inl e ↦ e
  | inr (c, e) ↦ ground (arith, find-covers pgid c pgid m e, find-IsFreeMap lo pgid c m w e, f pgid)
]

pub insert-IsFreeMap :
    (lo pgid count : ℕ) (m : FreeMap)
    → lo ≤ pgid
    → 0 < count
    → pgid + count ≤ page_invalid_id
    → IsFreeMap lo m
    → AllApart pgid count m
    → IsFreeMap lo (insert pgid count m)
unfolding insert
insert-IsFreeMap lo pgid count [] h hc hl w a = (h, hc, hl, tt)
insert-IsFreeMap lo pgid count ((k, c) ∷ m) h hc hl w a =
    ground (arith, insert-IsFreeMap (k + c) pgid count m, a.0)

pub erase-IsFreeMap : (lo k : ℕ) (m : FreeMap) → IsFreeMap lo m → IsFreeMap lo (erase k m)
unfolding erase
erase-IsFreeMap lo k [] w = tt
erase-IsFreeMap lo k ((j, c) ∷ m) w =
    ground (arith, erase-IsFreeMap (j + c) k m w.3, IsFreeMap-mono (j + c) lo m)

-- The block directly behind an entry does not reach into the entries after it.
IsFreeMap-extend :
    (lo count : ℕ) (m : FreeMap) → IsFreeMap lo m → AllApart lo count m → IsFreeMap (lo + count) m
IsFreeMap-extend lo count [] w a = tt
IsFreeMap-extend lo count ((j, d) ∷ m) w a = ground (arith, a.0)

assign-IsFreeMap :
    (lo k c count : ℕ) (m : FreeMap)
    → find k m ≡ some c
    → k + c + count ≤ page_invalid_id
    → IsFreeMap lo m
    → AllApart (k + c) count m
    → IsFreeMap lo (assign k (c + count) m)
unfolding assign find
assign-IsFreeMap lo k c count [] e h w a = tt
assign-IsFreeMap lo k c count ((j, d) ∷ m) e h w a =
    ground (arith, assign-IsFreeMap (j + d) k c count m, IsFreeMap-extend (j + d) count m)

-- `m'` is a well-formed free map that covers the block and the pages of `m`, and no others.
pub record Adds (pgid count : ℕ) (m m' : FreeMap) : Type 0 where
  pub well_formed : IsFreeMap 0 m'
  pub pages : (p : ℕ) → covers m' p ≡ (within pgid count p || covers m p)

insert-Adds :
    (pgid count : ℕ) (m : FreeMap)
    → 0 < count
    → pgid + count ≤ page_invalid_id
    → IsFreeMap 0 m
    → IsApart pgid count m
    → Adds pgid count m (insert pgid count m)
insert-Adds pgid count m hc hl w f = record {
  well_formed =
      insert-IsFreeMap 0 pgid count m (omega arith) hc hl w
        (AllApart-of_IsApart 0 pgid count m hc w f);
  pages = λ p. covers-insert pgid count p m (find-of_IsApart 0 pgid count m hc w f);
}

assign-Adds :
    (k c pgid count : ℕ) (m : FreeMap)
    → k + c ≡ pgid
    → 0 < count
    → pgid + count ≤ page_invalid_id
    → IsFreeMap 0 m
    → IsApart pgid count m
    → find k m ≡ some c
    → Adds pgid count m (assign k (c + count) m)
assign-Adds k c pgid count m q hc hl w f e = record {
  well_formed =
      assign-IsFreeMap 0 k c count m e (omega arith) w
        (subst (λ x. AllApart x count m) (sym q) (AllApart-of_IsApart 0 pgid count m hc w f));
  pages = λ p. ground (arith, covers-assign k c (c + count) p m e, find-covers k c p m e);
}

pub wrap32 : (n : ℕ) → n ≤ page_invalid_id → n % u32_mod ≡ n
wrap32 n h = omega arith

merge_with_previous-Adds :
    (m : FreeMap) (o : Option PagePair) (pgid count : ℕ)
    → 0 < count
    → pgid + count ≤ page_invalid_id
    → IsFreeMap 0 m
    → IsApart pgid count m
    → IsEntry o m
    → Adds pgid count m (merge_with_previous m o pgid count)
unfolding merge_with_previous
merge_with_previous-Adds m none pgid count hc hl w f e = insert-Adds pgid count m hc hl w f
merge_with_previous-Adds m (some (k, c)) pgid count hc hl w f e =
    let bounds = find-IsFreeMap 0 k c m w e in
    rw (wrap32 (k + c) bounds.2) (elim (Bool-cases (k + c == pgid)) [
      | inl t ↦
          let q = (==_iff (k + c) pgid).0 t in
          rw (t, wrap32 (c + count) (omega arith)) (assign-Adds k c pgid count m q hc hl w f e)
      | inr t ↦ rw t (insert-Adds pgid count m hc hl w f)
    ])

merge_with_next-Adds :
    (m : FreeMap) (o : Option PagePair) (pgid count : ℕ)
    → exists o ≡ true
    → 0 < count
    → pgid + count ≤ page_invalid_id
    → IsFreeMap 0 m
    → IsApart pgid count m
    → IsEntry o m
    → Adds pgid count m (merge_with_next m o pgid count)
unfolding merge_with_next
merge_with_next-Adds m none pgid count x hc hl w f e = absurd (cc)
merge_with_next-Adds m (some i) pgid count x hc hl w f e =
    merge_with_previous-Adds m (some i) pgid count hc hl w f e

-- The block behind the freed one is taken out, and both are put back as one block.
Adds-joined :
    (pgid count second : ℕ) (m m' : FreeMap)
    → IsFreeMap 0 m
    → find (pgid + count) m ≡ some second
    → Adds pgid (count + second) (erase (pgid + count) m) m'
    → Adds pgid count m m'
Adds-joined pgid count second m m' w e a = record {
  well_formed = a.well_formed;
  pages = λ p. ground (
    arith,
    a.pages p,
    covers-erase 0 (pgid + count) second p m w e,
    find-covers (pgid + count) second p m e,
  );
}

IsApart-joined :
    (pgid count second : ℕ) (m : FreeMap)
    → IsFreeMap 0 m
    → find (pgid + count) m ≡ some second
    → IsApart pgid count m
    → IsApart pgid (count + second) (erase (pgid + count) m)
IsApart-joined pgid count second m w e f p h1 h2 =
    ground (arith, covers-erase 0 (pgid + count) second p m w e, f p)

free_at-Adds :
    (m : FreeMap) (o : Option PagePair) (pgid count : ℕ)
    → lower_bound pgid m ≡ o
    → 0 < count
    → pgid + count ≤ page_invalid_id
    → IsFreeMap 0 m
    → IsApart pgid count m
    → is_defined_at m o pgid count ≡ true
    → Adds pgid count m (free_at m o pgid count)
unfolding free_at is_defined_at
free_at-Adds m none pgid count e hc hl w f x =
    merge_with_previous-Adds m (last m) pgid count hc hl w f
      (last-IsEntry 0 m (IsSortedFrom-of_IsFreeMap 0 m w))
free_at-Adds m (some (first, second)) pgid count e hc hl w f x =
    let s = IsSortedFrom-of_IsFreeMap 0 m w in
    let found = find-lower_bound 0 pgid first second m s e in
    rw (wrap32 (pgid + count) hl) (elim (Bool-cases (first == pgid + count)) [
      | inl t ↦
          let q = (==_iff first (pgid + count)).0 t in
          let bounds = find-IsFreeMap 0 first second m w found.0 in
          let here = subst (λ x. find x m ≡ some second) q found.0 in
          let x' : exists (prev first m) ≡ true = rw (wrap32 (pgid + count) hl, t) at x in
          rw (t, wrap32 (count + second) (omega arith))
            (rw q (
              Adds-joined pgid count second m _ w here (
                merge_with_next-Adds (erase (pgid + count) m) (prev (pgid + count) m) pgid
                  (count + second) (subst (λ k. exists (prev k m) ≡ true) q x') (omega arith)
                  (omega arith) (erase-IsFreeMap 0 (pgid + count) m w)
                  (IsApart-joined pgid count second m w here f)
                  (prev-IsEntry-erase 0 (pgid + count) m s))))
      | inr t ↦
          rw t (merge_with_previous-Adds m (some (first, second)) pgid count hc hl w f found.0)
    ])

-- FreeToMap on a well-formed free map, for a non-empty block of valid pages none of which is free and that is not
-- directly in front of the first free block, where the program's behaviour is undefined: the result is a
-- well-formed free map, and its pages are the old ones and those of the block.
pub free_to_map-Adds :
    (m : FreeMap) (pgid count : ℕ)
    → 0 < count
    → pgid + count ≤ page_invalid_id
    → IsFreeMap 0 m
    → IsApart pgid count m
    → is_defined m pgid count ≡ true
    → Adds pgid count m (free_to_map m pgid count)
unfolding free_to_map is_defined
free_to_map-Adds m pgid count = free_at-Adds m (lower_bound pgid m) pgid count refl
