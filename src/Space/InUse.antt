-- ===== src/Space/InUse.antt =====
-- The pages in use: what Alloc of src/pager.cpp never hands out.
use native.Mathlib.Nat.{mul-le-mul_right}
use atomkv.Prelude.{
  ◌-◌, ℕ, true, ◌*◌, refl, sym, ◌∙◌, ◌+◌, ◌%◌, ◌≤◌, ◌<◌, ◌≡◌, inl, inr, false, ltb, ◌==◌, arith,
  if◌then◌else◌, Bool-cases,
}
use atomkv.Format.{u32_mod, page_invalid_id}
use atomkv.Result.{Result, ok, err}
use atomkv.Pager.{Pager, alloc_from_map, free, get_ptr}
use atomkv.Pager.Covers.{covers, IsFreeMap}
use atomkv.Pager.AllocFromMap.{Allocates, alloc_from_map-Allocates}
use atomkv.Space.{Space, alloc, alloc_at_end, remmap}

-- The page belongs to the database and is not free.
abbrev pub InUse : Space → ℕ → Type 0
InUse s p = (p < s.meta.page_count) × (covers s.pager.free_map p ≡ false)

pub record IsSound (s : Space) : Type 0 where
  pub well_formed : IsFreeMap 0 s.pager.free_map
  pub below : (p : ℕ) → covers s.pager.free_map p ≡ true → p < s.meta.page_count
  pub page : 2 ≤ s.pager.page_size

-- The pages of the database lie below 4 GiB, where the addresses of GetPtr do not wrap.
abbrev pub Fits : Space → Type 0
Fits s = s.meta.page_count * s.pager.page_size ≤ u32_mod

-- The bytes of the page in the mapped file are the same.
abbrev pub SameBytes : Space → Space → ℕ → Type 0
SameBytes s s' p =
    (i : ℕ)
    → i < s.pager.page_size
    → s'.file.bytes (get_ptr s.pager p i) ≡ s.file.bytes (get_ptr s.pager p i)

-- The second state is sound, and what was in use still is.
pub record Grows (s s' : Space) : Type 0 where
  pub sound : IsSound s'
  pub in_use : (p : ℕ) → InUse s p → InUse s' p
  pub page_size : s'.pager.page_size ≡ s.pager.page_size
  pub count : s.meta.page_count ≤ s'.meta.page_count
  pub bytes : Fits s' → (p : ℕ) → InUse s p → SameBytes s s' p

pub Grows-refl : (s : Space) → IsSound s → Grows s s
Grows-refl s v = record {
  sound = v;
  in_use = λ p u. u;
  page_size = refl;
  count = omega arith;
  bytes = λ fits p u i h. refl;
}

-- A database that ends below 4 GiB was there before.
pub Fits-before : (s s' : Space) → Grows s s' → Fits s' → Fits s
Fits-before s s' g fits =
    let e = g.page_size in
    let m = mul-le-mul_right s.pager.page_size g.count in
    let f : s'.meta.page_count * s.pager.page_size ≤ u32_mod = rw (sym e) fits in omega arith

pub SameBytes-trans :
    (s1 s2 s3 : Space) (p : ℕ)
    → s2.pager.page_size ≡ s1.pager.page_size
    → SameBytes s1 s2 p
    → SameBytes s2 s3 p
    → SameBytes s1 s3 p
unfolding get_ptr
SameBytes-trans s1 s2 s3 p e a b = λ i h.
    let b' : s3.file.bytes (get_ptr s1.pager p i) ≡ s2.file.bytes (get_ptr s1.pager p i) =
      rw (sym e) (b i (omega arith)) in
    b' ∙ a i h

pub Grows-trans : (s1 s2 s3 : Space) → Grows s1 s2 → Grows s2 s3 → Grows s1 s3
Grows-trans s1 s2 s3 a b = record {
  sound = b.sound;
  in_use = λ p u. b.in_use p (a.in_use p u);
  page_size = b.page_size ∙ a.page_size;
  count = let c = a.count in let d = b.count in omega arith;
  bytes = λ fits p u.
      SameBytes-trans s1 s2 s3 p a.page_size (a.bytes (Fits-before s2 s3 b fits) p u)
        (b.bytes fits p (a.in_use p u));
}

-- The block of an allocation: its pages belong to the database now, and were not in use.
pub record Fresh (s : Space) (count pgid : ℕ) (s' : Space) : Type 0 where
  pub inside : pgid + count ≤ s'.meta.page_count
  pub unused : (q : ℕ) → pgid ≤ q → q < pgid + count → ¬ (InUse s q)

-- What Alloc answers: an exception, or a fresh block.
abbrev pub AllocGrows : Space → ℕ → Result (ℕ × Space) → Type 0
AllocGrows s count (err e) = Unit
AllocGrows s count (ok (pgid, s')) = Grows s s' × Fresh s count pgid s'

at_end-AllocGrows :
    (s : Space) (count : ℕ)
    → IsSound s
    → count < u32_mod
    → AllocGrows s count (alloc_at_end s count)
unfolding alloc_at_end remmap
at_end-AllocGrows s count v hc =
    let new = (s.meta.page_count + count) % u32_mod in
    elim (Bool-cases (ltb new s.meta.page_count)) [
      | inl t ↦ rw t tt
      | inr f ↦ rw f (
        record {
          sound = record {
            well_formed = v.well_formed;
            below = λ p e. let b = v.below p e in ground arith;
            page = v.page;
          };
          in_use = λ p u. (ground arith, u.1);
          page_size = refl;
          count = ground arith;
          bytes = λ fits p u i h.
              elim (Bool-cases (ltb s.file.size ((new * s.pager.page_size) % u32_mod))) [
                | inl t ↦ rw t refl
                | inr t ↦ rw t refl
              ];
        },
        record { inside = ground arith; unused = λ q h1 h2 u. let h = u.0 in omega arith },
      )
    ]

from_map-AllocGrows :
    (s : Space) (count : ℕ) (r : ℕ × Pager)
    → IsSound s
    → 0 < count
    → count < u32_mod
    → Allocates count s.pager r
    → AllocGrows s count (
        if r.0 == page_invalid_id
        then alloc_at_end (record s { pager = r.1 }) count
        else ok (r.0, record s { pager = r.1 }))
from_map-AllocGrows s count r v hc hl (inl (_, e)) = rw e (at_end-AllocGrows s count v hl)
from_map-AllocGrows s count r v hc hl (inr (m, e, bound, a)) =
    let ne : (r.0 == page_invalid_id) ≡ false = ground arith in
    let last = v.below (r.0 + count - 1) (a.owned (r.0 + count - 1) (ground arith)) in
    rw (ne, e)
      (
        record {
          sound = record {
            well_formed = a.well_formed;
            below = λ p h. v.below p (ground (arith, a.pages p));
            page = v.page;
          };
          in_use = λ p u. (u.0, ground (arith, a.pages p, u.1));
          page_size = refl;
          count = omega arith;
          bytes = λ fits p u i h. refl;
        },
        record {
          inside = omega arith;
          unused = λ q h1 h2 u. let own = a.owned q (ground arith) in let h = u.1 in cc (own, h);
        },
      )

-- Alloc of one page or more.
pub alloc-AllocGrows :
    (s : Space) (count : ℕ)
    → IsSound s
    → 0 < count
    → count < u32_mod
    → AllocGrows s count (alloc s count)
unfolding alloc
alloc-AllocGrows s count v hc hl =
    from_map-AllocGrows s count (alloc_from_map s.pager count) v hc hl
      (alloc_from_map-Allocates s.pager count v.well_formed hc)

-- Free makes nothing free before the transactions that may read it are over.
pub free-Grows :
    (s : Space) (txid pgid count : ℕ)
    → IsSound s
    → Grows s (record s { pager = free s.pager txid pgid count })
unfolding free
free-Grows s txid pgid count v = record {
  sound = record { well_formed = v.well_formed; below = v.below; page = v.page };
  in_use = λ p u. u;
  page_size = refl;
  count = omega arith;
  bytes = λ fits p u i h. refl;
}
