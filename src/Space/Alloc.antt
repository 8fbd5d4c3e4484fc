-- ===== src/Space/Alloc.antt =====
-- Pager::Alloc of src/pager.cpp: what the caller gets, below 4 GiB and beyond.
use native.Mathlib.Nat.{mod-eq_of_lt}
use atomkv.Prelude.{
  ℕ, ◌+◌, ◌*◌, ◌≤◌, ◌<◌, ◌≡◌, refl, ◌-◌, ◌⊎◌, inl, inr, true, false, ◌&&◌, not, [], ◌∷◌, ◌++◌,
  arith, ltb, ◌==◌, if◌then◌else◌, Bool-cases,
}
use atomkv.Format.{u32_mod, page_invalid_id}
use atomkv.Result.{Result, ok}
use atomkv.Pager.{Pager, FreeMap, alloc_from_map}
use atomkv.Pager.Covers.{within, covers, IsFreeMap}
use atomkv.Pager.AllocFromMap.{Removes, Allocates, alloc_from_map-Allocates}
use atomkv.Space.{Space, remmap, alloc_at_end, alloc}
use atomkv.Space.Remmap.{remmap_bounds}

-- The free map is well-formed and holds pages of the database only, all pages are mapped, and their
-- addresses fit 32 bits.
pub record IsSpace (s : Space) : Type 0 where
  pub well_formed : IsFreeMap 0 s.pager.free_map
  pub below : (p : ℕ) → covers s.pager.free_map p ≡ true → p < s.meta.page_count
  pub page : 0 < s.pager.page_size
  pub mapped : s.meta.page_count * s.pager.page_size ≤ s.file.size
  pub small : s.meta.page_count * s.pager.page_size < u32_mod

-- `pgid` starts a block of `count` pages that the caller did not have before.
pub record Allocated (s : Space) (count pgid : ℕ) (s' : Space) : Type 0 where
  pub space : IsSpace s'
  pub inside : pgid + count ≤ s'.meta.page_count
  pub unused :
      (p : ℕ)
      → within pgid count p ≡ true
      → (covers s.pager.free_map p ≡ true) ⊎ (s.meta.page_count ≤ p)
  pub free_pages :
      (p : ℕ)
      → covers s'.pager.free_map p ≡ (covers s.pager.free_map p && not (within pgid count p))
  pub grows : s.meta.page_count ≤ s'.meta.page_count
  pub pending : s'.pager.pending_map ≡ s.pager.pending_map

pub AllocReturns : Space → ℕ → Result (ℕ × Space) → Type 0
AllocReturns s count r = (pgid : ℕ) × (s' : Space) × (r ≡ ok (pgid, s')) × Allocated s count pgid s'

count_le_product : (n size : ℕ) → 0 < size → n ≤ n * size
count_le_product n size h = grind arith

covers-above :
    (s : Space) (p : ℕ) → IsSpace s → s.meta.page_count ≤ p → covers s.pager.free_map p ≡ false
covers-above s p v h = elim (Bool-cases (covers s.pager.free_map p)) [
  | inl t ↦ absurd (let b = v.below p t in omega arith)
  | inr f ↦ f
]

abbrev grown : Space → ℕ → Space
grown s count = record s {
  meta = record s.meta { page_count = s.meta.page_count + count };
  file =
      if ltb s.file.size ((s.meta.page_count + count) * s.pager.page_size)
      then remmap s.file ((s.meta.page_count + count) * s.pager.page_size)
      else s.file;
}

alloc_at_end_lem :
    (s : Space) (count : ℕ)
    → IsSpace s
    → (s.meta.page_count + count) * s.pager.page_size < u32_mod
    → alloc_at_end s count ≡ ok (s.meta.page_count, grown s count)
unfolding alloc_at_end
alloc_at_end_lem s count v h =
    let c = count_le_product (s.meta.page_count + count) s.pager.page_size v.page in
    rw (mod-eq_of_lt {n = s.meta.page_count + count} {m = u32_mod} (omega arith))
      (rw (mod-eq_of_lt h) (ground arith))

grown-size :
    (s : Space) (count : ℕ)
    → IsSpace s
    → 0 < count
    → (s.meta.page_count + count) * s.pager.page_size ≤ (grown s count).file.size
grown-size s count v hc =
    let n = (s.meta.page_count + count) * s.pager.page_size in
    let c = count_le_product (s.meta.page_count + count) s.pager.page_size v.page in
    ground (arith, remmap_bounds s.file n)

grown-Allocated :
    (s : Space) (count : ℕ)
    → IsSpace s
    → 0 < count
    → (s.meta.page_count + count) * s.pager.page_size < u32_mod
    → Allocated s count s.meta.page_count (grown s count)
grown-Allocated s count v hc h = record {
  space = record {
    well_formed = v.well_formed;
    below = λ p e. let b = v.below p e in omega arith;
    page = v.page;
    mapped = grown-size s count v hc;
    small = h;
  };
  inside = omega arith;
  unused = λ p e. inr (ground arith);
  free_pages = λ p. ground (arith, covers-above s p v);
  grows = omega arith;
  pending = refl;
}

abbrev taken : Space → ℕ → ℕ → FreeMap → Space
taken s count pgid m = record s {
  pager = record s.pager {
    free_map = m;
    alloc_records = s.pager.alloc_records ++ (pgid, count) ∷ [];
  };
}

taken-Allocated :
    (s : Space) (count pgid : ℕ) (m : FreeMap)
    → IsSpace s
    → 0 < count
    → Removes pgid count s.pager.free_map m
    → Allocated s count pgid (taken s count pgid m)
taken-Allocated s count pgid m v hc a = record {
  space = record {
    well_formed = a.well_formed;
    below = λ p e. v.below p (ground (arith, a.pages p));
    page = v.page;
    mapped = v.mapped;
    small = v.small;
  };
  inside =
      let last = v.below (pgid + count - 1) (a.owned (pgid + count - 1) (ground arith)) in
      omega arith;
  unused = λ p e. inl (a.owned p e);
  free_pages = a.pages;
  grows = omega arith;
  pending = refl;
}

alloc_cases :
    (s : Space) (count : ℕ) (r : ℕ × Pager)
    → IsSpace s
    → 0 < count
    → (s.meta.page_count + count) * s.pager.page_size < u32_mod
    → Allocates count s.pager r
    → AllocReturns s count (
        if r.0 == page_invalid_id
        then alloc_at_end (record s { pager = r.1 }) count
        else ok (r.0, record s { pager = r.1 }))
unfolding AllocReturns
alloc_cases s count r v hc h (inl (_, e)) =
    rw e (
      s.meta.page_count,
      grown s count,
      alloc_at_end_lem s count v h,
      grown-Allocated s count v hc h,
    )
alloc_cases s count r v hc h (inr (m, e, bound, a)) =
    (r.0, taken s count r.0 m, ground arith, taken-Allocated s count r.0 m v hc a)

-- Alloc of one page or more in a sound database whose pages, the new ones included, stay below
-- 4 GiB: it returns a block that lies inside the database and the mapping, of pages that were free or
-- did not exist before; no page of it is free afterwards, no other free page and no pending block
-- is touched, and the database stays sound.
pub alloc-Allocated :
    (s : Space) (count : ℕ)
    → IsSpace s
    → 0 < count
    → (s.meta.page_count + count) * s.pager.page_size < u32_mod
    → AllocReturns s count (alloc s count)
unfolding alloc
alloc-Allocated s count v hc h =
    alloc_cases s count (alloc_from_map s.pager count) v hc h
      (alloc_from_map-Allocates s.pager count v.well_formed hc)

abbrev wrapped : Space → ℕ → Space
wrapped s count = record s { meta = record s.meta { page_count = s.meta.page_count + count } }

-- Beyond 4 GiB the size that Alloc checks has wrapped: where AllocFromMap finds no block, with
-- pages of 4096 bytes, a new page count from 2^20 up to below 2^21 of which the part above 2^20 fits
-- the present mapping, and a mapping of less than 4 GiB, Alloc returns pages that do not fit the
-- mapping, and does not extend it.
pub alloc_beyond_4GiB :
    (s : Space) (count : ℕ)
    → alloc_from_map s.pager count ≡ (page_invalid_id, s.pager)
    → s.pager.page_size ≡ 4096
    → 1048576 ≤ s.meta.page_count + count
    → s.meta.page_count + count < 2097152
    → (s.meta.page_count + count - 1048576) * 4096 ≤ s.file.size
    → s.file.size < u32_mod
    → (s' : Space) × (alloc s count ≡ ok (s.meta.page_count, s'))
      × (s'.file ≡ s.file)
      × (s'.file.size < s'.meta.page_count * s'.pager.page_size)
unfolding alloc alloc_at_end
alloc_beyond_4GiB s count none_fits e h1 h2 h3 h4 =
    (wrapped s count, rw none_fits (rw e (ground arith)), refl, rw e (omega arith))
