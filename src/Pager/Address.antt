-- ===== src/Pager/Address.antt =====
-- Where GetPtr of src/pager.cpp puts the pages in the mapping.
use atomkv.Prelude.{
  sym, ◌∙◌, ◌^◌, ℕ, ◌+◌, ◌*◌, ◌/◌, ◌%◌, ◌≤◌, ◌<◌, ◌≡◌, arith, ◌==◌, if◌then◌else◌, Bool-cases, inl,
  inr, ◌==◌,
}
use native.Mathlib.Decide.{dec_lt}
use native.Mathlib.Nat.{
  mul-le-mul_right, mod-eq_of_lt, mod-lt, div-add-mod', mul-add-div_right, div-eq_of_lt,
}
use atomkv.Format.{u32_mod}
use atomkv.Pager.{Pager, get_ptr, get_page_id_by_ptr, get_page_count}

-- Below 4 GiB the page ids and the addresses correspond: GetPageIdByPtr gives back the page of every
-- address that GetPtr computes for an offset inside the page.
pub get_page_id_by_ptr-get_ptr :
    (pager : Pager) (pgid offset : ℕ)
    → offset < pager.page_size
    → pgid < u32_mod
    → pgid * pager.page_size < u32_mod
    → get_page_id_by_ptr pager (get_ptr pager pgid offset) ≡ pgid
unfolding get_page_id_by_ptr get_ptr
get_page_id_by_ptr-get_ptr pager pgid offset h1 h2 h3 =
    rw
      (
        mod-eq_of_lt h3,
        mul-add-div_right {m = pager.page_size} (omega arith) pgid offset,
        div-eq_of_lt h1,
      )
      (omega arith)

-- From 4 GiB on the 32-bit product wraps: with pages of 4096 bytes, a page and the page 2^20 after
-- it get the same address, at every offset.
pub get_ptr_aliases :
    (pager : Pager) (pgid offset : ℕ)
    → pager.page_size ≡ 4096
    → get_ptr pager (pgid + 1048576) offset ≡ get_ptr pager pgid offset
unfolding get_ptr
get_ptr_aliases pager pgid offset e = rw e (omega arith)

page_count_bounds :
    (q r size bytes : ℕ)
    → q * size + r ≡ bytes
    → r < size
    → q + 1 < u32_mod
    → (bytes ≤ (if r == 0 then q % u32_mod else (q % u32_mod + 1) % u32_mod) * size)
      × ((if r == 0 then q % u32_mod else (q % u32_mod + 1) % u32_mod) * size < bytes + size)
page_count_bounds q r size bytes e h1 h2 = elim (Bool-cases (r == 0)) [
  | inl t ↦ rw (t, mod-eq_of_lt {n = q} {m = u32_mod} (omega arith)) (ground arith)
  | inr t ↦
      rw
        (
          t,
          mod-eq_of_lt {n = q} {m = u32_mod} (omega arith),
          mod-eq_of_lt {n = q + 1} {m = u32_mod} h2,
        )
        (ground arith)
]

few_pages : (q r size bytes : ℕ) → q * size + r ≡ bytes → 2 ≤ size → q * 2 ≤ bytes
few_pages q r size bytes e h = grind arith

-- GetPageCount rounds up: the pages hold the bytes, and one page fewer would not.
pub get_page_count-ceiling :
    (pager : Pager) (bytes : ℕ)
    → 2 ≤ pager.page_size
    → bytes < 2 ^ 32 + 2 ^ 15
    → (bytes ≤ get_page_count pager bytes * pager.page_size)
      × (get_page_count pager bytes * pager.page_size < bytes + pager.page_size)
unfolding get_page_count
get_page_count-ceiling pager bytes h1 h2 =
    let e = div-add-mod' bytes pager.page_size in
    let few =
      few_pages (bytes / pager.page_size) (bytes % pager.page_size) pager.page_size bytes e h1 in
    page_count_bounds (bytes / pager.page_size) (bytes % pager.page_size) pager.page_size bytes e
      (mod-lt bytes (omega arith)) (omega arith)

pub get_page_count-word : (pager : Pager) (bytes : ℕ) → get_page_count pager bytes < u32_mod
unfolding get_page_count
get_page_count-word pager bytes = elim (Bool-cases (bytes % pager.page_size == 0)) [
  | inl t ↦ rw t (omega arith)
  | inr t ↦ rw t (omega arith)
]

-- Below 4 GiB the product does not wrap.
pub page_address :
    (page n size : ℕ)
    → page < n
    → 2 ≤ size
    → n * size ≤ u32_mod
    → (page * size) % u32_mod ≡ page * size
page_address page n size h hs fits = let m = mul-le-mul_right size h in mod-eq_of_lt (grind arith)

-- What is in a page lies below the pages behind it.
pub page_below : (page next size i : ℕ) → page < next → i < size → page * size + i < next * size
page_below page next size i h hi = let m = mul-le-mul_right size h in grind arith

-- Pages at one address are one page, below 4 GiB.
pub same_page :
    (p q n size : ℕ)
    → p < n
    → q < n
    → 2 ≤ size
    → n * size ≤ u32_mod
    → (p * size) % u32_mod ≡ (q * size) % u32_mod
    → p ≡ q
same_page p q n size hp hq hs fits e =
    let e' : p * size ≡ q * size =
      sym (page_address p n size hp hs fits) ∙ e ∙ page_address q n size hq hs fits in
    elim (dec_lt p q) [
      | yes lt ↦ absurd (let b = page_below p q size 0 lt (omega arith) in omega arith)
      | no ge ↦ elim (dec_lt q p) [
        | yes lt ↦ absurd (let b = page_below q p size 0 lt (omega arith) in omega arith)
        | no ge' ↦ omega arith
      ]
    ]
