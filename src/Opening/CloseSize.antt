-- ===== src/Opening/CloseSize.antt =====
-- DBImpl::~DBImpl of src/db_impl.cpp: the size of the file that it leaves.
use atomkv.Prelude.{ℕ, ◌*◌, ◌%◌, ◌≤◌, ◌<◌, ◌≡◌, ◌≢◌, inl, inr, Bool-cases, arith, ltb}
use atomkv.Format.{MetaStruct, u32_mod}
use atomkv.Space.{DbFile}
use atomkv.Opening.{close_size, close_file}

-- The destructor gives the file the pages of the meta data as long as they take fewer than 2^32 bytes. From there on
-- the product wraps: where it is not a multiple of 2^32, the file becomes shorter than its pages.
pub close_file-size :
    (page_size : ℕ) (m : MetaStruct) (file : DbFile)
    → 0 < page_size * m.page_count
    → (page_size * m.page_count < u32_mod
        → (close_file page_size m file).size ≡ page_size * m.page_count)
      × (u32_mod ≤ page_size * m.page_count
          → (page_size * m.page_count) % u32_mod ≢ 0
          → (close_file page_size m file).size < page_size * m.page_count)
unfolding close_file close_size
close_file-size page_size m file h = elim (Bool-cases (ltb 0 (close_size page_size m))) [
  | inl e ↦ rw e (λ lt. omega arith, λ le ne. omega arith)
  | inr e ↦ rw e (λ lt. absurd (ground arith), λ le ne. absurd (ground arith))
]
