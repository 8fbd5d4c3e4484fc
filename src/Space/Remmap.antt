-- ===== src/Space/Remmap.antt =====
-- DBImpl::Remmap of src/db_impl.cpp: the new mapping is large enough.
use atomkv.Prelude.{
  ℕ, zero, suc, ◌+◌, ◌*◌, ◌^◌, ◌≤◌, ◌<◌, ◌≡◌, arith, ltb, ap, Bool-cases, inl, inr,
}
use native.Mathlib.Nat.{pow-suc}
use atomkv.Space.{DbFile, double_loop, remmap}

double_loop_bounds :
    (rounds n m : ℕ)
    → m ≤ n
    → n < 2 ^ rounds * m
    → (n < double_loop rounds n m) × (double_loop rounds n m ≤ n + n)
unfolding double_loop
double_loop_bounds zero n m h1 h2 = ground arith
double_loop_bounds (suc r) n m h1 h2 =
    let h3 : n < 2 ^ r * (m * 2) = omega (arith, ap (λ (t : ℕ). t * m) (pow-suc 2 r)) in
    elim (Bool-cases (ltb n (m * 2))) [
      | inl t ↦ rw (t, double_loop) (ground arith)
      | inr t ↦ rw (t, double_loop) (double_loop_bounds r n (m * 2) (ground arith) h3)
    ]

-- For every size of one byte or more the new mapping is at least as large and at most twice as large,
-- and one mapping more waits to be cleared.
pub remmap_bounds :
    (file : DbFile) (n : ℕ)
    → 0 < n
    → (n ≤ (remmap file n).size)
      × ((remmap file n).size ≤ n + n)
      × ((remmap file n).pending_mmaps ≡ file.pending_mmaps + 1)
unfolding remmap
remmap_bounds file n h = ground (arith, double_loop_bounds 31 n 1)
