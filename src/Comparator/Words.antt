-- ===== src/Comparator/Words.antt =====
-- The integer comparators of include/atomkv/comparator.h.
use atomkv.Prelude.{ℕ, ◌≡◌, ◌≢◌, Ordering, [], ◌∷◌, arith}
use atomkv.Comparator.{
  Key, byte, read_uint32, read_uint64, uint32_comp_func, uint64_comp_func, uint64_comparator,
}

abbrev pub bytes4 : ℕ → ℕ → ℕ → ℕ → Key → Key
bytes4 a b c d rest = a ∷ b ∷ c ∷ d ∷ rest

-- The comparator that is offered for 64-bit keys compares the low four bytes only: for every two
-- eight-byte keys with the same low half and high halves that read as different integers it answers
-- `equal`, where UInt64CompFunc does not.
pub uint64_comparator_ignores_high_half :
    (b0 b1 b2 b3 c0 c1 c2 c3 d0 d1 d2 d3 : ℕ)
    → read_uint32 (bytes4 c0 c1 c2 c3 []) ≢ read_uint32 (bytes4 d0 d1 d2 d3 [])
    → let key1 = bytes4 b0 b1 b2 b3 (bytes4 c0 c1 c2 c3 []) in
      let key2 = bytes4 b0 b1 b2 b3 (bytes4 d0 d1 d2 d3 []) in
      (uint64_comparator.ptr key1 key2 ≡ Ordering.eq) × (uint64_comp_func key1 key2 ≢ Ordering.eq)
unfolding uint32_comp_func uint64_comp_func read_uint32 read_uint64 byte
uint64_comparator_ignores_high_half b0 b1 b2 b3 c0 c1 c2 c3 d0 d1 d2 d3 h =
    (ground arith, ground arith)
