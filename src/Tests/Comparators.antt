-- ===== src/Tests/Comparators.antt =====
-- The comparators of include/atomkv/comparator.h on small keys.
use atomkv.Prelude.{◌≡◌, ◌≢◌, Ordering, [], ◌∷◌, arith, refl}
use atomkv.Comparator.{Key, read_uint32, byte_array_comp_func, uint64_comparator, uint64_comp_func}
use atomkv.Comparator.Order.{lex, byte_array_comp_func-lex}
use atomkv.Comparator.Words.{bytes4, uint64_comparator_ignores_high_half}

abbrev short_key : Key
short_key = 1 ∷ 2 ∷ []

abbrev long_key : Key
long_key = 1 ∷ 2 ∷ 3 ∷ []

prefix_is_less : byte_array_comp_func short_key long_key ≡ Ordering.lt
unfolding byte_array_comp_func
prefix_is_less = refl

byte_array_comp_func-lex_example : byte_array_comp_func short_key long_key ≡ lex short_key long_key
byte_array_comp_func-lex_example =
    byte_array_comp_func-lex short_key long_key (omega arith) (omega arith)

high_halves_differ : read_uint32 (bytes4 1 0 0 0 []) ≢ read_uint32 (bytes4 2 0 0 0 [])
unfolding read_uint32
high_halves_differ = omega arith

uint64_comparator_example :
    (uint64_comparator.ptr (bytes4 9 0 0 0 (bytes4 1 0 0 0 [])) (bytes4 9 0 0 0 (bytes4 2 0 0 0 []))
      ≡ Ordering.eq)
    × (uint64_comp_func (bytes4 9 0 0 0 (bytes4 1 0 0 0 [])) (bytes4 9 0 0 0 (bytes4 2 0 0 0 []))
        ≢ Ordering.eq)
uint64_comparator_example =
    uint64_comparator_ignores_high_half 9 0 0 0 1 0 0 0 2 0 0 0 high_halves_differ
