-- ===== src/Comparator.antt =====
-- include/atomkv/comparator.h: the key comparators. A key is the list of its bytes, and
-- std::strong_ordering is the library's `Ordering`.
pub mod Order
pub mod Words
use atomkv.Prelude.{
  ℕ, zero, suc, ◌+◌, ◌-◌, ◌*◌, ◌%◌, ◌^◌, ◌≡◌, refl, min, compare, Ordering, Bool, List, [], ◌∷◌,
  arith, leb, length, ◌==◌, if◌then◌else◌,
}
use atomkv.Prelude.{get_elem?, Option, none, some}

abbrev pub Key : Type 0
Key = List ℕ

-- std::memcmp(p, q, n): the first of the n bytes in which the two buffers differ decides.
unfoldable pub memcmp : Key → Key → ℕ → Ordering
memcmp p q zero = Ordering.eq
memcmp (x ∷ p) (y ∷ q) (suc n) = elim (compare x y) [
  | Ordering.lt ↦ Ordering.lt
  | Ordering.eq ↦ memcmp p q n
  | Ordering.gt ↦ Ordering.gt
]
memcmp _ _ (suc n) = Ordering.eq

-- int64_t res = key1.size() - key2.size(): the sizes are subtracted as size_t, and the sign is
-- read from the top bit.
unfoldable pub size_difference : ℕ → ℕ → Ordering
size_difference size1 size2 =
    if leb (2 ^ 63) ((size1 + 2 ^ 64 - size2) % 2 ^ 64) then Ordering.lt else Ordering.gt

unfoldable pub byte_array_comp_func : Key → Key → Ordering
unfolding memcmp size_difference
byte_array_comp_func key1 key2 = elim (memcmp key1 key2 (min (length key1) (length key2))) [
  | Ordering.lt ↦ Ordering.lt
  | Ordering.gt ↦ Ordering.gt
  | Ordering.eq ↦
      if length key1 == length key2
      then Ordering.eq
      else size_difference (length key1) (length key2)
]

unfoldable pub byte : Key → ℕ → ℕ
byte key i = elim (get_elem? key i) [ none ↦ 0 | some b ↦ b ]

-- *reinterpret_cast<const uint32_t*>(key.data()), on a little-endian machine.
unfoldable pub read_uint32 : Key → ℕ
unfolding byte
read_uint32 key = byte key 0 + byte key 1 * 2 ^ 8 + byte key 2 * 2 ^ 16 + byte key 3 * 2 ^ 24

unfoldable pub read_uint64 : Key → ℕ
unfolding byte read_uint32
read_uint64 key =
    read_uint32 key
    + byte key 4 * 2 ^ 32
    + byte key 5 * 2 ^ 40
    + byte key 6 * 2 ^ 48
    + byte key 7 * 2 ^ 56

unfoldable pub uint32_comp_func : Key → Key → Ordering
unfolding read_uint32
uint32_comp_func key1 key2 = compare (read_uint32 key1) (read_uint32 key2)

unfoldable pub uint64_comp_func : Key → Key → Ordering
unfolding read_uint64
uint64_comp_func key1 key2 = compare (read_uint64 key1) (read_uint64 key2)

pub record Comparator : Type 0 where
  pub ptr : Key → Key → Ordering

abbrev pub uint32_comparator : Comparator
uint32_comparator = record { ptr = uint32_comp_func }

abbrev pub uint64_comparator : Comparator
uint64_comparator = record { ptr = uint32_comp_func }

abbrev pub byte_array_comparator : Comparator
byte_array_comparator = record { ptr = byte_array_comp_func }
