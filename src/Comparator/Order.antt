-- ===== src/Comparator/Order.antt =====
-- The byte-array comparator of include/atomkv/comparator.h against the lexicographic order.
use atomkv.Prelude.{
  ℕ, suc, ◌^◌, ◌<◌, ◌≡◌, refl, ◌∙◌, min, compare, Ordering, [], ◌∷◌, arith, length,
}
use atomkv.Comparator.{Key, memcmp, size_difference, byte_array_comp_func}

-- The first byte decides, unless it is the same in both.
abbrev pub first_byte : Ordering → Ordering → Ordering
first_byte Ordering.lt rest = Ordering.lt
first_byte Ordering.eq rest = rest
first_byte Ordering.gt rest = Ordering.gt

-- The lexicographic order, a proper prefix first.
pub lex : Key → Key → Ordering
lex [] [] = Ordering.eq
lex [] (y ∷ ys) = Ordering.lt
lex (x ∷ xs) [] = Ordering.gt
lex (x ∷ xs) (y ∷ ys) = first_byte (compare x y) (lex xs ys)

size_difference-lt : (a b : ℕ) → a < b → b < 2 ^ 63 → size_difference a b ≡ Ordering.lt
unfolding size_difference
size_difference-lt a b h hb = ground arith

size_difference-gt : (a b : ℕ) → b < a → a < 2 ^ 63 → size_difference a b ≡ Ordering.gt
unfolding size_difference
size_difference-gt a b h ha = ground arith

min-suc-suc : (a b : ℕ) → min (suc a) (suc b) ≡ suc (min a b)
min-suc-suc a b = omega arith

min_zero_left : (a : ℕ) → min 0 a ≡ 0
min_zero_left a = omega arith

min_zero_right : (a : ℕ) → min a 0 ≡ 0
min_zero_right a = omega arith

size_difference-suc :
    (a b : ℕ)
    → suc a < 2 ^ 63
    → suc b < 2 ^ 63
    → size_difference (suc a) (suc b) ≡ size_difference a b
unfolding size_difference
size_difference-suc a b ha hb = ground arith

byte_array_comp_func-cons :
    (x y : ℕ) (xs ys : Key)
    → suc (length xs) < 2 ^ 63
    → suc (length ys) < 2 ^ 63
    → byte_array_comp_func (x ∷ xs) (y ∷ ys) ≡ first_byte (compare x y) (byte_array_comp_func xs ys)
unfolding byte_array_comp_func memcmp
byte_array_comp_func-cons x y xs ys h1 h2 =
    rw (byte_array_comp_func, min-suc-suc (length xs) (length ys))
      (ground (arith, size_difference-suc (length xs) (length ys)))

-- With the sizes below 2^63 the comparator decides the lexicographic order of the byte strings,
-- a proper prefix first.
pub byte_array_comp_func-lex :
    (key1 key2 : Key)
    → length key1 < 2 ^ 63
    → length key2 < 2 ^ 63
    → byte_array_comp_func key1 key2 ≡ lex key1 key2
unfolding byte_array_comp_func lex memcmp
byte_array_comp_func-lex [] [] h1 h2 = refl
byte_array_comp_func-lex [] (y ∷ ys) h1 h2 =
    rw (byte_array_comp_func, min_zero_left (suc (length ys)))
      (ground (arith, size_difference-lt 0 (suc (length ys))))
byte_array_comp_func-lex (x ∷ xs) [] h1 h2 =
    rw (byte_array_comp_func, min_zero_right (suc (length xs)))
      (ground (arith, size_difference-gt (suc (length xs)) 0))
byte_array_comp_func-lex (x ∷ xs) (y ∷ ys) h1 h2 =
    byte_array_comp_func-cons x y xs ys h1 h2
    ∙ rw (byte_array_comp_func-lex xs ys (omega arith) (omega arith)) refl

abbrev pub opposite : Ordering → Ordering
opposite Ordering.lt = Ordering.gt
opposite Ordering.eq = Ordering.eq
opposite Ordering.gt = Ordering.lt

lex_refl : (a : Key) → lex a a ≡ Ordering.eq
unfolding lex
lex_refl [] = refl
lex_refl (x ∷ xs) = ground (arith, lex_refl xs)

eq_of_lex : (a b : Key) → lex a b ≡ Ordering.eq → a ≡ b
unfolding lex
eq_of_lex [] [] h = refl
eq_of_lex [] (y ∷ ys) h = ground arith
eq_of_lex (x ∷ xs) [] h = ground arith
eq_of_lex (x ∷ xs) (y ∷ ys) h = ground (arith, eq_of_lex xs ys)

lex-opposite : (a b : Key) → lex b a ≡ opposite (lex a b)
unfolding lex
lex-opposite [] [] = refl
lex-opposite [] (y ∷ ys) = refl
lex-opposite (x ∷ xs) [] = refl
lex-opposite (x ∷ xs) (y ∷ ys) = ground (arith, lex-opposite xs ys)

lex_trans : (a b c : Key) → lex a b ≡ Ordering.lt → lex b c ≡ Ordering.lt → lex a c ≡ Ordering.lt
unfolding lex
lex_trans [] b [] h1 h2 = ground arith
lex_trans [] b (z ∷ zs) h1 h2 = refl
lex_trans (x ∷ xs) [] c h1 h2 = ground arith
lex_trans (x ∷ xs) (y ∷ ys) [] h1 h2 = ground arith
lex_trans (x ∷ xs) (y ∷ ys) (z ∷ zs) h1 h2 = ground (arith, lex_trans xs ys zs)

-- A comparator whose `less` is a strict total order on the keys that satisfy `P`.
pub record IsTotalOrder (P : Key → Type 0) (comp : Key → Key → Ordering) : Type 0 where
  pub eq_self : (a : Key) → P a → comp a a ≡ Ordering.eq
  pub eq_of_comp : (a b : Key) → P a → P b → comp a b ≡ Ordering.eq → a ≡ b
  pub flip : (a b : Key) → P a → P b → comp b a ≡ opposite (comp a b)
  pub trans :
      (a b c : Key)
      → P a
      → P b
      → P c
      → comp a b ≡ Ordering.lt
      → comp b c ≡ Ordering.lt
      → comp a c ≡ Ordering.lt

abbrev pub IsShort : Key → Type 0
IsShort key = length key < 2 ^ 63

-- On keys shorter than 2^63 bytes the comparator is a strict total order: it answers `equal` for
-- equal byte strings only, the two argument orders give opposite answers, and `less` is transitive.
pub byte_array_comp_func-IsTotalOrder : IsTotalOrder IsShort byte_array_comp_func
byte_array_comp_func-IsTotalOrder = record {
  eq_self = λ a pa. byte_array_comp_func-lex a a pa pa ∙ lex_refl a;
  eq_of_comp = λ a b pa pb h. eq_of_lex a b (rw (byte_array_comp_func-lex a b pa pb) at h);
  flip = λ a b pa pb.
      rw (byte_array_comp_func-lex a b pa pb, byte_array_comp_func-lex b a pb pa)
        (lex-opposite a b);
  trans = λ a b c pa pb pc h1 h2.
      byte_array_comp_func-lex a c pa pc
      ∙ lex_trans a b c (rw (byte_array_comp_func-lex a b pa pb) at h1)
          (rw (byte_array_comp_func-lex b c pb pc) at h2);
}
