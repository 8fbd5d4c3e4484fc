-- ===== src/Node/Overflow.antt =====
-- Node::StoreRecordToOverflowPages of src/node.cpp: where the bytes of the record go in the mapped file.
use atomkv.Prelude.{
  ℕ, ◌+◌, ◌*◌, ◌/◌, ◌%◌, ◌≤◌, ◌<◌, ◌≡◌, refl, ◌∙◌, ◌⊎◌, inl, inr, ◌==◌, arith, List, [], ◌∷◌,
  length, Bool-cases,
}
use native.Mathlib.Decide.{dec_lt}
use native.Mathlib.Nat.{mod-eq_of_lt, mul-le-mul_right, mul-le-mul_left, div-add-mod'}
use atomkv.Format.{u32_mod}
use atomkv.Comparator.{Key}
use atomkv.Pager.{get_ptr}
use atomkv.Pager.Address.{page_address, page_below}
use atomkv.Space.{Space, write_byte, write_by_bytes}
use atomkv.Space.InUse.{Fits, SameBytes}
use atomkv.Node.{write_overflow}

write_by_bytes_outside :
    (bytes : ℕ → ℕ) (a i : ℕ) (buf : List ℕ)
    → (i < a) ⊎ (a + length buf ≤ i)
    → write_by_bytes bytes a buf i ≡ bytes i
unfolding write_by_bytes
write_by_bytes_outside bytes a i [] h = refl
write_by_bytes_outside bytes a i (b ∷ buf) (inl h) =
    write_by_bytes_outside (write_byte bytes a b) (a + 1) i buf (inl (omega arith)) ∙ ground arith
write_by_bytes_outside bytes a i (b ∷ buf) (inr h) =
    write_by_bytes_outside (write_byte bytes a b) (a + 1) i buf (inr (omega arith)) ∙ ground arith

-- The page is not one of the block.
abbrev pub IsOutside : ℕ → ℕ → ℕ → Type 0
IsOutside pgid count p = (p < pgid) ⊎ (pgid + count ≤ p)

module _ (s : Space) (key : Key) (value : List ℕ) (pgid count : ℕ) (page : 2 ≤ s.pager.page_size)
    (fits : Fits s) (some : 0 < count) (inside : pgid + count ≤ s.meta.page_count)
    (holds : length key + length value ≤ count * s.pager.page_size) where
  abbrev size : ℕ
  size = s.pager.page_size

  abbrev start : ℕ
  start = pgid * size

  -- An address in another page is none of the record's.
  address_outside :
      (p i : ℕ)
      → IsOutside pgid count p
      → i < size
      → (p * size + i < start) ⊎ (start + (length key + length value) ≤ p * size + i)
  address_outside p i (inl h) hi = inl (page_below p pgid size i h hi)
  address_outside p i (inr h) hi =
      let m = mul-le-mul_right size h in
      inr (let d : (pgid + count) * size ≡ start + count * size = grind arith in omega arith)

  -- The value's first page, where the key ends.
  value_begins :
      0 < length value
      → ((pgid + length key / size) % u32_mod * size) % u32_mod + length key % size
        ≡ start + length key
  value_begins h =
      let e = div-add-mod' (length key) size in
      let few : length key / size < count = elim (dec_lt (length key / size) count) [
        | yes lt ↦ lt
        | no ge ↦
            let ge' : count ≤ length key / size = omega arith in
            let m = mul-le-mul_right size ge' in absurd (omega arith)
      ] in
      let small : pgid + length key / size < s.meta.page_count = omega arith in
      let a = page_address (pgid + length key / size) s.meta.page_count size small page fits in
      let half = mul-le-mul_left s.meta.page_count page in
      let word : (pgid + length key / size) % u32_mod ≡ pgid + length key / size =
        mod-eq_of_lt (omega arith) in
      let d : (pgid + length key / size) * size ≡ start + length key / size * size = grind arith in
      rw (word, a, d) (omega arith)

  key_outside :
      (p i : ℕ)
      → p < s.meta.page_count
      → IsOutside pgid count p
      → i < size
      → write_by_bytes s.file.bytes (get_ptr s.pager pgid 0) key (get_ptr s.pager p i)
        ≡ s.file.bytes (get_ptr s.pager p i)
  unfolding get_ptr
  key_outside p i hp o hi =
      let a = page_address p s.meta.page_count size hp page fits in
      let b = page_address pgid s.meta.page_count size (omega arith) page fits in
      let out = address_outside p i o hi in
      rw (a, b) (write_by_bytes_outside s.file.bytes (start + 0) (p * size + i) key (ground arith))

  value_outside :
      (p i : ℕ)
      → p < s.meta.page_count
      → IsOutside pgid count p
      → i < size
      → 0 < length value
      → let a = get_ptr s.pager ((pgid + length key / size) % u32_mod) (length key % size) in
        (get_ptr s.pager p i < a) ⊎ (a + length value ≤ get_ptr s.pager p i)
  unfolding get_ptr
  value_outside p i hp o hi h =
      let a = page_address p s.meta.page_count size hp page fits in
      let out = address_outside p i o hi in rw (value_begins h, a) (ground arith)

  pub write_overflow-SameBytes :
      (p : ℕ)
      → p < s.meta.page_count
      → IsOutside pgid count p
      → SameBytes s (write_overflow key value pgid s) p
  unfolding write_overflow
  write_overflow-SameBytes p hp o = λ i hi. elim (Bool-cases (length value == 0)) [
    | inl t ↦ rw t (key_outside p i hp o hi)
    | inr t ↦ rw t (
        write_by_bytes_outside (write_by_bytes s.file.bytes (get_ptr s.pager pgid 0) key) _
          (get_ptr s.pager p i) value (value_outside p i hp o hi (ground arith))
        ∙ key_outside p i hp o hi)
  ]
