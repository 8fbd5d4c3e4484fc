-- ===== src/Node/Invariant.antt =====
-- When a page of src/node.cpp is well-formed: the header agrees with the slots, and the slot array and
-- the records do not run into each other.
use atomkv.Prelude.{ℕ, zero, suc, ◌+◌, ◌^◌, ◌≤◌, ◌<◌, ◌≡◌, Bool, List, arith, sym, subst}
use native.Mathlib.Decide.{dec_lt}
use atomkv.Node.{Slot, Node, is_leaf, slot_space, record_size, slice}

-- The sum of the record sizes of the first `n` slots.
unfoldable pub records_size : Bool → (ℕ → Slot) → ℕ → ℕ
records_size with_value slots zero = 0
records_size with_value slots (suc n) =
    records_size with_value slots n + record_size with_value (slots n)

pub record IsNode (page_size : ℕ) (n : Node) : Type 0 where
  pub small : page_size < 2 ^ 15
  pub room : slot_space n ≤ n.data_offset
  pub used : n.space_used ≡ records_size (is_leaf n) n.slots n.count
  pub fits : n.data_offset + n.space_used ≤ page_size
  pub inside :
      (i : ℕ)
      → i < n.count
      → (n.data_offset ≤ (n.slots i).record_offset)
        × ((n.slots i).record_offset + record_size (is_leaf n) (n.slots i) ≤ page_size)

-- The bytes of record `i` in the record area.
unfoldable pub raw_record : Node → ℕ → List ℕ
raw_record n i = slice n.bytes (n.slots i).record_offset (record_size (is_leaf n) (n.slots i))

pub records_size-le :
    (with_value : Bool) (slots : ℕ → Slot) (i n : ℕ)
    → i < n
    → records_size with_value slots i + record_size with_value (slots i)
      ≤ records_size with_value slots n
unfolding records_size
records_size-le with_value slots i zero h = absurd (omega arith)
records_size-le with_value slots i (suc n) h = elim (dec_lt i n) [
  | yes lt ↦ omega (arith, records_size-le with_value slots i n lt)
  | no ge ↦
      let same : i ≡ n = omega arith in
      subst
        (λ k.
          records_size with_value slots k + record_size with_value (slots k)
          ≤ records_size with_value slots n + record_size with_value (slots n))
        (sym same) (omega arith)
]
