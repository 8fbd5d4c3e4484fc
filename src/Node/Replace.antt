-- ===== src/Node/Replace.antt =====
-- A record of src/node.cpp that takes the place of an empty one: the other records stay as they are.
use atomkv.Prelude.{
  ℕ, zero, suc, ◌+◌, ◌-◌, ◌%◌, ◌^◌, ◌≤◌, ◌<◌, ◌≡◌, ◌≢◌, refl, sym, ap, subst, Bool, false, List,
  arith,
}
use native.Mathlib.Decide.{dec_lt}
use atomkv.Node.{Slot, Node, add16, sub16, is_leaf, set_slot, slot_space, record_size, place_record}
use atomkv.Node.Invariant.{records_size, IsNode, raw_record}
use atomkv.Node.Compactify.{records_size_ext, set_slot_at, set_slot_ne}
use atomkv.Node.Memory.{slice_ext}
use atomkv.Node.Store.{entry}

-- Another slot in the place of slot `i`.
pub records_size-set_slot :
    (l : Bool) (slots : ℕ → Slot) (v : Slot) (i n : ℕ)
    → i < n
    → records_size l (set_slot slots i v) n + record_size l (slots i)
      ≡ records_size l slots n + record_size l v
unfolding records_size
records_size-set_slot l slots v i zero h = absurd (omega arith)
records_size-set_slot l slots v i (suc n) h = elim (dec_lt i n) [
  | yes lt ↦
      let same = ap (record_size l) (set_slot_ne slots i n v (omega arith)) in
      omega (arith, records_size-set_slot l slots v i n lt, same)
  | no ge ↦
      let e : i ≡ n = omega arith in
      let here = ap (record_size l) (set_slot_at slots i n v e) in
      let there = ap (λ k. record_size l (slots k)) e in
      let rest =
        records_size_ext l (set_slot slots i v) slots n
          (λ j hj. ap (record_size l) (set_slot_ne slots i j v (omega arith))) in
      omega (arith, here, there, rest)
]

-- What another record in slot `slot_id` leaves of the node.
pub record Replaced (page_size slot_id : ℕ) (n n' : Node) : Type 0 where
  pub node : IsNode page_size n'
  pub count : n'.count ≡ n.count
  pub type : n'.type ≡ n.type
  pub others : (j : ℕ) → j < n.count → slot_id ≢ j → entry n' j ≡ entry n j

module _ (page_size : ℕ) (n : Node) (v : IsNode page_size n) (slot_id : ℕ) (slot : Slot) (size : ℕ)
    (write : ℕ → ℕ → ℕ) (bound : slot_id < n.count)
    (empty : record_size (is_leaf n) (n.slots slot_id) ≡ 0)
    (room : slot_space n + size ≤ n.data_offset)
    (sized : (offset : ℕ)
      → record_size (is_leaf n) (record slot { record_offset = offset; is_overflow_pages = false })
        ≡ size)
    (outside : (offset i : ℕ) → offset + size ≤ i → write offset i ≡ n.bytes i) where
  abbrev offset : ℕ
  offset = n.data_offset - size

  abbrev new_slot : Slot
  new_slot = record slot { record_offset = offset; is_overflow_pages = false }

  abbrev pub replaced : Node
  replaced = record n {
    data_offset = offset;
    space_used = n.space_used + size;
    slots = set_slot n.slots slot_id new_slot;
    bytes = write offset;
  }

  pub replace_record_exact : place_record n slot_id slot false size write ≡ replaced
  unfolding place_record
  replace_record_exact =
      let s = v.small in
      let f = v.fits in
      let e2 : sub16 n.data_offset size ≡ offset = omega arith in
      let e3 : add16 n.space_used size ≡ n.space_used + size = omega arith in
      let e4 : offset % 2 ^ 15 ≡ offset = omega arith in rw (e2, e3, e4)

  entry_kept : (j : ℕ) → j < n.count → slot_id ≢ j → entry replaced j ≡ entry n j
  unfolding entry raw_record
  entry_kept j h ne =
      let ins = v.inside j h in
      rw (set_slot_ne n.slots slot_id j new_slot ne) (
        ap (λ (bytes : List ℕ). (record (n.slots j) { record_offset = 0 }, bytes))
          (slice_ext (write offset) n.bytes (n.slots j).record_offset
            (record_size (is_leaf n) (n.slots j)) (λ k h1 h2. outside offset k (omega arith))))

  abbrev Inside : Slot → Type 0
  Inside s = (offset ≤ s.record_offset) × (s.record_offset + record_size (is_leaf n) s ≤ page_size)

  Inside-kept : (j : ℕ) → j < n.count → slot_id ≢ j → Inside (replaced.slots j)
  Inside-kept j h ne =
      subst Inside (sym (set_slot_ne n.slots slot_id j new_slot ne))
        (let ins = v.inside j h in (omega arith, omega arith))

  Inside-all : (j : ℕ) → j < n.count → Inside (replaced.slots j)
  Inside-all j h = elim (dec_lt j slot_id) [
    | yes lt ↦ Inside-kept j h (omega arith)
    | no ge ↦ elim (dec_lt slot_id j) [
      | yes gt ↦ Inside-kept j h (omega arith)
      | no le ↦
          subst Inside (sym (set_slot_at n.slots slot_id j new_slot (omega arith)))
            (let f = v.fits in let z = sized offset in (omega arith, omega arith))
    ]
  ]

  pub replace-Replaced : Replaced page_size slot_id n replaced
  unfolding slot_space
  replace-Replaced = record {
    node = record {
      small = v.small;
      room = omega arith;
      used =
          let u = v.used in
          let s = records_size-set_slot (is_leaf n) n.slots new_slot slot_id n.count bound in
          let z = sized offset in omega arith;
      fits = let f = v.fits in omega arith;
      inside = Inside-all;
    };
    count = refl;
    type = refl;
    others = entry_kept;
  }
