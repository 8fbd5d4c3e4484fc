-- ===== src/Node/Place.antt =====
-- A record of src/node.cpp that is placed in a newly opened slot: the other records stay as they are.
use atomkv.Prelude.{
  ℕ, zero, suc, ◌+◌, ◌-◌, ◌%◌, ◌^◌, ◌≤◌, ◌<◌, ◌≡◌, refl, sym, ap, subst, ◌∙◌, Bool, List, arith,
}
use native.Mathlib.Decide.{dec_lt}
use atomkv.Node.{
  Slot, Node, add16, sub16, is_leaf, set_slot, move_slots, slot_space, record_size, place_record,
}
use atomkv.Node.Invariant.{records_size, IsNode, raw_record}
use atomkv.Node.Compactify.{records_size_ext, set_slot_at, set_slot_ne}
use atomkv.Node.Memory.{slice_ext}
use atomkv.Node.Store.{entry}

pub records_size_insert :
    (l : Bool) (slots slots' : ℕ → Slot) (slot_id size n : ℕ)
    → slot_id ≤ n
    → ((j : ℕ) → j < slot_id → record_size l (slots' j) ≡ record_size l (slots j))
    → record_size l (slots' slot_id) ≡ size
    → ((j : ℕ) → slot_id ≤ j → j < n → record_size l (slots' (suc j)) ≡ record_size l (slots j))
    → records_size l slots' (suc n) ≡ records_size l slots n + size
unfolding records_size
records_size_insert l slots slots' slot_id size zero h before here after =
    let e : slot_id ≡ 0 = omega arith in
    omega (arith, subst (λ k. record_size l (slots' k) ≡ size) e here)
records_size_insert l slots slots' slot_id size (suc n) h before here after =
    elim (dec_lt n slot_id) [
      | yes lt ↦
          let e : slot_id ≡ suc n = omega arith in
          let same = records_size_ext l slots' slots (suc n) (λ j hj. before j (omega arith)) in
          let last = subst (λ k. record_size l (slots' k) ≡ size) e here in
          omega (arith, same, last)
      | no ge ↦
          let rest =
            records_size_insert l slots slots' slot_id size n (omega arith) before here
              (λ j h1 h2. after j h1 (omega arith)) in
          let last = after n (omega arith) (omega arith) in omega (arith, rest, last)
    ]

-- memmove(slots + slot_id + 1, slots + slot_id, …)
pub move_slots_before :
    (slots : ℕ → Slot) (slot_id n j : ℕ)
    → j < slot_id
    → move_slots slots (slot_id + 1) slot_id n j ≡ slots j
move_slots_before slots slot_id n j h = ground arith

pub move_slots_after :
    (slots : ℕ → Slot) (slot_id n j : ℕ)
    → slot_id ≤ j
    → j < slot_id + n
    → move_slots slots (slot_id + 1) slot_id n (suc j) ≡ slots j
move_slots_after slots slot_id n j h1 h2 =
    let e : slot_id + (suc j - (slot_id + 1)) ≡ j = omega arith in ground (arith, ap slots e)

-- What an insertion of slot `slot_id` leaves of the node.
pub record Inserted (page_size slot_id : ℕ) (n n' : Node) : Type 0 where
  pub node : IsNode page_size n'
  pub count : n'.count ≡ n.count + 1
  pub type : n'.type ≡ n.type
  pub tail_child : n'.tail_child ≡ n.tail_child
  pub before : (j : ℕ) → j < slot_id → entry n' j ≡ entry n j
  pub after : (j : ℕ) → slot_id ≤ j → j < n.count → entry n' (suc j) ≡ entry n j

-- The node before the record is placed: slots moved, count raised.
abbrev pub opened : Node → (ℕ → Slot) → Node
opened n slots = record n { slots = slots; count = (n.count + 1) % 2 ^ 14 }

-- The node with the record, where the offset is known to be a plain difference.
abbrev pub placed : Node → (ℕ → Slot) → ℕ → Slot → Bool → ℕ → ℕ → (ℕ → ℕ) → Node
placed n slots slot_id slot overflow size offset bytes = record n {
  count = n.count + 1;
  data_offset = offset;
  space_used = n.space_used + size;
  slots =
      set_slot slots slot_id (record slot { record_offset = offset; is_overflow_pages = overflow });
  bytes = bytes;
}

module _ (page_size : ℕ) (n : Node) (v : IsNode page_size n) (slots : ℕ → Slot) (slot_id : ℕ)
    (slot : Slot) (overflow : Bool) (size : ℕ) (write : ℕ → ℕ → ℕ) (bound : slot_id ≤ n.count)
    (room : slot_space n + (size + 8) ≤ n.data_offset)
    (sized : (offset : ℕ)
      → record_size
          (is_leaf n)
          (record slot { record_offset = offset; is_overflow_pages = overflow })
        ≡ size)
    (outside : (offset i : ℕ) → offset + size ≤ i → write offset i ≡ n.bytes i)
    (moved_before : (j : ℕ) → j < slot_id → slots j ≡ n.slots j)
    (moved_after : (j : ℕ) → slot_id ≤ j → j < n.count → slots (suc j) ≡ n.slots j) where
  abbrev offset : ℕ
  offset = n.data_offset - size

  abbrev result : Node
  result = placed n slots slot_id slot overflow size offset (write offset)

  -- With the bounds of a well-formed page nothing wraps.
  pub place_record_exact : place_record (opened n slots) slot_id slot overflow size write ≡ result
  unfolding place_record slot_space
  place_record_exact =
      let s = v.small in
      let f = v.fits in
      let e1 : (n.count + 1) % 2 ^ 14 ≡ n.count + 1 = omega arith in
      let e2 : sub16 n.data_offset size ≡ offset = omega arith in
      let e3 : add16 n.space_used size ≡ n.space_used + size = omega arith in
      let e4 : offset % 2 ^ 15 ≡ offset = omega arith in rw (e1, e2, e3, e4)

  slot_before : (j : ℕ) → j < slot_id → result.slots j ≡ n.slots j
  slot_before j h = set_slot_ne slots slot_id j _ (omega arith) ∙ moved_before j h

  slot_after : (j : ℕ) → slot_id ≤ j → j < n.count → result.slots (suc j) ≡ n.slots j
  slot_after j h1 h2 = set_slot_ne slots slot_id (suc j) _ (omega arith) ∙ moved_after j h1 h2

  slot_here :
      result.slots slot_id ≡ record slot { record_offset = offset; is_overflow_pages = overflow }
  slot_here = set_slot_at slots slot_id slot_id _ refl

  -- A slot of the old node, wherever it stands now, has its old record.
  entry_kept : (i j : ℕ) → j < n.count → result.slots i ≡ n.slots j → entry result i ≡ entry n j
  unfolding entry raw_record
  entry_kept i j h e =
      let ins = v.inside j h in
      rw e (
        ap (λ (bytes : List ℕ). (record (n.slots j) { record_offset = 0 }, bytes))
          (slice_ext (write offset) n.bytes (n.slots j).record_offset
            (record_size (is_leaf n) (n.slots j)) (λ k h1 h2. outside offset k (omega arith))))

  abbrev Inside : Slot → Type 0
  Inside s = (offset ≤ s.record_offset) × (s.record_offset + record_size (is_leaf n) s ≤ page_size)

  Inside-kept : (i j : ℕ) → j < n.count → result.slots i ≡ n.slots j → Inside (result.slots i)
  Inside-kept i j h e = subst Inside (sym e) (let ins = v.inside j h in (omega arith, omega arith))

  Inside-here : Inside (result.slots slot_id)
  Inside-here =
      subst Inside (sym slot_here)
        (let f = v.fits in let z = sized offset in (omega arith, omega arith))

  Inside-all : (i : ℕ) → i < n.count + 1 → Inside (result.slots i)
  Inside-all i h = elim (dec_lt i slot_id) [
    | yes lt ↦ Inside-kept i i (omega arith) (slot_before i lt)
    | no ge ↦ elim (dec_lt slot_id i) [
      | yes gt ↦
          let e : suc (i - 1) ≡ i = omega arith in
          subst (λ k. Inside (result.slots k)) e
            (Inside-kept (suc (i - 1)) (i - 1) (omega arith)
              (slot_after (i - 1) (omega arith) (omega arith)))
      | no le ↦
          let e : slot_id ≡ i = omega arith in subst (λ k. Inside (result.slots k)) e Inside-here
    ]
  ]

  used_after : n.space_used + size ≡ records_size (is_leaf n) result.slots (n.count + 1)
  used_after =
      let u = v.used in
      let sum =
        records_size_insert (is_leaf n) n.slots result.slots slot_id size n.count bound
          (λ j h. ap (record_size (is_leaf n)) (slot_before j h))
          (ap (record_size (is_leaf n)) slot_here ∙ sized offset)
          (λ j h1 h2. ap (record_size (is_leaf n)) (slot_after j h1 h2)) in
      let e : suc n.count ≡ n.count + 1 = omega arith in rw (← e) (omega (arith, sum))

  pub place-Inserted : Inserted page_size slot_id n result
  unfolding slot_space
  place-Inserted = record {
    node = record {
      small = v.small;
      room = omega arith;
      used = used_after;
      fits = let f = v.fits in omega arith;
      inside = Inside-all;
    };
    count = refl;
    type = refl;
    tail_child = refl;
    before = λ j h. entry_kept j j (omega arith) (slot_before j h);
    after = λ j h1 h2. entry_kept (suc j) j h2 (slot_after j h1 h2);
  }
