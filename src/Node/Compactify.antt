-- ===== src/Node/Compactify.antt =====
-- Node::CopyRecordRange and Node::Compactify of src/node.cpp keep every record.
use atomkv.Prelude.{
  ℕ, zero, suc, ◌+◌, ◌-◌, ◌^◌, ◌≤◌, ◌<◌, ◌≡◌, ◌≢◌, refl, sym, ap, ap₂, subst, ◌∙◌, inr, Bool, List,
  arith,
}
use native.Mathlib.Numerals.{add-one}
use native.Mathlib.Decide.{dec_lt}
use atomkv.Space.{write_by_bytes}
use atomkv.Node.{
  Slot, Node, add16, sub16, is_leaf, set_slot, slot_space, record_size, slice, copy_record_range,
  tmp_node, copy_back, compactify,
}
use atomkv.Node.Memory.{
  length-slice, slice_ext, slice-write_self, slice-write_apart, write-slice_inside,
}
use atomkv.Node.Invariant.{records_size, records_size-le, IsNode, raw_record}

-- After `i` rounds: the first `i` records stand in the destination, and the source's slots have their
-- new offsets.
record Copied (page_size : ℕ) (n : Node) (i : ℕ) (slots : ℕ → Slot) (dst : Node) : Type 0 where
  used : dst.space_used ≡ records_size (is_leaf n) n.slots i
  offset : dst.data_offset + records_size (is_leaf n) n.slots i ≡ page_size
  done : (j : ℕ) → j < i → slots j ≡ record (n.slots j) { record_offset = (slots j).record_offset }
  placed :
      (j : ℕ)
      → j < i
      → (dst.data_offset ≤ (slots j).record_offset)
        × ((slots j).record_offset + record_size (is_leaf n) (n.slots j) ≤ page_size)
        × (slice dst.bytes (slots j).record_offset (record_size (is_leaf n) (n.slots j))
            ≡ raw_record n j)
  rest : (j : ℕ) → i ≤ j → slots j ≡ n.slots j

abbrev next_slots : (ℕ → Slot) → ℕ → Slot → ℕ → ℕ → Slot
next_slots slots i slot offset = set_slot slots i (record slot { record_offset = offset })

abbrev next_dst : Node → ℕ → ℕ → List ℕ → Node
next_dst dst offset size buf = record dst {
  data_offset = offset;
  space_used = add16 dst.space_used size;
  bytes = write_by_bytes dst.bytes offset buf;
}

pub set_slot_at : (slots : ℕ → Slot) (i j : ℕ) (v : Slot) → i ≡ j → set_slot slots i v j ≡ v
set_slot_at slots i j v e = ground arith

pub set_slot_ne : (slots : ℕ → Slot) (i j : ℕ) (v : Slot) → i ≢ j → set_slot slots i v j ≡ slots j
set_slot_ne slots i j v e = ground arith

module _ (page_size : ℕ) (n : Node) (small : page_size < 2 ^ 15) where
  abbrev size_of : ℕ → ℕ
  size_of j = record_size (is_leaf n) (n.slots j)

  abbrev Placed : (ℕ → ℕ) → ℕ → ℕ → Slot → Type 0
  Placed bytes offset j slot =
      (offset ≤ slot.record_offset)
      × (slot.record_offset + size_of j ≤ page_size)
      × (slice bytes slot.record_offset (size_of j) ≡ raw_record n j)

  abbrev Done : ℕ → Slot → Type 0
  Done j slot = slot ≡ record (n.slots j) { record_offset = slot.record_offset }

  module _ (i offset : ℕ) (slots : ℕ → Slot) (dst : Node) (c : Copied page_size n i slots dst)
      (below : offset + size_of i ≡ dst.data_offset) where
    abbrev buf : List ℕ
    buf = slice n.bytes (n.slots i).record_offset (size_of i)

    kept-Placed :
        (j : ℕ) (slot : Slot)
        → Placed dst.bytes dst.data_offset j slot
        → Placed (write_by_bytes dst.bytes offset buf) offset j slot
    kept-Placed j slot p = (
      omega arith,
      p.1,
      slice-write_apart dst.bytes offset slot.record_offset (size_of j) buf
            (inr (omega (arith, length-slice n.bytes (n.slots i).record_offset (size_of i))))
          ∙ p.2,
    )

    new-Placed :
        Placed
          (write_by_bytes dst.bytes offset buf)
          offset
          i
          (record (n.slots i) { record_offset = offset })
    unfolding raw_record
    new-Placed = (
      omega arith,
      (let o = c.offset in omega arith),
      subst (λ k. slice (write_by_bytes dst.bytes offset buf) offset k ≡ buf)
          (length-slice n.bytes (n.slots i).record_offset (size_of i))
          (slice-write_self dst.bytes offset buf),
    )

    step-Copied :
        Copied page_size n
          (suc i)
          (next_slots slots i (n.slots i) offset)
          (next_dst dst offset (size_of i) buf)
    unfolding records_size
    step-Copied =
        let v : Slot = record (n.slots i) { record_offset = offset } in
        record {
          used = let u = c.used in let o = c.offset in omega arith;
          offset = let o = c.offset in omega arith;
          done = λ j h. elim (dec_lt j i) [
            | yes lt ↦ subst (Done j) (sym (set_slot_ne slots i j _ (omega arith))) (c.done j lt)
            | no ge ↦
                let e : i ≡ j = omega arith in
                subst (Done j) (sym (set_slot_at slots i j v e)) (subst (λ k. Done k v) e refl)
          ];
          placed = λ j h. elim (dec_lt j i) [
            | yes lt ↦
                subst (Placed _ offset j) (sym (set_slot_ne slots i j _ (omega arith)))
                  (kept-Placed j (slots j) (c.placed j lt))
            | no ge ↦
                let e : i ≡ j = omega arith in
                subst (Placed (write_by_bytes dst.bytes offset buf) offset j)
                  (sym (set_slot_at slots i j v e))
                  (subst (λ k. Placed (write_by_bytes dst.bytes offset buf) offset k v) e
                    new-Placed)
          ];
          rest = λ j h. set_slot_ne slots i j _ (omega arith) ∙ c.rest j (omega arith);
        }

  sub16_exact : (a b : ℕ) → b ≤ a → a < 2 ^ 15 → sub16 a b ≡ a - b
  sub16_exact a b h1 h2 = omega arith

  copy_step :
      (rounds i : ℕ) (slots : ℕ → Slot) (dst : Node)
      → slots i ≡ n.slots i
      → sub16 dst.data_offset (size_of i) ≡ dst.data_offset - size_of i
      → copy_record_range (suc rounds) i (record n { slots = slots }) dst
        ≡ copy_record_range rounds
            (i + 1)
            (record n { slots = next_slots slots i (n.slots i) (dst.data_offset - size_of i) })
            (next_dst dst
              (dst.data_offset - size_of i)
              (size_of i)
              (slice n.bytes (n.slots i).record_offset (size_of i)))
  unfolding copy_record_range
  copy_step rounds i slots dst e e' = rw (e, e')

  -- The source after the loop differs in its slots only, and every record is copied.
  Copies : Node × Node → Type 0
  Copies r = (r.0 ≡ record n { slots = r.0.slots }) × Copied page_size n n.count r.0.slots r.1

  run-Copied :
      (rounds i : ℕ) (slots : ℕ → Slot) (dst : Node)
      → records_size (is_leaf n) n.slots n.count ≤ page_size
      → i + rounds ≡ n.count
      → Copied page_size n i slots dst
      → Copies (copy_record_range rounds i (record n { slots = slots }) dst)
  unfolding copy_record_range Copies
  run-Copied zero i slots dst h e c =
      let e' : i ≡ n.count = omega arith in (refl, subst (λ k. Copied page_size n k slots dst) e' c)
  run-Copied (suc rounds) i slots dst h e c =
      let bound = records_size-le (is_leaf n) n.slots i n.count (omega arith) in
      let at = c.offset in
      let offset = dst.data_offset - size_of i in
      let below : offset + size_of i ≡ dst.data_offset = omega arith in
      subst Copies
        (sym (
          copy_step rounds i slots dst (c.rest i (omega arith))
            (sub16_exact dst.data_offset (size_of i) (omega arith) (omega arith))))
        (run-Copied rounds (i + 1) _ _ h (omega arith)
          (rw add-one (step-Copied i offset slots dst c below)))

pub records_size_ext :
    (with_value : Bool) (slots slots' : ℕ → Slot) (n : ℕ)
    → ((j : ℕ) → j < n → record_size with_value (slots j) ≡ record_size with_value (slots' j))
    → records_size with_value slots n ≡ records_size with_value slots' n
unfolding records_size
records_size_ext with_value slots slots' zero f = refl
records_size_ext with_value slots slots' (suc n) f =
    ap₂ ◌+◌ (records_size_ext with_value slots slots' n (λ j h. f j (omega arith)))
      (f n (omega arith))

record_size_moved :
    (with_value : Bool) (slot : Slot) (offset : ℕ)
    → record_size with_value (record slot { record_offset = offset }) ≡ record_size with_value slot
unfolding record_size
record_size_moved with_value slot offset = refl

-- `n'` is `n` with the records moved together at the end of the page.
pub record Compacted (page_size : ℕ) (n n' : Node) : Type 0 where
  pub node : IsNode page_size n'
  pub others : n' ≡ record n { slots = n'.slots; data_offset = n'.data_offset; bytes = n'.bytes }
  pub slots :
      (j : ℕ)
      → j < n.count
      → n'.slots j ≡ record (n.slots j) { record_offset = (n'.slots j).record_offset }
  pub records : (j : ℕ) → j < n.count → raw_record n' j ≡ raw_record n j
  pub tight : n'.data_offset + n'.space_used ≡ page_size

-- The page that Compactify ends with, from what the loop leaves.
abbrev copied_back : Node → (ℕ → Slot) → Node → Node
copied_back n slots dst = record n {
  slots = slots;
  data_offset = dst.data_offset;
  bytes = write_by_bytes n.bytes dst.data_offset (slice dst.bytes dst.data_offset dst.space_used);
}

module _ (page_size : ℕ) (n : Node) (v : IsNode page_size n) (slots : ℕ → Slot) (dst : Node)
    (c : Copied page_size n n.count slots dst) where
  same_size :
      (j : ℕ)
      → j < n.count
      → record_size (is_leaf n) (slots j) ≡ record_size (is_leaf n) (n.slots j)
  same_size j h =
      ap (record_size (is_leaf n)) (c.done j h)
      ∙ record_size_moved (is_leaf n) (n.slots j) (slots j).record_offset

  copied_back-record :
      (j : ℕ) → j < n.count → raw_record (copied_back n slots dst) j ≡ raw_record n j
  unfolding raw_record
  copied_back-record j h =
      let p = c.placed j h in
      let u = c.used in
      let o = c.offset in
      rw (same_size j h) (
        slice_ext (copied_back n slots dst).bytes dst.bytes (slots j).record_offset
          (record_size (is_leaf n) (n.slots j))
          (λ i h1 h2.
            write-slice_inside n.bytes dst.bytes dst.data_offset dst.space_used i (omega arith)
              (omega arith))
        ∙ p.2)

  copied_back-Compacted : Compacted page_size n (copied_back n slots dst)
  unfolding slot_space
  copied_back-Compacted =
      let u = c.used in
      let o = c.offset in
      let u' = v.used in
      let f = v.fits in
      let r = v.room in
      record {
        node = record {
          small = v.small;
          room = omega arith;
          used = v.used ∙ sym (records_size_ext (is_leaf n) slots n.slots n.count same_size);
          fits = omega arith;
          inside = λ j h. let p = c.placed j h in let s = same_size j h in (p.0, omega arith);
        };
        others = refl;
        slots = c.done;
        records = copied_back-record;
        tight = omega arith;
      }

Copied-start :
    (page_size : ℕ) (tmp_page : ℕ → ℕ) (n : Node)
    → page_size < 2 ^ 15
    → Copied page_size n 0 n.slots (tmp_node page_size tmp_page n)
unfolding records_size
Copied-start page_size tmp_page n h = record {
  used = refl;
  offset = omega arith;
  done = λ j lt. absurd (omega arith);
  placed = λ j lt. absurd (omega arith);
  rest = λ j le. refl;
}

copy_back-Compacted :
    (page_size : ℕ) (n : Node) (r : Node × Node) (v : IsNode page_size n)
    → Copies page_size n v.small r
    → Compacted page_size n (copy_back r)
unfolding Copies
copy_back-Compacted page_size n r v (e, c) =
    subst (Compacted page_size n) (sym (ap (λ x. copy_back (x, r.1)) e))
      (copied_back-Compacted page_size n v r.0.slots r.1 c)

-- Compactify on a well-formed page: the page stays well-formed, every slot keeps all but the offset of
-- its record, every record keeps its bytes, no other field changes, and all the free space lies between
-- the slots and the records.
pub compactify-Compacted :
    (page_size : ℕ) (tmp_page : ℕ → ℕ) (n : Node)
    → IsNode page_size n
    → Compacted page_size n (compactify page_size tmp_page n)
unfolding compactify
compactify-Compacted page_size tmp_page n v =
    let u = v.used in
    let f = v.fits in
    copy_back-Compacted page_size n (copy_record_range n.count 0 n (tmp_node page_size tmp_page n))
      v
      (run-Copied page_size n v.small n.count 0 n.slots (tmp_node page_size tmp_page n)
        (omega arith) (omega arith) (Copied-start page_size tmp_page n v.small))
