-- ===== src/Leaf/Delete.antt =====
-- LeafNode::Delete of src/node.cpp.
use atomkv.Prelude.{
  ℕ, suc, ◌+◌, ◌-◌, ◌%◌, ◌≤◌, ◌<◌, ◌≡◌, refl, sym, ap, subst, ◌∙◌, inl, inr, true, false, arith,
  ◌==◌, Bool-cases,
}
use mathlib.Core.Bool.{false≢true}
use native.Mathlib.Decide.{dec_lt}
use atomkv.Format.{u32_mod}
use atomkv.Pager.{free, get_page_count}
use atomkv.Space.{read_uint32_at}
use atomkv.Node.{
  Slot, Node, NodeState, leaf, page_size_of, is_leaf, set_slot, slot_space, record_size, move_slots,
  sub16, overflow_record_size,
}
use atomkv.Node.Invariant.{records_size, IsNode, raw_record, records_size-le}
use atomkv.Node.Store.{entry}
use atomkv.Node.Place.{records_size_insert}
use atomkv.Leaf.{drop_record, close_slot, delete}

-- The node without entry `slot_id`: the entries behind it have moved down by one.
pub record Deleted (page_size slot_id : ℕ) (n n' : Node) : Type 0 where
  pub node : IsNode page_size n'
  pub count : n'.count + 1 ≡ n.count
  pub type : n'.type ≡ n.type
  pub before : (j : ℕ) → j < slot_id → entry n' j ≡ entry n j
  pub after : (j : ℕ) → slot_id ≤ j → suc j < n.count → entry n' j ≡ entry n (suc j)

module _ (page_size : ℕ) (n : Node) (v : IsNode page_size n) (slot_id : ℕ) (used : ℕ)
    (slots : ℕ → Slot) (bound : slot_id < n.count)
    (moved_before : (j : ℕ) → j < slot_id → slots j ≡ n.slots j)
    (moved_after : (j : ℕ) → slot_id ≤ j → suc j < n.count → slots j ≡ n.slots (suc j))
    (freed : used + record_size (is_leaf n) (n.slots slot_id) ≡ n.space_used) where
  abbrev result : Node
  result = record n { slots = slots; count = n.count - 1; space_used = used }

  entry_kept : (i j : ℕ) → slots i ≡ n.slots j → entry result i ≡ entry n j
  unfolding entry raw_record
  entry_kept i j e = rw e refl

  used_after : used ≡ records_size (is_leaf n) slots (n.count - 1)
  used_after =
      let sum =
        records_size_insert (is_leaf n) slots n.slots slot_id
          (record_size (is_leaf n) (n.slots slot_id)) (n.count - 1) (omega arith)
          (λ j h. ap (record_size (is_leaf n)) (sym (moved_before j h))) refl
          (λ j h1 h2. ap (record_size (is_leaf n)) (sym (moved_after j h1 (omega arith)))) in
      let e : suc (n.count - 1) ≡ n.count = omega arith in
      let u = v.used in
      let sum' =
        subst
          (λ c.
            records_size (is_leaf n) n.slots c
            ≡ records_size (is_leaf n) slots (n.count - 1)
              + record_size (is_leaf n) (n.slots slot_id))
          e sum in
      omega (arith, sum')

  abbrev Inside : Slot → Type 0
  Inside s =
      (n.data_offset ≤ s.record_offset) × (s.record_offset + record_size (is_leaf n) s ≤ page_size)

  Inside-all : (i : ℕ) → i < n.count - 1 → Inside (slots i)
  Inside-all i h = elim (dec_lt i slot_id) [
    | yes lt ↦ subst Inside (sym (moved_before i lt)) (v.inside i (omega arith))
    | no ge ↦
        subst Inside (sym (moved_after i (omega arith) (omega arith)))
          (v.inside (suc i) (omega arith))
  ]

  close-Deleted : Deleted page_size slot_id n result
  unfolding slot_space
  close-Deleted = record {
    node = record {
      small = v.small;
      room = let r = v.room in omega arith;
      used = used_after;
      fits = let f = v.fits in omega arith;
      inside = Inside-all;
    };
    count = omega arith;
    type = refl;
    before = λ j h. entry_kept j j (moved_before j h);
    after = λ j h1 h2. entry_kept j (suc j) (moved_after j h1 h2);
  }

-- The memmove that closes slot `slot_id`, where `kept` differs from `slots` at most there.
closed_before :
    (slots kept : ℕ → Slot) (slot_id n j : ℕ)
    → ((j : ℕ) → (j == slot_id) ≡ false → kept j ≡ slots j)
    → j < slot_id
    → move_slots kept slot_id (slot_id + 1) n j ≡ slots j
closed_before slots kept slot_id n j same h =
    let e : move_slots kept slot_id (slot_id + 1) n j ≡ kept j = ground arith in
    e ∙ same j (ground arith)

closed_after :
    (slots kept : ℕ → Slot) (slot_id n j : ℕ)
    → ((j : ℕ) → (j == slot_id) ≡ false → kept j ≡ slots j)
    → slot_id ≤ j
    → j < slot_id + n
    → move_slots kept slot_id (slot_id + 1) n j ≡ slots (suc j)
closed_after slots kept slot_id n j same h1 h2 =
    let e : slot_id + 1 + (j - slot_id) ≡ suc j = omega arith in
    let m : move_slots kept slot_id (slot_id + 1) n j ≡ kept (suc j) = ground (arith, ap kept e) in
    m ∙ same (suc j) (ground arith)

-- Delete gives the record's overflow pages back, and takes its entry out of the node.
pub record LeafDeleted (slot_id : ℕ) (s s' : NodeState) : Type 0 where
  pub deleted : Deleted (page_size_of s) slot_id s.node s'.node
  pub inline : (s.node.slots slot_id).is_overflow_pages ≡ false → s'.space ≡ s.space
  pub overflow :
      (s.node.slots slot_id).is_overflow_pages ≡ true
      → s'.space ≡ record s.space {
        pager =
            free s.space.pager s.space.meta.txid
              (read_uint32_at s.node.bytes (s.node.slots slot_id).record_offset)
              (get_page_count s.space.pager
                (((s.node.slots slot_id).key_size + (s.node.slots slot_id).link) % u32_mod));
      }

module _ (slot_id : ℕ) (s : NodeState) (is_leaf_node : s.node.type ≡ leaf)
    (v : IsNode (page_size_of s) s.node) (bound : slot_id < s.node.count) where
  abbrev slot : Slot
  slot = s.node.slots slot_id

  size_le : record_size (is_leaf s.node) slot ≤ s.node.space_used
  size_le =
      let u = v.used in
      let l = records_size-le (is_leaf s.node) s.node.slots slot_id s.node.count bound in
      omega arith

  -- What is subtracted from space_used is the size of the record.
  given_up :
      (size : ℕ)
      → record_size (is_leaf s.node) slot ≡ size
      → sub16 s.node.space_used size + record_size (is_leaf s.node) slot ≡ s.node.space_used
  given_up size e =
      let l = size_le in
      let p = v.small in
      let f = v.fits in
      let z : sub16 s.node.space_used size ≡ s.node.space_used - size = omega arith in omega arith

  overflow_size :
      slot.is_overflow_pages ≡ true → record_size (is_leaf s.node) slot ≡ overflow_record_size
  unfolding record_size
  overflow_size e = rw e refl

  inline_size :
      slot.is_overflow_pages ≡ false
      → record_size (is_leaf s.node) slot ≡ (slot.key_size + slot.link) % u32_mod
  unfolding record_size
  inline_size e =
      let exact : record_size (is_leaf s.node) slot ≡ slot.key_size + slot.link =
        rw (e, is_leaf_node) refl in
      let l = size_le in let p = v.small in let f = v.fits in exact ∙ omega arith

  Deleted-with :
      (used : ℕ) (kept : ℕ → Slot)
      → ((j : ℕ) → (j == slot_id) ≡ false → kept j ≡ s.node.slots j)
      → used + record_size (is_leaf s.node) slot ≡ s.node.space_used
      → Deleted
          (page_size_of s)
          slot_id
          s.node
          (close_slot slot_id (record s.node { slots = kept; space_used = used }))
  unfolding close_slot
  Deleted-with used kept same freed =
      close-Deleted (page_size_of s) s.node v slot_id used
        (move_slots kept slot_id (slot_id + 1) (s.node.count - slot_id - 1)) bound
        (λ j h. closed_before s.node.slots kept slot_id (s.node.count - slot_id - 1) j same h)
        (λ j h1 h2.
          closed_after s.node.slots kept slot_id (s.node.count - slot_id - 1) j same h1
            (omega arith))
        freed

  -- LeafNode::Delete of an entry of a well-formed leaf page: the page stays well-formed, the entry is gone, the others
  -- stand in their order, and if the record has overflow pages, Free gets their first page and the number of
  -- pages that GetPageCount gives for the sum of the record's sizes, which wraps at 2^32.
  pub delete-LeafDeleted : LeafDeleted slot_id s (delete slot_id s)
  unfolding delete drop_record
  delete-LeafDeleted = elim (Bool-cases slot.is_overflow_pages) [
    | inl t ↦ rw t (record {
      deleted =
          Deleted-with (sub16 s.node.space_used overflow_record_size)
            (set_slot s.node.slots slot_id (record slot { is_overflow_pages = false }))
            (λ j ne. rw ne refl) (given_up overflow_record_size (overflow_size t));
      inline = λ e. absurd (false≢true (sym e ∙ t));
      overflow = λ e. refl;
    })
    | inr t ↦ rw t (record {
      deleted =
          Deleted-with (sub16 s.node.space_used ((slot.key_size + slot.link) % u32_mod))
            s.node.slots (λ j ne. refl)
            (given_up ((slot.key_size + slot.link) % u32_mod) (inline_size t));
      inline = λ e. refl;
      overflow = λ e. absurd (false≢true (sym t ∙ e));
    })
  ]
