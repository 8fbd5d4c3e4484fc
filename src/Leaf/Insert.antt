-- ===== src/Leaf/Insert.antt =====
-- LeafNode::Insert of src/node.cpp, for a record that fits the page.
use atomkv.Prelude.{
  ℕ, suc, ◌+◌, ◌-◌, ◌%◌, ◌^◌, ◌≤◌, ◌<◌, ◌≡◌, refl, sym, ap, subst, ◌∙◌, ◌⊎◌, inl, inr, Bool, true,
  false, ◌||◌, List, arith, length, ltb,
}
use native.Mathlib.Nat.{add-zero}
use atomkv.Format.{u32_mod, key_max_size, value_max_size}
use atomkv.Result.{Result, ok}
use atomkv.Comparator.{Key}
use atomkv.Node.{
  Slot, Node, NodeState, leaf, page_size_of, is_leaf, record_size, move_slots,
  max_inline_record_size, space_needed, stored_size, request_space_for, request_space, sized_slot,
  inline_bytes, store_inline, store_record, place_record, get_key, get_value, read_record,
}
use atomkv.Node.Invariant.{IsNode}
use atomkv.Node.Store.{Makes, Requests, room_of, request_space-Requests}
use atomkv.Node.Place.{
  Inserted, placed, place_record_exact, place-Inserted, move_slots_before, move_slots_after,
}
use atomkv.Node.Compactify.{set_slot_at}
use atomkv.Node.Inline.{inline_bytes_outside, inline_bytes-key, inline_bytes-value}
use atomkv.Leaf.{open_slot, store_new, insert}

-- The record is in the node, in front of the entry that was `slot_id` before; the others are unchanged,
-- and so is the rest of the database.
pub record LeafInserted (slot_id : ℕ) (key : Key) (value : List ℕ) (s s' : NodeState) : Type 0 where
  pub inserted : Inserted (page_size_of s) slot_id s.node s'.node
  pub key_stored : get_key s' slot_id ≡ key
  pub value_stored : get_value s' slot_id ≡ value
  pub space : s'.space ≡ s.space

Inserted-Makes :
    (page_size needed slot_id : ℕ) (n m n' : Node)
    → slot_id ≤ n.count
    → Makes page_size needed n m
    → Inserted page_size slot_id m n'
    → Inserted page_size slot_id n n'
Inserted-Makes page_size needed slot_id n m n' h k i =
    let c = ap (λ (x : Node). x.count) k.others in
    record {
      node = i.node;
      count = i.count ∙ ap (λ x. x + 1) c;
      type = i.type ∙ ap (λ (x : Node). x.type) k.others;
      tail_child = i.tail_child ∙ ap (λ (x : Node). x.tail_child) k.others;
      before = λ j lt. i.before j lt ∙ k.entries j (omega arith);
      after = λ j h1 h2. i.after j h1 (omega arith) ∙ k.entries j h2;
    }

module _ (s : NodeState) (slot_id : ℕ) (key : Key) (value : List ℕ)
    (fits : length key + length value ≤ max_inline_record_size (page_size_of s))
    (is_leaf_node : s.node.type ≡ leaf) (v : IsNode (page_size_of s) s.node)
    (bound : slot_id ≤ s.node.count) where
  size_fits : ltb (max_inline_record_size (page_size_of s)) (length key + length value) ≡ false
  size_fits = ground (arith, fits)

  size_bound : length key + length value ≤ page_size_of s
  unfolding max_inline_record_size
  size_bound = omega (arith, fits)

  request_inline :
      request_space_for key value true s ≡ request_space s (length key + length value + 8)
  unfolding request_space_for stored_size space_needed
  request_inline = rw size_fits refl

  key_ok : (ltb (page_size_of s) (length key) || ltb key_max_size (length key)) ≡ false
  key_ok = let b = size_bound in let p = v.small in ground arith

  value_ok : ltb value_max_size (length value) ≡ false
  value_ok = let b = size_bound in let p = v.small in ground arith

  module _ (n : Node)
      (makes : Makes (page_size_of s) (length key + length value + 8) s.node n) where
    abbrev slots : ℕ → Slot
    slots = move_slots n.slots (slot_id + 1) slot_id (n.count - slot_id)

    abbrev new_slot : Slot
    new_slot = record (slots slot_id) { key_size = length key; link = length value }

    abbrev after : NodeState
    after = record s {
      node =
          placed n slots slot_id new_slot false (length key + length value)
            (n.data_offset - (length key + length value))
            (inline_bytes n.bytes key value (n.data_offset - (length key + length value)));
    }

    type_kept : n.type ≡ leaf
    type_kept = ap (λ (x : Node). x.type) makes.others ∙ is_leaf_node

    count_kept : n.count ≡ s.node.count
    count_kept = ap (λ (x : Node). x.count) makes.others

    sized_exact :
        sized_slot (is_leaf (open_slot slot_id n)) ((open_slot slot_id n).slots slot_id) key value
        ≡ new_slot
    unfolding sized_slot open_slot
    sized_exact =
        let b = size_bound in
        let p = v.small in
        let e1 : length key % 2 ^ 15 ≡ length key = omega arith in
        let e2 : length value % u32_mod ≡ length value = omega arith in rw (type_kept, e1, e2) refl

    new_slot_size :
        (offset : ℕ)
        → record_size
            (is_leaf n)
            (record new_slot { record_offset = offset; is_overflow_pages = false })
          ≡ length key + length value
    unfolding record_size
    new_slot_size offset = rw type_kept refl

    slots_after : (j : ℕ) → slot_id ≤ j → j < n.count → slots (suc j) ≡ n.slots j
    slots_after j h1 h2 = move_slots_after n.slots slot_id (n.count - slot_id) j h1 (omega arith)

    placed_exact :
        place_record
          (open_slot slot_id n)
          slot_id
          new_slot
          false
          (length key + length value)
          (inline_bytes (open_slot slot_id n).bytes key value)
        ≡ after.node
    unfolding open_slot
    placed_exact =
        place_record_exact (page_size_of s) n makes.node slots slot_id new_slot false
          (length key + length value) (inline_bytes n.bytes key value)
          (let c = count_kept in omega arith) makes.free new_slot_size
          (inline_bytes_outside n.bytes key value)
          (move_slots_before n.slots slot_id (n.count - slot_id)) slots_after

    stored_exact :
        store_inline slot_id new_slot key value (record s { node = open_slot slot_id n }) ≡ after
    unfolding store_inline
    stored_exact = ap (λ (m : Node). record s { node = m }) placed_exact

    store_exact :
        store_record slot_id key value (record s { node = open_slot slot_id n }) ≡ (ok tt, after)
    unfolding store_record
    store_exact =
        rw (key_ok, value_ok, size_fits)
          (ap
              (λ (slot : Slot). (
                ok tt,
                store_inline slot_id slot key value (record s { node = open_slot slot_id n }),
              ))
              sized_exact
            ∙ ap (λ (t : NodeState). (ok tt, t)) stored_exact)

    after-Inserted : Inserted (page_size_of s) slot_id s.node after.node
    after-Inserted =
        Inserted-Makes (page_size_of s) (length key + length value + 8) slot_id s.node n after.node
          bound makes
          (place-Inserted (page_size_of s) n makes.node slots slot_id new_slot false
            (length key + length value) (inline_bytes n.bytes key value)
            (let c = count_kept in omega arith) makes.free new_slot_size
            (inline_bytes_outside n.bytes key value)
            (move_slots_before n.slots slot_id (n.count - slot_id)) slots_after)

    slot_at : after.node.slots slot_id ≡ record new_slot {
      record_offset = n.data_offset - (length key + length value);
      is_overflow_pages = false;
    }
    slot_at = set_slot_at slots slot_id slot_id _ refl

    after-LeafInserted : LeafInserted slot_id key value s after
    unfolding get_key get_value read_record
    after-LeafInserted = record {
      inserted = after-Inserted;
      key_stored =
          rw (slot_at, add-zero (n.data_offset - (length key + length value)))
            (inline_bytes-key n.bytes key value (n.data_offset - (length key + length value)));
      value_stored =
          rw slot_at
            (inline_bytes-value n.bytes key value (n.data_offset - (length key + length value)));
      space = refl;
    }

-- The two answers of Insert.
pub LeafInserts : ℕ → Key → List ℕ → NodeState → Result Bool × NodeState → Type 0
LeafInserts slot_id key value s r =
    ((s' : NodeState) × (r ≡ (ok true, s')) × LeafInserted slot_id key value s s')
    ⊎ ((r ≡ (ok false, s)) × (room_of (page_size_of s) s.node < length key + length value + 8))

-- what stands on each answer of RequestSpaceFor
insert_by_space :
    (slot_id : ℕ) (key : Key) (value : List ℕ) (s : NodeState)
    → length key + length value ≤ max_inline_record_size (page_size_of s)
    → s.node.type ≡ leaf
    → IsNode (page_size_of s) s.node
    → slot_id ≤ s.node.count
    → (r : Bool × NodeState) → Requests s (length key + length value + 8) r
    → LeafInserts slot_id key value s (store_new slot_id key value r)
unfolding store_new Requests LeafInserts
insert_by_space slot_id key value s fits l v b r (inl (n, e, makes)) =
    rw (e, store_exact s slot_id key value fits l v b n makes)
      (inl (
        after s slot_id key value fits l v b n makes,
        refl,
        after-LeafInserted s slot_id key value fits l v b n makes,
      ))
insert_by_space slot_id key value s fits l v b r (inr (e, full)) = rw e (inr (refl, full))

-- LeafNode::Insert into a well-formed leaf page at a slot up to its count, of a record that fits the page: either it
-- answers true, the page is well-formed, GetKey and GetValue give the key and the value at the slot, and all
-- other entries stand in their order; or it answers false, nothing has changed, and the page has no room
-- for the record and its slot even after compaction.
pub insert-LeafInserts :
    (slot_id : ℕ) (key : Key) (value : List ℕ) (s : NodeState)
    → length key + length value ≤ max_inline_record_size (page_size_of s)
    → s.node.type ≡ leaf
    → IsNode (page_size_of s) s.node
    → slot_id ≤ s.node.count
    → LeafInserts slot_id key value s (insert slot_id key value s)
unfolding insert
insert-LeafInserts slot_id key value s fits l v b =
    insert_by_space slot_id key value s fits l v b (request_space_for key value true s) (
      subst (Requests s (length key + length value + 8))
        (sym (request_inline s slot_id key value fits l v b))
        (request_space-Requests s (length key + length value + 8) v))
