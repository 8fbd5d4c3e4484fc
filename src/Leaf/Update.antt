-- ===== src/Leaf/Update.antt =====
-- LeafNode::Update of src/node.cpp, where the old record and the new one lie in the page.
use atomkv.Prelude.{
  ℕ, ◌+◌, ◌-◌, ◌*◌, ◌/◌, ◌%◌, ◌^◌, ◌≤◌, ◌<◌, ◌≡◌, ◌≢◌, refl, sym, ap, subst, ◌∙◌, ◌⊎◌, inl, inr,
  Bool, true, false, ◌||◌, List, arith, length, ltb,
}
use atomkv.Node.{
  Slot, Node, NodeState, leaf, page_size_of, is_leaf, slot_space, record_size,
  max_inline_record_size, space_needed, stored_size, request_space, request_space_for, sized_slot,
  inline_bytes, store_inline, store_record, get_key, get_value, read_record,
}
use native.Mathlib.Nat.{add-zero}
use atomkv.Format.{u32_mod, key_max_size, value_max_size}
use atomkv.Result.{Result, ok}
use atomkv.Comparator.{Key}
use atomkv.Node.Store.{entry, Makes, Requests, room_of, request_space-Requests}
use atomkv.Node.Inline.{inline_bytes_outside, inline_bytes-key, inline_bytes-value}
use atomkv.Leaf.{store_again, update}
use atomkv.Node.Invariant.{IsNode}
use atomkv.Node.Compactify.{set_slot_at}
use atomkv.Node.Replace.{Replaced, replaced, replace_record_exact, replace-Replaced}
use atomkv.Leaf.Emptied.{
  old_le, deleted, delete_record-exact, deleted-IsNode, restore_record-exact, deleted-entry,
}

-- The slot has the new key and value; the other entries, and the rest of the database, are unchanged.
pub record LeafUpdated (slot_id : ℕ) (key : Key) (value : List ℕ) (s s' : NodeState) : Type 0 where
  pub node : IsNode (page_size_of s) s'.node
  pub count : s'.node.count ≡ s.node.count
  pub others : (j : ℕ) → j < s.node.count → slot_id ≢ j → entry s'.node j ≡ entry s.node j
  pub key_stored : get_key s' slot_id ≡ key
  pub value_stored : get_value s' slot_id ≡ value
  pub space : s'.space ≡ s.space

-- The two answers of Update. The room counts the old record as free.
unfoldable pub LeafUpdates : ℕ → Key → List ℕ → NodeState → Result Bool × NodeState → Type 0
LeafUpdates slot_id key value s r =
    ((s' : NodeState) × (r ≡ (ok true, s')) × LeafUpdated slot_id key value s s')
    ⊎ ((r ≡ (ok false, s))
        × (room_of (page_size_of s) s.node
              + ((s.node.slots slot_id).key_size + (s.node.slots slot_id).link)
            < length key + length value))

sized_exact :
    (key : Key) (value : List ℕ) (slot : Slot)
    → length key + length value < 2 ^ 15
    → sized_slot true slot key value ≡ record slot { key_size = length key; link = length value }
unfolding sized_slot
sized_exact key value slot h =
    let e1 : length key % 2 ^ 15 ≡ length key = omega arith in
    let e2 : length value % u32_mod ≡ length value = omega arith in rw (e1, e2) refl

module _ (s : NodeState) (slot_id : ℕ) (key : Key) (value : List ℕ)
    (fits : length key + length value ≤ max_inline_record_size (page_size_of s))
    (is_leaf_node : s.node.type ≡ leaf) (v : IsNode (page_size_of s) s.node)
    (bound : slot_id < s.node.count)
    (inline : (s.node.slots slot_id).is_overflow_pages ≡ false) where
  abbrev s0 : NodeState
  s0 = record s { node = deleted (page_size_of s) s.node v slot_id is_leaf_node bound inline }

  abbrev size : ℕ
  size = length key + length value

  size_bound : size < 2 ^ 15
  unfolding max_inline_record_size
  size_bound = let p = v.small in omega (arith, fits)

  store_record-inline :
      (n : Node)
      → n.type ≡ leaf
      → store_record slot_id key value (record s { node = n }) ≡ (
        ok tt,
        store_inline slot_id
            (sized_slot true (n.slots slot_id) key value)
            key
            value
            (record s { node = n }),
      )
  unfolding store_record max_inline_record_size
  store_record-inline n l =
      let a : (ltb (page_size_of s) (length key) || ltb key_max_size (length key)) ≡ false =
        let b = size_bound in ground (arith, fits) in
      let b : ltb value_max_size (length value) ≡ false = let c = size_bound in ground arith in
      let c : ltb ((page_size_of s - 14 - 4 - 8 * 2) / 2) size ≡ false = ground (arith, fits) in
      rw (a, b, c, l) refl

  request_inline : request_space_for key value false s0 ≡ request_space s0 size
  unfolding request_space_for stored_size space_needed
  request_inline =
      let c : ltb (max_inline_record_size (page_size_of s)) (length key + length value) ≡ false =
        ground (arith, fits) in
      rw c refl

  module _ (n : Node) (makes : Makes (page_size_of s) size s0.node n) where
    type_kept : n.type ≡ leaf
    type_kept = ap (λ (x : Node). x.type) makes.others ∙ is_leaf_node

    count_kept : n.count ≡ s.node.count
    count_kept = ap (λ (x : Node). x.count) makes.others

    empty : record_size (is_leaf n) (n.slots slot_id) ≡ 0
    unfolding entry record_size
    empty =
        let e =
          ap (λ (x : Slot × List ℕ). x.0) (makes.entries slot_id bound)
          ∙ ap (λ (x : Slot). record x { record_offset = 0 })
              (set_slot_at s.node.slots slot_id slot_id _ refl) in
        let o = ap (λ (x : Slot). x.is_overflow_pages) e ∙ inline in
        let k = ap (λ (x : Slot). x.key_size) e in
        let l = ap (λ (x : Slot). x.link) e in rw (o, type_kept, k, l) refl

    abbrev new_slot : Slot
    new_slot = record (n.slots slot_id) { key_size = length key; link = length value }

    new_slot_size :
        (offset : ℕ)
        → record_size
            (is_leaf n)
            (record new_slot { record_offset = offset; is_overflow_pages = false })
          ≡ size
    unfolding record_size
    new_slot_size offset = rw type_kept refl

    room : slot_space n + size ≤ n.data_offset
    room = makes.free

    abbrev after : NodeState
    after = record s {
      node =
          replaced (page_size_of s) n makes.node slot_id new_slot size
            (inline_bytes n.bytes key value) (rw count_kept bound) empty room new_slot_size
            (inline_bytes_outside n.bytes key value);
    }

    after-Replaced : Replaced (page_size_of s) slot_id n after.node
    after-Replaced =
        replace-Replaced (page_size_of s) n makes.node slot_id new_slot size
          (inline_bytes n.bytes key value) (rw count_kept bound) empty room new_slot_size
          (inline_bytes_outside n.bytes key value)

    stored_exact : store_inline slot_id new_slot key value (record s { node = n }) ≡ after
    unfolding store_inline
    stored_exact =
        ap (λ (m : Node). record s { node = m })
          (replace_record_exact (page_size_of s) n makes.node slot_id new_slot size
            (inline_bytes n.bytes key value) (rw count_kept bound) empty room new_slot_size
            (inline_bytes_outside n.bytes key value))

    store_exact : store_record slot_id key value (record s { node = n }) ≡ (ok tt, after)
    store_exact =
        store_record-inline n type_kept
        ∙ ap (λ (slot : Slot). (ok tt, store_inline slot_id slot key value (record s { node = n })))
            (sized_exact key value (n.slots slot_id) size_bound)
        ∙ ap (λ (t : NodeState). (ok tt, t)) stored_exact

    slot_at :
        after.node.slots slot_id
        ≡ record new_slot { record_offset = n.data_offset - size; is_overflow_pages = false }
    slot_at = set_slot_at n.slots slot_id slot_id _ refl

    after-LeafUpdated : LeafUpdated slot_id key value s after
    unfolding get_key get_value read_record
    after-LeafUpdated =
        let r = after-Replaced in
        record {
          node = r.node;
          count = r.count ∙ count_kept;
          others = λ j h ne.
              r.others j (rw count_kept h) ne
              ∙ makes.entries j h
              ∙ deleted-entry (page_size_of s) s.node v slot_id is_leaf_node bound inline j ne;
          key_stored =
              rw (slot_at, add-zero (n.data_offset - size))
                (inline_bytes-key n.bytes key value (n.data_offset - size));
          value_stored = rw slot_at (inline_bytes-value n.bytes key value (n.data_offset - size));
          space = refl;
        }

  update_by_space :
      (r : Bool × NodeState)
      → Requests s0 size r
      → LeafUpdates slot_id key value s (store_again slot_id (s.node.slots slot_id) key value r)
  unfolding Requests LeafUpdates store_again slot_space
  update_by_space r (inl (n, e, makes)) =
      rw (e, store_exact n makes) (inl (after n makes, refl, after-LeafUpdated n makes))
  update_by_space r (inr (e, full)) =
      let l = old_le (page_size_of s) s.node v slot_id is_leaf_node bound inline in
      let f = v.fits in
      let m = v.room in
      rw e (
        inr (
          ap (λ (n : Node). (ok false, record s { node = n }))
              (restore_record-exact (page_size_of s) s.node v slot_id is_leaf_node bound inline),
          omega arith,
        ))

  -- LeafNode::Update of an entry of a well-formed leaf page whose old record lies in the page, by a record that fits
  -- the page: either it answers true, the page is well-formed, GetKey and GetValue give the new key and value
  -- at the slot, and the other entries are unchanged; or it answers false, the page is exactly as before, and
  -- its room and the old record together are too small even after compaction.
  pub update-LeafUpdates : LeafUpdates slot_id key value s (update slot_id key value s)
  unfolding update
  update-LeafUpdates =
      let d = delete_record-exact (page_size_of s) s.node v slot_id is_leaf_node bound inline in
      subst
        (λ (n : Node). LeafUpdates slot_id key value s (
          store_again slot_id (s.node.slots slot_id) key value
            (request_space_for key value false (record s { node = n }))))
        (sym d)
        (update_by_space (request_space_for key value false s0) (
          subst (Requests s0 size) (sym request_inline) (
            request_space-Requests s0 size
              (deleted-IsNode (page_size_of s) s.node v slot_id is_leaf_node bound inline))))
