-- ===== src/Branch/Insert.antt =====
-- BranchNode::Insert of src/node.cpp, for a key that fits the page.
use atomkv.Prelude.{
  ℕ, ◌+◌, ◌-◌, ◌*◌, ◌/◌, ◌%◌, ◌^◌, ◌≤◌, ◌<◌, ◌≡◌, refl, sym, ap, subst, ◌∙◌, ◌⊎◌, inl, inr, Bool,
  true, false, ltb, ◌==◌, ◌||◌, List, [], if◌then◌else◌, arith, Bool-cases, length,
}
use atomkv.Format.{key_max_size}
use atomkv.Result.{Result, ok}
use atomkv.Comparator.{Key}
use atomkv.Node.{
  Slot, Node, NodeState, branch, is_leaf, page_size_of, max_inline_record_size, space_needed,
  stored_size, request_space, request_space_for, sized_slot, store_inline, store_record,
}
use atomkv.Node.Invariant.{IsNode}
use atomkv.Node.Store.{entry, Makes, Requests, room_of, request_space-Requests}
use atomkv.Branch.{get_left_child, insert_child, store_new, insert}
use atomkv.Branch.Children.{child_at, with_child, insert_child-get_left_child}

-- The two answers of Insert.
unfoldable pub BranchInserts : ℕ → Key → ℕ → Bool → NodeState → Result Bool × NodeState → Type 0
BranchInserts slot_id key child is_right_child s r =
    ((s' : NodeState) × (r ≡ (ok true, s'))
      × (s'.node.count ≡ s.node.count + 1)
      × ((j : ℕ)
          → j ≤ s.node.count + 1
          → get_left_child s'.node j
            ≡ with_child (child_at slot_id is_right_child) child (get_left_child s.node) j))
    ⊎ ((r ≡ (ok false, s)) × (room_of (page_size_of s) s.node < length key + 8))

Makes-get_left_child :
    (page_size needed : ℕ) (n m : Node)
    → Makes page_size needed n m
    → (j : ℕ) → j ≤ n.count
    → get_left_child m j ≡ get_left_child n j
unfolding get_left_child entry
Makes-get_left_child page_size needed n m k j h =
    let c = ap (λ (x : Node). x.count) k.others in
    let t = ap (λ (x : Node). x.tail_child) k.others in
    rw (c, t)
      (elim (Bool-cases (j == n.count)) [
        | inl e ↦ rw e refl
        | inr e ↦ rw e (ap (λ (x : Slot × List ℕ). x.0.link) (k.entries j (ground arith)))
      ])

-- Storing a key leaves the children alone.
store_inline-get_left_child :
    (slot_id j : ℕ) (key : Key) (s : NodeState)
    → is_leaf s.node ≡ false
    → get_left_child
        (store_inline slot_id
          (sized_slot (is_leaf s.node) (s.node.slots slot_id) key [])
          key
          []
          s).node
        j
      ≡ get_left_child s.node j
unfolding get_left_child store_inline sized_slot
store_inline-get_left_child slot_id j key s l = rw l (elim (Bool-cases (j == slot_id)) [
  | inl e ↦
      let same : slot_id ≡ j = ground arith in
      rw e (ap (λ k. if j == s.node.count then s.node.tail_child else (s.node.slots k).link) same)
  | inr e ↦ rw e refl
])

store_record-inline :
    (slot_id : ℕ) (key : Key) (s : NodeState)
    → length key ≤ max_inline_record_size (page_size_of s)
    → page_size_of s < 2 ^ 15
    → store_record slot_id key [] s ≡ (
      ok tt,
      store_inline slot_id (sized_slot (is_leaf s.node) (s.node.slots slot_id) key []) key [] s,
    )
unfolding store_record max_inline_record_size
store_record-inline slot_id key s h p =
    let a : (ltb (page_size_of s) (length key) || ltb key_max_size (length key)) ≡ false =
      ground arith in
    let b : ltb ((page_size_of s - 14 - 4 - 8 * 2) / 2) (length key + 0) ≡ false = ground arith in
    rw (a, b) refl

request_key :
    (key : Key) (s : NodeState)
    → length key ≤ max_inline_record_size (page_size_of s)
    → request_space_for key [] true s ≡ request_space s (length key + 8)
unfolding request_space_for stored_size space_needed
request_key key s h =
    let b : ltb (max_inline_record_size (page_size_of s)) (length key + 0) ≡ false = ground arith in
    let e : length key + 0 ≡ length key = omega arith in rw (b, e) refl

insert_child-count :
    (slot_id child : ℕ) (is_right_child : Bool) (n : Node)
    → n.count + 1 < 2 ^ 14
    → (insert_child slot_id child is_right_child n).count ≡ n.count + 1
unfolding insert_child
insert_child-count slot_id child true n h =
    let c : (n.count + 1) % 2 ^ 14 ≡ n.count + 1 = omega arith in
    elim (Bool-cases (slot_id == n.count)) [ inl t ↦ rw (t, c) refl | inr t ↦ rw (t, c) refl ]
insert_child-count slot_id child false n h = omega arith

insert_child-type :
    (slot_id child : ℕ) (is_right_child : Bool) (n : Node)
    → (insert_child slot_id child is_right_child n).type ≡ n.type
unfolding insert_child
insert_child-type slot_id child true n = elim (Bool-cases (slot_id == n.count)) [
  | inl t ↦ rw t refl
  | inr t ↦ rw t refl
]
insert_child-type slot_id child false n = refl

store_inline-count :
    (slot_id : ℕ) (slot : Slot) (key : Key) (s : NodeState)
    → (store_inline slot_id slot key [] s).node.count ≡ s.node.count
unfolding store_inline
store_inline-count slot_id slot key s = refl

-- Only the children up to the position of the new one and those behind it are read.
with_child-ext :
    (slot_id child count j : ℕ) (is_right_child : Bool) (c d : ℕ → ℕ)
    → ((i : ℕ) → i ≤ count → c i ≡ d i)
    → slot_id ≤ count
    → j ≤ count + 1
    → with_child (child_at slot_id is_right_child) child c j
      ≡ with_child (child_at slot_id is_right_child) child d j
with_child-ext slot_id child count j true c d e h1 h2 = ground (arith, e j, e (j - 1))
with_child-ext slot_id child count j false c d e h1 h2 = ground (arith, e j, e (j - 1))

module _ (slot_id : ℕ) (key : Key) (child : ℕ) (is_right_child : Bool) (s : NodeState)
    (fits : length key ≤ max_inline_record_size (page_size_of s)) (is_branch : s.node.type ≡ branch)
    (v : IsNode (page_size_of s) s.node) (small : s.node.count + 1 < 2 ^ 14)
    (bound : slot_id ≤ s.node.count) where
  insert_by_space :
      (r : Bool × NodeState)
      → Requests s (length key + 8) r
      → BranchInserts slot_id key child is_right_child s
          (store_new slot_id key child is_right_child r)
  unfolding BranchInserts Requests store_new
  insert_by_space r (inr (e, full)) = rw e (inr (refl, full))
  insert_by_space r (inl (n, e, makes)) =
      let c = ap (λ (x : Node). x.count) makes.others in
      let m = insert_child slot_id child is_right_child n in
      let s1 : NodeState = record s { node = m } in
      let type_kept =
        insert_child-type slot_id child is_right_child n
        ∙ ap (λ (x : Node). x.type) makes.others
        ∙ is_branch in
      let s' = store_inline slot_id (sized_slot (is_leaf m) (m.slots slot_id) key []) key [] s1 in
      rw (e, store_record-inline slot_id key s1 fits v.small)
        (inl (
          s',
          refl,
          store_inline-count slot_id (sized_slot (is_leaf m) (m.slots slot_id) key []) key s1
              ∙ insert_child-count slot_id child is_right_child n (omega arith)
              ∙ ap (λ k. k + 1) c,
          λ j h.
              store_inline-get_left_child slot_id j key s1 (rw type_kept refl)
              ∙ insert_child-get_left_child slot_id child j is_right_child n (omega arith)
                  (omega arith) (omega arith)
              ∙ with_child-ext slot_id child s.node.count j is_right_child (get_left_child n)
                  (get_left_child s.node)
                  (Makes-get_left_child (page_size_of s) (length key + 8) s.node n makes) bound h,
        ))

  -- BranchNode::Insert into a well-formed branch page with fewer than 2^14 - 1 keys, at a slot up to its count, of a
  -- key that fits the page: either it answers true, the page has one key more, and its children are those
  -- before with the new one to the right of the new key, or to its left, as asked; or it answers false,
  -- nothing has changed, and the page has no room for the key and its slot even after compaction.
  pub insert-BranchInserts :
      BranchInserts slot_id key child is_right_child s (insert slot_id key child is_right_child s)
  unfolding insert
  insert-BranchInserts = insert_by_space (request_space_for key [] true s) (
      subst (Requests s (length key + 8)) (sym (request_key key s fits))
        (request_space-Requests s (length key + 8) v))
