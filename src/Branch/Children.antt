-- ===== src/Branch/Children.antt =====
-- The children of a branch page of src/node.cpp: child j is to the left of key j, and the last one to the right
-- of the last key.
use atomkv.Prelude.{
  ℕ, ◌+◌, ◌-◌, ◌%◌, ◌^◌, ◌≤◌, ◌<◌, ◌≡◌, refl, ap, subst, ◌∙◌, inl, inr, Bool, true, false, ltb,
  ◌==◌, if◌then◌else◌, arith, Bool-cases,
}
use native.Mathlib.Decide.{dec_lt}
use atomkv.Node.{Slot, Node, NodeState, set_slot, move_slots}
use atomkv.Branch.{set_link, get_left_child, insert_child, delete_child, drop_record, delete}

-- Where the child of an operation stands that works on the child to the right or to the left of key `slot_id`.
abbrev pub child_at : ℕ → Bool → ℕ
child_at slot_id is_right_child = if is_right_child then slot_id + 1 else slot_id

-- Child j of a page whose fields are given.
abbrev child_of : ℕ → ℕ → (ℕ → Slot) → ℕ → ℕ
child_of count tail_child slots j = if j == count then tail_child else (slots j).link

-- The slots that Delete leaves with the child to the right of the key.
abbrev closed_right : (ℕ → Slot) → ℕ → ℕ → ℕ → Slot
closed_right slots slot_id count =
    let linked = set_link slots (slot_id + 1) (slots slot_id).link in
    move_slots (set_slot linked slot_id (linked (slot_id + 1))) (slot_id + 1) (slot_id + 2)
      (count - slot_id - 2)

closed_right_before :
    (slots : ℕ → Slot) (slot_id count j : ℕ)
    → j < slot_id
    → closed_right slots slot_id count j ≡ slots j
closed_right_before slots slot_id count j h = ground arith

closed_right_at :
    (slots : ℕ → Slot) (slot_id count : ℕ)
    → (closed_right slots slot_id count slot_id).link ≡ (slots slot_id).link
closed_right_at slots slot_id count = ground arith

closed_right_after :
    (slots : ℕ → Slot) (slot_id count j : ℕ)
    → slot_id < j
    → j + 1 < count
    → closed_right slots slot_id count j ≡ slots (j + 1)
closed_right_after slots slot_id count j h1 h2 =
    let e : slot_id + 2 + (j - (slot_id + 1)) ≡ j + 1 = omega arith in ground (arith, ap slots e)

abbrev link_of : Slot → ℕ
link_of slot = slot.link

-- The children without the one at `at`.
abbrev pub without : ℕ → (ℕ → ℕ) → ℕ → ℕ
without at children j = if ltb j at then children j else children (j + 1)

-- The children with `child` at `at`.
abbrev pub with_child : ℕ → ℕ → (ℕ → ℕ) → ℕ → ℕ
with_child at child children j =
    if ltb j at then children j else if j == at then child else children (j - 1)

delete_right :
    (slots : ℕ → Slot) (slot_id count tail_child j : ℕ)
    → slot_id + 1 < count
    → j < count
    → child_of (count - 1) tail_child (closed_right slots slot_id count) j
      ≡ without (slot_id + 1) (child_of count tail_child slots) j
delete_right slots slot_id count tail_child j h1 h2 = elim (dec_lt j slot_id) [
  | yes lt ↦
      let e = ap link_of (closed_right_before slots slot_id count j lt) in
      let a : (j == count - 1) ≡ false = ground arith in
      let b : (j == count) ≡ false = ground arith in
      let c : ltb j (slot_id + 1) ≡ true = ground arith in rw (a, b, c) e
  | no ge ↦ elim (dec_lt slot_id j) [
    | yes gt ↦
        let c : ltb j (slot_id + 1) ≡ false = ground arith in
        elim (Bool-cases (j == count - 1)) [
          | inl t ↦ let b : (j + 1 == count) ≡ true = ground arith in rw (t, b, c) refl
          | inr t ↦
              let b : (j + 1 == count) ≡ false = ground arith in
              rw (t, b, c) (ap link_of (closed_right_after slots slot_id count j gt (ground arith)))
        ]
    | no le ↦
        let e : slot_id ≡ j = omega arith in
        let a : (j == count - 1) ≡ false = ground arith in
        let b : (j == count) ≡ false = ground arith in
        let c : ltb j (slot_id + 1) ≡ true = ground arith in
        rw (a, b, c)
          (subst (λ k. (closed_right slots slot_id count k).link ≡ (slots k).link) e
            (closed_right_at slots slot_id count))
  ]
]

delete_left :
    (slots : ℕ → Slot) (slot_id count tail_child j : ℕ)
    → slot_id < count
    → j < count
    → child_of
        (count - 1)
        tail_child
        (move_slots slots slot_id (slot_id + 1) (count - slot_id - 1))
        j
      ≡ without slot_id (child_of count tail_child slots) j
delete_left slots slot_id count tail_child j h1 h2 = elim (dec_lt j slot_id) [
  | yes lt ↦ ground arith
  | no ge ↦ let e : slot_id + 1 + (j - slot_id) ≡ j + 1 = omega arith in ground (arith, ap slots e)
]

delete_last :
    (slots : ℕ → Slot) (slot_id count tail_child j : ℕ)
    → slot_id + 1 ≡ count
    → j < count
    → child_of (count - 1) (slots (count - 1)).link slots j
      ≡ without (slot_id + 1) (child_of count tail_child slots) j
delete_last slots slot_id count tail_child j h1 h2 =
    let b : (j == count) ≡ false = ground arith in
    let c : ltb j (slot_id + 1) ≡ true = ground arith in
    elim (Bool-cases (j == count - 1)) [
      | inl t ↦ let e : count - 1 ≡ j = ground arith in rw (t, b, c) (ap (λ k. (slots k).link) e)
      | inr t ↦ rw (t, b, c) refl
    ]

delete_child-get_left_child :
    (slot_id j : ℕ) (right_child : Bool) (n : Node)
    → slot_id < n.count
    → j < n.count
    → get_left_child (delete_child slot_id right_child n) j
      ≡ without (child_at slot_id right_child) (get_left_child n) j
unfolding get_left_child delete_child
delete_child-get_left_child slot_id j true n h1 h2 = elim (Bool-cases (ltb (slot_id + 1) n.count)) [
  | inl t ↦ rw t (delete_right n.slots slot_id n.count n.tail_child j (ground arith) h2)
  | inr t ↦ rw t (delete_last n.slots slot_id n.count n.tail_child j (ground arith) h2)
]
delete_child-get_left_child slot_id j false n h1 h2 =
    delete_left n.slots slot_id n.count n.tail_child j h1 h2

-- The slots that Insert opens, and then the children.
abbrev opened : (ℕ → Slot) → ℕ → ℕ → ℕ → Slot
opened slots slot_id count = move_slots slots (slot_id + 1) slot_id (count - slot_id)

opened_before :
    (slots : ℕ → Slot) (slot_id count j : ℕ) → j ≤ slot_id → opened slots slot_id count j ≡ slots j
opened_before slots slot_id count j h = ground arith

opened_after :
    (slots : ℕ → Slot) (slot_id count j : ℕ)
    → slot_id < j
    → j ≤ count
    → opened slots slot_id count j ≡ slots (j - 1)
opened_after slots slot_id count j h1 h2 =
    let e : slot_id + (j - (slot_id + 1)) ≡ j - 1 = omega arith in ground (arith, ap slots e)

-- Slots that are opened at `slot_id`, by what they hold.
module _ (slots o : ℕ → Slot) (slot_id child count tail_child : ℕ)
    (before : (j : ℕ) → j ≤ slot_id → o j ≡ slots j)
    (after : (j : ℕ) → slot_id < j → j ≤ count → o j ≡ slots (j - 1)) where
  insert_left :
      (j : ℕ)
      → slot_id ≤ count
      → j ≤ count + 1
      → child_of (count + 1) tail_child (set_link o slot_id child) j
        ≡ with_child slot_id child (child_of count tail_child slots) j
  insert_left j h1 h2 = elim (dec_lt j slot_id) [
    | yes lt ↦ ground (arith, ap link_of (before j (omega arith)))
    | no ge ↦ elim (dec_lt count j) [
      | yes gt ↦ ground arith
      | no le ↦ elim (dec_lt slot_id j) [
        | yes gt ↦ ground (arith, ap link_of (after j gt (omega arith)))
        | no same ↦ ground arith
      ]
    ]
  ]

  insert_tail :
      (j : ℕ)
      → slot_id ≡ count
      → j ≤ count + 1
      → child_of (count + 1) child (set_link o slot_id tail_child) j
        ≡ with_child (slot_id + 1) child (child_of count tail_child slots) j
  insert_tail j e h2 = elim (dec_lt j slot_id) [
    | yes lt ↦ ground (arith, ap link_of (before j (omega arith)))
    | no ge ↦ ground arith
  ]

  insert_right :
      (j : ℕ)
      → slot_id < count
      → j ≤ count + 1
      → child_of
          (count + 1)
          tail_child
          (set_link (set_link o slot_id (o (slot_id + 1)).link) (slot_id + 1) child)
          j
        ≡ with_child (slot_id + 1) child (child_of count tail_child slots) j
  insert_right j h1 h2 =
      let e : slot_id + 1 - 1 ≡ slot_id = omega arith in
      let here = ap link_of (after (slot_id + 1) (omega arith) (omega arith) ∙ ap slots e) in
      elim (dec_lt j slot_id) [
        | yes lt ↦ ground (arith, ap link_of (before j (omega arith)))
        | no ge ↦ elim (dec_lt (slot_id + 1) j) [
          | yes gt ↦ elim (dec_lt count j) [
            | yes last ↦ ground arith
            | no le ↦ ground (arith, ap link_of (after j (omega arith) (omega arith)))
          ]
          | no le ↦ elim (dec_lt j (slot_id + 1)) [
            | yes at ↦
                let same : slot_id ≡ j = omega arith in
                ground (arith, here, ap (λ k. (slots k).link) same)
            | no new ↦ ground arith
          ]
        ]
      ]

pub insert_child-get_left_child :
    (slot_id child j : ℕ) (is_right_child : Bool) (n : Node)
    → slot_id ≤ n.count
    → n.count + 1 < 2 ^ 14
    → j ≤ n.count + 1
    → get_left_child (insert_child slot_id child is_right_child n) j
      ≡ with_child (child_at slot_id is_right_child) child (get_left_child n) j
unfolding get_left_child insert_child
insert_child-get_left_child slot_id child j true n h1 h2 h3 =
    let c : (n.count + 1) % 2 ^ 14 ≡ n.count + 1 = omega arith in
    elim (Bool-cases (slot_id == n.count)) [
      | inl t ↦
          rw (t, c)
            (insert_tail n.slots (opened n.slots slot_id n.count) slot_id child n.count n.tail_child
              (opened_before n.slots slot_id n.count) (opened_after n.slots slot_id n.count) j
              (ground arith) h3)
      | inr t ↦
          rw (t, c)
            (insert_right n.slots (opened n.slots slot_id n.count) slot_id child n.count
              n.tail_child (opened_before n.slots slot_id n.count)
              (opened_after n.slots slot_id n.count) j (ground arith) h3)
    ]
insert_child-get_left_child slot_id child j false n h1 h2 h3 =
    let c : (n.count + 1) % 2 ^ 14 ≡ n.count + 1 = omega arith in
    rw c (
      insert_left n.slots (opened n.slots slot_id n.count) slot_id child n.count n.tail_child
        (opened_before n.slots slot_id n.count) (opened_after n.slots slot_id n.count) j h1 h3)

drop_record-get_left_child :
    (slot_id j : ℕ) (s : NodeState)
    → get_left_child (drop_record slot_id s).node j ≡ get_left_child s.node j
unfolding drop_record get_left_child
drop_record-get_left_child slot_id j s =
    elim (Bool-cases (s.node.slots slot_id).is_overflow_pages) [
      | inl t ↦ rw t (elim (Bool-cases (j == slot_id)) [
        | inl e ↦
            let same : slot_id ≡ j = ground arith in
            rw e (
              ap (λ k. if j == s.node.count then s.node.tail_child else (s.node.slots k).link) same)
        | inr e ↦ rw e refl
      ])
      | inr t ↦ rw t refl
    ]

drop_record-count :
    (slot_id : ℕ) (s : NodeState) → (drop_record slot_id s).node.count ≡ s.node.count
unfolding drop_record
drop_record-count slot_id s = elim (Bool-cases (s.node.slots slot_id).is_overflow_pages) [
  | inl t ↦ rw t refl
  | inr t ↦ rw t refl
]

delete_child-count :
    (slot_id : ℕ) (right_child : Bool) (n : Node)
    → (delete_child slot_id right_child n).count ≡ n.count - 1
unfolding delete_child
delete_child-count slot_id true n = elim (Bool-cases (ltb (slot_id + 1) n.count)) [
  | inl t ↦ rw t refl
  | inr t ↦ rw t refl
]
delete_child-count slot_id false n = refl

-- BranchNode::Delete of a key of the page: one key fewer, and the children are those before without the one to
-- the right of the key, or to its left, as asked; the others keep their order.
pub delete-get_left_child :
    (slot_id : ℕ) (right_child : Bool) (s : NodeState)
    → slot_id < s.node.count
    → ((delete slot_id right_child s).node.count + 1 ≡ s.node.count)
      × ((j : ℕ)
          → j < s.node.count
          → get_left_child (delete slot_id right_child s).node j
            ≡ without (child_at slot_id right_child) (get_left_child s.node) j)
unfolding delete
delete-get_left_child slot_id right_child s h =
    let m = (drop_record slot_id s).node in
    let c = drop_record-count slot_id s in
    let d = delete_child-count slot_id right_child m in
    (
      omega arith,
      λ j hj.
          delete_child-get_left_child slot_id j right_child m (omega arith) (omega arith)
          ∙ elim (Bool-cases (ltb j (child_at slot_id right_child))) [
            | inl t ↦ rw t (drop_record-get_left_child slot_id j s)
            | inr t ↦ rw t (drop_record-get_left_child slot_id (j + 1) s)
          ],
    )
