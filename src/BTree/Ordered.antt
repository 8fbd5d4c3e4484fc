-- ===== src/BTree/Ordered.antt =====
-- The order of a tree of src/btree.cpp as a comparator sees it from a key, and what LowerBound of src/node.cpp finds in
-- one page of it.
use atomkv.Prelude.{
  ℕ, zero, suc, ◌+◌, ◌-◌, ◌≤◌, ◌<◌, ◌≡◌, ◌≢◌, refl, sym, ap, subst, ◌∙◌, Bool, true, false, inl,
  inr, Bool-cases, ◌==◌, ◌&&◌, arith, Ordering, ltb, if◌then◌else◌,
}
use native.Mathlib.Decide.{dec_lt, ℕ_discrete}
use atomkv.Comparator.{Key}
use atomkv.Node.{
  NodeType, invalid, branch, leaf, Node, is_leaf_type, is_leaf, get_key,
  lower_bound as lower_bound_in,
}
use atomkv.Node.LowerBound.{Ordering-cases, IsAscending, IsLowerBound, lower_bound-IsLowerBound}
use atomkv.Branch.{get_left_child}
use atomkv.Stack.{set_at, front, push_back}
use atomkv.BTree.{Bucket, TreeState, node_at, is_branch_type, is_branch}
use atomkv.BTree.Iterator.{Iterator, slot_of, push, down_into, is_eq}

-- With the flag not set, the elements from the position on are greater, and none is equal.
greater_after :
    (n : ℕ) (comp : ℕ → Ordering) (pos i : ℕ)
    → IsAscending n comp
    → IsLowerBound n comp pos false
    → pos ≤ i
    → i < n
    → comp i ≡ Ordering.gt
greater_after n comp pos i v b h1 h2 =
    let less = b.after pos (omega arith) (omega arith) in
    let equal = b.missed refl (omega arith) in
    elim (Ordering-cases (comp pos)) [
      | inl e ↦ absurd (less e)
      | inr (inl e) ↦ absurd (equal e)
      | inr (inr e) ↦ v.greater pos i h1 h2 e
    ]

none_equal :
    (n : ℕ) (comp : ℕ → Ordering) (pos i : ℕ)
    → IsAscending n comp
    → IsLowerBound n comp pos false
    → i < n
    → comp i ≢ Ordering.eq
none_equal n comp pos i v b h m = elim (dec_lt i pos) [
  | yes lt ↦ let e = b.before i lt in cc (e, m)
  | no ge ↦ let e = greater_after n comp pos i v b (omega arith) h in cc (e, m)
]

pub leaf_not_branch : (type : NodeType) → is_leaf_type type ≡ true → is_branch_type type ≡ false
leaf_not_branch invalid h = refl
leaf_not_branch branch h = absurd (cc)
leaf_not_branch leaf h = refl

pub branch_not_leaf : (type : NodeType) → is_branch_type type ≡ true → is_leaf_type type ≡ false
branch_not_leaf invalid h = refl
branch_not_leaf branch h = refl
branch_not_leaf leaf h = absurd (cc)

leaf_slot : (n : Node) (r : ℕ × Bool) → is_leaf n ≡ true → slot_of n r ≡ r.0
leaf_slot n (slot_id, true) h = rw (leaf_not_branch n.type h) refl
leaf_slot n (slot_id, false) h = refl

branch_slot :
    (n : Node) (r : ℕ × Bool) → is_branch n ≡ true → slot_of n r ≡ (if r.1 then r.0 + 1 else r.0)
branch_slot n (slot_id, true) h = rw h refl
branch_slot n (slot_id, false) h = refl

pushed_front : (array : ℕ → ℕ × ℕ) (n : ℕ) (v : ℕ × ℕ) → set_at array n v (n + 1 - 1) ≡ v
pushed_front array n v = let e : n + 1 - 1 ≡ n = omega arith in rw e (ground arith)

module _ (bucket : Bucket) (key : Key) (t : TreeState) where
  -- How the comparator sees key `i` of a page from the key that is searched for.
  abbrev pub comp_at : ℕ → ℕ → Ordering
  comp_at p i = bucket.comparator (get_key (node_at t p) i) key

  abbrev pub child_at : ℕ → ℕ → ℕ
  child_at p j = get_left_child (t.pages p) j

  -- The leaves below the page are `h` pages down.
  unfoldable pub IsOfHeight : ℕ → ℕ → Type 0
  IsOfHeight zero p = is_leaf (t.pages p) ≡ true
  IsOfHeight (suc h) p =
      (is_branch (t.pages p) ≡ true)
      × ((j : ℕ) → j ≤ (t.pages p).count → IsOfHeight h (child_at p j))

  -- The slot of the leaf is a record below the page.
  unfoldable pub HasEntry : ℕ → ℕ → ℕ × ℕ → Type 0
  HasEntry zero p e = (e.0 ≡ p) × (e.1 < (t.pages p).count)
  HasEntry (suc h) p e = (j : ℕ) × (j ≤ (t.pages p).count) × HasEntry h (child_at p j) e

  -- The pages below are in order, as the comparator sees it from the key: the keys of a page ascend; in a branch at most
  -- one is equal; what is below a child is less if the key to the right of the child is not greater, and
  -- greater if the key to the left is greater.
  unfoldable pub IsSearchTree : ℕ → ℕ → Type 0
  IsSearchTree zero p = IsAscending (t.pages p).count (comp_at p)
  IsSearchTree (suc h) p =
      IsAscending (t.pages p).count (comp_at p)
      × ((i j : ℕ)
          → i < j
          → j < (t.pages p).count
          → comp_at p i ≡ Ordering.eq
          → comp_at p j ≡ Ordering.gt)
      × ((j : ℕ) → j ≤ (t.pages p).count → IsSearchTree h (child_at p j))
      × ((j : ℕ) (e : ℕ × ℕ)
          → j < (t.pages p).count
          → HasEntry h (child_at p j) e
          → comp_at p j ≢ Ordering.gt
          → comp_at e.0 e.1 ≡ Ordering.lt)
      × ((j : ℕ) (e : ℕ × ℕ)
          → j < (t.pages p).count
          → HasEntry h (child_at p (j + 1)) e
          → comp_at p j ≡ Ordering.gt
          → comp_at e.0 e.1 ≡ Ordering.gt)

  -- The iterator stands at a record with the key, if there is one below the page.
  pub record Finds (h p : ℕ) (it : Iterator) : Type 0 where
    pub found :
        is_eq it.status ≡ true
        → HasEntry h p (front it.stack)
          × (comp_at (front it.stack).0 (front it.stack).1 ≡ Ordering.eq)
    pub missed :
        is_eq it.status ≡ false → (e : ℕ × ℕ) → HasEntry h p e → comp_at e.0 e.1 ≢ Ordering.eq

  -- What LowerBound gives in the page; it is not called on an empty page.
  abbrev pub place : ℕ → ℕ × Bool
  place p =
      if ltb 0 (t.pages p).count
      then lower_bound_in bucket.comparator (node_at t p) key
      else (0, false)

  pub place-IsLowerBound :
      (p : ℕ)
      → IsAscending (t.pages p).count (comp_at p)
      → IsLowerBound (t.pages p).count (comp_at p) (place p).0 (place p).1
  place-IsLowerBound p v = elim (Bool-cases (ltb 0 (t.pages p).count)) [
    | inl e ↦ rw (place, e) (lower_bound-IsLowerBound bucket.comparator (node_at t p) key v)
    | inr e ↦
        rw (place, e)
          (record {
            bound = omega arith;
            before = λ i h. absurd (omega arith);
            after = λ i h1 h2. absurd (ground arith);
            found = λ h. absurd (cc);
            missed = λ h lt. absurd (ground arith);
          })
  ]

  -- Down comes to the page.
  unfoldable pub into : ℕ → Iterator → Iterator
  into p it = down_into bucket key t p it

  pub into-status : (p : ℕ) (it : Iterator) → is_eq (into p it).status ≡ (place p).1
  unfolding into down_into push
  into-status p it = elim (Bool-cases (ltb 0 (t.pages p).count)) [
    | inl e ↦ elim (Bool-cases (lower_bound_in bucket.comparator (node_at t p) key).1) [
      | inl f ↦ rw (place, e, f) refl
      | inr f ↦
          elim (Bool-cases (
            (lower_bound_in bucket.comparator (node_at t p) key).0 == (t.pages p).count
            && is_leaf (t.pages p))) [
              | inl g ↦ rw (place, e, f, g) refl
              | inr g ↦ rw (place, e, f, g) refl
            ]
    ]
    | inr e ↦ rw (place, e) refl
  ]

  pub into-front :
      (p : ℕ) (it : Iterator) → front (into p it).stack ≡ (p, slot_of (t.pages p) (place p))
  unfolding into down_into push push_back front
  into-front p it = pushed_front it.stack.array it.stack.cur_pos (p, slot_of (t.pages p) (place p))

  pub into-cur_pos : (p : ℕ) (it : Iterator) → (into p it).stack.cur_pos ≡ it.stack.cur_pos + 1
  unfolding into down_into push push_back
  into-cur_pos p it = refl

  pub leaf-Finds :
      (p : ℕ) (it : Iterator)
      → is_leaf (t.pages p) ≡ true
      → IsSearchTree zero p
      → Finds zero p (into p it)
  unfolding IsSearchTree HasEntry
  leaf-Finds p it l v =
      let b = place-IsLowerBound p v in
      let f : front (into p it).stack ≡ (p, (place p).0) =
        into-front p it ∙ ap (λ (s : ℕ). (p, s)) (leaf_slot (t.pages p) (place p) l) in
      record {
        found = λ h. let g = b.found (sym (into-status p it) ∙ h) in rw f ((refl, g.0), g.1);
        missed = λ h e m.
            let b' =
              subst (IsLowerBound (t.pages p).count (comp_at p) (place p).0)
                (sym (into-status p it) ∙ h) b in
            λ m'.
              none_equal (t.pages p).count (comp_at p) (place p).0 e.1 v b' m.1
                (ap (λ q. comp_at q e.1) (sym m.0) ∙ m');
      }

  -- The key to the right of an earlier child is not greater, and the key to the left of a later child is greater.
  pub separators :
      (p : ℕ) (slot : ℕ) (r : ℕ × Bool)
      → IsAscending (t.pages p).count (comp_at p)
      → ((i j : ℕ)
          → i < j
          → j < (t.pages p).count
          → comp_at p i ≡ Ordering.eq
          → comp_at p j ≡ Ordering.gt)
      → IsLowerBound (t.pages p).count (comp_at p) r.0 r.1
      → slot ≡ (if r.1 then r.0 + 1 else r.0)
      → ((j : ℕ) → j < slot → (j < (t.pages p).count) × (comp_at p j ≢ Ordering.gt))
        × ((i : ℕ) → slot ≤ i → i < (t.pages p).count → comp_at p i ≡ Ordering.gt)
  separators p slot (pos, true) v d b e =
      let f = b.found refl in
      (
        λ j h. (
          omega arith,
          λ g. elim (dec_lt j pos) [
            | yes lt ↦ let l = b.before j lt in cc (l, g)
            | no ge ↦
                let same : pos ≡ j = omega arith in
                let q = ap (comp_at p) same in let f1 = f.1 in cc (q, f1, g)
          ],
        ),
        λ i h lt. d pos i (omega arith) lt f.1,
      )
  separators p slot (pos, false) v d b e = (
    λ j h. (let u = b.bound in omega arith, λ g. let l = b.before j (omega arith) in cc (l, g)),
    λ i h lt. greater_after (t.pages p).count (comp_at p) pos i v b (omega arith) lt,
  )

  -- In a branch: what is below the other children is not equal.
  pub other_children :
      (h p j : ℕ) (e : ℕ × ℕ)
      → is_branch (t.pages p) ≡ true
      → IsSearchTree (suc h) p
      → j ≤ (t.pages p).count
      → HasEntry h (child_at p j) e
      → j ≢ slot_of (t.pages p) (place p)
      → comp_at e.0 e.1 ≢ Ordering.eq
  unfolding IsSearchTree
  other_children h p j e b v le m ne m' =
      let slot = slot_of (t.pages p) (place p) in
      let k =
        separators p slot (place p) v.0 v.1 (place-IsLowerBound p v.0)
          (branch_slot (t.pages p) (place p) b) in
      elim (dec_lt j slot) [
        | yes lt ↦ let f = k.0 j lt in let l = v.3 j e f.0 m f.1 in cc (l, m')
        | no ge ↦
            let same : j ≡ j - 1 + 1 = omega arith in
            let g =
              v.4 (j - 1) e (omega arith) (subst (λ i. HasEntry h (child_at p i) e) same m)
                (k.1 (j - 1) (omega arith) (omega arith)) in
            cc (g, m')
      ]

  pub branch-Finds :
      (h p : ℕ) (it : Iterator)
      → is_branch (t.pages p) ≡ true
      → IsSearchTree (suc h) p
      → slot_of (t.pages p) (place p) ≤ (t.pages p).count
      → Finds h (child_at p (slot_of (t.pages p) (place p))) it
      → Finds (suc h) p it
  unfolding HasEntry
  branch-Finds h p it b v le f =
      let slot = slot_of (t.pages p) (place p) in
      record {
        found = λ e. let g = f.found e in ((slot, le, g.0), g.1);
        missed = λ e x m. elim (ℕ_discrete m.0 slot) [
          | yes same ↦ f.missed e x (subst (λ i. HasEntry h (child_at p i) x) same m.2)
          | no ne ↦ other_children h p m.0 x b v m.1 m.2 ne
        ];
      }
