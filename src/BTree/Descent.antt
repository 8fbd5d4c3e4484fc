-- ===== src/BTree/Descent.antt =====
-- BTree::LowerBound of src/btree.cpp, the way down: which pages the path goes through.
use atomkv.Prelude.{
  ℕ, zero, suc, ◌+◌, ◌-◌, ◌/◌, ◌≤◌, ◌<◌, ◌≡◌, refl, sym, subst, Bool, true, false, inl, inr,
  Bool-cases, ◌==◌, arith, Ordering, ltb,
}
use native.Mathlib.Decide.{dec_lt}
use atomkv.Format.{page_invalid_id}
use atomkv.Comparator.{Key}
use atomkv.Space.InUse.{InUse}
use atomkv.Node.{Node, NodeState, is_leaf, get_key, lower_bound_loop, lower_bound as lower_bound_in}
use atomkv.Node.LowerBound.{Ordering-cases}
use atomkv.Branch.{get_left_child}
use atomkv.Stack.{set_at, front, push_back, empty}
use atomkv.BTree.{Bucket, TreeState, node_at, is_branch}
use atomkv.BTree.Iterator.{
  Iterator, Status, slot_of, push, down_into, down, descend, max_rounds, lower_bound, end, is_eq,
}
use atomkv.BTree.Steps.{Owned}
use atomkv.BTree.PathCopy.{page_at, IsPath}

-- The pages of the tree: the root, and the children of its branches.
pub data Reach (t : TreeState) : ℕ → Type 0 where
  root : (t.root_pgid == page_invalid_id) ≡ false → Reach t t.root_pgid
  child :
      (p j : ℕ)
      → Reach t p
      → is_leaf (t.pages p) ≡ false
      → j ≤ (t.pages p).count
      → Reach t (get_left_child (t.pages p) j)

-- The pages of the tree are in use, and the parent of a page that the open transaction may write is one, too.
pub record IsTree (bucket : Bucket) (t : TreeState) : Type 0 where
  pub in_use : (p : ℕ) → Reach t p → InUse t.space p
  pub closed :
      (p j : ℕ)
      → Reach t p
      → is_leaf (t.pages p) ≡ false
      → j ≤ (t.pages p).count
      → Owned bucket t (get_left_child (t.pages p) j)
      → Owned bucket t p

-- The position is inside, and where the flag is set it is that of an element.
abbrev pub InBounds : ℕ → ℕ × Bool → Type 0
InBounds n r = (r.0 ≤ n) × (r.1 ≡ true → r.0 < n)

lower_bound_loop-InBounds :
    (n : ℕ) (comp : ℕ → Ordering) (fuel pos len : ℕ) (eq : Bool)
    → pos + len ≤ n
    → (eq ≡ true → pos + len < n)
    → InBounds n (lower_bound_loop comp fuel pos len eq)
unfolding lower_bound_loop
lower_bound_loop-InBounds n comp zero pos len eq h k =
    (omega arith, λ e. let b = k e in omega arith)
lower_bound_loop-InBounds n comp (suc fuel) pos len eq h k = elim (Bool-cases (len == 0)) [
  | inl e ↦ rw (lower_bound_loop, e) (omega arith, λ t. let b = k t in omega arith)
  | inr e ↦
      let pos_len : 0 < len = ground arith in
      elim (Ordering-cases (comp (pos + len / 2))) [
        | inl o ↦
            rw (lower_bound_loop, e, o)
              (lower_bound_loop-InBounds n comp fuel (pos + len / 2 + 1) (len - len / 2 - 1) eq
                (omega arith) (λ t. let b = k t in omega arith))
        | inr (inl o) ↦
            rw (lower_bound_loop, e, o)
              (lower_bound_loop-InBounds n comp fuel pos (len / 2) true (omega arith)
                (λ t. omega arith))
        | inr (inr o) ↦
            rw (lower_bound_loop, e, o)
              (lower_bound_loop-InBounds n comp fuel pos (len / 2) eq (omega arith)
                (λ t. let b = k t in omega arith))
      ]
]

pub lower_bound_in-InBounds :
    (comparator : Key → Key → Ordering) (s : NodeState) (key : Key)
    → InBounds s.node.count (lower_bound_in comparator s key)
unfolding lower_bound_in
lower_bound_in-InBounds comparator s key =
    lower_bound_loop-InBounds s.node.count (λ i. comparator (get_key s i) key) s.node.count 0
      s.node.count false (omega arith) (λ e. absurd (cc))

pub slot_of-le : (n : Node) (r : ℕ × Bool) → InBounds n.count r → slot_of n r ≤ n.count
slot_of-le n (slot_id, true) b =
    let c = b.1 refl in
    elim (Bool-cases (is_branch n)) [ inl e ↦ rw e (omega arith) | inr e ↦ rw e b.0 ]
slot_of-le n (slot_id, false) b = b.0

-- The path goes from the root to a page below, child by child, and stands at a slot of its last page or behind them.
pub record Linked (t : TreeState) (it : Iterator) : Type 0 where
  pub reach : (j : ℕ) → j < it.stack.cur_pos → Reach t (page_at it j)
  pub step :
      (j : ℕ)
      → j + 1 < it.stack.cur_pos
      → (is_leaf (t.pages (page_at it j)) ≡ false)
        × ((s : ℕ) × (s ≤ (t.pages (page_at it j)).count)
            × (page_at it (j + 1) ≡ get_left_child (t.pages (page_at it j)) s))
  pub slot :
      (j : ℕ) → j + 1 ≡ it.stack.cur_pos → (it.stack.array j).1 ≤ (t.pages (page_at it j)).count

module _ (array : ℕ → ℕ × ℕ) (n : ℕ) (v : ℕ × ℕ) where
  pushed_below : (j : ℕ) → j < n → set_at array n v j ≡ array j
  pushed_below j h = let e : (j == n) ≡ false = ground arith in rw e refl

  pushed_last : (j : ℕ) → j + 1 ≡ n + 1 → set_at array n v j ≡ v
  pushed_last j h = let e : (j == n) ≡ true = ground arith in rw e refl

-- A child of a page, at a slot.
abbrev IsChild : TreeState → ℕ → ℕ → Type 0
IsChild t p c =
    (is_leaf (t.pages p) ≡ false)
    × ((s : ℕ) × (s ≤ (t.pages p).count) × (c ≡ get_left_child (t.pages p) s))

Linked-push :
    (t : TreeState) (it : Iterator) (pgid slot_id : ℕ) (status : Status)
    → Linked t it
    → Reach t pgid
    → ((j : ℕ) → j + 1 ≡ it.stack.cur_pos → IsChild t (page_at it j) pgid)
    → slot_id ≤ (t.pages pgid).count
    → Linked t (push (pgid, slot_id) (record it { status = status }))
unfolding push push_back
Linked-push t it pgid slot_id status l r c b =
    let n = it.stack.cur_pos in
    let a = it.stack.array in
    let below = pushed_below a n (pgid, slot_id) in
    let last = pushed_last a n (pgid, slot_id) in
    record {
      reach = λ j lt. elim (dec_lt j n) [
        | yes h ↦ subst (λ (x : ℕ × ℕ). Reach t x.0) (sym (below j h)) (l.reach j h)
        | no h ↦ subst (λ (x : ℕ × ℕ). Reach t x.0) (sym (last j (omega arith))) r
      ];
      step = λ j lt.
          subst (λ (x : ℕ × ℕ). IsChild t x.0 (set_at a n (pgid, slot_id) (j + 1)).0)
            (sym (below j (omega arith)))
            (elim (dec_lt (j + 1) n) [
              | yes h ↦
                  subst (λ (x : ℕ × ℕ). IsChild t (a j).0 x.0) (sym (below (j + 1) h)) (l.step j h)
              | no h ↦
                  subst (λ (x : ℕ × ℕ). IsChild t (a j).0 x.0) (sym (last (j + 1) (omega arith)))
                    (c j (omega arith))
            ]);
      slot = λ j e. subst (λ (x : ℕ × ℕ). x.1 ≤ (t.pages x.0).count) (sym (last j e)) b;
    }

Linked-end : (t : TreeState) → Linked t end
Linked-end t = record {
  reach = λ j lt. absurd (omega arith);
  step = λ j lt. absurd (omega arith);
  slot = λ j e. absurd (omega arith);
}

down_into-Linked :
    (bucket : Bucket) (key : Key) (t : TreeState) (pgid : ℕ) (it : Iterator)
    → Linked t it
    → Reach t pgid
    → ((j : ℕ) → j + 1 ≡ it.stack.cur_pos → IsChild t (page_at it j) pgid)
    → Linked t (down_into bucket key t pgid it)
unfolding down_into
down_into-Linked bucket key t pgid it l r c =
    let s = node_at t pgid in
    elim (Bool-cases (ltb 0 s.node.count)) [
      | inl e ↦ rw e (
          Linked-push t it pgid _ _ l r c (
            slot_of-le s.node (lower_bound_in bucket.comparator s key)
              (lower_bound_in-InBounds bucket.comparator s key)))
      | inr e ↦ rw e (Linked-push t it pgid _ _ l r c (omega arith))
    ]

down-Linked :
    (bucket : Bucket) (key : Key) (t : TreeState) (it : Iterator)
    → Linked t it
    → Linked t (down bucket key t it).1
unfolding down front empty
down-Linked bucket key t it l = elim (Bool-cases (empty it.stack)) [
  | inl e ↦ elim (Bool-cases (t.root_pgid == page_invalid_id)) [
    | inl i ↦ rw (e, i) l
    | inr i ↦
        rw (e, i)
          (down_into-Linked bucket key t t.root_pgid it l (root i) (λ j h. absurd (ground arith)))
  ]
  | inr e ↦
      let i = it.stack.cur_pos - 1 in
      let p = page_at it i in
      let slot_id = (it.stack.array i).1 in
      let r = l.reach i (ground arith) in
      let b = l.slot i (ground arith) in
      elim (Bool-cases (is_leaf (t.pages p))) [
        | inl f ↦ rw (e, f) l
        | inr f ↦
            rw (e, f)
              (down_into-Linked bucket key t (get_left_child (t.pages p) slot_id) it l
                (child p slot_id r f b)
                (λ j h.
                  let same : i ≡ j = omega arith in
                  subst (λ k. IsChild t (page_at it k) (get_left_child (t.pages p) slot_id)) same
                    (f, (slot_id, b, refl))))
      ]
]

descend-Linked :
    (fuel : ℕ) (bucket : Bucket) (key : Key) (t : TreeState) (it : Iterator)
    → Linked t it
    → Linked t (descend fuel bucket key t it)
unfolding descend
descend-Linked zero bucket key t it l = l
descend-Linked (suc fuel) bucket key t it l =
    let l' = down-Linked bucket key t it l in
    elim (Bool-cases (down bucket key t it).0) [
      | inl e ↦ rw (descend, e) (descend-Linked fuel bucket key t (down bucket key t it).1 l')
      | inr e ↦ rw (descend, e) l'
    ]

pub lower_bound-Linked :
    (bucket : Bucket) (key : Key) (t : TreeState) → Linked t (lower_bound bucket key t)
unfolding lower_bound
lower_bound-Linked bucket key t = descend-Linked max_rounds bucket key t end (Linked-end t)

-- Above a page of the path that the open transaction may write there are only such pages.
closed_path :
    (bucket : Bucket) (t : TreeState) (it : Iterator) (v : IsTree bucket t) (l : Linked t it)
    (d i : ℕ)
    → d + i < it.stack.cur_pos
    → Owned bucket t (page_at it (d + i))
    → Owned bucket t (page_at it i)
closed_path bucket t it v l zero i h o = subst (λ k. Owned bucket t (page_at it k)) (omega arith) o
closed_path bucket t it v l (suc d) i h o =
    let e : suc d + i ≡ d + i + 1 = omega arith in
    let c = l.step (d + i) (omega arith) in
    let o' = subst (λ k. Owned bucket t (page_at it k)) e o in
    closed_path bucket t it v l d i (omega arith) (
      v.closed (page_at it (d + i)) c.1.0 (l.reach (d + i) (omega arith)) c.0 c.1.1
        (subst (Owned bucket t) c.1.2 o'))

-- The path to a key in a tree.
pub lower_bound-IsPath :
    (bucket : Bucket) (key : Key) (t : TreeState)
    → IsTree bucket t
    → IsPath bucket t (lower_bound bucket key t)
lower_bound-IsPath bucket key t v =
    let it = lower_bound bucket key t in
    let l = lower_bound-Linked bucket key t in
    record {
      in_use = λ j lt. v.in_use (page_at it j) (l.reach j lt);
      closed = λ i j le lt o.
          let e : j ≡ j - i + i = omega arith in
          closed_path bucket t it v l (j - i) i (omega arith)
            (subst (λ k. Owned bucket t (page_at it k)) e o);
    }

-- A key is only found in a page of the path.
abbrev HasPath : Iterator → Type 0
HasPath it = is_eq it.status ≡ true → 0 < it.stack.cur_pos

down-HasPath :
    (bucket : Bucket) (key : Key) (t : TreeState) (it : Iterator)
    → HasPath it
    → HasPath (down bucket key t it).1
unfolding down down_into push push_back
down-HasPath bucket key t it h = elim (Bool-cases (empty it.stack)) [
  | inl e ↦ elim (Bool-cases (t.root_pgid == page_invalid_id)) [
    | inl i ↦ rw (e, i) h
    | inr i ↦ rw (e, i) (λ k. omega arith)
  ]
  | inr e ↦ elim (Bool-cases (is_leaf (t.pages (front it.stack).0))) [
    | inl f ↦ rw (e, f) h
    | inr f ↦ rw (e, f) (λ k. omega arith)
  ]
]

descend-HasPath :
    (fuel : ℕ) (bucket : Bucket) (key : Key) (t : TreeState) (it : Iterator)
    → HasPath it
    → HasPath (descend fuel bucket key t it)
unfolding descend
descend-HasPath zero bucket key t it h = h
descend-HasPath (suc fuel) bucket key t it h =
    let h' = down-HasPath bucket key t it h in
    elim (Bool-cases (down bucket key t it).0) [
      | inl e ↦ rw (descend, e) (descend-HasPath fuel bucket key t (down bucket key t it).1 h')
      | inr e ↦ rw (descend, e) h'
    ]

pub lower_bound-HasPath :
    (bucket : Bucket) (key : Key) (t : TreeState)
    → is_eq (lower_bound bucket key t).status ≡ true
    → 0 < (lower_bound bucket key t).stack.cur_pos
unfolding lower_bound
lower_bound-HasPath bucket key t = descend-HasPath max_rounds bucket key t end (λ e. absurd (cc))
