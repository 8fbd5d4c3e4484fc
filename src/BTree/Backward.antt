-- ===== src/BTree/Backward.antt =====
-- BTreeIterator::Last and Prev of src/btree_iterator.cpp: where going backward starts.
use atomkv.Prelude.{
  ℕ, zero, suc, ◌-◌, ◌≤◌, ◌<◌, ◌≡◌, refl, sym, ap, subst, ◌∙◌, Bool-cases, false, true, inl, inr,
  arith, ◌==◌, ltb, ◌⊎◌,
}
use atomkv.Node.{is_leaf}
use atomkv.Branch.{get_left_child}
use atomkv.Stack.{push_back, pop_back, front, empty, at_pos}
use atomkv.Stack.Contents.{set_at-ne, set_at-at}
use atomkv.BTree.{TreeState, is_branch}
use atomkv.BTree.Ordered.{branch_not_leaf}
use atomkv.BTree.Iterator.{
  Iterator, k_iter, push, last_loop, last, prev, prev_loop, set_front, set_slot_at, pop, end,
  max_rounds,
}

module _ (t : TreeState) where
  push-at :
      (v : ℕ × ℕ) (it : Iterator) (i : ℕ)
      → i < it.stack.cur_pos
      → at_pos (push v it).stack i ≡ at_pos it.stack i
  unfolding push push_back at_pos
  push-at v it i h = set_at-ne it.stack.array it.stack.cur_pos i v (omega arith)

  -- The loop of Last only adds to the path.
  last_loop-at :
      (fuel pgid : ℕ) (it : Iterator) (i : ℕ)
      → i < it.stack.cur_pos
      → at_pos (last_loop fuel t pgid it).stack i ≡ at_pos it.stack i
  unfolding last_loop push push_back
  last_loop-at zero pgid it i h = refl
  last_loop-at (suc fuel) pgid it i h = elim (Bool-cases (is_leaf (t.pages pgid))) [
    | inl l ↦ elim (Bool-cases ((t.pages pgid).count == 0)) [
      | inl e ↦ rw (last_loop, l, e) refl
      | inr e ↦ rw (last_loop, l, e) (push-at (pgid, (t.pages pgid).count - 1) it i h)
    ]
    | inr l ↦
        let down = push (pgid, (t.pages pgid).count - 1) it in
        rw (last_loop, l)
          (last_loop-at fuel (get_left_child (t.pages pgid) ((t.pages pgid).count - 1)) down i
              (omega arith)
            ∙ push-at (pgid, (t.pages pgid).count - 1) it i h)
  ]

  last_loop-cur_pos :
      (fuel pgid : ℕ) (it : Iterator) → it.stack.cur_pos ≤ (last_loop fuel t pgid it).stack.cur_pos
  unfolding last_loop push push_back
  last_loop-cur_pos zero pgid it = omega arith
  last_loop-cur_pos (suc fuel) pgid it = elim (Bool-cases (is_leaf (t.pages pgid))) [
    | inl l ↦ elim (Bool-cases ((t.pages pgid).count == 0)) [
      | inl e ↦ rw (last_loop, l, e) (omega arith)
      | inr e ↦ rw (last_loop, l, e) (omega arith)
    ]
    | inr l ↦
        let down = push (pgid, (t.pages pgid).count - 1) it in
        let more =
          last_loop-cur_pos fuel (get_left_child (t.pages pgid) ((t.pages pgid).count - 1)) down in
        rw (last_loop, l) (omega arith)
  ]

  abbrev root_count : ℕ
  root_count = (t.pages t.root_pgid).count

  -- The path is empty, or begins at the root with a slot of a key.
  pub record AtKey (it : Iterator) : Type 0 where
    pub some : 0 < it.stack.cur_pos
    pub page : (at_pos it.stack 0).0 ≡ t.root_pgid
    pub slot : (at_pos it.stack 0).1 ≤ root_count - 1

  pub IsBackward : Iterator → Type 0
  IsBackward it = (it.stack.cur_pos ≡ 0) ⊎ AtKey it

  -- Last goes on below a path that is not empty.
  last_loop-AtKey : (fuel pgid : ℕ) (it : Iterator) → AtKey it → AtKey (last_loop fuel t pgid it)
  last_loop-AtKey fuel pgid it v =
      let same = sym (last_loop-at fuel pgid it 0 v.some) in
      let more = last_loop-cur_pos fuel pgid it in
      record {
        some = let s = v.some in omega arith;
        page = subst (λ (e : ℕ × ℕ). e.0 ≡ t.root_pgid) same v.page;
        slot = subst (λ (e : ℕ × ℕ). e.1 ≤ root_count - 1) same v.slot;
      }

  last-AtKey : (pgid : ℕ) (it : Iterator) → AtKey it → AtKey (last t pgid it)
  unfolding last at_pos
  last-AtKey pgid it v =
      last_loop-AtKey max_rounds pgid (record it { status = k_iter })
        (record { some = v.some; page = v.page; slot = v.slot })

  -- From an empty path, at a root that is a branch.
  last_loop-root :
      (rounds fuel : ℕ) (it : Iterator)
      → rounds ≡ suc fuel
      → is_leaf (t.pages t.root_pgid) ≡ false
      → it.stack.cur_pos ≡ 0
      → AtKey (last_loop rounds t t.root_pgid it)
  unfolding last_loop push push_back at_pos
  last_loop-root rounds fuel it h l e =
      rw (h, last_loop, l)
        (last_loop-AtKey fuel (get_left_child (t.pages t.root_pgid) (root_count - 1))
          (push (t.root_pgid, root_count - 1) it)
          (record { some = omega arith; page = rw e refl; slot = rw e (omega arith) }))

  set_front-AtKey :
      (v : ℕ × ℕ) (it : Iterator)
      → AtKey it
      → v.0 ≡ (front it.stack).0
      → v.1 ≤ (front it.stack).1
      → AtKey (set_front v it)
  unfolding set_front set_slot_at at_pos front
  set_front-AtKey v it k same less = elim (Bool-cases (it.stack.cur_pos - 1 == 0)) [
    | inl e ↦
        let first : it.stack.cur_pos - 1 ≡ 0 = ground arith in
        let page = same ∙ ap (λ i. (it.stack.array i).0) first ∙ k.page in
        let q = ap (λ i. (it.stack.array i).1) first in
        let b = k.slot in
        rw first (record {
          some = k.some;
          page = ap (λ (e : ℕ × ℕ). e.0) (set_at-at it.stack.array 0 v) ∙ page;
          slot =
              subst (λ (e : ℕ × ℕ). e.1 ≤ root_count - 1) (sym (set_at-at it.stack.array 0 v))
                (omega arith);
        })
    | inr e ↦
        let other = set_at-ne it.stack.array (it.stack.cur_pos - 1) 0 v (ground arith) in
        record {
          some = k.some;
          page = ap (λ (e : ℕ × ℕ). e.0) other ∙ k.page;
          slot = subst (λ (e : ℕ × ℕ). e.1 ≤ root_count - 1) (sym other) k.slot;
        }
  ]

  pop-AtKey : (it : Iterator) → AtKey it → empty (pop it).stack ≡ false → AtKey (pop it)
  unfolding pop pop_back empty at_pos
  pop-AtKey it k e = record { some = ground arith; page = k.page; slot = k.slot }

  empty-cur_pos : (it : Iterator) → empty it.stack ≡ true → it.stack.cur_pos ≡ 0
  unfolding empty
  empty-cur_pos it e = ground arith

  prev_loop-IsBackward : (fuel : ℕ) (it : Iterator) → AtKey it → IsBackward (prev_loop fuel t it)
  unfolding IsBackward prev_loop
  prev_loop-IsBackward zero it k = inr k
  prev_loop-IsBackward (suc fuel) it k =
      let page = (front it.stack).0 in
      let slot = (front it.stack).1 in
      let moved = set_front-AtKey (page, slot - 1) it k refl (omega arith) in
      elim (Bool-cases (ltb 0 slot)) [
        | inl c ↦ elim (Bool-cases (is_leaf (t.pages page))) [
          | inl l ↦ rw (prev_loop, c, l) (inr moved)
          | inr l ↦
              rw (prev_loop, c, l)
                (inr (
                  last-AtKey (get_left_child (t.pages page) (slot - 1))
                    (set_front (page, slot - 1) it) moved))
        ]
        | inr c ↦ elim (Bool-cases (empty (pop it).stack)) [
          | inl e ↦ rw (prev_loop, c, e) (inl (empty-cur_pos (pop it) e))
          | inr e ↦ rw (prev_loop, c, e) (prev_loop-IsBackward fuel (pop it) (pop-AtKey it k e))
        ]
      ]

  prev-IsBackward :
      (it : Iterator)
      → is_leaf (t.pages t.root_pgid) ≡ false
      → IsBackward it
      → IsBackward (prev t it)
  unfolding IsBackward prev last empty
  prev-IsBackward it l (inl e) =
      let none : (it.stack.cur_pos == 0) ≡ true = rw e refl in
      rw (prev, none)
        (inr (last_loop-root max_rounds 32 (record it { status = k_iter }) (omega arith) l e))
  prev-IsBackward it l (inr k) =
      let some = k.some in
      let busy : (it.stack.cur_pos == 0) ≡ false = ground arith in
      rw (prev, busy) (prev_loop-IsBackward it.stack.cur_pos it k)

  -- The iterator after that many calls of Prev.
  unfoldable pub prevs : ℕ → Iterator → Iterator
  unfolding prev
  prevs zero it = it
  prevs (suc n) it = prev t (prevs n it)

  -- Where the root is a branch, Prev never comes to the records below its tail child: however often it is called from
  -- the end, the iterator is at the end again, or its path begins at the root with the slot of a key, and
  -- the tail child stands behind the last of them.
  pub prevs-IsBackward : (n : ℕ) → is_branch (t.pages t.root_pgid) ≡ true → IsBackward (prevs n end)
  unfolding prevs IsBackward
  prevs-IsBackward zero b = inl refl
  prevs-IsBackward (suc n) b =
      prev-IsBackward (prevs n end) (branch_not_leaf (t.pages t.root_pgid).type b)
        (prevs-IsBackward n b)
