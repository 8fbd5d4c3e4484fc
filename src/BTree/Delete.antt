-- ===== src/BTree/Delete.antt =====
-- src/btree.cpp: GetSibling, Merge and Delete.
use atomkv.Prelude.{ℕ, zero, suc, ◌+◌, ◌-◌, Bool, true, false, ◌&&◌, leb, ◌==◌, if◌then◌else◌}
use atomkv.Format.{page_invalid_id}
use atomkv.Result.{ok}
use atomkv.Comparator.{Key}
use atomkv.Node.{get_key, get_value}
use atomkv.Leaf as Leaf
use atomkv.Branch as Branch
use atomkv.Stack.{front, empty}
use atomkv.BTree.{
  Bucket, TreeExec, ◌>>=◌, ◌>>◌, return, read, run, run_state, run_node, set_root, free_page, copy,
  count_of, is_filled, is_over_half,
}
use atomkv.BTree.Iterator.{Iterator, is_eq, push, pop, lower_bound, copy_all_pages_by_path}
use atomkv.BTree.Put.{append_from, append_key_from, is_bucket_at, put_up}

-- GetSibling: the parent, its slot, the sibling, and whether it is the left one. The slot is the one after
-- `if (left_sibling) --parent_slot_id;`, with which both callers go on.
pub record Sibling : Type 0 where
  pub parent : ℕ
  pub parent_slot_id : ℕ
  pub sibling : ℕ
  pub left_sibling : Bool

-- iter->Pop() is the callers'.
unfoldable pub get_sibling : Iterator → TreeExec Sibling
get_sibling it = do
  let slot_id = (front it.stack).1
  let parent = (front it.stack).0
  n ← read parent (λ s. s.node)
  return (
      if slot_id == n.count
      then record {
        parent = parent;
        parent_slot_id = slot_id - 1;
        sibling = Branch.get_left_child n (slot_id - 1);
        left_sibling = true;
      }
      else record {
        parent = parent;
        parent_slot_id = slot_id;
        sibling = Branch.get_right_child n slot_id;
        left_sibling = false;
      })

-- The slot of the parent whose left child is the sibling.
abbrev pub sibling_slot : Sibling → ℕ
sibling_slot b = if b.left_sibling then b.parent_slot_id else b.parent_slot_id + 1

-- if (CopyNeeded(sibling.last_modified_txid())) …
unfoldable pub copy_sibling : Bucket → Sibling → TreeExec ℕ
copy_sibling bucket b = do
  n ← read b.sibling (λ s. s.node)
  elim (bucket.copy_needed n.last_modified_txid) [
    | false ↦ return b.sibling
    | true ↦ do
      new_pgid ← copy bucket b.sibling
      run_node b.parent (Branch.set_left_child (sibling_slot b) new_pgid)
      return new_pgid
  ]

-- The loop of Merge of branches, from slot `i` on.
unfoldable pub merge_branch_loop : ℕ → ℕ → ℕ → ℕ → TreeExec (Unit {0})
merge_branch_loop zero i left right = return tt
merge_branch_loop (suc rounds) i left right = do
  append_key_from false left right i
  merge_branch_loop rounds (i + 1) left right

-- right.Destroy() is empty.
unfoldable pub merge_branch : ℕ → ℕ → Key → TreeExec (Unit {0})
merge_branch left right down_key = do
  success ← run left (Branch.append down_key page_invalid_id true)
  right_count ← read right count_of
  merge_branch_loop right_count 0 left right
  tail_child ← read right (λ s. s.node.tail_child)
  run_node left (λ n. record n { tail_child = tail_child })
  free_page right

unfoldable pub merge_leaf_loop : ℕ → ℕ → ℕ → ℕ → TreeExec (Unit {0})
merge_leaf_loop zero i left right = return tt
merge_leaf_loop (suc rounds) i left right = do
  append_from left right i
  merge_leaf_loop rounds (i + 1) left right

unfoldable pub merge_leaf : ℕ → ℕ → TreeExec (Unit {0})
merge_leaf left right = do
  right_count ← read right count_of
  merge_leaf_loop right_count 0 left right
  free_page right

-- if (success == false) …: the key leaves the parent, and is put in again from below.
unfoldable pub update_or_put :
    Bool → Bucket → Iterator → Sibling → ℕ → ℕ → Key → TreeExec (Unit {0})
update_or_put true bucket it b sibling node new_key = return tt
update_or_put false bucket it b sibling node new_key = do
  run_state b.parent (Branch.delete b.parent_slot_id true)
  let it' = push (b.parent, b.parent_slot_id) it
  let left = if b.left_sibling then sibling else node
  let right = if b.left_sibling then node else sibling
  put_up (suc it'.stack.cur_pos) bucket it' left right new_key

-- A key of the sibling goes up to the parent, whose key comes down to the branch; the new key of the parent.
unfoldable pub borrow_key : Sibling → ℕ → ℕ → TreeExec Key
borrow_key b sibling node = do
  down_key ← read b.parent (λ s. get_key s b.parent_slot_id)
  elim b.left_sibling as (λ x. TreeExec Key) [
    | true ↦ do
      child ← read sibling (λ s. s.node.tail_child)
      success ← run node (Branch.insert 0 down_key child false)
      new_key ← read sibling (λ s. get_key s (s.node.count - 1))
      run_state sibling (Branch.pop true)
      return new_key
    | false ↦ do
      run_node b.parent (Branch.set_left_child (b.parent_slot_id + 1) sibling)
      child ← read sibling (λ s. Branch.get_left_child s.node 0)
      success ← run node (Branch.append down_key child true)
      new_key ← read sibling (λ s. get_key s 0)
      run_state sibling (Branch.delete 0 false)
      return new_key
  ]

-- sibling.GetFillRate() > 0.5 && sibling.count() >= 2
abbrev pub can_lend : TreeExec Bool → TreeExec ℕ → TreeExec Bool
can_lend over count = do o ← over; c ← count; return (o && leb 2 c)

-- "Check if there are no child nodes": the last remaining child becomes the root.
unfoldable pub shrink_root : ℕ → TreeExec (Unit {0})
shrink_root node = do
  n ← read node (λ s. s.node)
  if n.count == 0 then set_root n.tail_child >> free_page node else return tt

-- Delete(iter, node, left_del_slot_id): every call but the last pops an element of the path.
unfoldable pub delete_up : ℕ → Bucket → Iterator → ℕ → ℕ → TreeExec (Unit {0})
delete_up zero bucket it node slot_id = return tt
delete_up (suc fuel) bucket it node slot_id = do
  run_state node (Branch.delete slot_id true)
  filled ← read node is_filled
  elim (empty it.stack) [
    | true ↦ shrink_root node
    | false ↦ elim filled [
      | true ↦ return tt
      | false ↦ do
        b ← get_sibling it
        let it' = pop it
        sibling ← copy_sibling bucket b
        lends ← can_lend (read sibling is_over_half) (read sibling count_of)
        elim lends [
          | true ↦ do
            new_key ← borrow_key b sibling node
            success ← run b.parent (Branch.update_key b.parent_slot_id new_key)
            update_or_put success bucket it' b sibling node new_key
          | false ↦ do
            down_key ← read b.parent (λ s. get_key s b.parent_slot_id)
            if b.left_sibling
                then merge_branch sibling node down_key
                else merge_branch node sibling down_key
            delete_up fuel bucket it' b.parent b.parent_slot_id
        ]
    ]
  ]

-- A record of the sibling goes to the leaf; the new key of the parent.
unfoldable pub borrow_record : Sibling → ℕ → ℕ → TreeExec Key
borrow_record b sibling node = elim b.left_sibling as (λ x. TreeExec Key) [
  | true ↦ do
    sibling_count ← read sibling count_of
    key ← read sibling (λ s. get_key s (sibling_count - 1))
    value ← read sibling (λ s. get_value s (sibling_count - 1))
    success ← run node (Leaf.insert 0 key value)
    is_bucket ← read sibling (is_bucket_at (sibling_count - 1))
    run_node node (Leaf.set_is_bucket 0 is_bucket)
    run_state sibling Leaf.pop
    read node (λ s. get_key s 0)
  | false ↦ do
    append_from node sibling 0
    run_state sibling (Leaf.delete 0)
    read sibling (λ s. get_key s 0)
]

-- Delete(iter)
unfoldable pub delete_at : Bucket → Iterator → TreeExec (Unit {0})
delete_at bucket it = do
  let pos = (front it.stack).1
  let node = (front it.stack).0
  run_state node (Leaf.delete pos)
  filled ← read node is_filled
  let it1 = pop it
  elim (filled) [
    | true ↦ return tt
    | false ↦ elim (empty it1.stack) [
      | true ↦ return tt
      | false ↦ do
        b ← get_sibling it1
        let it2 = pop it1
        sibling ← copy_sibling bucket b
        lends ← can_lend (read sibling is_over_half) (read sibling count_of)
        elim lends [
          | true ↦ do
            new_key ← borrow_record b sibling node
            left_child ← read b.parent (λ s. Branch.get_left_child s.node b.parent_slot_id)
            success ← run b.parent (Branch.update b.parent_slot_id new_key left_child false)
            update_or_put success bucket it2 b sibling node new_key
          | false ↦ do
            if b.left_sibling then merge_leaf sibling node else merge_leaf node sibling
            delete_up (suc it2.stack.cur_pos) bucket it2 b.parent b.parent_slot_id
        ]
    ]
  ]

-- Delete(key)
unfoldable pub delete : Bucket → Key → TreeExec Bool
delete bucket key t =
    let it = lower_bound bucket key t in
    elim (is_eq it.status) [
      | false ↦ (ok false, t)
      | true ↦
          (copy_all_pages_by_path bucket it
              >>= (λ it'. delete_at bucket it' >>= (λ done. return true)))
            t
    ]
