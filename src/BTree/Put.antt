-- ===== src/BTree/Put.antt =====
-- src/btree.cpp: Split, Put, Insert and Update.
use atomkv.Prelude.{ℕ, zero, suc, ◌-◌, Bool, true, false, not, ◌&&◌, ltb, leb, List, if◌then◌else◌}
use atomkv.Format.{page_invalid_id}
use atomkv.Result.{Result, ok}
use atomkv.Comparator.{Key}
use atomkv.Node.{
  Slot, Node, NodeState, Exec, page_size_of, get_key, get_value, slice, request_space_for,
  store_record, delete_record, restore_record,
}
use atomkv.Leaf as Leaf
use atomkv.Branch as Branch
use atomkv.Stack.{front, empty}
use atomkv.BTree.{
  Bucket, TreeExec, ◌>>=◌, ◌>>◌, return, read, run, run_state, run_node, set_root, alloc_page,
  count_of, is_over_half,
}
use atomkv.BTree.Iterator.{Iterator, is_eq, pop, lower_bound, copy_all_pages_by_path}

-- std::reverse(slots, slots + count)
unfoldable pub reverse_slots : Node → Node
reverse_slots n = record n {
  slots = λ i. if ltb i n.count then n.slots (n.count - 1 - i) else n.slots i;
}

-- A page from Alloc, built as an empty leaf or an empty branch.
unfoldable pub new_leaf : Bucket → TreeExec ℕ
new_leaf bucket = do
  pgid ← alloc_page
  run_state pgid (λ s. record s { node = Leaf.build (page_size_of s) bucket.txid s.node })
  return pgid

unfoldable pub new_branch : Bucket → ℕ → TreeExec ℕ
new_branch bucket tail_child = do
  pgid ← alloc_page
  run_state pgid
      (λ s. record s { node = Branch.build (page_size_of s) bucket.txid tail_child s.node })
  return pgid

-- IsBucket(slot_id)
abbrev pub is_bucket_at : ℕ → NodeState → Bool
is_bucket_at slot_id s = (s.node.slots slot_id).is_bucket

-- The last record of the leaf `to` becomes the record that `from` has in the slot.
unfoldable pub append_from : ℕ → ℕ → ℕ → TreeExec (Unit {0})
append_from to from slot_id = do
  key ← read from (λ s. get_key s slot_id)
  value ← read from (λ s. get_value s slot_id)
  success ← run to (Leaf.append key value)
  is_bucket ← read from (is_bucket_at slot_id)
  count ← read to count_of
  run_node to (Leaf.set_is_bucket (count - 1) is_bucket)

-- The loop of Split of a leaf, from slot `i - 1` down.
unfoldable pub split_leaf_loop : ℕ → ℕ → ℕ → TreeExec (Unit {0})
split_leaf_loop zero left right = return tt
split_leaf_loop (suc i) left right = do
  append_from right left i
  run_state left Leaf.pop
  over ← read left is_over_half
  elim over [ false ↦ return tt | true ↦ split_leaf_loop i left right ]

-- if (!success) …: the first record of the right leaf goes to the left one, for a second attempt.
unfoldable pub insert_or_shift : Bool → ℕ → ℕ → ℕ → Key → List ℕ → TreeExec (Unit {0})
insert_or_shift true left right insert_slot_id key value = return tt
insert_or_shift false left right insert_slot_id key value = do
  append_from left right 0
  run_state right (Leaf.delete 0)
  left_count ← read left count_of
  success ← run right (Leaf.insert (insert_slot_id - left_count) key value)
  return tt

-- Split(LeafNode* left, …)
unfoldable pub split_leaf : Bucket → ℕ → ℕ → Key → List ℕ → Bool → TreeExec ℕ
split_leaf bucket left insert_slot_id key value is_bucket = do
  right ← new_leaf bucket
  saved_left_count ← read left count_of
  split_leaf_loop saved_left_count left right
  run_node right reverse_slots
  left_count ← read left count_of
  elim (ltb left_count insert_slot_id) as (λ x. TreeExec (Unit {0})) [
    | true ↦ do
      success ← run right (Leaf.insert (insert_slot_id - left_count) key value)
      insert_or_shift success left right insert_slot_id key value
      left_count' ← read left count_of
      run_node right (Leaf.set_is_bucket (insert_slot_id - left_count') is_bucket)
    | false ↦ do
      success ← run left (Leaf.insert insert_slot_id key value)
      run_node left (Leaf.set_is_bucket insert_slot_id is_bucket)
  ]
  return right

-- The last key of the branch `to` becomes the key that `from` has in the slot, with the child to its left.
unfoldable pub append_key_from : Bool → ℕ → ℕ → ℕ → TreeExec (Unit {0})
append_key_from is_right_child to from slot_id = do
  key ← read from (λ s. get_key s slot_id)
  child ← read from (λ s. Branch.get_left_child s.node slot_id)
  success ← run to (Branch.append key child is_right_child)
  return tt

-- The loop of Split of a branch, from slot `i - 1` down.
unfoldable pub split_branch_loop : ℕ → ℕ → ℕ → TreeExec (Unit {0})
split_branch_loop zero left right = return tt
split_branch_loop (suc i) left right = do
  append_key_from false right left i
  run_state left (Branch.pop false)
  over ← read left is_over_half
  elim over [ false ↦ return tt | true ↦ split_branch_loop i left right ]

unfoldable pub insert_key_or_shift : Bool → ℕ → ℕ → ℕ → Key → ℕ → TreeExec (Unit {0})
insert_key_or_shift true left right insert_slot_id key child = return tt
insert_key_or_shift false left right insert_slot_id key child = do
  append_key_from true left right 0
  run_state right (Branch.delete 0 false)
  left_count ← read left count_of
  success ← run right (Branch.insert (insert_slot_id - left_count) key child false)
  return tt

-- The end of Split of a branch: the key that rises.
unfoldable pub raise_key : ℕ → ℕ → TreeExec Key
raise_key left right = do
  left_count ← read left count_of
  elim (leb 2 left_count) [
    | true ↦ do
      up_key ← read left (λ s. get_key s (left_count - 1))
      run_state left (Branch.pop true)
      return up_key
    | false ↦ do
      up_key ← read right (λ s. get_key s 0)
      left_child ← read right (λ s. Branch.get_left_child s.node 0)
      run_state right (Branch.delete 0 false)
      run_node left (λ n. record n { tail_child = left_child })
      return up_key
  ]

-- Split(BranchNode* left, …)
unfoldable pub split_branch : Bucket → ℕ → ℕ → Key → ℕ → TreeExec (Key × ℕ)
split_branch bucket left insert_slot_id insert_key insert_right_child = do
  right ← new_branch bucket page_invalid_id
  saved_left_count ← read left count_of
  insert_left_child ← read left (λ s. Branch.get_left_child s.node insert_slot_id)
  run_node left (Branch.set_left_child insert_slot_id insert_right_child)
  split_branch_loop saved_left_count left right
  run_node right reverse_slots
  tail_child ← read left (λ s. s.node.tail_child)
  run_node right (λ n. record n { tail_child = tail_child })
  left_count ← read left count_of
  elim (ltb left_count insert_slot_id) as (λ x. TreeExec (Unit {0})) [
    | true ↦ do
      success ←
          run right (Branch.insert (insert_slot_id - left_count) insert_key insert_left_child false)
      insert_key_or_shift success left right insert_slot_id insert_key insert_left_child
    | false ↦ do
      success ← run left (Branch.insert insert_slot_id insert_key insert_left_child false)
      return tt
  ]
  up_key ← raise_key left right
  return (up_key, right)

-- Put(iter, left, right, key): every call but the last pops an element of the path, so the length of the path and one
-- more is fuel enough.
unfoldable pub put_up : ℕ → Bucket → Iterator → ℕ → ℕ → Key → TreeExec (Unit {0})
put_up zero bucket it left right key = return tt
put_up (suc fuel) bucket it left right key = elim (empty it.stack) [
  | true ↦ do
    root ← new_branch bucket left
    set_root root
    success ← run root (Branch.append key right true)
    return tt
  | false ↦ do
    let slot_id = (front it.stack).1
    let pgid = (front it.stack).0
    inserted ← run pgid (Branch.insert slot_id key right true)
    elim inserted [
      | true ↦ return tt
      | false ↦ do
        r ← split_branch bucket pgid slot_id key right
        put_up fuel bucket (pop it) pgid r.1 r.0
    ]
]

-- Put(iter, key, value, insert_only, is_bucket)
unfoldable pub put_at : Bucket → Iterator → Key → List ℕ → Bool → Bool → TreeExec (Unit {0})
put_at bucket it key value insert_only is_bucket = elim (empty it.stack) [
  | true ↦ do
    root ← new_leaf bucket
    set_root root
    success ← run root (Leaf.insert 0 key value)
    run_node root (Leaf.set_is_bucket 0 is_bucket)
  | false ↦ do
    let slot_id = (front it.stack).1
    let pgid = (front it.stack).0
    elim (not insert_only && is_eq it.status) [
      | true ↦ do
        success ← run pgid (Leaf.update slot_id key value)
        run_node pgid (Leaf.set_is_bucket slot_id is_bucket)
      | false ↦ do
        inserted ← run pgid (Leaf.insert slot_id key value)
        elim inserted [
          | true ↦ run_node pgid (Leaf.set_is_bucket slot_id is_bucket)
          | false ↦ do
            right ← split_leaf bucket pgid slot_id key value is_bucket
            up_key ← read right (λ s. get_key s 0)
            let it' = pop it
            put_up (suc it'.stack.cur_pos) bucket it' pgid right up_key
        ]
    ]
]

-- LowerBound, then CopyAllPagesByPath
unfoldable pub search_to_change : Bucket → Key → TreeExec Iterator
search_to_change bucket key t = copy_all_pages_by_path bucket (lower_bound bucket key t) t

unfoldable pub insert : Bucket → Key → List ℕ → Bool → TreeExec (Unit {0})
insert bucket key value is_bucket = do
  it ← search_to_change bucket key
  put_at bucket it key value true is_bucket

unfoldable pub put : Bucket → Key → List ℕ → Bool → TreeExec (Unit {0})
put bucket key value is_bucket = do
  it ← search_to_change bucket key
  put_at bucket it key value false is_bucket

-- node.Update(slot_id, node.GetKey(slot_id), value): the key is bytes of the page itself, or of its overflow pages. It
-- is read again once space has been made, where a compaction may have moved other bytes there.
unfoldable pub store_own_key : ℕ → Slot → Key → List ℕ → Bool × NodeState → Result Bool × NodeState
store_own_key slot_id saved key value (false, s) =
    (ok false, record s { node = restore_record slot_id saved s.node })
store_own_key slot_id saved key value (true, s) =
    let key' =
      if saved.is_overflow_pages
      then key
      else slice s.node.bytes saved.record_offset saved.key_size in
    Leaf.and_then true (store_record slot_id key' value s)

unfoldable pub update_own_key : ℕ → List ℕ → Exec Bool
update_own_key slot_id value s =
    let key = get_key s slot_id in
    store_own_key slot_id (s.node.slots slot_id) key value
      (request_space_for key value false (record s { node = delete_record slot_id s.node }))

-- Update(iter, value)
unfoldable pub update : Iterator → List ℕ → TreeExec (Unit {0})
update it value = do
  let slot_id = (front it.stack).1
  success ← run (front it.stack).0 (update_own_key slot_id value)
  return tt
