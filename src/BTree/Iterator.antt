-- ===== src/BTree/Iterator.antt =====
-- src/btree_iterator.cpp: BTreeIterator, the path from the root to a slot of a leaf. `cached_node_` is the node of the
-- last page of the path, which the model reads again. The array of the path has 32 elements, so a loop that goes down
-- the tree has 33 rounds.
use atomkv.Prelude.{
  ℕ, zero, suc, ◌+◌, ◌-◌, ◌-◌, Bool, true, false, ◌&&◌, ltb, ◌==◌, List, if◌then◌else◌, length,
}
use atomkv.Format.{page_invalid_id}
use atomkv.Result.{Result, ok, err, invalid_iterator, size_mismatch}
use atomkv.Comparator.{Key}
use atomkv.Node.{Node, NodeState, is_leaf, get_key, get_value, lower_bound as lower_bound_in}
use atomkv.Branch.{get_left_child, set_left_child}
use atomkv.Stack.{Stack, set_at, front, push_back, pop_back, empty, at_pos}
use atomkv.BTree.{
  Bucket, TreeState, TreeExec, ◌>>=◌, ◌>>◌, return, node_at, read, run_node, set_root, is_branch,
  copy,
}

pub data Status : Type 0 where
  k_invalid k_eq k_ne k_iter : Status

pub record Iterator : Type 0 where
  pub stack : Stack (ℕ × ℕ)
  pub status : Status

-- BTreeIterator(btree): BTree::end
abbrev pub end : Iterator
end = record { stack = record { array = λ _. (0, 0); cur_pos = 0 }; status = k_invalid }

-- Push, Pop, and a write through the reference that Front gives.
unfoldable pub push : ℕ × ℕ → Iterator → Iterator
unfolding push_back
push v it = record it { stack = push_back v it.stack }

unfoldable pub pop : Iterator → Iterator
unfolding pop_back
pop it = record it { stack = pop_back it.stack }

unfoldable pub set_slot_at : ℕ → ℕ × ℕ → Iterator → Iterator
set_slot_at i v it = record it { stack = record it.stack { array = set_at it.stack.array i v } }

unfoldable pub set_front : ℕ × ℕ → Iterator → Iterator
unfolding set_slot_at
set_front v it = set_slot_at (it.stack.cur_pos - 1) v it

-- The position in a page, and the status, that LowerBound in the page gives.
abbrev pub slot_of : Node → ℕ × Bool → ℕ
slot_of n (slot_id, eq) = if eq && is_branch n then slot_id + 1 else slot_id

abbrev pub status_of : Node → ℕ × Bool → Status
status_of n (slot_id, eq) =
    if eq then k_eq else if slot_id == n.count && is_leaf n then k_invalid else k_ne

-- The second half of Down.
unfoldable pub down_into : Bucket → Key → TreeState → ℕ → Iterator → Iterator
unfolding push lower_bound_in
down_into bucket key t pgid it =
    let s = node_at t pgid in
    let r = if ltb 0 s.node.count then lower_bound_in bucket.comparator s key else (0, false) in
    push (pgid, slot_of s.node r)
      (record it { status = if ltb 0 s.node.count then status_of s.node r else k_ne })

-- Down, and Top
unfoldable pub down : Bucket → Key → TreeState → Iterator → Bool × Iterator
unfolding down_into get_left_child front empty
down bucket key t it =
    if empty it.stack
    then (if t.root_pgid == page_invalid_id
        then (false, it)
        else (true, down_into bucket key t t.root_pgid it))
    else (let (parent_pgid, slot_id) = front it.stack in
        if is_leaf (t.pages parent_pgid)
        then (false, it)
        else (true, down_into bucket key t (get_left_child (t.pages parent_pgid) slot_id) it))

-- while (continue_) continue_ = iter.Down(key);
unfoldable pub descend : ℕ → Bucket → Key → TreeState → Iterator → Iterator
unfolding down
descend zero bucket key t it = it
descend (suc fuel) bucket key t it =
    let (continue_, it') = down bucket key t it in
    elim continue_ [ true ↦ descend fuel bucket key t it' | false ↦ it' ]

abbrev pub max_rounds : ℕ
max_rounds = 33

-- BTree::LowerBound
unfoldable pub lower_bound : Bucket → Key → TreeState → Iterator
unfolding descend
lower_bound bucket key t = descend max_rounds bucket key t end

abbrev pub is_eq : Status → Bool
is_eq k_eq = true
is_eq _ = false

abbrev pub is_invalid : Status → Bool
is_invalid k_invalid = true
is_invalid _ = false

-- BTree::Get
unfoldable pub get : Bucket → Key → TreeState → Iterator
unfolding lower_bound
get bucket key t = let it = lower_bound bucket key t in if is_eq it.status then it else end

-- operator==, of iterators of the same tree
unfoldable pub equals : Iterator → Iterator → Bool
unfolding front empty
equals it right =
    if empty it.stack
    then is_invalid right.status
    else if empty right.stack
    then is_invalid it.status
    else (let (pgid, index) = front it.stack in
        let (pgid2, index2) = front right.stack in (pgid == pgid2) && (index == index2))

-- GetLeafNode, and what the accessors read there
get_leaf_node {ℓ} : {A : Type ℓ} → (NodeState → ℕ → A) → TreeState → Iterator → Result A
unfolding equals front
get_leaf_node f t it =
    if equals it end
    then err invalid_iterator
    else (let (pgid, slot_id) = front it.stack in ok (f (node_at t pgid) slot_id))

unfoldable pub key : TreeState → Iterator → Result Key
unfolding get_leaf_node get_key
key = get_leaf_node get_key

unfoldable pub value : TreeState → Iterator → Result (List ℕ)
unfolding get_leaf_node get_value
value = get_leaf_node get_value

unfoldable pub is_bucket : TreeState → Iterator → Result Bool
unfolding get_leaf_node
is_bucket = get_leaf_node (λ s slot_id. (s.node.slots slot_id).is_bucket)

-- key<KeyT> and value<ValueT>, the size of the type given: the bytes
sized : ℕ → Result (List ℕ) → Result (List ℕ)
sized size (err e) = err e
sized size (ok span) = if length span == size then ok span else err size_mismatch

unfoldable pub key_as : ℕ → TreeState → Iterator → Result (List ℕ)
unfolding key sized
key_as size t it = sized size (key t it)

unfoldable pub value_as : ℕ → TreeState → Iterator → Result (List ℕ)
unfolding value sized
value_as size t it = sized size (value t it)

-- The loop of First.
unfoldable pub first_loop : ℕ → TreeState → ℕ → Iterator → Iterator
unfolding push get_left_child
first_loop zero t pgid it = it
first_loop (suc fuel) t pgid it =
    let n = t.pages pgid in
    elim (is_leaf n) [
      | true ↦ if n.count == 0 then it else push (pgid, 0) it
      | false ↦ first_loop fuel t (get_left_child n 0) (push (pgid, 0) it)
    ]

unfoldable pub first : TreeState → ℕ → Iterator → Iterator
unfolding first_loop
first t pgid it =
    if pgid == page_invalid_id
    then it
    else first_loop max_rounds t pgid (record it { status = k_iter })

-- The loop of Last.
unfoldable pub last_loop : ℕ → TreeState → ℕ → Iterator → Iterator
unfolding push get_left_child
last_loop zero t pgid it = it
last_loop (suc fuel) t pgid it =
    let n = t.pages pgid in
    elim (is_leaf n) [
      | true ↦ if n.count == 0 then it else push (pgid, n.count - 1) it
      | false ↦ last_loop fuel t (get_left_child n (n.count - 1)) (push (pgid, n.count - 1) it)
    ]

unfoldable pub last : TreeState → ℕ → Iterator → Iterator
unfolding last_loop
last t pgid it = last_loop max_rounds t pgid (record it { status = k_iter })

-- A round of the loop of Next, at the last element of the path, and the rounds after it.
unfoldable pub next_round : TreeState → (Iterator → Iterator) → ℕ × ℕ → Iterator → Iterator
unfolding first pop set_front empty get_left_child
next_round t go_on (pgid, slot_id) it =
    let n = t.pages pgid in
    let it1 = set_front (pgid, slot_id + 1) it in
    elim (ltb (slot_id + 1) n.count) [
      | true ↦ if is_leaf n then it1 else first t (get_left_child n (slot_id + 1)) it1
      | false ↦ elim (is_branch n && (slot_id + 1 == n.count)) [
        | true ↦ first t n.tail_child it1
        | false ↦ let it2 = pop it1 in elim (empty it2.stack) [ true ↦ it2 | false ↦ go_on it2 ]
      ]
    ]

-- The loop of Next; each round but the last pops an element of the path.
unfoldable pub next_loop : ℕ → TreeState → Iterator → Iterator
unfolding next_round front
next_loop zero t it = it
next_loop (suc fuel) t it = next_round t (next_loop fuel t) (front it.stack) it

unfoldable pub next : TreeState → Iterator → Iterator
unfolding next_loop
next t it = next_loop it.stack.cur_pos t it

-- The loop of Prev.
unfoldable pub prev_loop : ℕ → TreeState → Iterator → Iterator
unfolding last pop set_front front empty get_left_child
prev_loop zero t it = it
prev_loop (suc fuel) t it =
    let (pgid, slot_id) = front it.stack in
    let n = t.pages pgid in
    let it1 = set_front (pgid, slot_id - 1) it in
    elim (ltb 0 slot_id) [
      | true ↦ if is_leaf n then it1 else last t (get_left_child n (slot_id - 1)) it1
      | false ↦
          let it2 = pop it in elim (empty it2.stack) [ true ↦ it2 | false ↦ prev_loop fuel t it2 ]
    ]

unfoldable pub prev : TreeState → Iterator → Iterator
unfolding last prev_loop empty
prev t it = if empty it.stack then last t t.root_pgid it else prev_loop it.stack.cur_pos t it

-- BTree::begin
unfoldable pub begin : TreeState → Iterator
unfolding first
begin t = first t t.root_pgid end

-- The child of a page of the path becomes the page that was copied below it.
unfoldable pub link_lower : ℕ → ℕ → ℕ → TreeExec (Unit {0})
link_lower pgid slot_id lower_pgid = do
  n ← read pgid (λ s. s.node)
  if is_branch n then run_node pgid (set_left_child slot_id lower_pgid) else return tt

-- The loop of CopyAllPagesByPath, over the elements of the path below `i`, with the iterator that it leaves.
unfoldable pub copy_path : ℕ → Bucket → ℕ → Iterator → TreeExec Iterator
copy_path zero bucket lower_pgid it = do set_root lower_pgid; return it
copy_path (suc i) bucket lower_pgid it = do
  let slot_id = (at_pos it.stack i).1
  let pgid = (at_pos it.stack i).0
  n ← read pgid (λ s. s.node)
  elim (bucket.copy_needed n.last_modified_txid) [
    | false ↦ link_lower pgid slot_id lower_pgid >> return it
    | true ↦ do
      new_pgid ← copy bucket pgid
      link_lower new_pgid slot_id lower_pgid
      copy_path i bucket new_pgid (set_slot_at i (new_pgid, slot_id) it)
  ]

unfoldable pub copy_all_pages_by_path : Bucket → Iterator → TreeExec Iterator
copy_all_pages_by_path bucket it =
    if empty it.stack then return it else copy_path it.stack.cur_pos bucket page_invalid_id it
