-- ===== src/Tests/Branches.antt =====
-- A branch page of src/node.cpp with one key and two children.
use atomkv.Prelude.{ℕ, ◌+◌, ◌≤◌, ◌<◌, ◌≡◌, refl, true, false, [], ◌∷◌, arith, length}
use atomkv.Comparator.{Key}
use atomkv.Node.{
  Node, branch, NodeState, page_size_of, slot_space, record_size, max_inline_record_size,
}
use atomkv.Node.Invariant.{IsNode, records_size}
use atomkv.Branch.{get_left_child, delete, insert}
use atomkv.Branch.Children.{child_at, without, delete-get_left_child}
use atomkv.Branch.Insert.{BranchInserts, insert-BranchInserts}
use atomkv.Tests.Database.{space}

abbrev node : Node
node = record {
  last_modified_txid = 9;
  type = branch;
  count = 1;
  space_used = 2;
  data_offset = 4094;
  tail_child = 21;
  slots = λ i. record {
    record_offset = 4094;
    is_overflow_pages = false;
    key_size = 2;
    is_bucket = false;
    link = 20;
  };
  bytes = λ a. a;
}

abbrev state : NodeState
state = record { node = node; space = space; tmp_page = λ a. 0 }

delete-get_left_child_example :
    ((delete 0 true state).node.count + 1 ≡ state.node.count)
    × ((j : ℕ)
        → j < state.node.count
        → get_left_child (delete 0 true state).node j
          ≡ without (child_at 0 true) (get_left_child state.node) j)
delete-get_left_child_example = delete-get_left_child 0 true state (omega arith)

node-IsNode : IsNode (page_size_of state) node
unfolding slot_space records_size record_size
node-IsNode = record {
  small = omega arith;
  room = omega arith;
  used = refl;
  fits = omega arith;
  inside = λ i h. ground arith;
}

abbrev key : Key
key = 3 ∷ 4 ∷ []

fits : length key ≤ max_inline_record_size (page_size_of state)
unfolding max_inline_record_size
fits = omega arith

insert-BranchInserts_example : BranchInserts 1 key 22 true state (insert 1 key 22 true state)
insert-BranchInserts_example =
    insert-BranchInserts 1 key 22 true state fits refl node-IsNode (omega arith) (omega arith)
