-- ===== src/Tests/Pages.antt =====
-- A leaf page of src/node.cpp with two records.
use atomkv.Prelude.{
  ℕ, ◌+◌, ◌≤◌, ◌<◌, ◌≡◌, refl, false, Ordering, List, [], ◌∷◌, arith, ◌==◌, length, if◌then◌else◌,
  ◌⊎◌, inl, inr, ap, ◌∙◌,
}
use atomkv.Comparator.{Key, byte_array_comp_func}
use atomkv.Node.{
  Slot, Node, leaf, NodeState, page_size_of, slot_space, record_size, slice, compactify,
  request_space, max_inline_record_size, get_key, lower_bound,
}
use atomkv.Node.Invariant.{IsNode, records_size}
use atomkv.Node.Compactify.{Compacted, compactify-Compacted}
use atomkv.Node.Store.{Requests, request_space-Requests}
use atomkv.Node.LowerBound.{IsAscending, IsLowerBound, lower_bound-IsLowerBound}
use atomkv.Leaf.{insert, delete, update}
use atomkv.Leaf.Update.{LeafUpdates, update-LeafUpdates}
use atomkv.Leaf.Insert.{LeafInserts, insert-LeafInserts}
use atomkv.Leaf.Delete.{LeafDeleted, delete-LeafDeleted}
use atomkv.Tests.Database.{space}

-- Records of one key byte and one value byte, at 4090 and 4094, with a gap between them.
abbrev slots : ℕ → Slot
slots i = record {
  record_offset = if i == 0 then 4090 else 4094;
  is_overflow_pages = false;
  key_size = 1;
  is_bucket = false;
  link = 1;
}

abbrev node : Node
node = record {
  last_modified_txid = 9;
  type = leaf;
  count = 2;
  space_used = 4;
  data_offset = 4090;
  tail_child = 0;
  slots = slots;
  bytes = λ a. if a == 4090 then 5 else if a == 4094 then 7 else 0;
}

abbrev state : NodeState
state = record { node = node; space = space; tmp_page = λ a. 0 }

node-IsNode : IsNode (page_size_of state) node
unfolding slot_space records_size record_size
node-IsNode = record {
  small = omega arith;
  room = omega arith;
  used = refl;
  fits = omega arith;
  inside = λ i h. ground arith;
}

compactify-Compacted_example : Compacted 4096 node (compactify 4096 (λ a. 0) node)
compactify-Compacted_example = compactify-Compacted 4096 (λ a. 0) node node-IsNode

request_space-Requests_example : Requests state 100 (request_space state 100)
request_space-Requests_example = request_space-Requests state 100 node-IsNode

abbrev key : Key
key = 6 ∷ []

abbrev value : List ℕ
value = 1 ∷ 2 ∷ 3 ∷ []

-- How record `i` compares with the key.
comp : ℕ → Ordering
comp i = byte_array_comp_func (get_key state i) key

below_two : (i : ℕ) → i < 2 → (i ≡ 0) ⊎ (i ≡ 1)
below_two i h = ground arith

ascending : IsAscending 2 (λ i. byte_array_comp_func (get_key state i) key)
unfolding comp get_key slice byte_array_comp_func
ascending =
    let c0 : comp 0 ≡ Ordering.lt = refl in
    let c1 : comp 1 ≡ Ordering.gt = refl in
    record {
      less = λ i j h1 h2 e. elim (below_two j h2) [
        | inl z ↦ let zero_too : i ≡ 0 = omega arith in ap comp zero_too ∙ c0
        | inr z ↦ let g = ap comp z ∙ c1 in ground (arith, g, e)
      ];
      greater = λ i j h1 h2 e. elim (below_two i (omega arith)) [
        | inl z ↦ let l = ap comp z ∙ c0 in ground (arith, l, e)
        | inr z ↦ let one_too : j ≡ 1 = omega arith in ap comp one_too ∙ c1
      ];
    }

lower_bound-IsLowerBound_example :
    IsLowerBound 2
      (λ i. byte_array_comp_func (get_key state i) key)
      (lower_bound byte_array_comp_func state key).0
      (lower_bound byte_array_comp_func state key).1
lower_bound-IsLowerBound_example = lower_bound-IsLowerBound byte_array_comp_func state key ascending

fits : length key + length value ≤ max_inline_record_size (page_size_of state)
unfolding max_inline_record_size
fits = omega arith

insert-LeafInserts_example : LeafInserts 1 key value state (insert 1 key value state)
insert-LeafInserts_example =
    insert-LeafInserts 1 key value state fits refl node-IsNode (omega arith)

delete-LeafDeleted_example : LeafDeleted 0 state (delete 0 state)
delete-LeafDeleted_example = delete-LeafDeleted 0 state refl node-IsNode (omega arith)

update-LeafUpdates_example : LeafUpdates 1 key value state (update 1 key value state)
update-LeafUpdates_example =
    update-LeafUpdates state 1 key value fits refl node-IsNode (omega arith) refl
