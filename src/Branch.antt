-- ===== src/Branch.antt =====
-- Class BranchNode of src/node.cpp: the pages above the leaves. Slot i holds a key and the child to its left;
-- the child to the right of the last key is `tail_child`.
pub mod Children
pub mod Insert
pub mod Keeps
use atomkv.Prelude.{ℕ, ◌+◌, ◌-◌, ◌%◌, ◌^◌, Bool, true, false, ltb, ◌==◌, List, [], if◌then◌else◌}
use atomkv.Result.{Result, ok, err}
use atomkv.Comparator.{Key}
use atomkv.Pager.{free, get_page_count}
use atomkv.Space.{Space, read_uint32_at}
use atomkv.Node.{
  Slot, Node, NodeState, Exec, branch, page_size_of, set_slot, move_slots, sub16, request_space_for,
  store_record, delete_record, restore_record, overflow_record_size,
}

-- Build
unfoldable pub build : ℕ → ℕ → ℕ → Node → Node
build page_size txid tail_child n = record n {
  type = branch;
  count = 0;
  data_offset = page_size % 2 ^ 16;
  space_used = 0;
  tail_child = tail_child;
  last_modified_txid = txid;
}

-- data_->slots[i].left_child = child
abbrev pub set_link : (ℕ → Slot) → ℕ → ℕ → ℕ → Slot
set_link slots i child = set_slot slots i (record (slots i) { link = child })

unfoldable pub get_left_child : Node → ℕ → ℕ
get_left_child n slot_id = if slot_id == n.count then n.tail_child else (n.slots slot_id).link

unfoldable pub set_left_child : ℕ → ℕ → Node → Node
set_left_child slot_id child n =
    if slot_id == n.count
    then record n { tail_child = child }
    else record n { slots = set_link n.slots slot_id child }

unfoldable pub get_right_child : Node → ℕ → ℕ
get_right_child n slot_id =
    if slot_id == n.count - 1 then n.tail_child else (n.slots (slot_id + 1)).link

unfoldable pub set_right_child : ℕ → ℕ → Node → Node
set_right_child slot_id child n =
    if slot_id == n.count - 1
    then record n { tail_child = child }
    else record n { slots = set_link n.slots (slot_id + 1) child }

abbrev and_then : Bool → Result (Unit {0}) × NodeState → Result Bool × NodeState
and_then b (ok _, s) = (ok b, s)
and_then b (err e, s) = (err e, s)

-- Update(slot_id, key)
store_key_again : ℕ → Slot → Key → Bool × NodeState → Result Bool × NodeState
store_key_again slot_id saved key (false, s) =
    (ok false, record s { node = restore_record slot_id saved s.node })
store_key_again slot_id saved key (true, s) = and_then true (
    store_record slot_id key [] (record s {
      node = record s.node { space_used = sub16 s.node.space_used (s.node.slots slot_id).key_size };
    }))

unfoldable pub update_key : ℕ → Key → Exec Bool
unfolding store_key_again
update_key slot_id key s =
    store_key_again slot_id (s.node.slots slot_id) key
      (request_space_for key [] false (record s { node = delete_record slot_id s.node }))

-- The child beside the key that Update(slot_id, key, child, is_right_child) has stored.
set_child_after : ℕ → ℕ → Bool → Result Bool × NodeState → Result Bool × NodeState
unfolding set_right_child
set_child_after slot_id child is_right_child (ok true, s) = (
  ok true,
  record s {
    node =
        if is_right_child
        then set_right_child slot_id child s.node
        else record s.node { slots = set_link s.node.slots slot_id child };
  },
)
set_child_after slot_id child is_right_child (ok false, s) = (ok false, s)
set_child_after slot_id child is_right_child (err e, s) = (err e, s)

unfoldable pub update : ℕ → Key → ℕ → Bool → Exec Bool
unfolding update_key set_child_after
update slot_id key child is_right_child s =
    set_child_after slot_id child is_right_child (update_key slot_id key s)

-- The part of Insert between the request for space and StoreRecord: the slots behind move, the children are set,
-- and ++count.
unfoldable pub insert_child : ℕ → ℕ → Bool → Node → Node
insert_child slot_id child is_right_child n =
    let moved = move_slots n.slots (slot_id + 1) slot_id (n.count - slot_id) in
    let count = (n.count + 1) % 2 ^ 14 in
    if is_right_child
    then (if slot_id == n.count
        then record n {
          slots = set_link moved slot_id n.tail_child;
          tail_child = child;
          count = count;
        }
        else record n {
          slots = set_link (set_link moved slot_id (moved (slot_id + 1)).link) (slot_id + 1) child;
          count = count;
        })
    else record n { slots = set_link moved slot_id child; count = count }

store_new : ℕ → Key → ℕ → Bool → Bool × NodeState → Result Bool × NodeState
unfolding insert_child
store_new slot_id key child is_right_child (false, s) = (ok false, s)
store_new slot_id key child is_right_child (true, s) = and_then true (
    store_record slot_id key []
      (record s { node = insert_child slot_id child is_right_child s.node }))

unfoldable pub insert : ℕ → Key → ℕ → Bool → Exec Bool
unfolding store_new
insert slot_id key child is_right_child s =
    store_new slot_id key child is_right_child (request_space_for key [] true s)

unfoldable pub append : Key → ℕ → Bool → Exec Bool
append key child is_right_child s = insert s.node.count key child is_right_child s

-- The record's space, and its overflow pages, are given up.
unfoldable pub drop_record : ℕ → NodeState → NodeState
drop_record slot_id s =
    let slot = s.node.slots slot_id in
    if slot.is_overflow_pages
    then record s {
      node = record s.node {
        space_used = sub16 s.node.space_used overflow_record_size;
        slots = set_slot s.node.slots slot_id (record slot { is_overflow_pages = false });
      };
      space = record s.space {
        pager =
            free s.space.pager s.space.meta.txid (read_uint32_at s.node.bytes slot.record_offset)
              (get_page_count s.space.pager slot.key_size);
      };
    }
    else record s { node = record s.node { space_used = sub16 s.node.space_used slot.key_size } }

-- The rest of Delete: the key goes, with the child to its right or to its left.
unfoldable pub delete_child : ℕ → Bool → Node → Node
delete_child slot_id right_child n =
    if right_child
    then (if ltb (slot_id + 1) n.count
        then (let linked = set_link n.slots (slot_id + 1) (n.slots slot_id).link in
            record n {
              slots =
                  move_slots (set_slot linked slot_id (linked (slot_id + 1))) (slot_id + 1)
                    (slot_id + 2) (n.count - slot_id - 2);
              count = n.count - 1;
            })
        else record n { tail_child = (n.slots (n.count - 1)).link; count = n.count - 1 })
    else record n {
      slots = move_slots n.slots slot_id (slot_id + 1) (n.count - slot_id - 1);
      count = n.count - 1;
    }

unfoldable pub delete : ℕ → Bool → NodeState → NodeState
unfolding drop_record delete_child
delete slot_id right_child s =
    let s' = drop_record slot_id s in record s' { node = delete_child slot_id right_child s'.node }

unfoldable pub pop : Bool → NodeState → NodeState
unfolding delete
pop right_child s = delete (s.node.count - 1) right_child s
