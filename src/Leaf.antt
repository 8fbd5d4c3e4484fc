-- ===== src/Leaf.antt =====
-- Class LeafNode of src/node.cpp: the pages that hold the records. A call that throws leaves the node as
-- the code leaves it.
pub mod Insert
pub mod Delete
pub mod Emptied
pub mod Update
pub mod Keeps
use atomkv.Format.{u32_mod}
use atomkv.Prelude.{ℕ, ◌+◌, ◌-◌, ◌%◌, ◌^◌, Bool, true, false, not, List, [], if◌then◌else◌, length}
use atomkv.Result.{Result, ok, err}
use atomkv.Comparator.{Key}
use atomkv.Pager.{free, get_page_count}
use atomkv.Space.{Space, read_uint32_at}
use atomkv.Node.{
  Slot, Node, NodeState, Exec, leaf, page_size_of, set_slot, move_slots, sub16, request_space_for,
  store_record, delete_record, restore_record, overflow_record_size,
}

-- Build
unfoldable pub build : ℕ → ℕ → Node → Node
build page_size txid n = record n {
  type = leaf;
  count = 0;
  data_offset = page_size % 2 ^ 16;
  space_used = 0;
  last_modified_txid = txid;
}

unfoldable pub set_is_bucket : ℕ → Bool → Node → Node
set_is_bucket slot_id b n = record n {
  slots = set_slot n.slots slot_id (record (n.slots slot_id) { is_bucket = b });
}

-- The memmove that opens slot `slot_id`, and ++count (14 bits).
unfoldable pub open_slot : ℕ → Node → Node
open_slot slot_id n = record n {
  slots = move_slots n.slots (slot_id + 1) slot_id (n.count - slot_id);
  count = (n.count + 1) % 2 ^ 14;
}

abbrev pub and_then : Bool → Result (Unit {0}) × NodeState → Result Bool × NodeState
and_then b (ok _, s) = (ok b, s)
and_then b (err e, s) = (err e, s)

store_new : ℕ → Key → List ℕ → Bool × NodeState → Result Bool × NodeState
unfolding open_slot
store_new slot_id key value (false, s) = (ok false, s)
store_new slot_id key value (true, s) =
    and_then true (store_record slot_id key value (record s { node = open_slot slot_id s.node }))

unfoldable pub insert : ℕ → Key → List ℕ → Exec Bool
unfolding store_new
insert slot_id key value s = store_new slot_id key value (request_space_for key value true s)

unfoldable pub append : Key → List ℕ → Exec Bool
append key value s = insert s.node.count key value s

store_again : ℕ → Slot → Key → List ℕ → Bool × NodeState → Result Bool × NodeState
store_again slot_id saved key value (false, s) =
    (ok false, record s { node = restore_record slot_id saved s.node })
store_again slot_id saved key value (true, s) = and_then true (store_record slot_id key value s)

unfoldable pub update : ℕ → Key → List ℕ → Exec Bool
unfolding store_again
update slot_id key value s =
    store_again slot_id (s.node.slots slot_id) key value
      (request_space_for key value false (record s { node = delete_record slot_id s.node }))

-- The record's space, and the overflow pages, are given up. `size` is a sum of uint32_t.
unfoldable pub drop_record : ℕ → NodeState → NodeState
drop_record slot_id s =
    let slot = s.node.slots slot_id in
    let size = (slot.key_size + slot.link) % u32_mod in
    if slot.is_overflow_pages
    then record s {
      node = record s.node {
        space_used = sub16 s.node.space_used overflow_record_size;
        slots = set_slot s.node.slots slot_id (record slot { is_overflow_pages = false });
      };
      space = record s.space {
        pager =
            free s.space.pager s.space.meta.txid (read_uint32_at s.node.bytes slot.record_offset)
              (get_page_count s.space.pager size);
      };
    }
    else record s { node = record s.node { space_used = sub16 s.node.space_used size } }

unfoldable pub close_slot : ℕ → Node → Node
close_slot slot_id n = record n {
  slots = move_slots n.slots slot_id (slot_id + 1) (n.count - slot_id - 1);
  count = n.count - 1;
}

unfoldable pub delete : ℕ → NodeState → NodeState
unfolding drop_record close_slot
delete slot_id s = let s' = drop_record slot_id s in record s' { node = close_slot slot_id s'.node }

unfoldable pub pop : NodeState → NodeState
unfolding delete
pop s = delete (s.node.count - 1) s
