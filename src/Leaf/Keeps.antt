-- ===== src/Leaf/Keeps.antt =====
-- The operations of LeafNode of src/node.cpp leave the page to its transaction, and the pages in use in use.
use atomkv.Prelude.{ℕ, ◌≡◌, Bool, true, false, refl, inl, inr, Bool-cases, List, ◌-◌}
use atomkv.Result.{Result, ok, err}
use atomkv.Comparator.{Key}
use atomkv.Space.InUse.{IsSound, free-Grows}
use atomkv.Node.{Slot, Node, NodeState, request_space_for, store_record, delete_record}
use atomkv.Node.Keeps.{
  Keeps, Keeps-trans, Keeps-node, request_space_for-Keeps, store_record-Keeps, delete_record-Keeps,
  restore_record-Keeps,
}
use atomkv.Leaf.{
  and_then, set_is_bucket, open_slot, store_new, insert, append, store_again, update, drop_record,
  close_slot, delete, pop,
}

and_then-Keeps :
    (b : Bool) (s : NodeState) (r : Result (Unit {0}) × NodeState)
    → Keeps s r.1
    → Keeps s (and_then b r).1
and_then-Keeps b s (ok _, s') k = k
and_then-Keeps b s (err e, s') k = k

-- StoreRecord behind a change of the node.
pub store-Keeps :
    (s s1 : NodeState) (slot_id : ℕ) (key : Key) (value : List ℕ)
    → Keeps s s1
    → Keeps s (and_then true (store_record slot_id key value s1)).1
store-Keeps s s1 slot_id key value k =
    and_then-Keeps true s (store_record slot_id key value s1)
      (Keeps-trans s s1 _ k (store_record-Keeps slot_id key value s1 k.space.sound))

store_new-Keeps :
    (slot_id : ℕ) (key : Key) (value : List ℕ) (s : NodeState) (r : Bool × NodeState)
    → Keeps s r.1
    → Keeps s (store_new slot_id key value r).1
unfolding store_new open_slot
store_new-Keeps slot_id key value s (false, s1) k = k
store_new-Keeps slot_id key value s (true, s1) k =
    store-Keeps s (record s1 { node = open_slot slot_id s1.node }) slot_id key value
      (Keeps-trans s s1 _ k (Keeps-node s1 _ k.space.sound refl))

pub insert-Keeps :
    (slot_id : ℕ) (key : Key) (value : List ℕ) (s : NodeState)
    → IsSound s.space
    → Keeps s (insert slot_id key value s).1
unfolding insert
insert-Keeps slot_id key value s v =
    store_new-Keeps slot_id key value s (request_space_for key value true s)
      (request_space_for-Keeps key value true s v)

pub append-Keeps :
    (key : Key) (value : List ℕ) (s : NodeState) → IsSound s.space → Keeps s (append key value s).1
unfolding append
append-Keeps key value s v = insert-Keeps s.node.count key value s v

store_again-Keeps :
    (slot_id : ℕ) (saved : Slot) (key : Key) (value : List ℕ) (s : NodeState) (r : Bool × NodeState)
    → Keeps s r.1
    → Keeps s (store_again slot_id saved key value r).1
unfolding store_again
store_again-Keeps slot_id saved key value s (false, s1) k =
    Keeps-trans s s1 _ k (restore_record-Keeps slot_id saved s1 k.space.sound)
store_again-Keeps slot_id saved key value s (true, s1) k = store-Keeps s s1 slot_id key value k

pub update-Keeps :
    (slot_id : ℕ) (key : Key) (value : List ℕ) (s : NodeState)
    → IsSound s.space
    → Keeps s (update slot_id key value s).1
unfolding update
update-Keeps slot_id key value s v =
    let s1 = record s { node = delete_record slot_id s.node } in
    store_again-Keeps slot_id (s.node.slots slot_id) key value s
      (request_space_for key value false s1)
      (Keeps-trans s s1 _ (delete_record-Keeps slot_id s v)
        (request_space_for-Keeps key value false s1 v))

pub set_is_bucket-txid :
    (slot_id : ℕ) (b : Bool) (n : Node)
    → (set_is_bucket slot_id b n).last_modified_txid ≡ n.last_modified_txid
unfolding set_is_bucket
set_is_bucket-txid slot_id b n = refl

drop_record-Keeps :
    (slot_id : ℕ) (s : NodeState) → IsSound s.space → Keeps s (drop_record slot_id s)
unfolding drop_record
drop_record-Keeps slot_id s v = elim (Bool-cases (s.node.slots slot_id).is_overflow_pages) [
  | inl t ↦ rw t (record { txid = refl; space = free-Grows s.space s.space.meta.txid _ _ v })
  | inr f ↦ rw f (Keeps-node s _ v refl)
]

pub delete-Keeps : (slot_id : ℕ) (s : NodeState) → IsSound s.space → Keeps s (delete slot_id s)
unfolding delete close_slot
delete-Keeps slot_id s v =
    let k = drop_record-Keeps slot_id s v in
    Keeps-trans s (drop_record slot_id s) _ k
      (Keeps-node (drop_record slot_id s) _ k.space.sound refl)

pub pop-Keeps : (s : NodeState) → IsSound s.space → Keeps s (pop s)
unfolding pop
pop-Keeps s v = delete-Keeps (s.node.count - 1) s v
