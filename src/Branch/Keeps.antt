-- ===== src/Branch/Keeps.antt =====
-- The operations of BranchNode of src/node.cpp leave the page to its transaction, and the pages in use in use.
use atomkv.Prelude.{ℕ, ◌+◌, ◌-◌, ◌≡◌, Bool, true, false, refl, inl, inr, Bool-cases, [], ◌==◌, ltb}
use atomkv.Result.{Result, ok, err}
use atomkv.Comparator.{Key}
use atomkv.Space.InUse.{IsSound, free-Grows}
use atomkv.Node.{Slot, Node, NodeState, request_space_for, store_record, delete_record, sub16}
use atomkv.Node.Keeps.{
  Keeps, Keeps-trans, Keeps-node, request_space_for-Keeps, store_record-Keeps, delete_record-Keeps,
  restore_record-Keeps,
}
use atomkv.Branch.{
  and_then, set_right_child, set_left_child, insert_child, store_new, insert, append,
  store_key_again, update_key, set_child_after, update, drop_record, delete_child, delete, pop,
}

and_then-Keeps :
    (b : Bool) (s : NodeState) (r : Result (Unit {0}) × NodeState)
    → Keeps s r.1
    → Keeps s (and_then b r).1
and_then-Keeps b s (ok _, s') k = k
and_then-Keeps b s (err e, s') k = k

-- StoreRecord behind a change of the node.
store-Keeps :
    (s s1 : NodeState) (slot_id : ℕ) (key : Key)
    → Keeps s s1
    → Keeps s (and_then true (store_record slot_id key [] s1)).1
store-Keeps s s1 slot_id key k =
    and_then-Keeps true s (store_record slot_id key [] s1)
      (Keeps-trans s s1 _ k (store_record-Keeps slot_id key [] s1 k.space.sound))

pub set_left_child-txid :
    (slot_id child : ℕ) (n : Node)
    → (set_left_child slot_id child n).last_modified_txid ≡ n.last_modified_txid
unfolding set_left_child
set_left_child-txid slot_id child n = elim (Bool-cases (slot_id == n.count)) [
  | inl t ↦ rw t refl
  | inr f ↦ rw f refl
]

set_right_child-txid :
    (slot_id child : ℕ) (n : Node)
    → (set_right_child slot_id child n).last_modified_txid ≡ n.last_modified_txid
unfolding set_right_child
set_right_child-txid slot_id child n = elim (Bool-cases (slot_id == n.count - 1)) [
  | inl t ↦ rw t refl
  | inr f ↦ rw f refl
]

insert_child-txid :
    (slot_id child : ℕ) (is_right_child : Bool) (n : Node)
    → (insert_child slot_id child is_right_child n).last_modified_txid ≡ n.last_modified_txid
unfolding insert_child
insert_child-txid slot_id child false n = refl
insert_child-txid slot_id child true n = elim (Bool-cases (slot_id == n.count)) [
  | inl t ↦ rw t refl
  | inr f ↦ rw f refl
]

delete_child-txid :
    (slot_id : ℕ) (right_child : Bool) (n : Node)
    → (delete_child slot_id right_child n).last_modified_txid ≡ n.last_modified_txid
unfolding delete_child
delete_child-txid slot_id false n = refl
delete_child-txid slot_id true n = elim (Bool-cases (ltb (slot_id + 1) n.count)) [
  | inl t ↦ rw t refl
  | inr f ↦ rw f refl
]

store_new-Keeps :
    (slot_id : ℕ) (key : Key) (child : ℕ) (is_right_child : Bool) (s : NodeState)
    (r : Bool × NodeState)
    → Keeps s r.1
    → Keeps s (store_new slot_id key child is_right_child r).1
unfolding store_new
store_new-Keeps slot_id key child is_right_child s (false, s1) k = k
store_new-Keeps slot_id key child is_right_child s (true, s1) k =
    store-Keeps s (record s1 { node = insert_child slot_id child is_right_child s1.node }) slot_id
      key
      (Keeps-trans s s1 _ k
        (Keeps-node s1 _ k.space.sound (insert_child-txid slot_id child is_right_child s1.node)))

pub insert-Keeps :
    (slot_id : ℕ) (key : Key) (child : ℕ) (is_right_child : Bool) (s : NodeState)
    → IsSound s.space
    → Keeps s (insert slot_id key child is_right_child s).1
unfolding insert
insert-Keeps slot_id key child is_right_child s v =
    store_new-Keeps slot_id key child is_right_child s (request_space_for key [] true s)
      (request_space_for-Keeps key [] true s v)

pub append-Keeps :
    (key : Key) (child : ℕ) (is_right_child : Bool) (s : NodeState)
    → IsSound s.space
    → Keeps s (append key child is_right_child s).1
unfolding append
append-Keeps key child is_right_child s v = insert-Keeps s.node.count key child is_right_child s v

store_key_again-Keeps :
    (slot_id : ℕ) (saved : Slot) (key : Key) (s : NodeState) (r : Bool × NodeState)
    → Keeps s r.1
    → Keeps s (store_key_again slot_id saved key r).1
unfolding store_key_again
store_key_again-Keeps slot_id saved key s (false, s1) k =
    Keeps-trans s s1 _ k (restore_record-Keeps slot_id saved s1 k.space.sound)
store_key_again-Keeps slot_id saved key s (true, s1) k =
    store-Keeps s
      (record s1 {
        node = record s1.node {
          space_used = sub16 s1.node.space_used (s1.node.slots slot_id).key_size;
        };
      })
      slot_id key (Keeps-trans s s1 _ k (Keeps-node s1 _ k.space.sound refl))

pub update_key-Keeps :
    (slot_id : ℕ) (key : Key) (s : NodeState)
    → IsSound s.space
    → Keeps s (update_key slot_id key s).1
unfolding update_key
update_key-Keeps slot_id key s v =
    let s1 = record s { node = delete_record slot_id s.node } in
    store_key_again-Keeps slot_id (s.node.slots slot_id) key s (request_space_for key [] false s1) (
      Keeps-trans s s1 _ (delete_record-Keeps slot_id s v)
        (request_space_for-Keeps key [] false s1 v))

set_child_after-Keeps :
    (slot_id child : ℕ) (is_right_child : Bool) (s : NodeState) (r : Result Bool × NodeState)
    → Keeps s r.1
    → Keeps s (set_child_after slot_id child is_right_child r).1
unfolding set_child_after
set_child_after-Keeps slot_id child true s (ok true, s1) k =
    Keeps-trans s s1 _ k
      (Keeps-node s1 _ k.space.sound (set_right_child-txid slot_id child s1.node))
set_child_after-Keeps slot_id child false s (ok true, s1) k =
    Keeps-trans s s1 _ k (Keeps-node s1 _ k.space.sound refl)
set_child_after-Keeps slot_id child is_right_child s (ok false, s1) k = k
set_child_after-Keeps slot_id child is_right_child s (err e, s1) k = k

pub update-Keeps :
    (slot_id : ℕ) (key : Key) (child : ℕ) (is_right_child : Bool) (s : NodeState)
    → IsSound s.space
    → Keeps s (update slot_id key child is_right_child s).1
unfolding update
update-Keeps slot_id key child is_right_child s v =
    set_child_after-Keeps slot_id child is_right_child s (update_key slot_id key s)
      (update_key-Keeps slot_id key s v)

drop_record-Keeps :
    (slot_id : ℕ) (s : NodeState) → IsSound s.space → Keeps s (drop_record slot_id s)
unfolding drop_record
drop_record-Keeps slot_id s v = elim (Bool-cases (s.node.slots slot_id).is_overflow_pages) [
  | inl t ↦ rw t (record { txid = refl; space = free-Grows s.space s.space.meta.txid _ _ v })
  | inr f ↦ rw f (Keeps-node s _ v refl)
]

pub delete-Keeps :
    (slot_id : ℕ) (right_child : Bool) (s : NodeState)
    → IsSound s.space
    → Keeps s (delete slot_id right_child s)
unfolding delete
delete-Keeps slot_id right_child s v =
    let k = drop_record-Keeps slot_id s v in
    Keeps-trans s (drop_record slot_id s) _ k (
      Keeps-node (drop_record slot_id s) _ k.space.sound
        (delete_child-txid slot_id right_child (drop_record slot_id s).node))

pub pop-Keeps : (right_child : Bool) (s : NodeState) → IsSound s.space → Keeps s (pop right_child s)
unfolding pop
pop-Keeps right_child s v = delete-Keeps (s.node.count - 1) right_child s v
