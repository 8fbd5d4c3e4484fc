-- ===== src/BTree/PutSteps.antt =====
-- Copy-on-write in Split and Put of src/btree.cpp: what they write are pages of the open transaction.
use atomkv.Prelude.{ℕ, zero, suc, ◌-◌, refl, Bool, true, false, List, inl, inr, Bool-cases, leb}
use atomkv.Comparator.{Key}
use atomkv.Leaf as Leaf
use atomkv.Leaf.Keeps as LeafKeeps
use atomkv.Branch as Branch
use atomkv.Branch.Keeps as BranchKeeps
use atomkv.BTree.{Bucket, run_node}
use atomkv.BTree.Put.{
  append_from, split_leaf_loop, insert_or_shift, append_key_from, split_branch_loop,
  insert_key_or_shift, raise_key,
}
use atomkv.BTree.Steps.{Safe, plain, Safe-bind, Safe-seq, Safe-return, Safe-done, Safe-read_bind}
use atomkv.BTree.Writes.{Within, Safe-run, Safe-run_state, Safe-run_node}

module _ (bucket : Bucket) where
  pub append_from-Safe :
      {ps : List ℕ} (to from slot_id : ℕ)
      → Within bucket ps to
      → Safe bucket ps (append_from to from slot_id) plain
  unfolding append_from
  append_from-Safe to from slot_id w = Safe-read_bind bucket _ _ _ (λ key.
      Safe-read_bind bucket _ _ _ (λ value.
        Safe-bind bucket plain (Safe-run bucket _ _ w (LeafKeeps.append-Keeps key value))
          (λ success. Safe-read_bind bucket _ _ _ (λ is_bucket.
            Safe-read_bind bucket _ _ _ (λ count.
              Safe-run_node bucket _ (Leaf.set_is_bucket (count - 1) is_bucket) w
                (LeafKeeps.set_is_bucket-txid (count - 1) is_bucket))))))

  pub split_leaf_loop-Safe :
      {ps : List ℕ} (i left right : ℕ)
      → Within bucket ps left
      → Within bucket ps right
      → Safe bucket ps (split_leaf_loop i left right) plain
  unfolding split_leaf_loop
  split_leaf_loop-Safe zero left right l r = Safe-done bucket
  split_leaf_loop-Safe (suc i) left right l r = Safe-seq bucket (append_from-Safe right left i r) (
      Safe-seq bucket (Safe-run_state bucket _ Leaf.pop l LeafKeeps.pop-Keeps) (
        Safe-read_bind bucket _ _ _ (λ over. elim (Bool-cases over) [
          | inl e ↦ rw e (split_leaf_loop-Safe i left right l r)
          | inr e ↦ rw e (Safe-done bucket)
        ])))

  pub insert_or_shift-Safe :
      {ps : List ℕ} (success : Bool) (left right insert_slot_id : ℕ) (key : Key) (value : List ℕ)
      → Within bucket ps left
      → Within bucket ps right
      → Safe bucket ps (insert_or_shift success left right insert_slot_id key value) plain
  unfolding insert_or_shift
  insert_or_shift-Safe true left right insert_slot_id key value l r = Safe-done bucket
  insert_or_shift-Safe false left right insert_slot_id key value l r =
      Safe-seq bucket (append_from-Safe left right 0 l) (
        Safe-seq bucket (Safe-run_state bucket _ (Leaf.delete 0) r (LeafKeeps.delete-Keeps 0)) (
          Safe-read_bind bucket _ _ _ (λ left_count.
            Safe-bind bucket plain
              (Safe-run bucket _ _ r
                (LeafKeeps.insert-Keeps (insert_slot_id - left_count) key value))
              (λ success. Safe-done bucket))))

  pub append_key_from-Safe :
      {ps : List ℕ} (is_right_child : Bool) (to from slot_id : ℕ)
      → Within bucket ps to
      → Safe bucket ps (append_key_from is_right_child to from slot_id) plain
  unfolding append_key_from
  append_key_from-Safe is_right_child to from slot_id w = Safe-read_bind bucket _ _ _ (λ key.
      Safe-read_bind bucket _ _ _ (λ child.
        Safe-bind bucket plain
          (Safe-run bucket _ _ w (BranchKeeps.append-Keeps key child is_right_child))
          (λ success. Safe-done bucket)))

  pub split_branch_loop-Safe :
      {ps : List ℕ} (i left right : ℕ)
      → Within bucket ps left
      → Within bucket ps right
      → Safe bucket ps (split_branch_loop i left right) plain
  unfolding split_branch_loop
  split_branch_loop-Safe zero left right l r = Safe-done bucket
  split_branch_loop-Safe (suc i) left right l r =
      Safe-seq bucket (append_key_from-Safe false right left i r) (
        Safe-seq bucket (Safe-run_state bucket _ (Branch.pop false) l (BranchKeeps.pop-Keeps false))
          (Safe-read_bind bucket _ _ _ (λ over. elim (Bool-cases over) [
            | inl e ↦ rw e (split_branch_loop-Safe i left right l r)
            | inr e ↦ rw e (Safe-done bucket)
          ])))

  pub insert_key_or_shift-Safe :
      {ps : List ℕ} (success : Bool) (left right insert_slot_id : ℕ) (key : Key) (child : ℕ)
      → Within bucket ps left
      → Within bucket ps right
      → Safe bucket ps (insert_key_or_shift success left right insert_slot_id key child) plain
  unfolding insert_key_or_shift
  insert_key_or_shift-Safe true left right insert_slot_id key child l r = Safe-done bucket
  insert_key_or_shift-Safe false left right insert_slot_id key child l r =
      Safe-seq bucket (append_key_from-Safe true left right 0 l) (
        Safe-seq bucket
          (Safe-run_state bucket _ (Branch.delete 0 false) r (BranchKeeps.delete-Keeps 0 false))
          (Safe-read_bind bucket _ _ _ (λ left_count.
            Safe-bind bucket plain
              (Safe-run bucket _ _ r
                (BranchKeeps.insert-Keeps (insert_slot_id - left_count) key child false))
              (λ success. Safe-done bucket))))

  pub set_tail-Safe :
      {ps : List ℕ} (pgid child : ℕ)
      → Within bucket ps pgid
      → Safe bucket ps (run_node pgid (λ n. record n { tail_child = child })) plain
  set_tail-Safe pgid child w =
      Safe-run_node bucket pgid (λ n. record n { tail_child = child }) w (λ n. refl)

  pub raise_key-Safe :
      {ps : List ℕ} (left right : ℕ)
      → Within bucket ps left
      → Within bucket ps right
      → Safe bucket ps (raise_key left right) plain
  unfolding raise_key
  raise_key-Safe left right l r = Safe-read_bind bucket _ _ _ (λ left_count.
      elim (Bool-cases (leb 2 left_count)) [
        | inl e ↦ rw e (
            Safe-read_bind bucket _ _ _ (λ up_key.
              Safe-seq bucket
                (Safe-run_state bucket _ (Branch.pop true) l (BranchKeeps.pop-Keeps true))
                (Safe-return bucket up_key (λ t o. tt))))
        | inr e ↦ rw e (
            Safe-read_bind bucket _ _ _ (λ up_key. Safe-read_bind bucket _ _ _ (λ left_child.
              Safe-seq bucket
                (Safe-run_state bucket _ (Branch.delete 0 false) r
                  (BranchKeeps.delete-Keeps 0 false))
                (Safe-seq bucket (set_tail-Safe left left_child l)
                  (Safe-return bucket up_key (λ t o. tt))))))
      ])
