-- ===== src/BTree/UpSteps.antt =====
-- Copy-on-write in Split and Put of src/btree.cpp, with the calls that go up the path.
use atomkv.Prelude.{
  ℕ, zero, suc, ◌-◌, ◌≡◌, refl, subst, Bool, true, false, List, inl, inr, Bool-cases, not, ◌&&◌,
  ltb,
}
use atomkv.Format.{page_invalid_id}
use atomkv.Comparator.{Key}
use atomkv.Node.{page_size_of}
use atomkv.Leaf as Leaf
use atomkv.Leaf.Keeps as LeafKeeps
use atomkv.Branch as Branch
use atomkv.Branch.Keeps as BranchKeeps
use atomkv.Stack.{front, empty}
use atomkv.BTree.{Bucket, TreeState, run_node}
use atomkv.BTree.Iterator.{Iterator, pop, is_eq}
use atomkv.BTree.Put.{reverse_slots, new_leaf, new_branch, split_leaf, split_branch, put_up, put_at}
use atomkv.BTree.Path.{path, path-front}
use atomkv.BTree.Steps.{
  AllOwned, Safe, plain, Safe-bind, Safe-seq, Safe-return, Safe-done, Safe-root, Safe-read_bind,
}
use atomkv.BTree.Writes.{Within, itself, Safe-run, Safe-run_node, Safe-build}
use atomkv.BTree.PutSteps.{
  split_leaf_loop-Safe, insert_or_shift-Safe, split_branch_loop-Safe, insert_key_or_shift-Safe,
  raise_key-Safe, set_tail-Safe,
}

-- The pages of the path are among those that the transaction may write.
abbrev pub PathWithin : Bucket → List ℕ → Iterator → Type 0
PathWithin bucket ps it = (t : TreeState) → AllOwned bucket ps t → AllOwned bucket (path it) t

module _ (bucket : Bucket) (own : bucket.copy_needed bucket.txid ≡ false) where
  new_leaf-Safe : {ps : List ℕ} → Safe bucket ps (new_leaf bucket) itself
  unfolding new_leaf Leaf.build
  new_leaf-Safe =
      Safe-build bucket own
        (λ s. record s { node = Leaf.build (page_size_of s) bucket.txid s.node }) (λ s. refl)
        (λ s. refl)

  new_branch-Safe :
      {ps : List ℕ} (tail_child : ℕ) → Safe bucket ps (new_branch bucket tail_child) itself
  unfolding new_branch Branch.build
  new_branch-Safe tail_child =
      Safe-build bucket own
        (λ s. record s { node = Branch.build (page_size_of s) bucket.txid tail_child s.node })
        (λ s. refl) (λ s. refl)

  reverse-Safe :
      {ps : List ℕ} (pgid : ℕ)
      → Within bucket ps pgid
      → Safe bucket ps (run_node pgid reverse_slots) plain
  unfolding reverse_slots
  reverse-Safe pgid w = Safe-run_node bucket pgid reverse_slots w (λ n. refl)

  pub set_is_bucket-Safe :
      {ps : List ℕ} (pgid slot_id : ℕ) (b : Bool)
      → Within bucket ps pgid
      → Safe bucket ps (run_node pgid (Leaf.set_is_bucket slot_id b)) plain
  set_is_bucket-Safe pgid slot_id b w =
      Safe-run_node bucket pgid (Leaf.set_is_bucket slot_id b) w
        (LeafKeeps.set_is_bucket-txid slot_id b)

  split_leaf-Safe :
      {ps : List ℕ} (left insert_slot_id : ℕ) (key : Key) (value : List ℕ) (is_bucket : Bool)
      → Within bucket ps left
      → Safe bucket ps (split_leaf bucket left insert_slot_id key value is_bucket) itself
  unfolding split_leaf
  split_leaf-Safe left insert_slot_id key value is_bucket w =
      Safe-bind bucket itself new_leaf-Safe (λ right.
        Safe-read_bind bucket _ _ _ (λ saved_left_count.
          Safe-seq bucket
            (split_leaf_loop-Safe bucket saved_left_count left right (λ t o. w t o.1) (λ t o. o.0))
            (Safe-seq bucket (reverse-Safe right (λ t o. o.0)) (
              Safe-read_bind bucket _ _ _ (λ left_count.
                Safe-seq bucket
                  (elim (Bool-cases (ltb left_count insert_slot_id)) [
                    | inl e ↦ rw e (
                        Safe-bind bucket plain
                          (Safe-run bucket _ _ (λ t o. o.0)
                            (LeafKeeps.insert-Keeps (insert_slot_id - left_count) key value))
                          (λ success.
                            Safe-seq bucket
                              (insert_or_shift-Safe bucket success left right insert_slot_id key
                                value (λ t o. w t o.1) (λ t o. o.0))
                              (Safe-read_bind bucket _ _ _ (λ left_count'.
                                set_is_bucket-Safe right (insert_slot_id - left_count') is_bucket
                                  (λ t o. o.0)))))
                    | inr e ↦ rw e (
                        Safe-bind bucket plain
                          (Safe-run bucket _ _ (λ t o. w t o.1)
                            (LeafKeeps.insert-Keeps insert_slot_id key value))
                          (λ success.
                            set_is_bucket-Safe left insert_slot_id is_bucket (λ t o. w t o.1)))
                  ])
                  (Safe-return bucket right (λ t o. (o.0, tt))))))))

  pub set_left_child-Safe :
      {ps : List ℕ} (pgid slot_id child : ℕ)
      → Within bucket ps pgid
      → Safe bucket ps (run_node pgid (Branch.set_left_child slot_id child)) plain
  set_left_child-Safe pgid slot_id child w =
      Safe-run_node bucket pgid (Branch.set_left_child slot_id child) w
        (BranchKeeps.set_left_child-txid slot_id child)

  split_branch-Safe :
      {ps : List ℕ} (left insert_slot_id : ℕ) (insert_key : Key) (insert_right_child : ℕ)
      → Within bucket ps left
      → Safe bucket ps (split_branch bucket left insert_slot_id insert_key insert_right_child) plain
  unfolding split_branch
  split_branch-Safe left insert_slot_id insert_key insert_right_child w =
      Safe-bind bucket itself (new_branch-Safe page_invalid_id) (λ right.
        Safe-read_bind bucket _ _ _ (λ saved_left_count.
          Safe-read_bind bucket _ _ _ (λ insert_left_child.
            Safe-seq bucket
              (set_left_child-Safe left insert_slot_id insert_right_child (λ t o. w t o.1))
              (Safe-seq bucket
                (split_branch_loop-Safe bucket saved_left_count left right (λ t o. w t o.1)
                  (λ t o. o.0))
                (Safe-seq bucket (reverse-Safe right (λ t o. o.0)) (
                  Safe-read_bind bucket _ _ _ (λ tail_child.
                    Safe-seq bucket (set_tail-Safe bucket right tail_child (λ t o. o.0)) (
                      Safe-read_bind bucket _ _ _ (λ left_count.
                        Safe-seq bucket
                          (elim (Bool-cases (ltb left_count insert_slot_id)) [
                            | inl e ↦ rw e (
                                Safe-bind bucket plain
                                  (Safe-run bucket _ _ (λ t o. o.0)
                                    (BranchKeeps.insert-Keeps (insert_slot_id - left_count)
                                      insert_key insert_left_child false))
                                  (λ success.
                                    insert_key_or_shift-Safe bucket success left right
                                      insert_slot_id insert_key insert_left_child (λ t o. w t o.1)
                                      (λ t o. o.0)))
                            | inr e ↦ rw e (
                                Safe-bind bucket plain
                                  (Safe-run bucket _ _ (λ t o. w t o.1)
                                    (BranchKeeps.insert-Keeps insert_slot_id insert_key
                                      insert_left_child false))
                                  (λ success. Safe-done bucket))
                          ])
                          (Safe-bind bucket plain
                            (raise_key-Safe bucket left right (λ t o. w t o.1) (λ t o. o.0))
                            (λ up_key. Safe-return bucket (up_key, right) (λ t o. tt))))))))))))

  -- The path has a last element, which the transaction may write, and so for the rest of the path.
  pub front-Within :
      (ps : List ℕ) (it : Iterator)
      → empty it.stack ≡ false
      → PathWithin bucket ps it
      → Within bucket ps (front it.stack).0 × PathWithin bucket ps (pop it)
  front-Within ps it e w =
      let split = λ (t : TreeState) (o : AllOwned bucket ps t).
        subst (λ qs. AllOwned bucket qs t) (path-front it e) (w t o) in
      (λ t o. (split t o).0, λ t o. (split t o).1)

  pub put_up-Safe :
      {ps : List ℕ} (fuel : ℕ) (it : Iterator) (left right : ℕ) (key : Key)
      → PathWithin bucket ps it
      → Safe bucket ps (put_up fuel bucket it left right key) plain
  unfolding put_up
  put_up-Safe zero it left right key w = Safe-done bucket
  put_up-Safe {ps = ps} (suc fuel) it left right key w = elim (Bool-cases (empty it.stack)) [
    | inl e ↦
        rw (put_up, e)
          (Safe-bind bucket itself (new_branch-Safe left) (λ root.
            Safe-seq bucket (Safe-root bucket root) (
              Safe-bind bucket plain
                (Safe-run bucket _ _ (λ t o. o.0) (BranchKeeps.append-Keeps key right true))
                (λ success. Safe-done bucket))))
    | inr e ↦
        let f = front-Within ps it e w in
        rw (put_up, e)
          (Safe-bind bucket plain
            (Safe-run bucket _ _ f.0 (BranchKeeps.insert-Keeps (front it.stack).1 key right true))
            (λ inserted. elim (Bool-cases inserted) [
              | inl i ↦ rw i (Safe-done bucket)
              | inr i ↦ rw i (
                  Safe-bind bucket plain
                    (split_branch-Safe (front it.stack).0 (front it.stack).1 key right f.0)
                    (λ r. put_up-Safe fuel (pop it) (front it.stack).0 r.1 r.0 f.1))
            ]))
  ]

  pub put_at-Safe :
      {ps : List ℕ} (it : Iterator) (key : Key) (value : List ℕ) (insert_only is_bucket : Bool)
      → PathWithin bucket ps it
      → Safe bucket ps (put_at bucket it key value insert_only is_bucket) plain
  unfolding put_at
  put_at-Safe {ps = ps} it key value insert_only is_bucket w = elim (Bool-cases (empty it.stack)) [
    | inl e ↦
        rw (put_at, e)
          (Safe-bind bucket itself new_leaf-Safe (λ root. Safe-seq bucket (Safe-root bucket root) (
            Safe-bind bucket plain
              (Safe-run bucket _ _ (λ t o. o.0) (LeafKeeps.insert-Keeps 0 key value))
              (λ success. set_is_bucket-Safe root 0 is_bucket (λ t o. o.0)))))
    | inr e ↦
        let f = front-Within ps it e w in
        let slot_id = (front it.stack).1 in
        rw (put_at, e)
          (elim (Bool-cases (not insert_only && is_eq it.status)) [
            | inl u ↦ rw u (
                Safe-bind bucket plain
                  (Safe-run bucket _ _ f.0 (LeafKeeps.update-Keeps slot_id key value))
                  (λ success. set_is_bucket-Safe (front it.stack).0 slot_id is_bucket f.0))
            | inr u ↦ rw u (
                Safe-bind bucket plain
                  (Safe-run bucket _ _ f.0 (LeafKeeps.insert-Keeps slot_id key value))
                  (λ inserted. elim (Bool-cases inserted) [
                    | inl i ↦ rw i (set_is_bucket-Safe (front it.stack).0 slot_id is_bucket f.0)
                    | inr i ↦ rw i (
                        Safe-bind bucket itself
                          (split_leaf-Safe (front it.stack).0 slot_id key value is_bucket f.0)
                          (λ right. Safe-read_bind bucket _ _ _ (λ up_key.
                            put_up-Safe _ (pop it) (front it.stack).0 right up_key
                              (λ t o. f.1 t o.1))))
                  ]))
          ])
  ]
