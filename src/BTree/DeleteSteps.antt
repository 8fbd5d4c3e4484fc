-- ===== src/BTree/DeleteSteps.antt =====
-- Copy-on-write in Merge and Delete of src/btree.cpp: what they write are pages of the open transaction.
use atomkv.Prelude.{
  ℕ, zero, suc, ◌+◌, ◌≡◌, sym, subst, Bool, true, false, List, [], ◌∷◌, inl, inr, Bool-cases, ◌&&◌,
  leb, ◌==◌,
}
use atomkv.Format.{page_invalid_id}
use atomkv.Comparator.{Key}
use atomkv.Leaf as Leaf
use atomkv.Leaf.Keeps as LeafKeeps
use atomkv.Branch as Branch
use atomkv.Branch.Keeps as BranchKeeps
use atomkv.Stack.{front, empty}
use atomkv.BTree.{Bucket, read, count_of, is_over_half}
use atomkv.BTree.Iterator.{Iterator, pop, push}
use atomkv.BTree.Delete.{
  Sibling, get_sibling, sibling_slot, copy_sibling, merge_branch_loop, merge_branch,
  merge_leaf_loop, merge_leaf, update_or_put, borrow_key, can_lend, shrink_root, delete_up,
  borrow_record, delete_at,
}
use atomkv.BTree.Path.{path-push}
use atomkv.BTree.Steps.{
  AllOwned, Safe, plain, Safe-bind, Safe-seq, Safe-return, Safe-done, Safe-root, Safe-read,
  Safe-read_bind, Safe-read_test,
}
use atomkv.BTree.Writes.{Within, itself, Safe-run, Safe-run_state, Safe-copy, Safe-free_page}
use atomkv.BTree.PutSteps.{append_from-Safe, append_key_from-Safe, set_tail-Safe}
use atomkv.BTree.UpSteps.{
  PathWithin, front-Within, put_up-Safe, set_left_child-Safe, set_is_bucket-Safe,
}

module _ (bucket : Bucket) (own : bucket.copy_needed bucket.txid ≡ false) where
  -- The value names the parent, which the transaction may write.
  abbrev parent_of : Sibling → List ℕ
  parent_of b = b.parent ∷ []

  get_sibling-Safe :
      {ps : List ℕ} (it : Iterator)
      → Within bucket ps (front it.stack).0
      → Safe bucket ps (get_sibling it) parent_of
  unfolding get_sibling
  get_sibling-Safe it w = Safe-read_bind bucket _ _ _ (λ n.
      elim (Bool-cases ((front it.stack).1 == n.count)) [
        | inl e ↦ rw e (Safe-return bucket _ (λ t o. (w t o, tt)))
        | inr e ↦ rw e (Safe-return bucket _ (λ t o. (w t o, tt)))
      ])

  copy_sibling-Safe :
      {ps : List ℕ} (b : Sibling)
      → Within bucket ps b.parent
      → Safe bucket ps (copy_sibling bucket b) itself
  unfolding copy_sibling
  copy_sibling-Safe b w =
      Safe-read_test bucket b.sibling _
        (λ n e. rw e (
          Safe-bind bucket itself (Safe-copy bucket own b.sibling) (λ new_pgid.
            Safe-seq bucket
              (set_left_child-Safe bucket own b.parent (sibling_slot b) new_pgid (λ t o. w t o.1))
              (Safe-return bucket new_pgid (λ t o. (o.0, tt))))))
        (λ n e. rw e (Safe-return bucket b.sibling (λ t o. (o.0, tt))))

  merge_branch_loop-Safe :
      {ps : List ℕ} (rounds i left right : ℕ)
      → Within bucket ps left
      → Safe bucket ps (merge_branch_loop rounds i left right) plain
  unfolding merge_branch_loop
  merge_branch_loop-Safe zero i left right w = Safe-done bucket
  merge_branch_loop-Safe (suc rounds) i left right w =
      Safe-seq bucket (append_key_from-Safe bucket false left right i w)
        (merge_branch_loop-Safe rounds (i + 1) left right w)

  merge_branch-Safe :
      {ps : List ℕ} (left right : ℕ) (down_key : Key)
      → Within bucket ps left
      → Safe bucket ps (merge_branch left right down_key) plain
  unfolding merge_branch
  merge_branch-Safe left right down_key w =
      Safe-bind bucket plain
        (Safe-run bucket _ _ w (BranchKeeps.append-Keeps down_key page_invalid_id true))
        (λ success. Safe-read_bind bucket _ _ _ (λ right_count.
          Safe-seq bucket (merge_branch_loop-Safe right_count 0 left right w) (
            Safe-read_bind bucket _ _ _ (λ tail_child.
              Safe-seq bucket (set_tail-Safe bucket left tail_child w)
                (Safe-free_page bucket right)))))

  merge_leaf_loop-Safe :
      {ps : List ℕ} (rounds i left right : ℕ)
      → Within bucket ps left
      → Safe bucket ps (merge_leaf_loop rounds i left right) plain
  unfolding merge_leaf_loop
  merge_leaf_loop-Safe zero i left right w = Safe-done bucket
  merge_leaf_loop-Safe (suc rounds) i left right w =
      Safe-seq bucket (append_from-Safe bucket left right i w)
        (merge_leaf_loop-Safe rounds (i + 1) left right w)

  merge_leaf-Safe :
      {ps : List ℕ} (left right : ℕ)
      → Within bucket ps left
      → Safe bucket ps (merge_leaf left right) plain
  unfolding merge_leaf
  merge_leaf-Safe left right w = Safe-read_bind bucket _ _ _ (λ right_count.
      Safe-seq bucket (merge_leaf_loop-Safe right_count 0 left right w)
        (Safe-free_page bucket right))

  update_or_put-Safe :
      {ps : List ℕ} (success : Bool) (it : Iterator) (b : Sibling) (sibling node : ℕ)
      (new_key : Key)
      → Within bucket ps b.parent
      → PathWithin bucket ps it
      → Safe bucket ps (update_or_put success bucket it b sibling node new_key) plain
  unfolding update_or_put
  update_or_put-Safe true it b sibling node new_key w p = Safe-done bucket
  update_or_put-Safe false it b sibling node new_key w p =
      Safe-seq bucket
        (Safe-run_state bucket _ (Branch.delete b.parent_slot_id true) w
          (BranchKeeps.delete-Keeps b.parent_slot_id true))
        (put_up-Safe bucket own _ (push (b.parent, b.parent_slot_id) it) _ _ new_key (λ t o.
          subst (λ qs. AllOwned bucket qs t) (sym (path-push (b.parent, b.parent_slot_id) it))
            (w t o, p t o)))

  borrow_key-Safe :
      {ps : List ℕ} (b : Sibling) (sibling node : ℕ)
      → Within bucket ps b.parent
      → Within bucket ps sibling
      → Within bucket ps node
      → Safe bucket ps (borrow_key b sibling node) plain
  unfolding borrow_key
  borrow_key-Safe b sibling node w s n = Safe-read_bind bucket _ _ _ (λ down_key.
      elim (Bool-cases b.left_sibling) [
        | inl e ↦ rw e (
            Safe-read_bind bucket _ _ _ (λ child.
              Safe-bind bucket plain
                (Safe-run bucket _ _ n (BranchKeeps.insert-Keeps 0 down_key child false))
                (λ success. Safe-read_bind bucket _ _ _ (λ new_key.
                  Safe-seq bucket
                    (Safe-run_state bucket _ (Branch.pop true) s (BranchKeeps.pop-Keeps true))
                    (Safe-return bucket new_key (λ t o. tt))))))
        | inr e ↦ rw e (
            Safe-seq bucket
              (set_left_child-Safe bucket own b.parent (b.parent_slot_id + 1) sibling w)
              (Safe-read_bind bucket _ _ _ (λ child.
                Safe-bind bucket plain
                  (Safe-run bucket _ _ n (BranchKeeps.append-Keeps down_key child true))
                  (λ success. Safe-read_bind bucket _ _ _ (λ new_key.
                    Safe-seq bucket
                      (Safe-run_state bucket _ (Branch.delete 0 false) s
                        (BranchKeeps.delete-Keeps 0 false))
                      (Safe-return bucket new_key (λ t o. tt)))))))
      ])

  can_lend-Safe :
      {ps : List ℕ} (sibling : ℕ)
      → Safe bucket ps (can_lend (read sibling is_over_half) (read sibling count_of)) plain
  can_lend-Safe sibling =
      Safe-read_bind bucket _ _ _
        (λ o. Safe-read_bind bucket _ _ _ (λ c. Safe-return bucket (o && leb 2 c) (λ t o. tt)))

  shrink_root-Safe : {ps : List ℕ} (node : ℕ) → Safe bucket ps (shrink_root node) plain
  unfolding shrink_root
  shrink_root-Safe node = Safe-read_bind bucket _ _ _ (λ n. elim (Bool-cases (n.count == 0)) [
    | inl e ↦ rw e (Safe-seq bucket (Safe-root bucket n.tail_child) (Safe-free_page bucket node))
    | inr e ↦ rw e (Safe-done bucket)
  ])

  delete_up-Safe :
      {ps : List ℕ} (fuel : ℕ) (it : Iterator) (node slot_id : ℕ)
      → Within bucket ps node
      → PathWithin bucket ps it
      → Safe bucket ps (delete_up fuel bucket it node slot_id) plain
  unfolding delete_up
  delete_up-Safe zero it node slot_id w p = Safe-done bucket
  delete_up-Safe {ps = ps} (suc fuel) it node slot_id w p =
      Safe-seq bucket
        (Safe-run_state bucket _ (Branch.delete slot_id true) w
          (BranchKeeps.delete-Keeps slot_id true))
        (Safe-read_bind bucket _ _ _ (λ filled. elim (Bool-cases (empty it.stack)) [
          | inl e ↦ rw e (shrink_root-Safe node)
          | inr e ↦
              let f = front-Within bucket own ps it e p in
              rw e (elim (Bool-cases filled) [
                | inl q ↦ rw q (Safe-done bucket)
                | inr q ↦ rw q (
                    Safe-bind bucket parent_of (get_sibling-Safe it f.0) (λ b.
                      Safe-bind bucket itself (copy_sibling-Safe b (λ t o. o.0)) (λ sibling.
                        Safe-bind bucket plain (can_lend-Safe sibling) (λ lends.
                          elim (Bool-cases lends) [
                            | inl l ↦ rw l (
                                Safe-bind bucket plain
                                  (borrow_key-Safe b sibling node (λ t o. o.1.0) (λ t o. o.0)
                                    (λ t o. w t o.1.1))
                                  (λ new_key.
                                    Safe-bind bucket plain
                                      (Safe-run bucket _ _ (λ t o. o.1.0)
                                        (BranchKeeps.update_key-Keeps b.parent_slot_id new_key))
                                      (λ success.
                                        update_or_put-Safe success (pop it) b sibling node new_key
                                          (λ t o. o.1.0) (λ t o. f.1 t o.1.1))))
                            | inr l ↦ rw l (
                                Safe-read_bind bucket _ _ _ (λ down_key.
                                  Safe-seq bucket
                                    (elim (Bool-cases b.left_sibling) [
                                      | inl s ↦
                                          rw s
                                            (merge_branch-Safe sibling node down_key (λ t o. o.0))
                                      | inr s ↦ rw s (
                                          merge_branch-Safe node sibling down_key
                                            (λ t o. w t o.1.1))
                                    ])
                                    (delete_up-Safe fuel (pop it) b.parent b.parent_slot_id
                                      (λ t o. o.1.0) (λ t o. f.1 t o.1.1))))
                          ]))))
              ])
        ]))

  borrow_record-Safe :
      {ps : List ℕ} (b : Sibling) (sibling node : ℕ)
      → Within bucket ps sibling
      → Within bucket ps node
      → Safe bucket ps (borrow_record b sibling node) plain
  unfolding borrow_record
  borrow_record-Safe b sibling node s n = elim (Bool-cases b.left_sibling) [
    | inl e ↦ rw e (
        Safe-read_bind bucket _ _ _ (λ sibling_count. Safe-read_bind bucket _ _ _ (λ key.
          Safe-read_bind bucket _ _ _ (λ value.
            Safe-bind bucket plain (Safe-run bucket _ _ n (LeafKeeps.insert-Keeps 0 key value))
              (λ success. Safe-read_bind bucket _ _ _ (λ is_bucket.
                Safe-seq bucket (set_is_bucket-Safe bucket own node 0 is_bucket n) (
                  Safe-seq bucket (Safe-run_state bucket _ Leaf.pop s LeafKeeps.pop-Keeps)
                    (Safe-read bucket _ _))))))))
    | inr e ↦ rw e (
        Safe-seq bucket (append_from-Safe bucket node sibling 0 n) (
          Safe-seq bucket (Safe-run_state bucket _ (Leaf.delete 0) s (LeafKeeps.delete-Keeps 0))
            (Safe-read bucket _ _)))
  ]

  pub delete_at-Safe :
      {ps : List ℕ} (it : Iterator)
      → empty it.stack ≡ false
      → PathWithin bucket ps it
      → Safe bucket ps (delete_at bucket it) plain
  unfolding delete_at
  delete_at-Safe {ps = ps} it ne p =
      let f = front-Within bucket own ps it ne p in
      let node = (front it.stack).0 in
      Safe-seq bucket
        (Safe-run_state bucket _ (Leaf.delete (front it.stack).1) f.0
          (LeafKeeps.delete-Keeps (front it.stack).1))
        (Safe-read_bind bucket _ _ _ (λ filled. elim (Bool-cases filled) [
          | inl q ↦ rw q (Safe-done bucket)
          | inr q ↦ rw q (elim (Bool-cases (empty (pop it).stack)) [
            | inl e ↦ rw e (Safe-done bucket)
            | inr e ↦
                let g = front-Within bucket own ps (pop it) e f.1 in
                rw e (
                  Safe-bind bucket parent_of (get_sibling-Safe (pop it) g.0) (λ b.
                    Safe-bind bucket itself (copy_sibling-Safe b (λ t o. o.0)) (λ sibling.
                      Safe-bind bucket plain (can_lend-Safe sibling) (λ lends.
                        elim (Bool-cases lends) [
                          | inl l ↦ rw l (
                              Safe-bind bucket plain
                                (borrow_record-Safe b sibling node (λ t o. o.0)
                                  (λ t o. f.0 t o.1.1))
                                (λ new_key. Safe-read_bind bucket _ _ _ (λ left_child.
                                  Safe-bind bucket plain
                                    (Safe-run bucket _ _ (λ t o. o.1.0)
                                      (BranchKeeps.update-Keeps b.parent_slot_id new_key left_child
                                        false))
                                    (λ success.
                                      update_or_put-Safe success (pop (pop it)) b sibling node
                                        new_key (λ t o. o.1.0) (λ t o. g.1 t o.1.1)))))
                          | inr l ↦ rw l (
                              Safe-seq bucket
                                (elim (Bool-cases b.left_sibling) [
                                  | inl s ↦ rw s (merge_leaf-Safe sibling node (λ t o. o.0))
                                  | inr s ↦ rw s (merge_leaf-Safe node sibling (λ t o. f.0 t o.1.1))
                                ])
                                (delete_up-Safe _ (pop (pop it)) b.parent b.parent_slot_id
                                  (λ t o. o.1.0) (λ t o. g.1 t o.1.1)))
                        ]))))
          ])
        ]))
