-- ===== src/BTree/CopyOnWrite.antt =====
-- The operations of src/btree.cpp that change a tree, as a whole: copy-on-write.
use atomkv.Prelude.{ℕ, ◌≡◌, Bool, true, false, List, [], inl, inr, Bool-cases, arith}
use atomkv.Comparator.{Key}
use atomkv.Space.InUse.{InUse, Fits, SameBytes}
use atomkv.Stack.{empty}
use atomkv.BTree.{Bucket, TreeState}
use atomkv.BTree.Iterator.{Iterator, lower_bound, copy_all_pages_by_path, is_eq}
use atomkv.BTree.Put.{search_to_change, insert, put}
use atomkv.BTree.Delete.{delete}
use atomkv.BTree.Steps.{
  IsGood, Shared, Owned, Step, Step-refl, Runs, AllOwned, plain, Safe-bind, Safe-return,
}
use atomkv.BTree.PathCopy.{Leaves, copy_all-Ends, bind-Runs_at}
use atomkv.BTree.Descent.{IsTree, lower_bound-IsPath, lower_bound-HasPath}
use atomkv.BTree.Path.{path}
use atomkv.Result.{Result, ok, err}
use atomkv.BTree.UpSteps.{put_at-Safe}
use atomkv.BTree.DeleteSteps.{delete_at-Safe}

-- No page in use that others may see is changed, nor the bytes of any page in use.
pub record CopiesOnWrite (bucket : Bucket) (t t' : TreeState) : Type 0 where
  pub good : IsGood t'
  pub kept : (p : ℕ) → Shared bucket t p → t'.pages p ≡ t.pages p
  pub in_use : (p : ℕ) → InUse t.space p → InUse t'.space p
  pub bytes : (p : ℕ) → InUse t.space p → SameBytes t.space t'.space p
  pub owned : (p : ℕ) → Owned bucket t p → Owned bucket t' p

Step-CopiesOnWrite :
    (bucket : Bucket) (t t' : TreeState)
    → Step bucket t t'
    → Fits t'.space
    → CopiesOnWrite bucket t t'
Step-CopiesOnWrite bucket t t' s fits = record {
  good = s.good;
  kept = s.kept fits;
  in_use = s.grows.in_use;
  bytes = s.grows.bytes fits;
  owned = λ p o. s.owned p (λ _. o) fits;
}

module _ (bucket : Bucket) (own : bucket.copy_needed bucket.txid ≡ false) where
  -- Whatever comes of the call, it has made a step.
  Step-of :
      {A : Type 0} (Q : A → TreeState → Type 0) (t : TreeState) (r : Result A × TreeState)
      → Runs bucket Q t r
      → Step bucket t r.1
  Step-of Q t (ok a, t') h = h.0
  Step-of Q t (err e, t') h = h

  abbrev Nothing : {A : Type 0} → A → TreeState → Type 0
  Nothing a t = AllOwned bucket [] t

  module _ (key : Key) (t : TreeState) (good : IsGood t) (v : IsTree bucket t) where
    abbrev found : Iterator
    found = lower_bound bucket key t

    copied-Runs :
        Runs bucket
          (Leaves bucket own found.stack.cur_pos)
          t
          (copy_all_pages_by_path bucket found t)
    copied-Runs = copy_all-Ends bucket own t found (lower_bound-IsPath bucket key t v) good

    search-Runs :
        Runs bucket (Leaves bucket own found.stack.cur_pos) t (search_to_change bucket key t)
    unfolding search_to_change
    search-Runs = copied-Runs

    insert-Step :
        (value : List ℕ) (is_bucket : Bool) → Step bucket t (insert bucket key value is_bucket t).1
    unfolding insert
    insert-Step value is_bucket = Step-of Nothing t _ (
        bind-Runs_at bucket own (Leaves bucket own found.stack.cur_pos) Nothing t _ _ search-Runs
          (λ it t' s l.
            (put_at-Safe bucket own {ps = path it} it key value true is_bucket (λ t'' o. o)).runs t'
              s.good l.0))

    put-Step :
        (value : List ℕ) (is_bucket : Bool) → Step bucket t (put bucket key value is_bucket t).1
    unfolding put
    put-Step value is_bucket = Step-of Nothing t _ (
        bind-Runs_at bucket own (Leaves bucket own found.stack.cur_pos) Nothing t _ _ search-Runs
          (λ it t' s l.
            (put_at-Safe bucket own {ps = path it} it key value false is_bucket (λ t'' o. o)).runs
              t' s.good l.0))

    delete-Step : Step bucket t (delete bucket key t).1
    unfolding delete empty
    delete-Step = elim (Bool-cases (is_eq found.status)) [
      | inr e ↦ rw (delete, e) (Step-refl bucket t good)
      | inl e ↦
          let nonempty = lower_bound-HasPath bucket key t e in
          rw (delete, e)
            (Step-of Nothing t _ (
              bind-Runs_at bucket own (Leaves bucket own found.stack.cur_pos) Nothing t _ _
                copied-Runs
                (λ it t' s l.
                  (Safe-bind bucket plain {own' = plain}
                      (delete_at-Safe bucket own {ps = path it} it (ground (arith, l.1))
                        (λ t'' o. o))
                      (λ done. Safe-return bucket true (λ t'' o. tt))).runs
                    t' s.good l.0)))
    ]

    pub put-CopiesOnWrite :
        (value : List ℕ) (is_bucket : Bool)
        → Fits (put bucket key value is_bucket t).1.space
        → CopiesOnWrite bucket t (put bucket key value is_bucket t).1
    put-CopiesOnWrite value is_bucket = Step-CopiesOnWrite bucket t _ (put-Step value is_bucket)

    pub delete-CopiesOnWrite :
        Fits (delete bucket key t).1.space → CopiesOnWrite bucket t (delete bucket key t).1
    delete-CopiesOnWrite = Step-CopiesOnWrite bucket t _ delete-Step

    -- Insert, Put and Delete, of a key of any size, in a tree whose pages are in use and in which the parent of a page
    -- that the open transaction may write is one, too, where pages with the same address hold the same node, and
    -- whatever comes of the calls, as long as the database still ends below 4 GiB afterwards: a page in use of
    -- which CopyNeeded says that others may see it is not changed; the bytes of every page in use are the ones
    -- they were, and it stays in use; a page that the transaction may write it may write afterwards; and the
    -- free map stays well-formed and within the database, and pages with the same address hold the same node.
    pub changes-CopiesOnWrite :
        (value : List ℕ) (is_bucket : Bool)
        → Fits (insert bucket key value is_bucket t).1.space
        → Fits (put bucket key value is_bucket t).1.space
        → Fits (delete bucket key t).1.space
        → CopiesOnWrite bucket t (insert bucket key value is_bucket t).1
          × CopiesOnWrite bucket t (put bucket key value is_bucket t).1
          × CopiesOnWrite bucket t (delete bucket key t).1
    changes-CopiesOnWrite value is_bucket f1 f2 f3 = (
      Step-CopiesOnWrite bucket t _ (insert-Step value is_bucket) f1,
      put-CopiesOnWrite value is_bucket f2,
      delete-CopiesOnWrite f3,
    )
