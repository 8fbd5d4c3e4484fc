-- ===== src/BTree/Writes.antt =====
-- Copy-on-write in src/btree.cpp: the operations on one page, and on a page from Alloc.
use atomkv.Prelude.{ℕ, ◌<◌, ◌≡◌, refl, sym, subst, Bool, true, false, arith, List, [], ◌∷◌}
use atomkv.Result.{Result, ok, err}
use atomkv.Space.{Space, alloc}
use atomkv.Pager.{free, get_ptr}
use atomkv.Pager.Address.{same_page}
use atomkv.Space.InUse.{
  InUse, IsSound, Grows, Grows-refl, Grows-trans, Fits, Fits-before, Fresh, AllocGrows,
  alloc-AllocGrows, free-Grows,
}
use atomkv.Node.{Node, NodeState, Exec}
use atomkv.Node.Keeps.{Keeps}
use atomkv.BTree.{
  Bucket, TreeState, then_run, ◌>>=◌, ◌>>◌, return, read, node_at, put_back, put_result, run,
  run_state, run_node, alloc_result, alloc_page, free_page, copy, same_place,
}
use atomkv.BTree.Steps.{
  IsGood, MayWrite, Step, Step-refl, Step-space, Step-change, Owned-private, Runs, AllOwned, Safe,
  plain,
}

-- The value is a page that the transaction may write.
abbrev pub itself : ℕ → List ℕ
itself pgid = pgid ∷ []

module _ (bucket : Bucket) where
  -- An operation of LeafNode or BranchNode on a page that the transaction may write.
  put_result-Runs :
      (pgid : ℕ) (t : TreeState) (r : Result Bool × NodeState)
      → IsGood t
      → MayWrite bucket t pgid
      → Keeps (node_at t pgid) r.1
      → Runs bucket (λ a t'. Unit) t (put_result pgid t r)
  put_result-Runs pgid t (r, s) v o k =
      let e : same_place s.space.pager pgid pgid ≡ true = ground arith in
      answer r (
        Step-change bucket t (put_back pgid s t) pgid v k.space
          (Owned-private bucket t (put_back pgid s t) pgid v k.space o)
          (λ fits. rw (e, k.txid) (o (Fits-before t.space s.space k.space fits)))
          (λ p h. rw (h, e) refl) (λ p ne. rw ne refl))
    where
      answer :
          (r : Result Bool)
          → Step bucket t (put_back pgid s t)
          → Runs bucket (λ a t'. Unit) t (r, put_back pgid s t)
      answer (ok b) step = (step, tt)
      answer (err x) step = step

  -- The page is among those that the transaction may write.
  abbrev pub Within : List ℕ → ℕ → Type 0
  Within ps p = (t : TreeState) → AllOwned bucket ps t → MayWrite bucket t p

  pub Safe-run :
      {ps : List ℕ} (pgid : ℕ) (op : Exec Bool)
      → Within ps pgid
      → ((s : NodeState) → IsSound s.space → Keeps s (op s).1)
      → Safe bucket ps (run pgid op) plain
  unfolding run
  Safe-run pgid op w k = record {
    runs = λ t v o.
        put_result-Runs pgid t (op (node_at t pgid)) v (w t o) (k (node_at t pgid) v.sound);
  }

  pub Safe-run_state :
      {ps : List ℕ} (pgid : ℕ) (op : NodeState → NodeState)
      → Within ps pgid
      → ((s : NodeState) → IsSound s.space → Keeps s (op s))
      → Safe bucket ps (run_state pgid op) plain
  unfolding run_state
  Safe-run_state pgid op w k = record {
    runs = λ t v o.
        put_result-Runs pgid t (ok true, op (node_at t pgid)) v (w t o)
          (k (node_at t pgid) v.sound);
  }

  pub Safe-run_node :
      {ps : List ℕ} (pgid : ℕ) (f : Node → Node)
      → Within ps pgid
      → ((n : Node) → (f n).last_modified_txid ≡ n.last_modified_txid)
      → Safe bucket ps (run_node pgid f) plain
  unfolding run_node
  Safe-run_node pgid f w k = record {
    runs = λ t v o.
        put_result-Runs pgid t
          (ok true, record { node = f (t.pages pgid); space = t.space; tmp_page = t.tmp_page }) v
          (w t o) (record { txid = k (t.pages pgid); space = Grows-refl t.space v.sound });
  }

  pub Safe-free_page : {ps : List ℕ} (pgid : ℕ) → Safe bucket ps (free_page pgid) plain
  unfolding free_page
  Safe-free_page pgid = record {
    runs = λ t v o.
        (Step-space bucket t _ v (free-Grows t.space t.space.meta.txid pgid 1 v.sound) refl, tt);
  }

  -- A page of the database at the address of a fresh page is that page.
  same_place-page :
      (t t' : TreeState) (p pgid : ℕ)
      → Grows t.space t'.space
      → Fresh t.space 1 pgid t'.space
      → Fits t'.space
      → p < t.space.meta.page_count
      → same_place t'.space.pager p pgid ≡ true
      → p ≡ pgid
  unfolding get_ptr
  same_place-page t t' p pgid g new fits lt h =
      let c = g.count in
      let i = new.inside in
      same_page p pgid t'.space.meta.page_count t'.space.pager.page_size (omega arith) (omega arith)
        g.sound.page fits (ground arith)

  -- The open transaction may write its own pages.
  module _ (own : bucket.copy_needed bucket.txid ≡ false) where
    -- A page from Alloc that becomes a node of the open transaction.
    Step-Fresh :
        (t t' : TreeState) (pgid : ℕ)
        → IsGood t
        → Grows t.space t'.space
        → Fresh t.space 1 pgid t'.space
        → (t'.pages pgid).last_modified_txid ≡ bucket.txid
        → ((p : ℕ) → same_place t'.space.pager p pgid ≡ true → t'.pages p ≡ t'.pages pgid)
        → ((p : ℕ) → same_place t'.space.pager p pgid ≡ false → t'.pages p ≡ t.pages p)
        → Step bucket t t' × AllOwned bucket (pgid ∷ []) t'
    Step-Fresh t t' pgid v g new e there others =
        let o : MayWrite bucket t' pgid = λ fits. rw e own in
        (
          Step-change bucket t t' pgid v g
              (λ fits p h s. absurd (
                new.unused pgid (omega arith) (omega arith)
                  (subst (InUse t.space) (same_place-page t t' p pgid g new fits s.1.0 h) s.1)))
              o there others,
          (o, tt),
        )

    built-Runs :
        (op : NodeState → NodeState) (t : TreeState) (r : Result (ℕ × Space))
        → IsGood t
        → ((s : NodeState) → (op s).node.last_modified_txid ≡ bucket.txid)
        → ((s : NodeState) → (op s).space ≡ s.space)
        → AllocGrows t.space 1 r
        → Runs bucket
            (λ pgid. AllOwned bucket (pgid ∷ []))
            t
            (then_run (alloc_result t r) (λ pgid. run_state pgid op >> return pgid))
    unfolding run_state then_run ◌>>◌ ◌>>=◌ return
    built-Runs op t (err e) v h1 h2 g = Step-refl bucket t v
    built-Runs op t (ok (pgid, space)) v h1 h2 g =
        let s = node_at (record t { space = space }) pgid in
        let e : same_place (op s).space.pager pgid pgid ≡ true = ground arith in
        Step-Fresh t (put_back pgid (op s) (record t { space = space })) pgid v
          (subst (Grows t.space) (sym (h2 s)) g.0) (subst (Fresh t.space 1 pgid) (sym (h2 s)) g.1)
          (rw (e, h1 s) refl) (λ p h. rw (h, e) refl) (λ p ne. rw ne refl)

    -- Alloc, and Build of LeafNode or BranchNode.
    pub Safe-build :
        {ps : List ℕ} (op : NodeState → NodeState)
        → ((s : NodeState) → (op s).node.last_modified_txid ≡ bucket.txid)
        → ((s : NodeState) → (op s).space ≡ s.space)
        → Safe bucket ps (alloc_page >>= (λ pgid. run_state pgid op >> return pgid)) itself
    unfolding alloc_page ◌>>=◌
    Safe-build op h1 h2 = record {
      runs = λ t v o.
          built-Runs op t (alloc t.space 1) v h1 h2
            (alloc-AllocGrows t.space 1 v.sound (omega arith) (omega arith));
    }

    copied-Runs :
        (pgid : ℕ) (t : TreeState) (r : Result (ℕ × Space))
        → IsGood t
        → AllocGrows t.space 1 r
        → Runs bucket
            (λ new_pgid. AllOwned bucket (new_pgid ∷ []))
            t
            (then_run (alloc_result t r) (λ new_pgid. read pgid (λ s. s.node) >>= (λ n.
              run_node new_pgid (λ _. n)
              >> (free_page pgid
                  >> (run_node new_pgid (λ m. record m { last_modified_txid = bucket.txid })
                      >> return new_pgid)))))
    unfolding run_node free_page then_run ◌>>◌ ◌>>=◌ return read free get_ptr
    copied-Runs pgid t (err e) v g = Step-refl bucket t v
    copied-Runs pgid t (ok (new_pgid, space)) v g =
        let e : same_place space.pager new_pgid new_pgid ≡ true = ground arith in
        let f = free-Grows space space.meta.txid pgid 1 g.0.sound in
        Step-Fresh t _ new_pgid v (Grows-trans t.space space _ g.0 f)
          (record { inside = g.1.inside; unused = g.1.unused }) (rw e refl) (λ p h. rw (h, e) refl)
          (λ p ne. rw ne refl)

    -- Node::Copy: the copy belongs to the open transaction.
    pub Safe-copy : {ps : List ℕ} (pgid : ℕ) → Safe bucket ps (copy bucket pgid) itself
    unfolding copy alloc_page ◌>>=◌
    Safe-copy pgid = record {
      runs = λ t v o.
          copied-Runs pgid t (alloc t.space 1) v
            (alloc-AllocGrows t.space 1 v.sound (omega arith) (omega arith));
    }
