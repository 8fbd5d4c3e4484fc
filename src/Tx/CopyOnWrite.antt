-- ===== src/Tx/CopyOnWrite.antt =====
-- BucketImpl::Put and Delete of src/bucket_impl.cpp under TxImpl::CopyNeeded of src/tx_impl.cpp: the pages that a read
-- transaction may see.
use atomkv.Prelude.{
  ℕ, ◌≡◌, refl, sym, subst, ◌⊎◌, ap, ◌∙◌, Bool, Option-cases, true, false, List, arith, Ordering,
  ltb, ◌&&◌, Bool-cases, inl, inr, [], ◌∷◌, if◌then◌else◌,
}
use atomkv.Comparator.{Key}
use atomkv.Node.{Node}
use atomkv.Db.{
  WalWriter, Db, DbMode, update_in_place, wal, LogType, put_is_bucket, put_not_bucket,
  bucket_log_header,
}
use atomkv.Logger.{append_log}
use atomkv.TxManager.{copy_needed, is_tx_expired, append_put_log, append_delete_log}
use atomkv.Space.InUse.{InUse, Fits, SameBytes}
use atomkv.Space.{DbFile}
use atomkv.Pager.{get_ptr}
use atomkv.BTree.{Bucket, TreeState, TreeExec}
use atomkv.BTree.Put as Put
use atomkv.BTree.Delete as Delete
use atomkv.BTree.Steps.{IsGood}
use atomkv.BTree.Descent.{IsTree}
use atomkv.BTree.CopyOnWrite.{CopiesOnWrite, put-CopiesOnWrite, delete-CopiesOnWrite}
use atomkv.Tx.{
  BucketRef, RootRef, user_root, entry, TxImpl, BucketImpl, map_of, user, sub, at_sub_bucket,
  set_bucket, set_map, root_pgid, set_root_pgid, find, bucket_of, tree_of, call, put, delete,
}

module _ (writer : WalWriter) (comparator : Key → Key → Ordering) where
  open writer use {State}

  copy_needed-txid : (db : Db State) → copy_needed writer db db.space.meta.txid ≡ false
  unfolding copy_needed is_tx_expired
  copy_needed-txid db =
      elim (Bool-cases
        (ltb db.space.meta.txid db.min_view_txid && ltb db.persisted_txid db.space.meta.txid)) [
          | inl e ↦ rw e refl
          | inr e ↦ rw e (ground arith)
        ]

  -- The nodes are the same, and so is the rest of the file.
  record SamePages (t t' : TxImpl writer) : Type 0 where
    pages : t'.pages ≡ t.pages
    in_use : (p : ℕ) → InUse t.db.space p → InUse t'.db.space p
    fits : Fits t'.db.space → Fits t.db.space
    file : t'.db.space.file ≡ t.db.space.file

  set_bucket-SamePages :
      (r : BucketRef) (b : BucketImpl) (t : TxImpl writer) → SamePages t (set_bucket writer r b t)
  unfolding set_bucket
  set_bucket-SamePages user b t = record {
    pages = refl;
    in_use = λ p u. u;
    fits = λ f. f;
    file = refl;
  }
  set_bucket-SamePages (sub i) b t = record {
    pages = refl;
    in_use = λ p u. u;
    fits = λ f. f;
    file = refl;
  }

  set_root-SamePages :
      (root : RootRef) (pgid : ℕ) (t : TxImpl writer)
      → SamePages t (set_root_pgid writer root pgid t)
  unfolding set_root_pgid set_map
  set_root-SamePages user_root pgid t = record {
    pages = refl;
    in_use = λ p u. u;
    fits = λ f. f;
    file = refl;
  }
  set_root-SamePages (entry r key) pgid t =
      elim (Option-cases (find key (map_of (at_sub_bucket writer r t)))) [
        | inl e ↦
            rw (set_root_pgid, e)
              (record { pages = refl; in_use = λ p u. u; fits = λ f. f; file = refl })
        | inr (v, e) ↦ rw (set_root_pgid, e) (set_bucket-SamePages r _ t)
      ]

  -- The database after a log record: the writer has changed, and a checkpoint may have become due.
  abbrev logged : Db State → State → Bool → Db State
  logged db w c = record db { writer = w; checkpoint_needed = c }

  Logs : Db State → Db State → Type 0
  Logs db db' = (w : State) × ((c : Bool) × (db' ≡ logged db w c))

  append_log-Logs :
      (records : List (List ℕ)) (db : Db State) → Logs db (append_log writer records db)
  unfolding append_log Logs
  append_log-Logs records db = elim (Bool-cases db.disable_writing) [
    | inl e ↦ rw e (db.writer, (db.checkpoint_needed, refl))
    | inr e ↦ rw e (_, (_, refl))
  ]

  DbMode-cases : (mode : DbMode) → (mode ≡ update_in_place) ⊎ (mode ≡ wal)
  DbMode-cases update_in_place = inl refl
  DbMode-cases wal = inr refl

  abbrev put_records : ℕ → Key → List ℕ → Bool → List (List ℕ)
  put_records bucket_id key value is_bucket =
      bucket_log_header (if is_bucket then put_is_bucket else put_not_bucket) bucket_id
      ∷ key
      ∷ value
      ∷ []

  append_put_log-Logs :
      (bucket_id : ℕ) (key : Key) (value : List ℕ) (is_bucket : Bool) (db : Db State)
      → Logs db (append_put_log writer bucket_id key value is_bucket db)
  unfolding append_put_log Logs
  append_put_log-Logs bucket_id key value is_bucket db = elim (DbMode-cases db.mode) [
    | inl e ↦
        let same : append_put_log writer bucket_id key value is_bucket db ≡ db =
          simp (append_put_log, e) refl in
        (db.writer, (db.checkpoint_needed, same))
    | inr e ↦
        let same : append_put_log writer bucket_id key value is_bucket db
            ≡ append_log writer (put_records bucket_id key value is_bucket) db =
          simp (append_put_log, e) refl in
        subst (Logs db) (sym same) (append_log-Logs (put_records bucket_id key value is_bucket) db)
  ]

  append_delete_log-Logs :
      (bucket_id : ℕ) (key : Key) (db : Db State)
      → Logs db (append_delete_log writer bucket_id key db)
  unfolding append_delete_log Logs
  append_delete_log-Logs bucket_id key db = elim (DbMode-cases db.mode) [
    | inl e ↦
        let same : append_delete_log writer bucket_id key db ≡ db =
          simp (append_delete_log, e) refl in
        (db.writer, (db.checkpoint_needed, same))
    | inr e ↦
        let same : append_delete_log writer bucket_id key db
            ≡ append_log writer (bucket_log_header LogType.delete bucket_id ∷ key ∷ []) db =
          simp (append_delete_log, e) refl in
        subst (Logs db) (sym same)
          (append_log-Logs (bucket_log_header LogType.delete bucket_id ∷ key ∷ []) db)
  ]

  root_pgid-logged :
      (root : RootRef) (t : TxImpl writer) (w : State) (c : Bool)
      → root_pgid writer root (record t { db = logged t.db w c }) ≡ root_pgid writer root t
  unfolding root_pgid at_sub_bucket
  root_pgid-logged user_root t w c = refl
  root_pgid-logged (entry user key) t w c = refl
  root_pgid-logged (entry (sub i) key) t w c = refl

  bucket-logged :
      (r : BucketRef) (t : TxImpl writer) (w : State) (c : Bool)
      → at_sub_bucket writer r (record t { db = logged t.db w c }) ≡ at_sub_bucket writer r t
  unfolding at_sub_bucket
  bucket-logged user t w c = refl
  bucket-logged (sub i) t w c = refl

  abbrev tree_at : TxImpl writer → ℕ → TreeState
  tree_at t pgid = record {
    pages = t.pages;
    space = t.db.space;
    tmp_page = t.tmp_page;
    root_pgid = pgid;
  }

  tree_of-logged :
      (r : BucketRef) (t : TxImpl writer) (w : State) (c : Bool)
      → tree_of writer comparator r (record t { db = logged t.db w c })
        ≡ tree_of writer comparator r t
  unfolding tree_of
  tree_of-logged r t w c = ap (tree_at t) (
      ap (λ (b : BucketImpl). root_pgid writer b.root (record t { db = logged t.db w c }))
        (bucket-logged r t w c)
      ∙ root_pgid-logged (at_sub_bucket writer r t).root t w c)

  -- Every page in use that others may see, by CopyNeeded, has the same node and the same bytes, and stays in use.
  abbrev pub KeepsShared : TxImpl writer → TxImpl writer → Type 0
  KeepsShared t t' =
      (p : ℕ)
      → InUse t.db.space p
      → copy_needed writer t.db (t.pages p).last_modified_txid ≡ true
      → (t'.pages p ≡ t.pages p) × InUse t'.db.space p × SameBytes t.db.space t'.db.space p

  call-KeepsShared :
      {A : Type 0} (r : BucketRef) (f : Bucket → TreeExec A) (t : TxImpl writer)
      → Fits (call writer comparator r f t).1.db.space
      → (Fits (f (bucket_of writer comparator t) (tree_of writer comparator r t)).1.space
          → CopiesOnWrite
              (bucket_of writer comparator t)
              (tree_of writer comparator r t)
              (f (bucket_of writer comparator t) (tree_of writer comparator r t)).1)
      → KeepsShared t (call writer comparator r f t).1
  unfolding call bucket_of tree_of
  call-KeepsShared r f t fits h p u c =
      let tree = (f (bucket_of writer comparator t) (tree_of writer comparator r t)).1 in
      let same = set_root-SamePages (at_sub_bucket writer r t).root tree.root_pgid _ in
      let s = h (same.fits fits) in
      (
        ap (λ (q : ℕ → Node). q p) same.pages ∙ s.kept p (c, u),
        same.in_use p (s.in_use p u),
        λ i lt.
            ap (λ (file : DbFile). file.bytes (get_ptr t.db.space.pager p i)) same.file
            ∙ s.bytes p u i lt,
      )

  -- What the tree needs of the pages, in a bucket of the transaction.
  pub record IsWritable (r : BucketRef) (t : TxImpl writer) : Type 0 where
    pub good : IsGood (tree_of writer comparator r t)
    pub tree : IsTree (bucket_of writer comparator t) (tree_of writer comparator r t)

  logged-KeepsShared :
      {A : Type 0} (r : BucketRef) (f : Bucket → TreeExec A) (t : TxImpl writer) (db' : Db State)
      → Logs t.db db'
      → ((tree : TreeState)
          → IsGood tree
          → IsTree (bucket_of writer comparator t) tree
          → Fits (f (bucket_of writer comparator t) tree).1.space
          → CopiesOnWrite
              (bucket_of writer comparator t)
              tree
              (f (bucket_of writer comparator t) tree).1)
      → IsWritable r t
      → Fits (call writer comparator r f (record t { db = db' })).1.db.space
      → KeepsShared t (call writer comparator r f (record t { db = db' })).1
  unfolding Logs bucket_of tree_of copy_needed is_tx_expired
  logged-KeepsShared r f t db' (w, (c, e)) step v fits =
      let t1 = record t { db = logged t.db w c } in
      let tree1 = tree_of writer comparator r t1 in
      let v1 : IsGood tree1 = subst IsGood (sym (tree_of-logged r t w c)) v.good in
      let good : IsTree (bucket_of writer comparator t) tree1 =
        subst (IsTree (bucket_of writer comparator t)) (sym (tree_of-logged r t w c)) v.tree in
      subst (λ (d : Db State). KeepsShared t (call writer comparator r f (record t { db = d })).1)
        (sym e)
        (call-KeepsShared r f t1
          (subst
            (λ (d : Db State). Fits (call writer comparator r f (record t { db = d })).1.db.space) e
            fits)
          (step tree1 v1 good))

  -- BucketImpl::Put and BucketImpl::Delete in an update transaction, under its own CopyNeeded, in a tree whose pages
  -- are in use and in which the parent of a page that needs no copy needs none, where pages with the same address
  -- hold the same node, and as long as the database still ends below 4 GiB afterwards: a page in use that needs
  -- a copy has the same node and the same bytes afterwards, and stays in use.
  pub changes-KeepsShared :
      (r : BucketRef) (key : Key) (value : List ℕ) (is_bucket : Bool) (t : TxImpl writer)
      → IsWritable r t
      → Fits (put writer comparator r key value is_bucket t).1.db.space
      → Fits (delete writer comparator r key t).1.db.space
      → KeepsShared t (put writer comparator r key value is_bucket t).1
        × KeepsShared t (delete writer comparator r key t).1
  unfolding put delete bucket_of
  changes-KeepsShared r key value is_bucket t v f1 f2 =
      let own = copy_needed-txid t.db in
      let b = bucket_of writer comparator t in
      (
        logged-KeepsShared r (λ bucket. Put.put bucket key value is_bucket) t
            (append_put_log writer (at_sub_bucket writer r t).bucket_id key value is_bucket t.db)
            (append_put_log-Logs (at_sub_bucket writer r t).bucket_id key value is_bucket t.db)
            (λ tree s i. put-CopiesOnWrite b own key tree s i value is_bucket) v f1,
        logged-KeepsShared r (λ bucket. Delete.delete bucket key) t
            (append_delete_log writer (at_sub_bucket writer r t).bucket_id key t.db)
            (append_delete_log-Logs (at_sub_bucket writer r t).bucket_id key t.db)
            (λ tree s i. delete-CopiesOnWrite b own key tree s i) v f2,
      )
