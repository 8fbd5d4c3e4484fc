-- ===== src/Tx.antt =====
-- src/tx_impl.cpp and src/bucket_impl.cpp: the buckets of an update transaction. A BTree holds a
-- reference to its root, so a bucket's root stands where the reference points: in the transaction's meta_struct, or
-- in the entry of the parent's map.
pub mod CopyOnWrite
pub mod Handles
use atomkv.Prelude.{
  ℕ, zero, suc, ◌+◌, Bool, true, false, not, List, [], ◌∷◌, ◌++◌, Option, none, some, length,
  get_elem?, Ordering, if◌then◌else◌,
}
use atomkv.Format.{page_invalid_id, user_root_bucket_id}
use atomkv.Result.{Result, Error, ok, err, invalid_tx, not_a_sub_bucket}
use atomkv.Comparator.{Key, read_uint32}
use atomkv.Comparator.Order.{lex}
use atomkv.Meta.{Crc32, le_bytes}
use atomkv.Node.{Node}
use atomkv.Db.{WalWriter, Db}
use atomkv.TxManager.{append_put_log, append_delete_log, copy_needed, commit_tx, roll_back}
use atomkv.BTree.{Bucket, TreeState, TreeExec}
use atomkv.BTree.Iterator as Iter
use atomkv.BTree.Put as Put
use atomkv.BTree.Delete as Delete

-- std::map<std::string, std::pair<BucketId, PageId>>
abbrev pub SubBucketMap : Type 0
SubBucketMap = List (Key × (ℕ × ℕ))

unfoldable pub find : Key → SubBucketMap → Option (ℕ × ℕ)
find key [] = none
find key ((k, v) ∷ m) =
    let rest = find key m in elim (lex k key) [ Ordering.eq ↦ some v | _ ↦ rest ]

-- insert, where the key is new
unfoldable pub insert : Key → ℕ × ℕ → SubBucketMap → SubBucketMap
insert key value [] = (key, value) ∷ []
insert key value ((k, v) ∷ m) =
    let rest = insert key value m in
    elim (lex k key) [ Ordering.gt ↦ (key, value) ∷ (k, v) ∷ m | _ ↦ (k, v) ∷ rest ]

-- map_iter->second = value
unfoldable pub assign : Key → ℕ × ℕ → SubBucketMap → SubBucketMap
assign key value [] = []
assign key value ((k, v) ∷ m) =
    let rest = assign key value m in
    elim (lex k key) [ Ordering.eq ↦ (k, value) ∷ m | _ ↦ (k, v) ∷ rest ]

-- A bucket of the transaction: user_bucket_, or an element of sub_bucket_cache_.
pub data BucketRef : Type 0 where
  user : BucketRef
  sub : ℕ → BucketRef

-- What PageId& root_pgid_ refers to.
pub data RootRef : Type 0 where
  user_root : RootRef
  entry : BucketRef → Key → RootRef

pub record BucketImpl : Type 0 where
  pub bucket_id : ℕ
  pub root : RootRef
  pub writable : Bool
  pub sub_bucket_map : Option SubBucketMap

abbrev pub map_of : BucketImpl → SubBucketMap
map_of b = elim b.sub_bucket_map [ none ↦ [] | some m ↦ m ]

module _ (writer : WalWriter) where
  open writer use {State}

  pub record TxImpl : Type 0 where
    pub db : Db State
    pub pages : ℕ → Node
    pub tmp_page : ℕ → ℕ
    pub user_bucket : BucketImpl
    pub sub_bucket_cache : List (Option BucketImpl)

  -- A call that may throw leaves a state in any case.
  abbrev pub TxExec : Type 0 → Type 0
  TxExec A = TxImpl → Result A × TxImpl

  unfoldable pub then_run : {A B : Type 0} → Result A × TxImpl → (A → TxExec B) → Result B × TxImpl
  then_run (ok a, t) k = k a t
  then_run (err e, t) k = (err e, t)

  abbrev pub raise : {A : Type 0} → Error → TxExec A
  raise e t = (err e, t)

  -- *sub_bucket_cache_[i], of which the code requires that it is there
  abbrev cached : List (Option BucketImpl) → ℕ → BucketImpl → BucketImpl
  cached cache i other = elim (get_elem? cache i) [
    | none ↦ other
    | some b ↦ elim b [ none ↦ other | some impl ↦ impl ]
  ]

  unfoldable pub at_sub_bucket : BucketRef → TxImpl → BucketImpl
  at_sub_bucket user t = t.user_bucket
  at_sub_bucket (sub i) t = cached t.sub_bucket_cache i t.user_bucket

  abbrev set_elem : List (Option BucketImpl) → ℕ → Option BucketImpl → List (Option BucketImpl)
  set_elem [] i b = []
  set_elem (x ∷ xs) zero b = b ∷ xs
  set_elem (x ∷ xs) (suc i) b = x ∷ set_elem xs i b

  unfoldable pub set_bucket : BucketRef → BucketImpl → TxImpl → TxImpl
  set_bucket user b t = record t { user_bucket = b }
  set_bucket (sub i) b t = record t { sub_bucket_cache = set_elem t.sub_bucket_cache i (some b) }

  unfoldable pub set_map : BucketRef → SubBucketMap → TxImpl → TxImpl
  unfolding at_sub_bucket set_bucket
  set_map r m t = set_bucket r (record (at_sub_bucket r t) { sub_bucket_map = some m }) t

  -- A read and a write of root_pgid_
  unfoldable pub root_pgid : RootRef → TxImpl → ℕ
  unfolding at_sub_bucket find
  root_pgid user_root t = t.db.space.meta.user_root
  root_pgid (entry r key) t = elim (find key (map_of (at_sub_bucket r t))) [
    | none ↦ page_invalid_id
    | some v ↦ v.1
  ]

  unfoldable pub set_root_pgid : RootRef → ℕ → TxImpl → TxImpl
  unfolding at_sub_bucket find set_map assign
  set_root_pgid user_root pgid t = record t {
    db = record t.db {
      space = record t.db.space { meta = record t.db.space.meta { user_root = pgid } };
    };
  }
  set_root_pgid (entry r key) pgid t = elim (find key (map_of (at_sub_bucket r t))) [
    | none ↦ t
    | some v ↦ set_map r (assign key (v.0, pgid) (map_of (at_sub_bucket r t))) t
  ]

  module _ (comparator : Key → Key → Ordering) where
    -- What the tree of a bucket sees.
    unfoldable pub bucket_of : TxImpl → Bucket
    bucket_of t = record {
      comparator = comparator;
      txid = t.db.space.meta.txid;
      copy_needed = copy_needed writer t.db;
    }

    unfoldable pub tree_of : BucketRef → TxImpl → TreeState
    unfolding root_pgid
    tree_of r t = record {
      pages = t.pages;
      space = t.db.space;
      tmp_page = t.tmp_page;
      root_pgid = root_pgid (at_sub_bucket r t).root t;
    }

    abbrev tree_back : TxImpl → TreeState → TxImpl
    tree_back t tree = record t {
      pages = tree.pages;
      tmp_page = tree.tmp_page;
      db = record t.db { space = tree.space };
    }

    abbrev put_back : {A : Type 0} → BucketRef → TxImpl → Result A × TreeState → Result A × TxImpl
    put_back r t (a, tree) =
        (a, set_root_pgid (at_sub_bucket r t).root tree.root_pgid (tree_back t tree))

    -- A call of the bucket's tree.
    unfoldable pub call : {A : Type 0} → BucketRef → (Bucket → TreeExec A) → TxExec A
    call r f t = put_back r t (f (bucket_of t) (tree_of r t))

    -- BucketImpl::Get, LowerBound, begin
    unfoldable pub get : BucketRef → Key → TxImpl → Iter.Iterator
    get r key t = Iter.get (bucket_of t) key (tree_of r t)

    unfoldable pub lower_bound : BucketRef → Key → TxImpl → Iter.Iterator
    lower_bound r key t = Iter.lower_bound (bucket_of t) key (tree_of r t)

    unfoldable pub begin : BucketRef → TxImpl → Iter.Iterator
    begin r t = Iter.begin (tree_of r t)

    abbrev pub log_put : BucketRef → Key → List ℕ → Bool → TxImpl → TxImpl
    log_put r key value is_bucket t = record t {
      db = append_put_log writer (at_sub_bucket r t).bucket_id key value is_bucket t.db;
    }

    abbrev pub log_delete : BucketRef → Key → TxImpl → TxImpl
    log_delete r key t = record t {
      db = append_delete_log writer (at_sub_bucket r t).bucket_id key t.db;
    }

    unfoldable pub put : BucketRef → Key → List ℕ → Bool → TxExec (Unit {0})
    put r key value is_bucket t =
        call r (λ bucket. Put.put bucket key value is_bucket) (log_put r key value is_bucket t)

    unfoldable pub delete : BucketRef → Key → TxExec Bool
    delete r key t = call r (λ bucket. Delete.delete bucket key) (log_delete r key t)

    -- Update(iter, value)
    unfoldable pub update : BucketRef → Iter.Iterator → List ℕ → TxExec (Unit {0})
    unfolding then_run
    update r it value t =
        then_run (Iter.key (tree_of r t) it, t)
          (λ key t1.
            then_run (Iter.is_bucket (tree_of r t1) it, t1)
              (λ is_bucket t2.
                call r (λ bucket. Put.update it value) (log_put r key value is_bucket t2)))

    -- Delete(iter)
    unfoldable pub delete_at : BucketRef → Iter.Iterator → TxExec (Unit {0})
    delete_at r it = call r (λ bucket. Delete.delete_at bucket it)

    -- NewSubBucket
    unfoldable pub new_sub_bucket : RootRef → Bool → TxImpl → ℕ × TxImpl
    new_sub_bucket root writable t =
        let new_bucket_id = length t.sub_bucket_cache in
        (
          new_bucket_id,
          record t {
            sub_bucket_cache =
                t.sub_bucket_cache
                ++ some (record {
                  bucket_id = new_bucket_id;
                  root = root;
                  writable = writable;
                  sub_bucket_map = none;
                })
                  ∷ [];
          },
        )

    -- TxImpl::DeleteSubBucket
    unfoldable pub delete_sub_bucket : ℕ → TxImpl → TxImpl
    delete_sub_bucket bucket_id t = record t {
      sub_bucket_cache = set_elem t.sub_bucket_cache bucket_id none;
    }

    -- The root of a sub bucket that the tree has no record of, or has one of.
    unfoldable pub reserve : BucketRef → Key → TxExec ℕ
    unfolding then_run
    reserve r key t =
        then_run (put r key (le_bytes 4 page_invalid_id) true t)
          (λ done t1. (ok page_invalid_id, t1))

    unfoldable pub stored_root : BucketRef → Iter.Iterator → TxExec ℕ
    unfolding then_run
    stored_root r it t =
        then_run (Iter.is_bucket (tree_of r t) it, t)
          (λ is_bucket t1.
            if is_bucket
            then (then_run (Iter.value_as 4 (tree_of r t1) it, t1)
                (λ value t2. (ok (read_uint32 value), t2)))
            else raise not_a_sub_bucket t1)

    -- SubBucket(key, writable), where the map has no entry for the key.
    unfoldable pub open_sub_bucket : BucketRef → Key → Bool → TxExec BucketRef
    unfolding then_run set_map insert assign at_sub_bucket
    open_sub_bucket r key writable t =
        let t1 = set_map r (insert key (0, page_invalid_id) (map_of (at_sub_bucket r t))) t in
        let it = get r key t1 in
        then_run (if Iter.equals it Iter.end then reserve r key t1 else stored_root r it t1)
          (λ pgid t2.
            let (bucket_id, t3) = new_sub_bucket (entry r key) writable t2 in
            (
              ok (sub bucket_id),
              set_map r (assign key (bucket_id, pgid) (map_of (at_sub_bucket r t3))) t3,
            ))

    -- SubBucket(key, writable)
    unfoldable pub sub_bucket : BucketRef → Key → Bool → TxExec BucketRef
    unfolding at_sub_bucket find
    sub_bucket r key writable t = elim (find key (map_of (at_sub_bucket r t))) [
      | none ↦ open_sub_bucket r key writable t
      | some v ↦ (ok (sub v.0), t)
    ]

    -- The loop of Commit over the entries of a bucket's map.
    unfoldable pub put_roots : BucketRef → SubBucketMap → TxExec (Unit {0})
    unfolding then_run
    put_roots r [] t = (ok tt, t)
    put_roots r ((key, v) ∷ m) t =
        then_run (put r key (le_bytes 4 v.1) true t) (λ done t1. put_roots r m t1)

    -- The loop of Commit over the sub buckets, from the `i`-th on.
    unfoldable pub put_sub_buckets : ℕ → ℕ → TxExec (Unit {0})
    unfolding then_run at_sub_bucket
    put_sub_buckets zero i t = (ok tt, t)
    put_sub_buckets (suc rounds) i t =
        then_run
          (put_roots (sub i)
            (elim (get_elem? t.sub_bucket_cache i) [
              | none ↦ []
              | some b ↦ elim b [ none ↦ [] | some impl ↦ map_of impl ]
            ])
            t)
          (λ done t1. put_sub_buckets rounds (i + 1) t1)

    abbrev with_db : TxImpl → Result (Db State) → Result (Unit {0}) × TxImpl
    with_db t (ok db) = (ok tt, record t { db = db })
    with_db t (err e) = (err e, t)

    module _ (crc : Crc32) where
      -- TxImpl::Commit
      unfoldable pub commit : TxExec (Unit {0})
      unfolding then_run put_roots put_sub_buckets
      commit t = then_run (put_roots user (map_of t.user_bucket) t) (λ done t1.
          then_run (put_sub_buckets (length t1.sub_bucket_cache) 0 t1)
            (λ done t2. with_db t2 (commit_tx writer crc t2.db)))

      -- TxImpl::RollBack of a writable transaction
      unfoldable pub rollback : TxExec (Unit {0})
      rollback t = with_db t (roll_back writer crc t.db)
