-- ===== src/Tx/Handles.antt =====
-- src/tx_impl.cpp and src/bucket_impl.cpp: the handles that the user holds, UpdateTx, ViewTx and UpdateBucket.
use atomkv.Prelude.{ℕ, Bool, true, false, List, Ordering, if◌then◌else◌}
use atomkv.Format.{MetaStruct}
use atomkv.Result.{Result, ok, err, invalid_tx}
use atomkv.Comparator.{Key}
use atomkv.Meta.{Crc32}
use atomkv.Db.{WalWriter, Db}
use atomkv.TxManager.{view, roll_back_view}
use atomkv.Tx.{BucketRef, TxImpl, TxExec, put, delete, sub_bucket, commit, rollback}

module _ (writer : WalWriter) where
  open writer use {State}

  -- ViewTx, with the meta_struct of its TxImpl.
  pub record ViewTx : Type 0 where
    pub meta : MetaStruct

  -- DBImpl::View; `m` is what is in the memory of the new transaction before.
  unfoldable pub open_view : MetaStruct → Db State → Db State × ViewTx
  open_view m db = let (db', meta) = view writer m db in (db', record { meta = meta })

  -- TxImpl::RollBack of a transaction that is not writable
  unfoldable pub view_rollback : ViewTx → Db State → Db State
  view_rollback v db = roll_back_view writer v.meta.txid db

  -- ~ViewTx
  unfoldable pub destroy_view : ViewTx → Db State → Db State
  unfolding view_rollback
  destroy_view v db = view_rollback v db

  module _ (comparator : Key → Key → Ordering) where
    -- UpdateBucket
    unfoldable pub sub_update_bucket : BucketRef → Key → TxExec writer BucketRef
    sub_update_bucket r key = sub_bucket writer comparator r key true

    unfoldable pub update_put : BucketRef → Key → List ℕ → TxExec writer (Unit {0})
    update_put r key value = put writer comparator r key value false

    unfoldable pub update_delete : BucketRef → Key → TxExec writer Bool
    update_delete r key = delete writer comparator r key

    module _ (crc : Crc32) where
      -- UpdateTx: `open_tx` is tx_ != nullptr. A call that throws leaves it open.
      pub record UpdateTx : Type 0 where
        pub open_tx : Bool
        pub tx : TxImpl writer

      abbrev closed_by : Result (Unit {0}) × TxImpl writer → Result (Unit {0}) × UpdateTx
      closed_by (ok done, t) = (ok done, record { open_tx = false; tx = t })
      closed_by (err e, t) = (err e, record { open_tx = true; tx = t })

      abbrev if_open : TxExec writer (Unit {0}) → UpdateTx → Result (Unit {0}) × UpdateTx
      if_open f u = if u.open_tx then closed_by (f u.tx) else (err invalid_tx, u)

      unfoldable pub update_commit : UpdateTx → Result (Unit {0}) × UpdateTx
      update_commit u = if_open (commit writer comparator crc) u

      unfoldable pub update_rollback : UpdateTx → Result (Unit {0}) × UpdateTx
      update_rollback u = if_open (rollback writer comparator crc) u

      -- ~UpdateTx
      unfoldable pub destroy : UpdateTx → Result (Unit {0}) × UpdateTx
      destroy u = if u.open_tx then update_rollback u else (ok tt, u)
