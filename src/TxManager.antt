-- ===== src/TxManager.antt =====
-- src/tx_manager.cpp and src/tx_impl.cpp: the transactions. Each operation runs under the locks that the
-- code takes, so a run of the program is a sequence of these operations. A call that throws returns
-- the exception; what it leaves of the state is not described.
pub mod Views
pub mod Commit
use atomkv.Prelude.{
  ℕ, ◌+◌, ◌-◌, ◌%◌, ◌^◌, Bool, true, false, not, ◌&&◌, List, [], ◌∷◌, Option, none, some, ltb, leb,
  ◌==◌, if◌then◌else◌,
}
use atomkv.Format.{MetaStruct, copy_meta_info, tx_invalid_id}
use atomkv.Result.{Result, ok, err, ◌>>=◌, ◌>>◌, throw_if, read_only, txid_overflow}
use atomkv.StdMap.{StdMap, find, insert, assign, erase}
use atomkv.Comparator.{Key}
use atomkv.Pager.{release, rollback as rollback_pages}
use atomkv.Meta.{Crc32, reset}
use atomkv.Space.{clear_pending_mmap}
use atomkv.Db.{
  DbMode, update_in_place, wal, LogType, begin, rollback, commit, sub_bucket, put_is_bucket,
  put_not_bucket, delete, log_type_byte, bucket_log_header, WalWriter, Db,
}
use atomkv.Logger.{append_log, flush_log, save_pages, switch_and_save, checkpoint}

-- The key of the first entry; the committed txid where there is no view.
unfoldable pub oldest_view : StdMap ℕ → ℕ → ℕ
oldest_view [] txid = txid
oldest_view ((view_txid, count) ∷ views) txid = view_txid

-- View: the entry of the committed txid is made, or its count goes up.
add_view : ℕ → StdMap ℕ → Option ℕ → StdMap ℕ
add_view txid views none = insert txid 1 views
add_view txid views (some count) = assign txid ((count + 1) % 2 ^ 32) views

-- RollBack of a view: the count goes down, and an entry without views is erased.
drop_view : ℕ → StdMap ℕ → Option ℕ → StdMap ℕ
drop_view txid views none = views
drop_view txid views (some count) =
    if count - 1 == 0 then erase txid views else assign txid (count - 1) views

unfoldable pub is_tx_expired : ℕ → ℕ → Bool
is_tx_expired min_view_txid txid = ltb txid min_view_txid

module _ (writer : WalWriter) where
  open writer use {State}

  append_type : LogType → Db State → Db State
  append_type type db = append_log writer ((log_type_byte type ∷ []) ∷ []) db

  unfoldable pub append_sub_bucket_log : ℕ → Key → Db State → Db State
  append_sub_bucket_log bucket_id key db =
      append_log writer (bucket_log_header sub_bucket bucket_id ∷ key ∷ []) db

  unfoldable pub append_put_log : ℕ → Key → List ℕ → Bool → Db State → Db State
  append_put_log bucket_id key value is_bucket db = elim db.mode [
    | update_in_place ↦ db
    | wal ↦
        append_log writer
          (bucket_log_header (if is_bucket then put_is_bucket else put_not_bucket) bucket_id
            ∷ key
            ∷ value
            ∷ [])
          db
  ]

  unfoldable pub append_delete_log : ℕ → Key → Db State → Db State
  append_delete_log bucket_id key db = elim db.mode [
    | update_in_place ↦ db
    | wal ↦ append_log writer (bucket_log_header delete bucket_id ∷ key ∷ []) db
  ]

  -- if (mode == DbMode::kWal) Append…Log();
  unfoldable pub log_if_wal : DbMode → LogType → Db State → Db State
  unfolding append_type
  log_if_wal update_in_place type db = db
  log_if_wal wal type db = append_type type db

  -- Update, up to the new transaction's id.
  begin_update : Db State → Db State
  unfolding log_if_wal
  begin_update db =
      let db1 = record db { space = record db.space { file = clear_pending_mmap db.space.file } } in
      let db2 = log_if_wal db1.mode begin db1 in
      let m = copy_meta_info db2.space.meta db2.meta.meta_struct in
      record db2 {
        has_update_tx = true;
        space = record db2.space { meta = record m { txid = (m.txid + 1) % 2 ^ 64 } };
      }

  -- Update, from the check of the id on. `min_view_txid_ - 1` is a difference of uint64_t.
  unfoldable pub release_pages : Db State → Db State
  unfolding oldest_view
  release_pages db =
      let min_view = oldest_view db.view_tx_map db.meta.meta_struct.txid in
      record db {
        min_view_txid = min_view;
        space = record db.space {
          pager = release db.space.pager ((min_view + (2 ^ 64 - 1)) % 2 ^ 64);
        };
      }

  unfoldable pub update : Db State → Result (Db State)
  unfolding begin_update release_pages
  update db = do
    let db1 = begin_update db
    throw_if (db1.space.meta.txid == tx_invalid_id) txid_overflow
    ok (release_pages db1)

  -- View, with the meta_struct of the new transaction; `m` is what is in its memory before.
  unfoldable pub view : MetaStruct → Db State → Db State × MetaStruct
  unfolding add_view
  view m db =
      let txid = db.meta.meta_struct.txid in
      (
        record db { view_tx_map = add_view txid db.view_tx_map (find txid db.view_tx_map) },
        copy_meta_info m db.meta.meta_struct,
      )

  -- RollBack(view_txid); the code asserts that the entry exists.
  unfoldable pub roll_back_view : ℕ → Db State → Db State
  unfolding drop_view
  roll_back_view view_txid db = record db {
    view_tx_map = drop_view view_txid db.view_tx_map (find view_txid db.view_tx_map);
  }

  -- TxImpl::CopyNeeded
  unfoldable pub copy_needed : Db State → ℕ → Bool
  unfolding is_tx_expired
  copy_needed db txid =
      if is_tx_expired db.min_view_txid txid && ltb db.persisted_txid txid
      then false
      else ltb txid db.space.meta.txid

  module _ (crc : Crc32) where
    -- The log record of the end of a transaction, and the checkpoint if it is due.
    checkpoint_if_needed : Db State → Result (Db State)
    checkpoint_if_needed db = if db.checkpoint_needed then checkpoint writer crc db else ok db

    end_update : Db State → Db State
    end_update db = record db { has_update_tx = false }

    unfoldable pub roll_back : Db State → Result (Db State)
    unfolding append_type checkpoint_if_needed end_update
    roll_back db = do
      db1 ← elim db.mode as (λ x. Result (Db State)) [
        | update_in_place ↦ ok db
        | wal ↦ checkpoint_if_needed (append_type rollback db)
      ]
      let pager = rollback_pages db1.space.pager db1.space.meta.txid
      ok (end_update (record db1 { space = record db1.space { pager = pager } }))

    unfoldable pub commit_in_place : Db State → Result (Db State)
    commit_in_place db = do db1 ← save_pages writer crc db; ok (switch_and_save writer crc db1)

    unfoldable pub commit_by_mode : DbMode → Db State → Result (Db State)
    unfolding append_type checkpoint_if_needed commit_in_place
    commit_by_mode update_in_place db = commit_in_place db
    commit_by_mode wal db = checkpoint_if_needed (flush_log writer (append_type commit db))

    unfoldable pub commit_tx : Db State → Result (Db State)
    unfolding commit_by_mode end_update
    commit_tx db = do
      let db1 = record db { meta = reset db.meta db.space.meta }
      db2 ← commit_by_mode db1.mode db1
      ok (end_update db2)
