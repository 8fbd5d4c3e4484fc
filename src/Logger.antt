-- ===== src/Logger.antt =====
-- src/logger.cpp: appending to the write-ahead log, and the checkpoint. A call that throws returns the
-- exception; what it leaves of the state is not described.
use atomkv.Prelude.{ℕ, false, not, ◌||◌, List, [], ◌∷◌, leb, if◌then◌else◌}
use atomkv.Result.{Result, ok, err, ◌>>=◌, ◌>>◌, throw_if, no_write_transaction, sync_failed}
use atomkv.Meta.{Crc32, switch, save}
use atomkv.Space.{save_free_list}
use atomkv.Db.{WalWriter, Db, wal_txid_log_header}

module _ (wal : WalWriter) where
  open wal use {State, append_record_to_buffer, flush_buffer, size, reopen}

  -- for (auto it = begin; it != end; ++it) writer_.AppendRecordToBuffer(*it);
  append_records : State → List (List ℕ) → State
  append_records writer [] = writer
  append_records writer (r ∷ records) = append_records (append_record_to_buffer writer r) records

  unfoldable pub append_log : List (List ℕ) → Db State → Db State
  unfolding append_records
  append_log records db =
      if db.disable_writing
      then db
      else (let writer = append_records db.writer records in
          record db {
            writer = writer;
            checkpoint_needed = db.checkpoint_needed || leb db.max_wal_size (size writer);
          })

  unfoldable pub flush_log : Db State → Db State
  flush_log db =
      if db.disable_writing
      then db
      else (let flushed = flush_buffer db.writer in
          record db { writer = if db.sync then wal.sync flushed else flushed })

  unfoldable pub reset_log : Db State → Db State
  reset_log db = record db { writer = reopen db.writer }

  unfoldable pub append_wal_txid_log : Db State → Db State
  unfolding append_log
  append_wal_txid_log db = append_log (wal_txid_log_header db.meta.meta_struct.txid ∷ []) db

  -- Pager::WriteAllDirtyPages
  unfoldable pub write_all_dirty_pages : Db State → Result (Db State)
  write_all_dirty_pages db = if db.sync_error then err sync_failed else ok db

  module _ (crc : Crc32) where
    -- meta.Switch(); meta.Save();
    unfoldable pub switch_and_save : Db State → Db State
    unfolding save switch
    switch_and_save db =
        let (meta, file) = save crc (switch db.meta) db.meta_file in
        record db { meta = meta; meta_file = file }

    unfoldable pub save_pages : Db State → Result (Db State)
    unfolding write_all_dirty_pages
    save_pages db = do
      space ← save_free_list db.space
      write_all_dirty_pages (record db { space = space })

    unfoldable pub checkpoint : Db State → Result (Db State)
    unfolding save_pages switch_and_save reset_log append_wal_txid_log
    checkpoint db = do
      throw_if (not db.has_update_tx) no_write_transaction
      db1 ← save_pages db
      let db2 = switch_and_save db1
      let db3 = reset_log (record db2 { persisted_txid = db2.meta.meta_struct.txid })
      ok (record (append_wal_txid_log db3) { checkpoint_needed = false })
