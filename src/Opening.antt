-- ===== src/Opening.antt =====
-- DB::Open and DBImpl::~DBImpl of src/db_impl.cpp, with the constructors of Pager, TxManager and Logger and the
-- destructor of Logger. The locks and the mappings of the files are left out: what Open finds behind them
-- is `Files`.
pub mod AfterCommit
pub mod CloseSize
use atomkv.Prelude.{
  ℕ, ◌*◌, ◌%◌, ◌^◌, Bool, true, false, not, ◌&&◌, List, [], ltb, ◌==◌, if◌then◌else◌,
}
use atomkv.Format.{MetaStruct, u32_mod, page_max_size, page_init_count, tx_invalid_id}
use atomkv.Result.{
  Result, ok, err, ◌>>=◌, ◌>>◌, throw_if, read_only, system_page_size_exceeded,
  options_page_size_mismatch,
}
use atomkv.Pager.{Pager}
use atomkv.Space.{DbFile, load_free_list, clear_pending_mmap}
use atomkv.Meta.{Meta, MetaFile, Crc32, init, load}
use atomkv.Db.{DbMode, update_in_place, wal, WalWriter, Db}
use atomkv.Logger.{append_wal_txid_log, checkpoint, reset_log}
use atomkv.TxManager.{update, commit_tx}
use atomkv.Recover.{Buckets, recover}

-- The comparator is not needed here.
pub record Options : Type 0 where
  pub page_size : ℕ
  pub read_only : Bool
  pub sync : Bool
  pub mode : DbMode
  pub max_wal_size : ℕ

-- The database file with its two meta structs; the file of the log, with its size and the records that wal::Reader reads
-- from it; the meta struct in the new shared memory; and what the next sync reports.
pub record Files (writer_state : Type 0) : Type 0 where
  pub meta_file : MetaFile
  pub db_file : DbFile
  pub log : writer_state
  pub log_size : ℕ
  pub log_records : List (List ℕ)
  pub shm_meta : MetaStruct
  pub sync_error : Bool

-- The page size, for mio::page_size(): the system's one, if the options leave it open. PageSize is uint16_t.
unfoldable pub choose_page_size : Options → ℕ → Result ℕ
choose_page_size options system = do
  throw_if (ltb page_max_size system) system_page_size_exceeded
  (if options.page_size == 0
      then ok (system % 2 ^ 16)
      else throw_if (not (options.page_size == system)) options_page_size_mismatch
        >> ok options.page_size)

unfoldable pub new_pager : ℕ → Pager
new_pager page_size = record {
  page_size = page_size;
  pending_map = [];
  free_map = [];
  alloc_records = [];
}

-- DBImpl::~DBImpl: the size that the file gets. The product of a uint16_t and a uint32_t is one of uint32_t.
unfoldable pub close_size : ℕ → MetaStruct → ℕ
close_size page_size m = (page_size * m.page_count) % u32_mod

unfoldable pub close_file : ℕ → MetaStruct → DbFile → DbFile
unfolding clear_pending_mmap close_size
close_file page_size m file =
    let unmapped = clear_pending_mmap file in
    if ltb 0 (close_size page_size m)
    then record unmapped { size = close_size page_size m }
    else unmapped

module _ (writer : WalWriter) (crc : Crc32) where
  open writer use {State}

  -- if (init_meta) db_meta.Init(); else db_meta.Load();
  unfoldable pub init_or_load : Bool → ℕ → Files State → Result (Meta × MetaFile)
  unfolding init load
  init_or_load true page_size files = ok (
      init crc page_size (record { meta_struct = files.shm_meta; cur_meta_index = 0 })
        files.meta_file)
  init_or_load false page_size files = do
    meta ← load crc page_size files.meta_file
    ok (meta, files.meta_file)

  -- The constructors of Pager, TxManager and Logger.
  unfoldable pub construct : Options → ℕ → DbFile → Files State → Meta × MetaFile → Db State
  unfolding load_free_list new_pager
  construct options page_size db_file files (meta, meta_file) = record {
    mode = options.mode;
    sync = options.sync;
    max_wal_size = options.max_wal_size;
    meta = meta;
    meta_file = meta_file;
    space = record {
      pager = load_free_list (new_pager page_size) meta.meta_struct db_file;
      meta = meta.meta_struct;
      file = db_file;
    };
    has_update_tx = false;
    view_tx_map = [];
    min_view_txid = meta.meta_struct.txid;
    persisted_txid = tx_invalid_id;
    writer = files.log;
    disable_writing = false;
    checkpoint_needed = false;
    sync_error = files.sync_error;
  }

  module _ (buckets : Buckets State) where
    unfoldable pub init_log_file : Options → Files State → Db State → Result (Db State)
    init_log_file options files db = if options.read_only then ok db else (do
      recovered ←
          (if ltb 0 files.log_size
            then (do
              db1 ← recover writer crc buckets files.log_records db
              ok (reset_log writer db1))
            else ok db)
      ok (append_wal_txid_log writer recovered))

    unfoldable pub init_log_by_mode : DbMode → Options → Files State → Db State → Result (Db State)
    unfolding init_log_file
    init_log_by_mode update_in_place options files db = ok db
    init_log_by_mode wal options files db = init_log_file options files db

    -- DB::Open, on a system with the page size
    unfoldable pub open_db : Options → ℕ → Files State → Result (Db State)
    unfolding choose_page_size init_or_load construct init_log_by_mode
    open_db options system files = do
      page_size ← choose_page_size options system
      let init_meta = not options.read_only && (files.db_file.size == 0)
      let db_file =
          if init_meta
          then record files.db_file { size = page_size * page_init_count }
          else files.db_file
      metas ← init_or_load init_meta page_size files
      init_log_by_mode options.mode options files (construct options page_size db_file files metas)

  -- DBImpl::Update
  unfoldable pub db_update : Options → Db State → Result (Db State)
  db_update options db = throw_if options.read_only read_only >> update writer db

  -- Logger::~Logger, with no bucket open; the log file is removed afterwards.
  unfoldable pub close_log : Options → Db State → Result (Db State)
  unfolding db_update
  close_log options db = if options.read_only then ok db else (do
    db1 ← db_update options db
    db2 ← checkpoint writer crc db1
    commit_tx writer crc db2)

  unfoldable pub close_log_by_mode : DbMode → Options → Db State → Result (Db State)
  unfolding close_log
  close_log_by_mode update_in_place options db = ok db
  close_log_by_mode wal options db = close_log options db

  -- DBImpl::~DBImpl: the state of the files is that of the result.
  unfoldable pub close_db : Options → Db State → Result (Db State)
  unfolding close_log_by_mode close_file
  close_db options db = do
    db1 ← close_log_by_mode db.mode options db
    ok (record db1 {
      space = record db1.space {
        file = close_file db1.space.pager.page_size db1.meta.meta_struct db1.space.file;
      };
    })
