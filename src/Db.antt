-- ===== src/Db.antt =====
-- The state behind DBImpl of src/db_impl.h that the logger and the transaction manager work on, with the
-- modes of include/atomkv/options.h and the log headers of src/log_type.h. wal::Writer is not part of
-- the repository: it is a parameter.
use atomkv.Prelude.{ℕ, Bool, List, ◌∷◌}
use atomkv.StdMap.{StdMap}
use atomkv.Meta.{Meta, MetaFile, le_bytes}
use atomkv.Space.{Space}

pub data DbMode : Type 0 where
  update_in_place wal : DbMode

pub data LogType : Type 0 where
  wal_txid begin rollback commit sub_bucket put_is_bucket put_not_bucket delete : LogType

-- The byte of the enumerator.
abbrev pub log_type_byte : LogType → ℕ
log_type_byte wal_txid = 0
log_type_byte begin = 1
log_type_byte rollback = 2
log_type_byte commit = 3
log_type_byte sub_bucket = 4
log_type_byte put_is_bucket = 5
log_type_byte put_not_bucket = 6
log_type_byte delete = 7

-- The bytes of a WalTxIdLogHeader and of a BucketLogHeader.
pub wal_txid_log_header : ℕ → List ℕ
unfolding le_bytes
wal_txid_log_header txid = log_type_byte wal_txid ∷ le_bytes 8 txid

pub bucket_log_header : LogType → ℕ → List ℕ
unfolding le_bytes
bucket_log_header type bucket_id = log_type_byte type ∷ le_bytes 4 bucket_id

-- wal::Writer: `reopen` is Close and Open of the log file, `sync` is FlushBuffer followed by Sync.
pub record WalWriter : Type 1 where
  pub State : Type 0
  pub append_record_to_buffer : State → List ℕ → State
  pub flush_buffer : State → State
  pub sync : State → State
  pub size : State → ℕ
  pub reopen : State → State

-- `space.meta` is the meta_struct of the update transaction while `has_update_tx`, `sync_error` is
-- what the next sync of the mapped file reports. The two locks are those that a caller holds.
pub record Db (writer_state : Type 0) : Type 0 where
  pub mode : DbMode
  pub sync : Bool
  pub max_wal_size : ℕ
  pub meta : Meta
  pub meta_file : MetaFile
  pub space : Space
  pub has_update_tx : Bool
  pub view_tx_map : StdMap ℕ
  pub min_view_txid : ℕ
  pub persisted_txid : ℕ
  pub writer : writer_state
  pub disable_writing : Bool
  pub checkpoint_needed : Bool
  pub sync_error : Bool
