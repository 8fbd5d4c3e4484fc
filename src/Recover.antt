-- ===== src/Recover.antt =====
-- Logger::Recover of src/logger.cpp: the log is read back, and its transactions are carried out again.
-- The records are those that wal::Reader returns one after the other, a parameter; what a transaction does
-- to its buckets is an interface. Where a record of a bucket comes outside of a transaction, the
-- code dereferences an empty optional; here the interface decides.
use atomkv.Prelude.{
  ℕ, ◌+◌, ◌*◌, ◌^◌, Bool, true, false, not, List, [], ◌∷◌, Option, none, some, ltb, ◌==◌,
  if◌then◌else◌,
}
use atomkv.Result.{Result, ok, err, ◌>>=◌, ◌>>◌, throw_if, unrecoverable_logs, sync_failed}
use atomkv.Comparator.{Key, byte}
use atomkv.Meta.{Crc32}
use atomkv.Db.{
  LogType, wal_txid, begin, rollback, commit, sub_bucket, put_is_bucket, put_not_bucket, delete,
  WalWriter, Db,
}
use atomkv.Logger.{write_all_dirty_pages, switch_and_save}
use atomkv.TxManager.{update, roll_back, commit_tx}

-- BucketImpl on the buckets of the open update transaction, by bucket id: SubBucket, Put and Delete; and
-- the roots of the sub buckets that TxImpl::Commit puts into their parents.
pub record Buckets (S : Type 0) : Type 0 where
  pub open_sub_bucket : ℕ → Key → Db S → Result (Db S)
  pub put : ℕ → Key → List ℕ → Bool → Db S → Result (Db S)
  pub remove : ℕ → Key → Db S → Result (Db S)
  pub write_back : Db S → Result (Db S)

-- *reinterpret_cast<LogType*>(record->data()); other bytes match no case.
type_of : ℕ → Option LogType
type_of b =
    if b == 0
    then some wal_txid
    else if b == 1
    then some begin
    else if b == 2
    then some rollback
    else if b == 3
    then some commit
    else if b == 4
    then some sub_bucket
    else if b == 5
    then some put_is_bucket
    else if b == 6
    then some put_not_bucket
    else if b == 7
    then some delete
    else none

log_bucket_id : List ℕ → ℕ
unfolding byte
log_bucket_id r = byte r 1 + byte r 2 * 2 ^ 8 + byte r 3 * 2 ^ 16 + byte r 4 * 2 ^ 24

log_txid : List ℕ → ℕ
unfolding byte log_bucket_id
log_txid r =
    log_bucket_id r + byte r 5 * 2 ^ 32 + byte r 6 * 2 ^ 40 + byte r 7 * 2 ^ 48 + byte r 8 * 2 ^ 56

-- What the next record is: a header, or the key or the value of the header before.
pub data Awaiting : Type 0 where
  header : Awaiting
  key_of : LogType → ℕ → Awaiting
  value_of : Bool → ℕ → Key → Awaiting

-- What the switch on a header leads to: the loop ends, or goes on.
pub data Next (S : Type 0) : Type 0 where
  ends : Bool → Db S → Next S
  goes_on : Awaiting → Bool → Bool → Db S → Next S

module _ (writer : WalWriter) (crc : Crc32) (buckets : Buckets writer.State) where
  open writer use {State}
  open buckets use {open_sub_bucket, put, remove, write_back}

  -- UpdateTx::Commit
  commit_buckets : Db State → Result (Db State)
  commit_buckets db = do db1 ← write_back db; commit_tx writer crc db1

  -- One transaction record: kBegin, kRollback, kCommit. `open_tx` is current_tx.has_value().
  unfoldable tx_record : LogType → Bool → Db State → Result (Bool × Db State)
  unfolding commit_buckets
  tx_record begin open_tx db = do
    throw_if open_tx unrecoverable_logs
    db1 ← update writer db
    ok (true, db1)
  tx_record rollback open_tx db = do
    throw_if (not open_tx) unrecoverable_logs
    db1 ← roll_back writer crc db
    ok (false, db1)
  tx_record commit open_tx db = do
    throw_if (not open_tx) unrecoverable_logs
    db1 ← commit_buckets db
    ok (false, db1)
  tx_record _ open_tx db = ok (open_tx, db)

  -- The switch, on a header; "unrecoverable logs" outside of an initialized log.
  read_header : LogType → List ℕ → Bool → Bool → Db State → Result (Next State)
  unfolding tx_record log_bucket_id log_txid
  read_header wal_txid r initialized open_tx db =
      if initialized
      then err unrecoverable_logs
      else if ltb (log_txid r) db.meta.meta_struct.txid
      then ok (ends open_tx db)
      else ok (goes_on header true open_tx db)
  read_header sub_bucket r initialized open_tx db =
      throw_if (not initialized) unrecoverable_logs
      >> ok (goes_on (key_of sub_bucket (log_bucket_id r)) initialized open_tx db)
  read_header put_is_bucket r initialized open_tx db =
      throw_if (not initialized) unrecoverable_logs
      >> ok (goes_on (key_of put_is_bucket (log_bucket_id r)) initialized open_tx db)
  read_header put_not_bucket r initialized open_tx db =
      throw_if (not initialized) unrecoverable_logs
      >> ok (goes_on (key_of put_not_bucket (log_bucket_id r)) initialized open_tx db)
  read_header delete r initialized open_tx db =
      throw_if (not initialized) unrecoverable_logs
      >> ok (goes_on (key_of delete (log_bucket_id r)) initialized open_tx db)
  read_header t r initialized open_tx db = do
    throw_if (not initialized) unrecoverable_logs
    (open_tx', db') ← tx_record t open_tx db
    ok (goes_on header initialized open_tx' db')

  -- The key of a header: the operation, or for a put the wait for its value.
  read_key : LogType → ℕ → Key → Bool → Db State → Result (Next State)
  read_key sub_bucket id key open_tx db =
      open_sub_bucket id key db >>= λ db'. ok (goes_on header true open_tx db')
  read_key put_is_bucket id key open_tx db = ok (goes_on (value_of true id key) true open_tx db)
  read_key put_not_bucket id key open_tx db = ok (goes_on (value_of false id key) true open_tx db)
  read_key _ id key open_tx db = remove id key db >>= λ db'. ok (goes_on header true open_tx db')

  -- One record. An empty header ends the loop, a header of another type is passed over.
  read_one : Awaiting → List ℕ → Bool → Bool → Db State → Result (Next State)
  unfolding read_header read_key type_of
  read_one header [] initialized open_tx db = ok (ends open_tx db)
  read_one header (b ∷ r) initialized open_tx db = elim (type_of b) as (λ x. Result (Next State)) [
    | none ↦ ok (goes_on header initialized open_tx db)
    | some t ↦ read_header t (b ∷ r) initialized open_tx db
  ]
  read_one (key_of t id) key initialized open_tx db = read_key t id key open_tx db
  read_one (value_of is_bucket id key) value initialized open_tx db =
      put id key value is_bucket db >>= λ db'. ok (goes_on header true open_tx db')

  -- The loop, on the records that are left; it returns current_tx.has_value().
  unfoldable pub recover_loop :
      Awaiting → List (List ℕ) → Bool → Bool → Db State → Result (Bool × Db State)
  unfolding read_one
  recover_loop awaiting [] initialized open_tx db = ok (open_tx, db)
  recover_loop awaiting (r ∷ records) initialized open_tx db =
      elim (read_one awaiting r initialized open_tx db) as (λ x. Result (Bool × Db State)) [
        | err e ↦ err e
        | ok (ends open_tx' db') ↦ ok (open_tx', db')
        | ok (goes_on awaiting' initialized' open_tx' db') ↦
            recover_loop awaiting' records initialized' open_tx' db'
      ]

  -- "Incomplete log record, discard the last transaction".
  discard : Bool → Db State → Result (Db State)
  discard open_tx db = if open_tx then roll_back writer crc db else ok db

  -- `raw_txid` is a reference to the transaction id in memory: the two sides of the test are the same number.
  save_recovered : Db State → Result (Db State)
  save_recovered db =
      if ltb db.meta.meta_struct.txid db.meta.meta_struct.txid
      then (if db.sync_error
          then err sync_failed
          else (let saved = switch_and_save writer crc db in
              ok (record saved { persisted_txid = saved.meta.meta_struct.txid })))
      else ok db

  unfoldable pub recover : List (List ℕ) → Db State → Result (Db State)
  unfolding recover_loop discard save_recovered
  recover records db = do
    (open_tx, db1) ← recover_loop header records false false (record db { disable_writing = true })
    db2 ← write_all_dirty_pages writer (record db1 { disable_writing = false })
    db3 ← discard open_tx db2
    save_recovered db3
