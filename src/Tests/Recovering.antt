-- ===== src/Tests/Recovering.antt =====
-- Logger::Recover of src/logger.cpp on a log with one transaction.
use atomkv.Prelude.{ℕ, ◌≡◌, refl, true, false, List, [], ◌∷◌}
use atomkv.Result.{ok}
use atomkv.Format.{copy_meta_info}
use atomkv.Db.{wal, Db}
use atomkv.Logger.{append_log, flush_log}
use atomkv.TxManager.{update, commit_tx}
use atomkv.Recover.{Buckets, header, recover_loop}
use atomkv.Tests.Metas.{sum_crc}
use atomkv.Tests.Transactions.{counting_writer, db}

-- Buckets without pages.
abbrev pub no_buckets : Buckets ℕ
no_buckets = record {
  open_sub_bucket = λ id key db. ok db;
  put = λ id key value b db. ok db;
  remove = λ id key db. ok db;
  write_back = λ db. ok db;
}

abbrev logged : Db ℕ
logged = record db { mode = wal }

-- The log of transaction 9: its id, a begin, a put of one key, and a commit.
abbrev records : List (List ℕ)
records =
    (0 ∷ 9 ∷ 0 ∷ 0 ∷ 0 ∷ 0 ∷ 0 ∷ 0 ∷ 0 ∷ [])
    ∷ (1 ∷ [])
    ∷ (6 ∷ 255 ∷ 255 ∷ 255 ∷ 255 ∷ [])
    ∷ (7 ∷ [])
    ∷ (8 ∷ [])
    ∷ (3 ∷ [])
    ∷ []

recovered :
    (db1 : Db ℕ) × (recover_loop counting_writer sum_crc no_buckets header records false false
        (record logged { disable_writing = true })
      ≡ ok (false, db1))
    × (db1.sync_error ≡ false)
unfolding recover_loop update copy_meta_info append_log commit_tx flush_log
recovered = (_, refl, refl)
