-- ===== src/Tests/Transactions.antt =====
-- Transactions of src/tx_manager.cpp on a small database.
use atomkv.Prelude.{
  ℕ, ◌+◌, ◌≡◌, refl, inl, true, false, [], ◌∷◌, arith, ◌==◌, length, if◌then◌else◌,
}
use atomkv.Format.{page_invalid_id, tx_invalid_id}
use atomkv.Result.{ok}
use atomkv.StdMap.{find}
use atomkv.Pager.{Pager, alloc_from_map, first_fit}
use atomkv.Meta.{select, with_crc32}
use atomkv.Space.{DbFile, Space, alloc, save_free_list, load_free_list}
use atomkv.Db.{update_in_place, WalWriter, Db}
use atomkv.TxManager.{view, roll_back_view, commit_tx}
use atomkv.TxManager.Views.{AreViews, one_more, one_fewer, view-AreViews, roll_back_view-AreViews}
use atomkv.TxManager.Commit.{IsRunning, commit_loses_free_list}
use atomkv.Tests.Database.{meta, space}
use atomkv.Tests.Metas.{sum_crc, file}

-- A writer that counts its bytes.
abbrev pub counting_writer : WalWriter
counting_writer = record {
  State = ℕ;
  append_record_to_buffer = λ n bytes. n + length bytes;
  flush_buffer = λ n. n;
  sync = λ n. n;
  size = λ n. n;
  reopen = λ n. 0;
}

-- Two views of transaction 8 and one of transaction 9, the last one committed.
abbrev pub db : Db ℕ
db = record {
  mode = update_in_place;
  sync = false;
  max_wal_size = 1000;
  meta = record { meta_struct = meta; cur_meta_index = 0 };
  meta_file = file;
  space = record space { meta = record meta { txid = 10; page_count = 41; user_root = 33 } };
  has_update_tx = true;
  view_tx_map = (8, 2) ∷ (9, 1) ∷ [];
  min_view_txid = 8;
  persisted_txid = tx_invalid_id;
  writer = 0;
  disable_writing = false;
  checkpoint_needed = false;
  sync_error = false;
}

abbrev open_views : ℕ → ℕ
open_views i = if i == 8 then 2 else if i == 9 then 1 else 0

db-AreViews : AreViews open_views db.view_tx_map
unfolding find
db-AreViews = record { sorted = ground arith; counted = λ i. ground arith }

view-AreViews_example :
    AreViews (one_more 9 open_views) (view counting_writer meta db).0.view_tx_map
view-AreViews_example = view-AreViews counting_writer meta db open_views db-AreViews (omega arith)

roll_back_view-AreViews_example :
    AreViews (one_fewer 8 open_views) (roll_back_view counting_writer 8 db).view_tx_map
roll_back_view-AreViews_example =
    roll_back_view-AreViews counting_writer 8 db open_views db-AreViews (omega arith)

pub saved_space : (s : Space) × (save_free_list db.space ≡ ok s)
unfolding save_free_list alloc alloc_from_map first_fit
saved_space = (_, refl)

pub running : IsRunning counting_writer sum_crc 4096 db
unfolding select with_crc32
running = record {
  index = inl refl;
  sign = refl;
  version = omega arith;
  size = refl;
  first_version = omega arith;
  newer = omega arith;
}

commit_loses_free_list_example :
    (db' : Db ℕ) × (commit_tx counting_writer sum_crc db ≡ ok db')
    × (db'.meta.meta_struct.free_list_pgid ≡ page_invalid_id)
    × ((p : Pager) (f : DbFile) → load_free_list p db'.meta.meta_struct f ≡ p)
commit_loses_free_list_example =
    commit_loses_free_list counting_writer sum_crc db saved_space.0 refl refl saved_space.1 refl
