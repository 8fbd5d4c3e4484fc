-- ===== src/Opening/AfterCommit.antt =====
-- DB::Open of src/db_impl.cpp after TxManager::Commit of src/tx_manager.cpp.
use atomkv.Prelude.{ℕ, ◌≤◌, ◌≡◌, ◌⊎◌, false, []}
use atomkv.Format.{page_max_size, tx_invalid_id}
use atomkv.Space.{Space, load_free_list}
use atomkv.Meta.{Crc32}
use atomkv.Db.{update_in_place, WalWriter, Db}
use atomkv.Recover.{Buckets}
use atomkv.Opening.{Options, Files, new_pager, construct}

module _ (writer : WalWriter) (crc : Crc32) (buckets : Buckets writer.State) where
  open writer use {State}

  -- The state of a database that was just opened, with the committed state of `db`.
  pub record Reopened (page_size : ℕ) (files : Files State) (db opened : Db State) : Type 0 where
    pub user_root : opened.meta.meta_struct.user_root ≡ db.space.meta.user_root
    pub page_count : opened.meta.meta_struct.page_count ≡ db.space.meta.page_count
    pub txid : opened.meta.meta_struct.txid ≡ db.space.meta.txid
    pub free_list :
        opened.space.pager
        ≡ load_free_list (new_pager page_size) opened.meta.meta_struct files.db_file
    pub no_update : opened.has_update_tx ≡ false
    pub no_views : opened.view_tx_map ≡ []
    pub oldest : opened.min_view_txid ≡ db.space.meta.txid
    pub persisted : opened.persisted_txid ≡ tx_invalid_id

  -- What the options must be for a database with pages of this size.
  pub record Fits (page_size : ℕ) (options : Options) : Type 0 where
    pub mode : options.mode ≡ update_in_place
    pub size : (options.page_size ≡ 0) ⊎ (options.page_size ≡ page_size)
    pub small : page_size ≤ page_max_size

  -- What Open makes of the file after the commit.
  abbrev opened_of : ℕ → Options → Files State → Db State → Db State
  opened_of page_size options files db =
      construct writer crc options page_size files.db_file files (db.meta, db.meta_file)
