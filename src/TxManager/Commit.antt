-- ===== src/TxManager/Commit.antt =====
-- TxManager::Commit of src/tx_manager.cpp without a log: what a restart finds.
use atomkv.Prelude.{ℕ, ◌≤◌, ◌<◌, ◌≡◌, refl, ap, ◌⊎◌, false}
use atomkv.Format.{copy_meta_info, page_invalid_id}
use atomkv.Result.{Result, ok, ◌>>=◌}
use atomkv.Pager.{Pager}
use atomkv.Space.{Space, DbFile, save_free_list, load_free_list}
use atomkv.Meta.{
  Crc32, Meta, reset, switch, select, save, load, with_crc32, atomkv_sign, atomkv_version,
}
use atomkv.Db.{DbMode, update_in_place, WalWriter, Db}
use atomkv.Logger.{write_all_dirty_pages, save_pages, switch_and_save}
use atomkv.TxManager.{commit_tx, commit_by_mode, commit_in_place}

module _ (writer : WalWriter) (crc : Crc32) where
  open writer use {State}

  abbrev pub committed : Db State → Space → Db State
  committed db space =
      record (switch_and_save writer crc
        (record db { meta = reset db.meta db.space.meta; space = space })) { has_update_tx = false }

  -- The state that Commit leaves without a log.
  commit_in_place-ok :
      (db : Db State) (space : Space)
      → db.sync_error ≡ false
      → save_free_list db.space ≡ ok space
      → commit_in_place writer crc db
        ≡ ok (switch_and_save writer crc (record db { space = space }))
  unfolding commit_in_place save_pages write_all_dirty_pages
  commit_in_place-ok db space synced saved = rw (saved, synced) refl

  commit_by_mode-ok :
      (db : Db State) (space : Space) (mode : DbMode)
      → mode ≡ update_in_place
      → db.sync_error ≡ false
      → save_free_list db.space ≡ ok space
      → commit_by_mode writer crc mode db
        ≡ ok (switch_and_save writer crc (record db { space = space }))
  unfolding commit_by_mode
  commit_by_mode-ok db space mode e synced saved = rw e (commit_in_place-ok db space synced saved)

  commit_tx-ok :
      (db : Db State) (space : Space)
      → db.mode ≡ update_in_place
      → db.sync_error ≡ false
      → save_free_list db.space ≡ ok space
      → commit_tx writer crc db ≡ ok (committed db space)
  unfolding commit_tx
  commit_tx-ok db space mode synced saved =
      let db1 : Db State = record db { meta = reset db.meta db.space.meta } in
      ap (λ (r : Result (Db State)). r >>= λ db2. ok (record db2 { has_update_tx = false }))
        (commit_by_mode-ok db1 space db.mode mode synced saved)

  -- What the program finds on the disk after Commit, in the terms of the transaction that committed.
  pub record Durable (page_size : ℕ) (db db' : Db State) : Type 0 where
    pub ended : db'.has_update_tx ≡ false
    pub loads : load crc page_size db'.meta_file ≡ ok db'.meta
    pub user_root : db'.meta.meta_struct.user_root ≡ db.space.meta.user_root
    pub page_count : db'.meta.meta_struct.page_count ≡ db.space.meta.page_count
    pub txid : db'.meta.meta_struct.txid ≡ db.space.meta.txid
    pub old_copy :
        select db'.meta_file db.meta.cur_meta_index ≡ select db.meta_file db.meta.cur_meta_index
    pub views : db'.view_tx_map ≡ db.view_tx_map

  -- The meta data of a running database: of this program and this page size, in one of the two copies.
  pub record IsRunning (page_size : ℕ) (db : Db State) : Type 0 where
    pub index : (db.meta.cur_meta_index ≡ 0) ⊎ (db.meta.cur_meta_index ≡ 1)
    pub sign : db.meta.meta_struct.sign ≡ atomkv_sign
    pub version : db.meta.meta_struct.min_version ≤ atomkv_version
    pub size : db.meta.meta_struct.page_size ≡ page_size
    pub first_version : db.meta_file.first.min_version ≤ atomkv_version
    pub newer : (select db.meta_file db.meta.cur_meta_index).txid < db.space.meta.txid

  -- Commit copies the transaction's meta data before SaveFreeList fills in the place of the new free list.
  -- So in the mode without a log, where the sync of the file and SaveFreeList succeed, a transaction that began
  -- without a free list leaves none: Commit returns, and LoadFreeList finds nothing to load, whatever the
  -- file holds.
  pub commit_loses_free_list :
      (db : Db State) (space : Space)
      → db.mode ≡ update_in_place
      → db.sync_error ≡ false
      → save_free_list db.space ≡ ok space
      → db.space.meta.free_list_pgid ≡ page_invalid_id
      → (db' : Db State) × (commit_tx writer crc db ≡ ok db')
        × (db'.meta.meta_struct.free_list_pgid ≡ page_invalid_id)
        × ((pager : Pager) (file : DbFile) → load_free_list pager db'.meta.meta_struct file ≡ pager)
  unfolding switch_and_save reset copy_meta_info save switch with_crc32 load_free_list
  commit_loses_free_list db space mode synced saved none = (
    committed db space,
    commit_tx-ok db space mode synced saved,
    none,
    λ pager file. rw none refl,
  )
