-- ===== src/TxManager/Views.antt =====
-- The read transactions of src/tx_manager.cpp: what view_tx_map_ counts, and what a write transaction
-- leaves alone for their sake.
use atomkv.Prelude.{
  ℕ, ◌+◌, ◌-◌, ◌%◌, ◌^◌, ◌≤◌, ◌<◌, ◌≡◌, refl, ap, ◌∙◌, inl, inr, Bool, true, Option, none, some,
  arith, ◌==◌, if◌then◌else◌, Bool-cases,
}
use atomkv.Format.{MetaStruct}
use atomkv.StdMap.{StdMap, find, IsSortedFrom}
use atomkv.StdMap.Lookup.{
  find-insert, find-assign, find-erase, insert-IsSortedFrom, assign-IsSortedFrom,
  erase-IsSortedFrom,
}
use atomkv.Pager.Release.{Releases, released}
use atomkv.Db.{DbMode, update_in_place, wal, LogType, WalWriter, Db}
use atomkv.Logger.{append_log}
use atomkv.TxManager.{log_if_wal, add_view, drop_view, view, roll_back_view}

-- The entry of a transaction id that `n` views have.
abbrev pub entry_of : ℕ → Option ℕ
entry_of n = if n == 0 then none else some n

-- `open_views` says how many views of each transaction id are open; the map has just these counts.
pub record AreViews (open_views : ℕ → ℕ) (views : StdMap ℕ) : Type 0 where
  pub sorted : IsSortedFrom 0 views
  pub counted : (i : ℕ) → find i views ≡ entry_of (open_views i)

-- One view more, and one view fewer, of a transaction id.
abbrev pub one_more : ℕ → (ℕ → ℕ) → ℕ → ℕ
one_more txid open_views i = if txid == i then open_views i + 1 else open_views i

abbrev pub one_fewer : ℕ → (ℕ → ℕ) → ℕ → ℕ
one_fewer txid open_views i = if txid == i then open_views i - 1 else open_views i

add_view-AreViews :
    (open_views : ℕ → ℕ) (views : StdMap ℕ) (txid : ℕ)
    → AreViews open_views views
    → open_views txid + 1 < 2 ^ 32
    → AreViews (one_more txid open_views) (add_view txid views (find txid views))
unfolding add_view
add_view-AreViews open_views views txid v h = elim (Bool-cases (open_views txid == 0)) [
  | inl z ↦
      let e : find txid views ≡ none = v.counted txid ∙ rw z refl in
      rw e (record {
        sorted = insert-IsSortedFrom 0 txid 1 views (omega arith) v.sorted;
        counted = λ i. ground (arith, find-insert txid i 1 views e, v.counted i, ap open_views);
      })
  | inr z ↦
      let e : find txid views ≡ some (open_views txid) = v.counted txid ∙ rw z refl in
      let c : (open_views txid + 1) % 2 ^ 32 ≡ open_views txid + 1 = omega arith in
      rw (e, c)
        (record {
          sorted = assign-IsSortedFrom 0 txid (open_views txid + 1) views v.sorted;
          counted = λ i. ground (
            arith,
            find-assign txid i (open_views txid + 1) (open_views txid) views e,
            v.counted i,
            ap open_views,
          );
        })
]

drop_view-AreViews :
    (open_views : ℕ → ℕ) (views : StdMap ℕ) (txid : ℕ)
    → AreViews open_views views
    → 0 < open_views txid
    → AreViews (one_fewer txid open_views) (drop_view txid views (find txid views))
unfolding drop_view
drop_view-AreViews open_views views txid v h =
    let e : find txid views ≡ some (open_views txid) = v.counted txid ∙ ground arith in
    rw e (elim (Bool-cases (open_views txid - 1 == 0)) [
      | inl z ↦ rw z (record {
        sorted = erase-IsSortedFrom 0 txid views v.sorted;
        counted =
            λ i. ground (arith, find-erase 0 txid i views v.sorted, v.counted i, ap open_views);
      })
      | inr z ↦ rw z (record {
        sorted = assign-IsSortedFrom 0 txid (open_views txid - 1) views v.sorted;
        counted = λ i. ground (
          arith,
          find-assign txid i (open_views txid - 1) (open_views txid) views e,
          v.counted i,
          ap open_views,
        );
      })
    ])

module _ (writer : WalWriter) where
  open writer use {State}

  -- View, where the map counts the open views and the count does not overflow: the map then counts one view more
  -- of the committed transaction, and the same for every other.
  pub view-AreViews :
      (m : MetaStruct) (db : Db State) (open_views : ℕ → ℕ)
      → AreViews open_views db.view_tx_map
      → open_views db.meta.meta_struct.txid + 1 < 2 ^ 32
      → AreViews (one_more db.meta.meta_struct.txid open_views) (view writer m db).0.view_tx_map
  unfolding view
  view-AreViews m db open_views v h =
      add_view-AreViews open_views db.view_tx_map db.meta.meta_struct.txid v h

  -- RollBack of a view that is open, where the map counts the open views: the map then counts one view fewer of its
  -- transaction, and the same for every other.
  pub roll_back_view-AreViews :
      (txid : ℕ) (db : Db State) (open_views : ℕ → ℕ)
      → AreViews open_views db.view_tx_map
      → 0 < open_views txid
      → AreViews (one_fewer txid open_views) (roll_back_view writer txid db).view_tx_map
  unfolding roll_back_view
  roll_back_view-AreViews txid db open_views v h =
      drop_view-AreViews open_views db.view_tx_map txid v h

  -- What Update leaves, where `open_views` counts the open views.
  pub record Updated (open_views : ℕ → ℕ) (db db' : Db State) : Type 0 where
    pub begun : db'.has_update_tx ≡ true
    pub txid : db'.space.meta.txid ≡ db.meta.meta_struct.txid + 1
    pub meta : db'.meta ≡ db.meta
    pub views : db'.view_tx_map ≡ db.view_tx_map
    pub oldest : (v : ℕ) → 0 < open_views v → db'.min_view_txid ≤ v
    pub kept :
        (v t : ℕ)
        → 0 < open_views v
        → v ≤ t
        → find t db'.space.pager.pending_map ≡ find t db.space.pager.pending_map
    pub released : Releases (db'.min_view_txid - 1) db.space.pager db'.space.pager

  -- A log record changes the writer and the flag, and nothing else.
  pub log_if_wal-keeps :
      (mode : DbMode) (type : LogType) (db : Db State)
      → (w : State) × (c : Bool) × (log_if_wal writer mode type db
          ≡ record db { writer = w; checkpoint_needed = c })
  unfolding log_if_wal append_log
  log_if_wal-keeps update_in_place type db = (db.writer, db.checkpoint_needed, refl)
  log_if_wal-keeps wal type db = elim (Bool-cases db.disable_writing) [
    | inl t ↦ rw t (db.writer, db.checkpoint_needed, refl)
    | inr t ↦ rw t (_, _, refl)
  ]

  -- The new transaction's id, the rest as it was for the readers.
  record Begun (db db' : Db State) : Type 0 where
    has_update_tx : db'.has_update_tx ≡ true
    txid : db'.space.meta.txid ≡ db.meta.meta_struct.txid + 1
    meta : db'.meta ≡ db.meta
    views : db'.view_tx_map ≡ db.view_tx_map
    pager : db'.space.pager ≡ db.space.pager
