-- ===== src/Meta/Recovery.antt =====
-- Opening a database after a commit, complete or torn: Meta::Save and Meta::Load of src/meta.cpp.
use atomkv.Prelude.{
  ◌+◌, ℕ, ◌≤◌, ◌<◌, ◌≡◌, refl, sym, ◌∙◌, subst, Bool-cases, ◌⊎◌, inl, inr, false, not, ◌&&◌, arith,
  ltb, ◌==◌, if◌then◌else◌,
}
use atomkv.Format.{MetaStruct, page_invalid_id, copy_meta_info}
use atomkv.Result.{ok, err, version_too_high}
use atomkv.Meta.{
  Meta, MetaFile, Crc32, atomkv_sign, atomkv_version, meta_bytes, checksum, with_crc32, select,
  newest_index, write_meta, switch, reset, save, load, init,
}

module _ (crc : Crc32) where
  open crc use {State, fresh, append, finish}

  -- The stored checksum is that of the other fields.
  abbrev pub IsIntact : MetaStruct → Type 0
  IsIntact m = (checksum crc fresh m).0 ≡ m.crc32

  -- End leaves the object ready for a new checksum.
  abbrev pub EndResets : Type 0
  EndResets = (s : State) → (finish s).1 ≡ fresh

  -- The struct is one that this program wrote for pages of this size.
  pub record IsOurs (page_size : ℕ) (m : MetaStruct) : Type 0 where
    pub signed : m.sign ≡ atomkv_sign
    pub version : m.min_version ≤ atomkv_version
    pub paged : m.page_size ≡ page_size
    pub intact : IsIntact m

  load_intact :
      (page_size index : ℕ) (file : MetaFile)
      → IsOurs page_size (select file index)
      → (not (file.first.sign == atomkv_sign) && not (file.second.sign == atomkv_sign)) ≡ false
      → file.first.min_version ≤ atomkv_version
      → newest_index file ≡ index
      → load crc page_size file
        ≡ ok (record { meta_struct = select file index; cur_meta_index = index })
  unfolding load
  load_intact page_size index file v sign w e = rw e (ground (arith, v.intact))

  load_other :
      (page_size index other : ℕ) (file : MetaFile)
      → EndResets
      → ¬ IsIntact (select file index)
      → IsOurs page_size (select file other)
      → (not (file.first.sign == atomkv_sign) && not (file.second.sign == atomkv_sign)) ≡ false
      → file.first.min_version ≤ atomkv_version
      → newest_index file ≡ index
      → (if index == 1 then 0 else 1) ≡ other
      → load crc page_size file
        ≡ ok (record { meta_struct = select file other; cur_meta_index = other })
  unfolding load checksum
  load_other page_size index other file resets torn v sign w e o =
      rw (e, o, resets (append fresh (meta_bytes (select file index)))) (ground (arith, v.intact))

  torn_second :
      (page_size : ℕ) (file : MetaFile) (torn : MetaStruct)
      → EndResets
      → IsOurs page_size file.first
      → ¬ IsIntact torn
      → load crc page_size (record file { second = torn })
        ≡ ok (record { meta_struct = file.first; cur_meta_index = 0 })
  unfolding select newest_index
  torn_second page_size file torn resets v t = elim (Bool-cases (ltb file.first.txid torn.txid)) [
    | inl e ↦
        load_other page_size 1 0 (record file { second = torn }) resets t v
          (ground (arith, v.signed)) v.version (rw e) refl
    | inr e ↦
        load_intact page_size 0 (record file { second = torn }) v (ground (arith, v.signed))
          v.version (rw e)
  ]

  torn_first :
      (page_size : ℕ) (file : MetaFile) (torn : MetaStruct)
      → EndResets
      → IsOurs page_size file.second
      → ¬ IsIntact torn
      → torn.min_version ≤ atomkv_version
      → load crc page_size (record file { first = torn })
        ≡ ok (record { meta_struct = file.second; cur_meta_index = 1 })
  unfolding select newest_index
  torn_first page_size file torn resets v t w = elim (Bool-cases (ltb torn.txid file.second.txid)) [
    | inl e ↦
        load_intact page_size 1 (record file { first = torn }) v (ground (arith, v.signed)) w (rw e)
    | inr e ↦
        load_other page_size 0 1 (record file { first = torn }) resets t v
          (ground (arith, v.signed)) w (rw e) refl
  ]

  abbrev RecoversTo : ℕ → MetaFile → MetaStruct → ℕ → MetaStruct → Type 0
  RecoversTo page_size file torn i m =
      load crc page_size (write_meta file (if i == 0 then 1 else 0) torn)
      ≡ ok (record { meta_struct = m; cur_meta_index = i })

  -- The copy in use is intact and one of this program, and a struct whose checksum does not fit replaces the other
  -- copy, as a write that was cut off would leave it: Load takes the copy in use, whatever the transaction
  -- id of the torn struct says. End must reset the checksum object, and a torn first copy must carry a
  -- version that this program reads.
  pub load_after_torn_save :
      (page_size index : ℕ) (file : MetaFile) (torn : MetaStruct)
      → (index ≡ 0) ⊎ (index ≡ 1)
      → EndResets
      → IsOurs page_size (select file index)
      → ¬ IsIntact torn
      → (index ≡ 1 → torn.min_version ≤ atomkv_version)
      → load crc page_size (write_meta file (if index == 0 then 1 else 0) torn)
        ≡ ok (record { meta_struct = select file index; cur_meta_index = index })
  unfolding write_meta select
  load_after_torn_save page_size index file torn (inl e) resets v t w =
      subst (λ i. RecoversTo page_size file torn i (select file i)) (sym e)
        (torn_second page_size file torn resets (subst (λ i. IsOurs page_size (select file i)) e v)
          t)
  load_after_torn_save page_size index file torn (inr e) resets v t w =
      subst (λ i. RecoversTo page_size file torn i (select file i)) (sym e)
        (torn_first page_size file torn resets (subst (λ i. IsOurs page_size (select file i)) e v) t
          (w e))

  -- The second copy is intact and one of this program, and the first one is torn, with any number in its version field:
  -- if the program reads that version, Load takes the second copy, and if not, Load refuses the database, as
  -- it checks the version before it knows that the copy is whole. End must reset the checksum object.
  pub load_by_torn_version :
      (page_size : ℕ) (file : MetaFile) (torn : MetaStruct)
      → EndResets
      → IsOurs page_size file.second
      → ¬ IsIntact torn
      → load crc page_size (record file { first = torn }) ≡ (
          if ltb atomkv_version torn.min_version
          then err version_too_high
          else ok (record { meta_struct = file.second; cur_meta_index = 1 }))
  unfolding load
  load_by_torn_version page_size file torn resets v t =
      elim (Bool-cases (ltb atomkv_version torn.min_version)) [
        | inl e ↦ rw e (ground (arith, v.signed))
        | inr e ↦ torn_first page_size file torn resets v t (ground arith) ∙ rw e refl
      ]

  with_crc32-IsOurs :
      (page_size : ℕ) (m : MetaStruct)
      → m.sign ≡ atomkv_sign
      → m.min_version ≤ atomkv_version
      → m.page_size ≡ page_size
      → IsOurs page_size (with_crc32 crc m)
  unfolding with_crc32 checksum meta_bytes
  with_crc32-IsOurs page_size m h1 h2 h3 = record {
    signed = h1;
    version = h2;
    paged = h3;
    intact = refl;
  }

  save_first :
      (page_size : ℕ) (m : MetaStruct) (file : MetaFile)
      → IsOurs page_size (with_crc32 crc m)
      → file.second.txid < m.txid
      → load crc page_size (record file { first = with_crc32 crc m })
        ≡ ok (record { meta_struct = with_crc32 crc m; cur_meta_index = 0 })
  unfolding select newest_index with_crc32
  save_first page_size m file v h =
      load_intact page_size 0 (record file { first = with_crc32 crc m }) v
        (ground (arith, v.signed)) v.version (ground arith)

  save_second :
      (page_size : ℕ) (m : MetaStruct) (file : MetaFile)
      → IsOurs page_size (with_crc32 crc m)
      → file.first.min_version ≤ atomkv_version
      → file.first.txid < m.txid
      → load crc page_size (record file { second = with_crc32 crc m })
        ≡ ok (record { meta_struct = with_crc32 crc m; cur_meta_index = 1 })
  unfolding select newest_index with_crc32
  save_second page_size m file v w h =
      load_intact page_size 1 (record file { second = with_crc32 crc m }) v
        (ground (arith, v.signed)) w (ground arith)

  abbrev LoadsSaved : ℕ → MetaStruct → MetaFile → ℕ → Type 0
  LoadsSaved page_size m file i =
      let r = save crc (switch (record { meta_struct = m; cur_meta_index = i })) file in
      load crc page_size r.1 ≡ ok r.0

  -- The meta data goes to the copy that is not in use, as TxManager::Commit and Checkpoint do it, and
  -- is newer than the copy in use: Load gives back what the program has in memory. The struct must be
  -- one of this program, and the first copy must carry a version that this program reads.
  pub load_after_save :
      (page_size : ℕ) (meta : Meta) (file : MetaFile)
      → (meta.cur_meta_index ≡ 0) ⊎ (meta.cur_meta_index ≡ 1)
      → meta.meta_struct.sign ≡ atomkv_sign
      → meta.meta_struct.min_version ≤ atomkv_version
      → meta.meta_struct.page_size ≡ page_size
      → file.first.min_version ≤ atomkv_version
      → (select file meta.cur_meta_index).txid < meta.meta_struct.txid
      → let r = save crc (switch meta) file in load crc page_size r.1 ≡ ok r.0
  unfolding save switch write_meta select
  load_after_save page_size meta file (inl e) h1 h2 h3 h4 h5 =
      subst (LoadsSaved page_size meta.meta_struct file) (sym e) (
        save_second page_size meta.meta_struct file
          (with_crc32-IsOurs page_size meta.meta_struct h1 h2 h3) h4
          (subst (λ i. (select file i).txid < meta.meta_struct.txid) e h5))
  load_after_save page_size meta file (inr e) h1 h2 h3 h4 h5 =
      subst (LoadsSaved page_size meta.meta_struct file) (sym e) (
        save_first page_size meta.meta_struct file
          (with_crc32-IsOurs page_size meta.meta_struct h1 h2 h3)
          (subst (λ i. (select file i).txid < meta.meta_struct.txid) e h5))

  -- The first transaction that is committed to a new database: Init leaves transaction id 2 in the
  -- first copy and 1 in memory, so the commit saves id 2 in the second copy, and Load prefers the first
  -- of two equal ids. Whatever the transaction committed, Load takes the empty database of Init.
  pub first_commit_lost :
      (page_size : ℕ) (meta : Meta) (file : MetaFile) (committed : MetaStruct)
      → committed.txid ≡ (init crc page_size meta file).0.meta_struct.txid + 1
      → let r0 = init crc page_size meta file in
        let r1 = save crc (switch (reset r0.0 committed)) r0.1 in
        (r1.0.meta_struct.user_root ≡ committed.user_root)
        × (load crc page_size r1.1 ≡ ok (record { meta_struct = r0.1.first; cur_meta_index = 0 }))
        × (r0.1.first.user_root ≡ page_invalid_id)
  unfolding load save switch reset copy_meta_info init write_meta select newest_index with_crc32
      checksum meta_bytes
  first_commit_lost page_size meta file committed e = (refl, ground arith, refl)
