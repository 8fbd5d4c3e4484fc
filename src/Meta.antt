-- ===== src/Meta.antt =====
-- src/meta.h and src/meta.cpp: the two copies of the meta data at the start of the file. The checksum
-- object wal::Crc32 is not part of the repository: it is a parameter.
pub mod Recovery
use atomkv.Prelude.{
  ℕ, zero, suc, ◌/◌, ◌%◌, Bool, not, ◌&&◌, List, [], ◌∷◌, ◌++◌, ltb, ◌==◌, if◌then◌else◌,
}
use atomkv.Format.{MetaStruct, copy_meta_info, page_invalid_id}
use atomkv.Result.{
  Result, ok, err, ◌>>=◌, ◌>>◌, throw_if, not_atomkv_file, version_too_high, database_damaged,
  page_size_mismatch,
}

-- version.h: 'atom', as GCC and Clang read it.
abbrev pub atomkv_sign : ℕ
atomkv_sign = 0x61746f6d

abbrev pub atomkv_version : ℕ
atomkv_version = 1

-- A wal::Crc32 object: `append` is Append, `finish` is End with the state that it leaves.
pub record Crc32 : Type 1 where
  pub State : Type 0
  pub fresh : State
  pub append : State → List ℕ → State
  pub finish : State → ℕ × State

unfoldable pub le_bytes : ℕ → ℕ → List ℕ
le_bytes zero n = []
le_bytes (suc width) n = (n % 256) ∷ le_bytes width (n / 256)

-- The first kMetaSize - sizeof(uint32_t) bytes of the packed struct.
unfoldable pub meta_bytes : MetaStruct → List ℕ
unfolding le_bytes
meta_bytes m =
    le_bytes 4 m.sign
    ++ (le_bytes 2 m.page_size
        ++ (le_bytes 4 m.min_version
            ++ (le_bytes 4 m.page_count
                ++ (le_bytes 4 m.user_root
                    ++ (le_bytes 4 m.free_list_pgid
                        ++ (le_bytes 4 m.free_pair_count
                            ++ (le_bytes 4 m.free_list_page_count ++ le_bytes 8 m.txid)))))))

pub record Meta : Type 0 where
  pub meta_struct : MetaStruct
  pub cur_meta_index : ℕ

-- The structs at the start of pages 0 and 1 of the file.
pub record MetaFile : Type 0 where
  pub first : MetaStruct
  pub second : MetaStruct

-- The page at cur_meta_index_ * page_size.
unfoldable pub write_meta : MetaFile → ℕ → MetaStruct → MetaFile
write_meta file index m =
    if index == 0 then record file { first = m } else record file { second = m }

unfoldable pub switch : Meta → Meta
switch meta = record meta { cur_meta_index = if meta.cur_meta_index == 0 then 1 else 0 }

unfoldable pub reset : Meta → MetaStruct → Meta
reset meta m = record meta { meta_struct = copy_meta_info meta.meta_struct m }

-- "Prioritize selecting the new version".
unfoldable pub select : MetaFile → ℕ → MetaStruct
select file index = if index == 0 then file.first else file.second

unfoldable pub newest_index : MetaFile → ℕ
newest_index file = if ltb file.first.txid file.second.txid then 1 else 0

module _ (crc : Crc32) where
  open crc use {State, fresh, append, finish}

  -- The checksum of the struct by an object in the given state, and the state after it.
  unfoldable pub checksum : State → MetaStruct → ℕ × State
  checksum state m = finish (append state (meta_bytes m))

  unfoldable pub with_crc32 : MetaStruct → MetaStruct
  unfolding checksum
  with_crc32 m = record m { crc32 = (checksum fresh m).0 }

  unfoldable pub save : Meta → MetaFile → Meta × MetaFile
  unfolding with_crc32 write_meta
  save meta file =
      let m = with_crc32 meta.meta_struct in
      (record meta { meta_struct = m }, write_meta file meta.cur_meta_index m)

  -- Init, with the options' page size.
  unfoldable pub init : ℕ → Meta → MetaFile → Meta × MetaFile
  unfolding save switch
  init page_size meta file =
      let first = record meta.meta_struct {
        sign = atomkv_sign;
        page_size = page_size;
        min_version = atomkv_version;
        page_count = 2;
        txid = 2;
        user_root = page_invalid_id;
        free_list_pgid = page_invalid_id;
        free_pair_count = 0;
        free_list_page_count = 0;
      } in
      let (meta1, file1) = save (record { meta_struct = first; cur_meta_index = 0 }) file in
      let meta2 = switch meta1 in
      let (meta3, file3) =
        save (record meta2 { meta_struct = record meta2.meta_struct { txid = 1 } }) file1 in
      (switch meta3, file3)

  -- "Verify if the metadata is complete. If it is incomplete, use another one". The second
  -- checksum continues with the same object.
  choose : MetaFile → ℕ → Result (ℕ × MetaStruct)
  unfolding select checksum
  choose file index =
      let (value, state) = checksum fresh (select file index) in
      if value == (select file index).crc32
      then ok (index, select file index)
      else (let other : ℕ = if index == 1 then 0 else 1 in
          if (checksum state (select file other)).0 == (select file other).crc32
          then ok (other, select file other)
          else err database_damaged)

  unfoldable pub load : ℕ → MetaFile → Result Meta
  unfolding newest_index choose
  load page_size file = do
    throw_if (not (file.first.sign == atomkv_sign) && not (file.second.sign == atomkv_sign))
        not_atomkv_file
    throw_if (ltb atomkv_version file.first.min_version) version_too_high
    (index, selected) ← choose file (newest_index file)
    throw_if (not (selected.page_size == page_size)) page_size_mismatch
    ok (record { meta_struct = selected; cur_meta_index = index })
