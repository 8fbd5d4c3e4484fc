-- ===== src/Tests/Metas.antt =====
-- The two copies of the meta data of src/meta.cpp, with a checksum object that adds the bytes up.
use atomkv.Prelude.{ltb, ℕ, ◌+◌, ◌≡◌, refl, inl, List, [], ◌∷◌, arith, ◌==◌, if◌then◌else◌}
use atomkv.Format.{MetaStruct, page_invalid_id}
use atomkv.Result.{ok, err, version_too_high}
use atomkv.Meta.{
  atomkv_version, Crc32, Meta, MetaFile, le_bytes, meta_bytes, checksum, with_crc32, select,
  write_meta, switch, reset, save, init, load,
}
use atomkv.Meta.Recovery.{
  IsIntact, EndResets, IsOurs, load_after_torn_save, load_by_torn_version, first_commit_lost,
}
use atomkv.Tests.Database.{meta}

pub sum : List ℕ → ℕ
sum [] = 0
sum (b ∷ bytes) = b + sum bytes

abbrev pub sum_crc : Crc32
sum_crc = record {
  State = ℕ;
  fresh = 0;
  append = λ state bytes. state + sum bytes;
  finish = λ state. (state, 0);
}

sum_crc-EndResets : EndResets sum_crc
sum_crc-EndResets state = refl

abbrev valid : MetaStruct
valid = with_crc32 sum_crc meta

valid-IsOurs : IsOurs sum_crc 4096 valid
unfolding with_crc32 checksum meta_bytes
valid-IsOurs = record { signed = refl; version = omega arith; paged = refl; intact = refl }

abbrev pub file : MetaFile
file = record { first = valid; second = valid }

abbrev torn : MetaStruct
torn = record valid { txid = 10 }

torn_not-IsIntact : ¬ IsIntact sum_crc torn
unfolding with_crc32 checksum meta_bytes le_bytes sum
torn_not-IsIntact h = absurd (omega arith)

first_valid : IsOurs sum_crc 4096 (select file 0)
unfolding select
first_valid = valid-IsOurs

load_after_torn_save_example :
    load sum_crc 4096 (write_meta file (if 0 == 0 then 1 else 0) torn)
    ≡ ok (record { meta_struct = select file 0; cur_meta_index = 0 })
load_after_torn_save_example =
    load_after_torn_save sum_crc 4096 0 file torn (inl refl) sum_crc-EndResets first_valid
      torn_not-IsIntact (λ e. absurd (omega arith))

abbrev torn_version : MetaStruct
torn_version = record valid { min_version = 7 }

torn_version_not-IsIntact : ¬ IsIntact sum_crc torn_version
unfolding with_crc32 checksum meta_bytes le_bytes sum
torn_version_not-IsIntact h = absurd (omega arith)

load_by_torn_version_example : load sum_crc 4096 (record file { first = torn_version }) ≡ (
    if ltb atomkv_version 7
    then err version_too_high
    else ok (record { meta_struct = file.second; cur_meta_index = 1 }))
load_by_torn_version_example =
    load_by_torn_version sum_crc 4096 file torn_version sum_crc-EndResets valid-IsOurs
      torn_version_not-IsIntact

abbrev next_meta : Meta
next_meta = record { meta_struct = record meta { txid = 10 }; cur_meta_index = 0 }

abbrev first_commit : MetaStruct
first_commit = record meta { txid = 2; user_root = 5 }

first_txid : first_commit.txid ≡ (init sum_crc 4096 next_meta file).0.meta_struct.txid + 1
unfolding init
first_txid = refl

first_commit_lost_example :
    let r0 = init sum_crc 4096 next_meta file in
    let r1 = save sum_crc (switch (reset r0.0 first_commit)) r0.1 in
    (r1.0.meta_struct.user_root ≡ 5)
    × (load sum_crc 4096 r1.1 ≡ ok (record { meta_struct = r0.1.first; cur_meta_index = 0 }))
    × (r0.1.first.user_root ≡ page_invalid_id)
first_commit_lost_example = first_commit_lost sum_crc 4096 next_meta file first_commit first_txid
