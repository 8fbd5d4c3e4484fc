-- ===== src/Format.antt =====
-- The on-disk formats: include/atomkv/page_format.h, tx_format.h, slot.h, node_format.h,
-- meta_format.h, and version.h. Integers are natural numbers; where an operation of the code can
-- wrap, the operation says so.
use atomkv.Prelude.{ℕ, ◌^◌}

abbrev pub u16_mod : ℕ
u16_mod = 2 ^ 16

abbrev pub u32_mod : ℕ
u32_mod = 2 ^ 32

abbrev pub u64_mod : ℕ
u64_mod = 2 ^ 64

-- page_format.h
abbrev pub page_min_size : ℕ
page_min_size = 0x100

abbrev pub page_max_size : ℕ
page_max_size = 0x8000

abbrev pub page_invalid_id : ℕ
page_invalid_id = 0xffffffff

abbrev pub page_init_count : ℕ
page_init_count = 2

abbrev pub page_max_count : ℕ
page_max_count = 0x80000000

-- tx_format.h
abbrev pub tx_invalid_id : ℕ
tx_invalid_id = 0xffffffffffffffff

abbrev pub user_root_bucket_id : ℕ
user_root_bucket_id = 0xffffffff

-- slot.h
abbrev pub key_max_size : ℕ
key_max_size = 0x7fff

abbrev pub value_max_size : ℕ
value_max_size = 0xffffffff

-- meta_format.h
pub record MetaStruct : Type 0 where
  pub sign : ℕ
  pub page_size : ℕ
  pub min_version : ℕ
  pub page_count : ℕ
  pub user_root : ℕ
  pub free_list_pgid : ℕ
  pub free_pair_count : ℕ
  pub free_list_page_count : ℕ
  pub txid : ℕ
  pub crc32 : ℕ

-- CopyMetaInfo(dst, src): the new value of *dst.
unfoldable pub copy_meta_info : MetaStruct → MetaStruct → MetaStruct
copy_meta_info dst src = record dst {
  user_root = src.user_root;
  free_list_pgid = src.free_list_pgid;
  free_pair_count = src.free_pair_count;
  free_list_page_count = src.free_list_page_count;
  page_count = src.page_count;
  txid = src.txid;
}
