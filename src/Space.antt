-- ===== src/Space.antt =====
-- The calls of src/pager.cpp that extend the database: Alloc, SaveFreeList and LoadFreeList, with
-- the mapping that DBImpl::Remmap of src/db_impl.cpp grows. `Space` is what they read and write: the
-- pager, the meta_struct of the open update transaction, and the mapped file.
pub mod Remmap
pub mod Alloc
pub mod FreeList
pub mod InUse
use atomkv.Prelude.{
  ℕ, zero, suc, ◌+◌, ◌*◌, ◌/◌, ◌%◌, ◌^◌, List, [], ◌∷◌, ◌++◌, ltb, leb, ◌==◌, if◌then◌else◌, length,
}
use atomkv.Format.{MetaStruct, u32_mod, page_invalid_id}
use atomkv.Result.{Result, ok, err, ◌>>=◌, ◌>>◌, throw_if, not_enough_pages}
use atomkv.StdMap.{StdMap}
use atomkv.Pager.{PagePair, FreeMap, Pager, alloc_from_map, free, free_to_map, get_ptr}

-- The database file behind its mapping: the bytes, the size of the file and of the current mapping,
-- and how many older mappings wait for ClearPendingMmap.
pub record DbFile : Type 0 where
  pub bytes : ℕ → ℕ
  pub size : ℕ
  pub pending_mmaps : ℕ

abbrev pub max_expand_size : ℕ
max_expand_size = 1024 * 1024 * 1024

-- for (i = 0; i < 31; ++i) { map_size *= 2; if (map_size > new_size) break; }
unfoldable pub double_loop : ℕ → ℕ → ℕ → ℕ
double_loop zero new_size map_size = map_size
double_loop (suc rounds) new_size map_size =
    let rest = double_loop rounds new_size (map_size * 2) in
    if ltb new_size (map_size * 2) then map_size * 2 else rest

unfoldable pub remmap : DbFile → ℕ → DbFile
unfolding double_loop
remmap file new_size = record file {
  pending_mmaps = file.pending_mmaps + 1;
  size =
      if leb new_size max_expand_size
      then double_loop 31 new_size 1
      else new_size + new_size % max_expand_size;
}

unfoldable pub clear_pending_mmap : DbFile → DbFile
clear_pending_mmap file = record file { pending_mmaps = 0 }

pub record Space : Type 0 where
  pub pager : Pager
  pub meta : MetaStruct
  pub file : DbFile

-- The part of Alloc that takes new pages behind the last one. `page_count * page_size_` is a
-- product of uint32_t, and wraps before it becomes the size_t min_size.
unfoldable pub alloc_at_end : Space → ℕ → Result (ℕ × Space)
alloc_at_end space count = do
  let old_count = space.meta.page_count
  let new_count = (old_count + count) % u32_mod
  throw_if (ltb new_count old_count) not_enough_pages
  let min_size = (new_count * space.pager.page_size) % u32_mod
  ok (
    old_count,
    record space {
      meta = record space.meta { page_count = new_count };
      file = if ltb space.file.size min_size then remmap space.file min_size else space.file;
    },
  )

unfoldable pub alloc : Space → ℕ → Result (ℕ × Space)
unfolding alloc_at_end
alloc space count =
    let (pgid, pager) = alloc_from_map space.pager count in
    if pgid == page_invalid_id
    then alloc_at_end (record space { pager = pager }) count
    else ok (pgid, record space { pager = pager })

-- Memory: a byte, then a row of bytes.
abbrev pub write_byte : (ℕ → ℕ) → ℕ → ℕ → ℕ → ℕ
write_byte bytes address b a = if a == address then b else bytes a

unfoldable pub write_by_bytes : (ℕ → ℕ) → ℕ → List ℕ → ℕ → ℕ
write_by_bytes bytes address [] = bytes
write_by_bytes bytes address (b ∷ buf) =
    write_by_bytes (write_byte bytes address b) (address + 1) buf

-- The bytes of an array of PagePair, two little-endian uint32_t each.
unfoldable pub pair_bytes : List PagePair → List ℕ
pair_bytes [] = []
pair_bytes ((pgid, count) ∷ pairs) =
    (pgid % 2 ^ 8)
    ∷ (pgid / 2 ^ 8 % 2 ^ 8)
    ∷ (pgid / 2 ^ 16 % 2 ^ 8)
    ∷ (pgid / 2 ^ 24 % 2 ^ 8)
    ∷ (count % 2 ^ 8)
    ∷ (count / 2 ^ 8 % 2 ^ 8)
    ∷ (count / 2 ^ 16 % 2 ^ 8)
    ∷ (count / 2 ^ 24 % 2 ^ 8)
    ∷ pair_bytes pairs

unfoldable pub read_uint32_at : (ℕ → ℕ) → ℕ → ℕ
read_uint32_at bytes a =
    bytes a + bytes (a + 1) * 2 ^ 8 + bytes (a + 2) * 2 ^ 16 + bytes (a + 3) * 2 ^ 24

unfoldable pub read_pairs : (ℕ → ℕ) → ℕ → ℕ → List PagePair
unfolding read_uint32_at
read_pairs bytes a zero = []
read_pairs bytes a (suc n) =
    (read_uint32_at bytes a, read_uint32_at bytes (a + 4)) ∷ read_pairs bytes (a + 8) n

-- The pairs of the pending map, transaction after transaction.
unfoldable pub pending_pairs : StdMap (List PagePair) → List PagePair
pending_pairs [] = []
pending_pairs ((txid, pairs) ∷ pending) = pairs ++ pending_pairs pending

-- "Release the original free list".
free_old_list : Space → Space
free_old_list space = if space.meta.free_list_pgid == page_invalid_id then space else record space {
  pager =
      free space.pager space.meta.txid space.meta.free_list_pgid space.meta.free_list_page_count;
}

-- The number of pages for `bytes` bytes; the field is a uint32_t.
free_list_pages : ℕ → ℕ → ℕ
free_list_pages bytes page_size =
    if bytes % page_size == 0
    then (bytes / page_size) % u32_mod
    else ((bytes / page_size) % u32_mod + 1) % u32_mod

unfoldable pub write_free_list : ℕ → ℕ → Space → Space
unfolding pair_bytes write_by_bytes
write_free_list pgid page_count space =
    let pairs = space.pager.free_map ++ pending_pairs space.pager.pending_map in
    record space {
      meta = record space.meta {
        free_list_pgid = pgid;
        free_list_page_count = page_count;
        free_pair_count = length pairs % u32_mod;
      };
      file = record space.file {
        bytes = write_by_bytes space.file.bytes (get_ptr space.pager pgid 0) (pair_bytes pairs);
      };
    }

unfoldable pub save_free_list : Space → Result Space
unfolding free_old_list free_list_pages write_free_list pending_pairs
save_free_list space = do
  let freed = free_old_list space
  let pair_count =
      (length freed.pager.free_map + length (pending_pairs freed.pager.pending_map)) % u32_mod
  let page_count = free_list_pages (pair_count * 8) freed.pager.page_size
  (pgid, space') ← alloc freed page_count
  ok (write_free_list pgid page_count space')

-- The loop of LoadFreeList; entries of no pages are skipped.
unfoldable pub load_pairs : FreeMap → List PagePair → FreeMap
load_pairs m [] = m
load_pairs m ((pgid, count) ∷ pairs) =
    if count == 0 then load_pairs m pairs else load_pairs (free_to_map m pgid count) pairs

-- LoadFreeList, from the meta_struct of the database.
unfoldable pub load_free_list : Pager → MetaStruct → DbFile → Pager
unfolding load_pairs read_pairs
load_free_list pager meta file =
    if meta.free_list_pgid == page_invalid_id then pager else record pager {
      free_map =
          load_pairs pager.free_map
            (read_pairs file.bytes (get_ptr pager meta.free_list_pgid 0) meta.free_pair_count);
    }
