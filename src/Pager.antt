-- ===== src/Pager.antt =====
-- src/pager.h and src/pager.cpp: the page allocator. `free_map_` and `pending_map_` are maps from
-- StdMap.antt; the debug-only set of free pages is left out. The calls that also need the open
-- update transaction and the mapped file stand in Space.antt.
pub mod Covers
pub mod FreeToMap
pub mod AllocFromMap
pub mod Release
pub mod Rollback
pub mod Address
use atomkv.Prelude.{
  ℕ, ◌+◌, ◌-◌, ◌*◌, ◌/◌, ◌%◌, Bool, true, false, List, [], ◌∷◌, ◌++◌, Option, none, some, ltb, leb,
  ◌==◌, if◌then◌else◌,
}
use atomkv.StdMap.{StdMap, find, lower_bound, prev, last, erase, insert, assign}
use atomkv.Format.{u32_mod, page_invalid_id}

-- std::pair<PageId, PageCount>
abbrev pub PagePair : Type 0
PagePair = ℕ × ℕ

abbrev pub FreeMap : Type 0
FreeMap = StdMap ℕ

pub record Pager : Type 0 where
  pub page_size : ℕ
  pub pending_map : StdMap (List PagePair)
  pub free_map : FreeMap
  pub alloc_records : List PagePair

-- The tail of FreeToMap, with `tmp_iter` at the block in front, if that was found.
unfoldable pub merge_with_previous : FreeMap → Option PagePair → ℕ → ℕ → FreeMap
merge_with_previous m none pgid count = insert pgid count m
merge_with_previous m (some (first, second)) pgid count =
    if (first + second) % u32_mod == pgid
    then assign first ((second + count) % u32_mod) m
    else insert pgid count m

-- Stands for a map of which nothing can be said, as the behaviour of the program is undefined. A statement about
-- FreeToMap excludes the case by `is_defined`, or is false in it.
abbrev pub undefined_map : FreeMap
undefined_map = []

-- erase(tmp_iter--) at the block behind, with `tmp_iter` decremented, on the map without that block. If the block is the
-- first one of the map, the decrement is undefined.
unfoldable pub merge_with_next : FreeMap → Option PagePair → ℕ → ℕ → FreeMap
unfolding merge_with_previous
merge_with_next m none pgid count = undefined_map
merge_with_next m (some tmp_iter) pgid count = merge_with_previous m (some tmp_iter) pgid count

free_at : FreeMap → Option PagePair → ℕ → ℕ → FreeMap
unfolding merge_with_previous merge_with_next
free_at m none pgid count = merge_with_previous m (last m) pgid count
free_at m (some (first, second)) pgid count =
    if first == (pgid + count) % u32_mod
    then merge_with_next (erase first m) (prev first m) pgid ((count + second) % u32_mod)
    else merge_with_previous m (some (first, second)) pgid count

unfoldable pub free_to_map : FreeMap → ℕ → ℕ → FreeMap
unfolding free_at
free_to_map m pgid count = free_at m (lower_bound pgid m) pgid count

-- FreeToMap does not decrement begin(): the block is not directly in front of the first block of the map.
abbrev pub exists : Option PagePair → Bool
exists none = false
exists (some tmp_iter) = true

unfoldable pub is_defined_at : FreeMap → Option PagePair → ℕ → ℕ → Bool
is_defined_at m none pgid count = true
is_defined_at m (some (first, second)) pgid count =
    if first == (pgid + count) % u32_mod then exists (prev first m) else true

unfoldable pub is_defined : FreeMap → ℕ → ℕ → Bool
unfolding is_defined_at
is_defined m pgid count = is_defined_at m (lower_bound pgid m) pgid count

-- The loop of AllocFromMap: the first entry that is large enough.
unfoldable pub first_fit : ℕ → FreeMap → Option PagePair
first_fit count [] = none
first_fit count ((pgid, free_count) ∷ m) =
    if ltb free_count count then first_fit count m else some (pgid, free_count)

-- What is left of the free map once `count` pages are cut from the front of the entry.
unfoldable pub take_front : FreeMap → ℕ → ℕ → ℕ → FreeMap
take_front m pgid free_count count =
    if ltb count free_count
    then insert ((pgid + count) % u32_mod) (free_count - count) (erase pgid m)
    else erase pgid m

alloc_at : Pager → Option PagePair → ℕ → ℕ × Pager
unfolding take_front
alloc_at pager none count = (page_invalid_id, pager)
alloc_at pager (some (pgid, free_count)) count = (
  pgid,
  record pager {
    free_map = take_front pager.free_map pgid free_count count;
    alloc_records = pager.alloc_records ++ (pgid, count) ∷ [];
  },
)

unfoldable pub alloc_from_map : Pager → ℕ → ℕ × Pager
unfolding alloc_at
alloc_from_map pager count = alloc_at pager (first_fit count pager.free_map) count

-- for (auto& [pgid, count] : pairs) FreeToMap(pgid, count);
unfoldable pub free_all : FreeMap → List PagePair → FreeMap
free_all m [] = m
free_all m ((pgid, count) ∷ pairs) = free_all (free_to_map m pgid count) pairs

-- Free: `txid` is that of the update transaction.
free_pending :
    StdMap (List PagePair) → ℕ → Option (List PagePair) → PagePair → StdMap (List PagePair)
free_pending pending txid none pair = insert txid (pair ∷ []) pending
free_pending pending txid (some pairs) pair = assign txid (pairs ++ pair ∷ []) pending

unfoldable pub free : Pager → ℕ → ℕ → ℕ → Pager
unfolding free_pending
free pager txid free_pgid free_count = record pager {
  pending_map =
      free_pending pager.pending_map txid (find txid pager.pending_map) (free_pgid, free_count);
}

-- Rollback: `txid` is that of the update transaction.
unfoldable pub rollback : Pager → ℕ → Pager
rollback pager txid = record pager {
  pending_map = erase txid pager.pending_map;
  free_map = free_all pager.free_map pager.alloc_records;
  alloc_records = [];
}

-- The loop of Release, from the first pending transaction on.
unfoldable pub release_loop :
    ℕ → StdMap (List PagePair) → FreeMap → StdMap (List PagePair) × FreeMap
release_loop releasable_txid [] m = ([], m)
release_loop releasable_txid ((txid, pairs) ∷ pending) m =
    let rest = release_loop releasable_txid pending (free_all m pairs) in
    if leb releasable_txid txid then ((txid, pairs) ∷ pending, m) else rest

unfoldable pub release : Pager → ℕ → Pager
unfolding release_loop
release pager releasable_txid =
    let (pending, m) = release_loop releasable_txid pager.pending_map pager.free_map in
    record pager { pending_map = pending; free_map = m; alloc_records = [] }

unfoldable pub get_page_count : Pager → ℕ → ℕ
get_page_count pager bytes =
    if bytes % pager.page_size == 0
    then (bytes / pager.page_size) % u32_mod
    else ((bytes / pager.page_size) % u32_mod + 1) % u32_mod

-- GetPtr, as an offset from the start of the mapping. `pgid * page_size_` is a product of
-- uint32_t, and wraps; the sum with `offset` is a pointer sum.
unfoldable pub get_ptr : Pager → ℕ → ℕ → ℕ
get_ptr pager pgid offset = (pgid * pager.page_size) % u32_mod + offset

unfoldable pub get_page_id_by_ptr : Pager → ℕ → ℕ
get_page_id_by_ptr pager ptr = (ptr / pager.page_size) % u32_mod
