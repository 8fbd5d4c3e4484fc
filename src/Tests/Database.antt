-- ===== src/Tests/Database.antt =====
-- Alloc, Remmap and the free list of src/pager.cpp and src/db_impl.cpp on a small database.
use atomkv.Prelude.{◌+◌, ◌*◌, ◌≤◌, ◌<◌, ◌≡◌, ◌++◌, refl, List, [], arith, length}
use atomkv.Format.{MetaStruct, page_invalid_id, u32_mod}
use atomkv.Result.{ok}
use atomkv.StdMap.{lower_bound, prev, last, insert}
use atomkv.Pager.{PagePair, Pager, alloc_from_map, first_fit, is_defined, free_to_map}
use atomkv.Pager.Covers.{covers}
use atomkv.Pager.Release.{AreFreeable, AddsAll}
use atomkv.Space.{Space, remmap, alloc, write_free_list, load_free_list, pending_pairs}
use atomkv.Space.Remmap.{remmap_bounds}
use atomkv.Space.Alloc.{IsSpace, AllocReturns, alloc-Allocated, alloc_beyond_4GiB}
use atomkv.Space.FreeList.{load_free_list-write_free_list}
use atomkv.Tests.Allocator.{pager, pager-IsFreeMap}

abbrev pub meta : MetaStruct
meta = record {
  sign = 0x61746f6d;
  page_size = 4096;
  min_version = 1;
  page_count = 40;
  user_root = 2;
  free_list_pgid = 0xffffffff;
  free_pair_count = 0;
  free_list_page_count = 0;
  txid = 9;
  crc32 = 0;
}

abbrev pub space : Space
space = record {
  pager = pager;
  meta = meta;
  file = record { bytes = λ a. 0; size = 262144; pending_mmaps = 0 };
}

space-IsSpace : IsSpace space
unfolding covers
space-IsSpace = record {
  well_formed = pager-IsFreeMap;
  below = λ p h. ground arith;
  page = omega arith;
  mapped = omega arith;
  small = omega arith;
}

alloc-Allocated_example : AllocReturns space 30 (alloc space 30)
alloc-Allocated_example = alloc-Allocated space 30 space-IsSpace (omega arith) (omega arith)

remmap_bounds_example :
    (300000 ≤ (remmap space.file 300000).size)
    × ((remmap space.file 300000).size ≤ 300000 + 300000)
    × ((remmap space.file 300000).pending_mmaps ≡ space.file.pending_mmaps + 1)
remmap_bounds_example = remmap_bounds space.file 300000 (omega arith)

-- 4 GiB less one page are in use, and the mapping has 1 GiB.
abbrev huge : Space
huge = record space {
  pager = record pager { free_map = [] };
  meta = record meta { page_count = 1048575 };
  file = record space.file { size = 1073741824 };
}

huge_full : alloc_from_map huge.pager 3 ≡ (page_invalid_id, huge.pager)
unfolding alloc_from_map first_fit
huge_full = refl

alloc_beyond_4GiB_example :
    (s' : Space) × (alloc huge 3 ≡ ok (huge.meta.page_count, s'))
    × (s'.file ≡ huge.file)
    × (s'.file.size < s'.meta.page_count * s'.pager.page_size)
alloc_beyond_4GiB_example =
    alloc_beyond_4GiB huge 3 huge_full refl (omega arith) (omega arith) (omega arith) (omega arith)

abbrev blocks : List PagePair
blocks = space.pager.free_map ++ pending_pairs space.pager.pending_map

blocks_few : length blocks < u32_mod
unfolding pending_pairs
blocks_few = omega arith

blocks-AreFreeable : AreFreeable blocks []
unfolding pending_pairs covers is_defined lower_bound prev free_to_map last insert
blocks-AreFreeable = (
  (
    omega arith,
    omega arith,
    λ p h1 h2. refl,
    λ p h1 h2. ground arith,
    (
      omega arith,
      omega arith,
      λ p h1 h2. refl,
      λ p h1 h2. ground arith,
      (
        omega arith,
        omega arith,
        λ p h1 h2. refl,
        λ p h1 h2. ground arith,
        (omega arith, omega arith, λ p h1 h2. refl, λ p h1 h2. refl, tt),
      ),
    ),
  ),
  (refl, (refl, (refl, (refl, tt)))),
)

abbrev new_pager : Pager
new_pager = record { page_size = 4096; pending_map = []; free_map = []; alloc_records = [] }

load_free_list-write_free_list_example :
    AddsAll blocks []
      (load_free_list new_pager
        (write_free_list 35 1 space).meta
        (write_free_list 35 1 space).file).free_map
load_free_list-write_free_list_example =
    load_free_list-write_free_list space 35 1 new_pager (omega arith) blocks_few blocks-AreFreeable
      refl refl
