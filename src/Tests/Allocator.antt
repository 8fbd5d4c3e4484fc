-- ===== src/Tests/Allocator.antt =====
-- The page allocator of src/pager.cpp on a small free map.
use atomkv.Prelude.{◌+◌, ◌≡◌, refl, true, List, [], ◌∷◌, arith}
use atomkv.StdMap.{find, lower_bound, erase, prev, insert, IsSortedFrom}
use atomkv.Pager.{
  FreeMap, Pager, is_defined, free_to_map, alloc_from_map, first_fit, free, release, rollback,
  get_ptr, get_page_id_by_ptr,
}
use atomkv.Pager.Covers.{covers, IsFreeMap, IsApart}
use atomkv.Pager.FreeToMap.{Adds, free_to_map-Adds}
use atomkv.Pager.AllocFromMap.{Allocates, alloc_from_map-Allocates}
use atomkv.Pager.Release.{AreFreeable, released, Releases, AreDefined, release-Releases}
use atomkv.Pager.Rollback.{
  PagerCall, allocs, frees, call, run_calls, IsFresh, Restores, rollback-run_calls,
}
use atomkv.Pager.Address.{get_page_id_by_ptr-get_ptr, get_ptr_aliases}

abbrev free_map : FreeMap
free_map = (10, 2) ∷ (20, 5) ∷ []

abbrev pub pager : Pager
pager = record {
  page_size = 4096;
  pending_map = (3, (12, 3) ∷ []) ∷ (7, (30, 1) ∷ []) ∷ [];
  free_map = free_map;
  alloc_records = [];
}

pub pager-IsFreeMap : IsFreeMap 0 pager.free_map
pager-IsFreeMap = ground arith

-- Pages 15 to 19 join the block behind them.
merges : free_to_map free_map 15 5 ≡ (10, 2) ∷ (15, 10) ∷ []
unfolding free_to_map find lower_bound erase prev insert
merges = refl

apart : IsApart 12 3 free_map
unfolding covers
apart p h1 h2 = ground arith

defined : is_defined free_map 12 3 ≡ true
unfolding is_defined lower_bound prev
defined = refl

free_to_map-Adds_example : Adds 12 3 free_map (free_to_map free_map 12 3)
free_to_map-Adds_example =
    free_to_map-Adds free_map 12 3 (omega arith) (omega arith) pager-IsFreeMap apart defined

alloc_from_map-Allocates_example : Allocates 3 pager (alloc_from_map pager 3)
alloc_from_map-Allocates_example = alloc_from_map-Allocates pager 3 pager-IsFreeMap (omega arith)

freeable : AreFreeable (released 5 pager.pending_map) pager.free_map
unfolding covers released is_defined lower_bound prev
freeable =
    ((omega arith, omega arith, (λ p h1 h2. ground arith), (λ p h1 h2. refl), tt), (refl, tt))

pending_sorted : IsSortedFrom 0 pager.pending_map
pending_sorted = ground arith

release-Releases_example : Releases 5 pager (release pager 5)
release-Releases_example = release-Releases pager 5 pager-IsFreeMap pending_sorted freeable

fresh : IsFresh 9 pager
unfolding find
fresh = record {
  well_formed = pager-IsFreeMap;
  no_records = refl;
  sorted = pending_sorted;
  nothing_freed = refl;
}

abbrev calls : List PagerCall
calls = allocs 4 ∷ frees 40 2 ∷ allocs 30 ∷ frees 50 1 ∷ []

returned : AreDefined (run_calls 9 pager calls).alloc_records (run_calls 9 pager calls).free_map
unfolding call run_calls is_defined lower_bound prev alloc_from_map first_fit free insert erase
returned = (refl, tt)

rollback-run_calls_example : Restores pager (rollback (run_calls 9 pager calls) 9)
rollback-run_calls_example = rollback-run_calls 9 pager calls fresh (ground arith) returned

get_page_id_by_ptr-get_ptr_example : get_page_id_by_ptr pager (get_ptr pager 7 100) ≡ 7
get_page_id_by_ptr-get_ptr_example =
    get_page_id_by_ptr-get_ptr pager 7 100 (omega arith) (omega arith) (omega arith)

get_ptr_aliases_example : get_ptr pager (5 + 1048576) 16 ≡ get_ptr pager 5 16
get_ptr_aliases_example = get_ptr_aliases pager 5 16 refl
