-- ===== src/Pager/Rollback.antt =====
-- A write transaction's calls of the page allocator of src/pager.cpp, and Rollback after them.
use atomkv.Prelude.{
  ℕ, ◌+◌, ◌≤◌, ◌<◌, ◌≡◌, refl, ◌∙◌, inl, inr, ◌||◌, List, [], ◌∷◌, ◌++◌, Option, none, some, arith,
  ◌==◌, if◌then◌else◌,
}
use atomkv.StdMap.{StdMap, find, IsSortedFrom}
use atomkv.StdMap.Lookup.{
  find-insert, find-assign, find-erase, insert-IsSortedFrom, assign-IsSortedFrom,
}
use atomkv.Format.{page_invalid_id}
use atomkv.Pager.{PagePair, FreeMap, Pager, alloc_from_map, free_pending, free, rollback}
use atomkv.Pager.Covers.{covers, IsFreeMap}
use atomkv.Pager.AllocFromMap.{Removes, Allocates, alloc_from_map-Allocates}
use atomkv.Pager.Release.{covers-append, AreApart, AreDefined, free_all-AddsAll}

-- What a transaction asks of the pager: pages from the free map, or to free a block.
pub data PagerCall : Type 0 where
  allocs : ℕ → PagerCall
  frees : ℕ → ℕ → PagerCall

abbrev pub IsCall : PagerCall → Type 0
IsCall (allocs count) = 0 < count
IsCall (frees pgid count) = Unit

abbrev pub AreCalls : List PagerCall → Type 0
AreCalls [] = Unit
AreCalls (c ∷ cs) = IsCall c × AreCalls cs

unfoldable pub call : ℕ → Pager → PagerCall → Pager
call txid pager (allocs count) = (alloc_from_map pager count).1
call txid pager (frees pgid count) = free pager txid pgid count

unfoldable pub run_calls : ℕ → Pager → List PagerCall → Pager
unfolding call
run_calls txid pager [] = pager
run_calls txid pager (c ∷ cs) = run_calls txid (call txid pager c) cs

-- The records and the free map of `pager` together are the free pages of `start`, and the pending
-- maps differ at most at the transaction.
pub record Since (txid : ℕ) (start pager : Pager) : Type 0 where
  pub well_formed : IsFreeMap 0 pager.free_map
  pub freeable : AreApart pager.alloc_records pager.free_map
  pub pages :
      (p : ℕ) → (covers pager.alloc_records p || covers pager.free_map p) ≡ covers start.free_map p
  pub sorted : IsSortedFrom 0 pager.pending_map
  pub others :
      (i : ℕ)
      → (if txid == i then none else find i pager.pending_map)
        ≡ (if txid == i then none else find i start.pending_map)

AreApart-append :
    (k c : ℕ) (records : List PagePair) (m m' : FreeMap)
    → 0 < c
    → k + c ≤ page_invalid_id
    → Removes k c m m'
    → AreApart records m
    → AreApart (records ++ (k, c) ∷ []) m'
unfolding covers
AreApart-append k c [] m m' hc hl a r =
    (hc, hl, λ p h1 h2. ground (arith, a.pages p), λ p h1 h2. refl, tt)
AreApart-append k c ((i, d) ∷ records) m m' hc hl a r = (
  r.0,
  r.1,
  λ p h1 h2. ground (arith, a.pages p, r.2 p h1 h2),
  λ p h1 h2.
      ground (arith, covers-append records ((k, c) ∷ []) p, r.2 p h1 h2, r.3 p h1 h2, a.owned p),
  AreApart-append k c records m m' hc hl a r.4,
)

alloc-Since :
    (txid count : ℕ) (start pager : Pager) (r : ℕ × Pager)
    → 0 < count
    → Since txid start pager
    → Allocates count pager r
    → Since txid start r.1
unfolding covers
alloc-Since txid count start pager r hc s (inl (_, e)) = rw e s
alloc-Since txid count start pager r hc s (inr (m, e, bound, a)) = rw e (record {
  well_formed = a.well_formed;
  freeable = AreApart-append r.0 count pager.alloc_records pager.free_map m hc bound a s.freeable;
  pages = λ p. ground (
    arith,
    covers-append pager.alloc_records ((r.0, count) ∷ []) p,
    s.pages p,
    a.pages p,
    a.owned p,
  );
  sorted = s.sorted;
  others = s.others;
})

find-free_pending :
    (pending : StdMap (List PagePair)) (txid i : ℕ) (o : Option (List PagePair)) (pair : PagePair)
    → find txid pending ≡ o
    → (if txid == i then none else find i (free_pending pending txid o pair))
      ≡ (if txid == i then none else find i pending)
unfolding free_pending
find-free_pending pending txid i none pair e =
    ground (arith, find-insert txid i (pair ∷ []) pending e)
find-free_pending pending txid i (some pairs) pair e =
    ground (arith, find-assign txid i (pairs ++ pair ∷ []) pairs pending e)

free_pending-IsSortedFrom :
    (pending : StdMap (List PagePair)) (txid : ℕ) (o : Option (List PagePair)) (pair : PagePair)
    → IsSortedFrom 0 pending
    → IsSortedFrom 0 (free_pending pending txid o pair)
unfolding free_pending
free_pending-IsSortedFrom pending txid none pair s =
    insert-IsSortedFrom 0 txid (pair ∷ []) pending (omega arith) s
free_pending-IsSortedFrom pending txid (some pairs) pair s =
    assign-IsSortedFrom 0 txid (pairs ++ pair ∷ []) pending s

call-Since :
    (txid : ℕ) (start pager : Pager) (c : PagerCall)
    → IsCall c
    → Since txid start pager
    → Since txid start (call txid pager c)
unfolding call free
call-Since txid start pager (allocs count) h s =
    alloc-Since txid count start pager _ h s (alloc_from_map-Allocates pager count s.well_formed h)
call-Since txid start pager (frees pgid count) h s = record {
  well_formed = s.well_formed;
  freeable = s.freeable;
  pages = s.pages;
  sorted = free_pending-IsSortedFrom pager.pending_map txid _ (pgid, count) s.sorted;
  others = λ i.
      find-free_pending pager.pending_map txid i (find txid pager.pending_map) (pgid, count) refl
      ∙ s.others i;
}

run_calls-Since :
    (txid : ℕ) (start pager : Pager) (cs : List PagerCall)
    → AreCalls cs
    → Since txid start pager
    → Since txid start (run_calls txid pager cs)
unfolding run_calls
run_calls-Since txid start pager [] h s = s
run_calls-Since txid start pager (c ∷ cs) h s =
    run_calls-Since txid start (call txid pager c) cs h.1 (call-Since txid start pager c h.0 s)

-- The allocator as Update leaves it for a transaction that has freed nothing yet.
pub record IsFresh (txid : ℕ) (pager : Pager) : Type 0 where
  pub well_formed : IsFreeMap 0 pager.free_map
  pub no_records : pager.alloc_records ≡ []
  pub sorted : IsSortedFrom 0 pager.pending_map
  pub nothing_freed : find txid pager.pending_map ≡ none

-- The free pages and the pending blocks are those of `start`.
pub record Restores (start pager : Pager) : Type 0 where
  pub well_formed : IsFreeMap 0 pager.free_map
  pub no_records : pager.alloc_records ≡ []
  pub pages : (p : ℕ) → covers pager.free_map p ≡ covers start.free_map p
  pub pending : (i : ℕ) → find i pager.pending_map ≡ find i start.pending_map

Since-IsFresh : (txid : ℕ) (start : Pager) → IsFresh txid start → Since txid start start
unfolding covers
Since-IsFresh txid start v = record {
  well_formed = v.well_formed;
  freeable = rw v.no_records tt;
  pages = λ p. rw v.no_records refl;
  sorted = v.sorted;
  others = λ i. refl;
}

rollback-Restores :
    (txid : ℕ) (start pager : Pager)
    → find txid start.pending_map ≡ none
    → Since txid start pager
    → AreDefined pager.alloc_records pager.free_map
    → Restores start (rollback pager txid)
unfolding rollback
rollback-Restores txid start pager e s d =
    let back = free_all-AddsAll pager.alloc_records pager.free_map s.well_formed (s.freeable, d) in
    record {
      well_formed = back.well_formed;
      no_records = refl;
      pages = λ p. back.pages p ∙ s.pages p;
      pending = λ i. ground (arith, find-erase 0 txid i pager.pending_map s.sorted, s.others i, e);
    }

-- Whatever a transaction has allocated from the free map and freed, in any number and order of
-- calls (each allocation of one page or more), where FreeToMap is defined for each allocated block in turn as
-- Rollback puts it back: Rollback brings back the free pages and the pending
-- blocks of its start, in a well-formed free map and with no allocation records.
pub rollback-run_calls :
    (txid : ℕ) (start : Pager) (cs : List PagerCall)
    → IsFresh txid start
    → AreCalls cs
    → AreDefined (run_calls txid start cs).alloc_records (run_calls txid start cs).free_map
    → Restores start (rollback (run_calls txid start cs) txid)
rollback-run_calls txid start cs v h d =
    rollback-Restores txid start (run_calls txid start cs) v.nothing_freed
      (run_calls-Since txid start start cs h (Since-IsFresh txid start v)) d
