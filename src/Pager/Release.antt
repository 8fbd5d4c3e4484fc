-- ===== src/Pager/Release.antt =====
-- Release and Rollback of src/pager.cpp: which pages come back to the free map.
use atomkv.Prelude.{
  true, ℕ, suc, ◌+◌, ◌≤◌, ◌<◌, ◌≡◌, refl, ◌||◌, List, [], ◌∷◌, ◌++◌, none, arith, leb,
  if◌then◌else◌,
}
use atomkv.StdMap.{StdMap, find, IsSortedFrom}
use atomkv.StdMap.Lookup.{find_below}
use atomkv.Format.{page_invalid_id}
use atomkv.Pager.{
  PagePair, FreeMap, Pager, free_to_map, free_all, is_defined, release_loop, release,
}
use atomkv.Pager.Covers.{covers, IsFreeMap, IsApart}
use atomkv.Pager.FreeToMap.{Adds, free_to_map-Adds}

pub covers-append :
    (xs ys : List PagePair) (p : ℕ) → covers (xs ++ ys) p ≡ (covers xs p || covers ys p)
unfolding covers
covers-append [] ys p = refl
covers-append ((k, c) ∷ xs) ys p = ground (arith, covers-append xs ys p)

-- Blocks that are valid, not empty, and apart from the free map and from each other.
abbrev pub AreApart : List PagePair → FreeMap → Type 0
AreApart [] m = Unit
AreApart ((k, c) ∷ pairs) m =
    (0 < c) × (k + c ≤ page_invalid_id) × IsApart k c m × IsApart k c pairs × AreApart pairs m

-- FreeToMap is defined for each block in turn.
abbrev pub AreDefined : List PagePair → FreeMap → Type 0
AreDefined [] m = Unit
AreDefined ((k, c) ∷ pairs) m = (is_defined m k c ≡ true) × AreDefined pairs (free_to_map m k c)

-- Blocks that can go to the free map one after the other.
abbrev pub AreFreeable : List PagePair → FreeMap → Type 0
AreFreeable pairs m = AreApart pairs m × AreDefined pairs m

AreApart-Adds :
    (k c : ℕ) (pairs : List PagePair) (m m' : FreeMap)
    → Adds k c m m'
    → IsApart k c pairs
    → AreApart pairs m
    → AreApart pairs m'
unfolding covers
AreApart-Adds k c [] m m' a f r = tt
AreApart-Adds k c ((i, d) ∷ pairs) m m' a f r = (
  r.0,
  r.1,
  λ p h1 h2. ground (arith, a.pages p, r.2 p h1 h2, f p),
  r.3,
  AreApart-Adds k c pairs m m' a (λ p h1 h2. ground (arith, f p h1 h2)) r.4,
)

-- `m'` is a well-formed free map that covers the blocks and the pages of `m`, and no others.
pub record AddsAll (pairs : List PagePair) (m m' : FreeMap) : Type 0 where
  pub well_formed : IsFreeMap 0 m'
  pub pages : (p : ℕ) → covers m' p ≡ (covers pairs p || covers m p)

pub free_all-AddsAll :
    (pairs : List PagePair) (m : FreeMap)
    → IsFreeMap 0 m
    → AreFreeable pairs m
    → AddsAll pairs m (free_all m pairs)
unfolding free_all covers
free_all-AddsAll [] m w r = record { well_formed = w; pages = λ p. refl }
free_all-AddsAll ((k, c) ∷ pairs) m w r =
    let a = free_to_map-Adds m k c r.0.0 r.0.1 w r.0.2 r.1.0 in
    let rest =
      free_all-AddsAll pairs (free_to_map m k c) a.well_formed
        (AreApart-Adds k c pairs m (free_to_map m k c) a r.0.3 r.0.4, r.1.1) in
    record { well_formed = rest.well_formed; pages = λ p. ground (arith, rest.pages p, a.pages p) }

free_all-append :
    (m : FreeMap) (xs ys : List PagePair) → free_all m (xs ++ ys) ≡ free_all (free_all m xs) ys
unfolding free_all
free_all-append m [] ys = refl
free_all-append m ((k, c) ∷ xs) ys = free_all-append (free_to_map m k c) xs ys

-- The blocks that transactions before `releasable_txid` have freed.
unfoldable pub released : ℕ → StdMap (List PagePair) → List PagePair
released releasable_txid [] = []
released releasable_txid ((txid, pairs) ∷ pending) =
    if leb releasable_txid txid
    then released releasable_txid pending
    else pairs ++ released releasable_txid pending

released_none :
    (t lo : ℕ) (pending : StdMap (List PagePair))
    → IsSortedFrom lo pending
    → t ≤ lo
    → released t pending ≡ []
unfolding released
released_none t lo [] s h = refl
released_none t lo ((txid, pairs) ∷ pending) s h =
    ground (arith, released_none t (suc txid) pending s.1)

release_loop-free_map :
    (t lo : ℕ) (pending : StdMap (List PagePair)) (m : FreeMap)
    → IsSortedFrom lo pending
    → (release_loop t pending m).1 ≡ free_all m (released t pending)
unfolding release_loop released free_all
release_loop-free_map t lo [] m s = refl
release_loop-free_map t lo ((txid, pairs) ∷ pending) m s = ground (
  arith,
  free_all-append m pairs (released t pending),
  release_loop-free_map t (suc txid) pending (free_all m pairs) s.1,
  released_none t (suc txid) pending s.1,
)

release_loop-find :
    (t lo i : ℕ) (pending : StdMap (List PagePair)) (m : FreeMap)
    → IsSortedFrom lo pending
    → find i (release_loop t pending m).0 ≡ (if leb t i then find i pending else none)
unfolding release_loop find
release_loop-find t lo i [] m s = ground arith
release_loop-find t lo i ((txid, pairs) ∷ pending) m s = ground (
  arith,
  release_loop-find t (suc txid) i pending (free_all m pairs) s.1,
  find_below (suc txid) i pending s.1,
)

-- What Release leaves: the free map gets the blocks freed before `releasable_txid`, and no others.
pub record Releases (t : ℕ) (pager pager' : Pager) : Type 0 where
  pub freed : AddsAll (released t pager.pending_map) pager.free_map pager'.free_map
  pub kept :
      (i : ℕ) → find i pager'.pending_map ≡ (if leb t i then find i pager.pending_map else none)
  pub cleared : pager'.alloc_records ≡ []

-- Release, where the free map is well-formed, the pending map is in order, and the blocks to be released are valid, apart
-- from the free map and from each other, and FreeToMap is defined for each in turn: exactly the blocks that
-- transactions before `releasable_txid` freed join the free pages, in a well-formed free map; the entries of the other transactions stay, those
-- of the released ones are gone; and the allocation records are empty.
pub release-Releases :
    (pager : Pager) (releasable_txid : ℕ)
    → IsFreeMap 0 pager.free_map
    → IsSortedFrom 0 pager.pending_map
    → AreFreeable (released releasable_txid pager.pending_map) pager.free_map
    → Releases releasable_txid pager (release pager releasable_txid)
unfolding release
release-Releases pager t w s r = record {
  freed =
      rw (release_loop-free_map t 0 pager.pending_map pager.free_map s)
        (free_all-AddsAll (released t pager.pending_map) pager.free_map w r);
  kept = λ i. release_loop-find t 0 i pager.pending_map pager.free_map s;
  cleared = refl;
}
