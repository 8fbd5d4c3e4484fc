-- ===== src/BTree/Walk.antt =====
-- BTree::begin of src/btree.cpp and BTreeIterator::Next of src/btree_iterator.cpp: the records in order.
use atomkv.Prelude.{
  ℕ, zero, suc, ◌+◌, ◌≤◌, ◌<◌, ◌≡◌, refl, sym, ap, ◌∙◌, true, false, inl, inr, ◌==◌, arith, List,
  [], ◌∷◌, length,
}
use mathlib.Core.List.{append-nil}
use atomkv.Format.{page_invalid_id}
use atomkv.Stack.{front}
use atomkv.Stack.Contents.{contents}
use atomkv.BTree.{TreeState}
use atomkv.BTree.Iterator.{Iterator, equals, next, begin, end, max_rounds}
use atomkv.BTree.Entries.{
  length-elements, entries, IsFilled, rest, OnPath, empty-contents, not_empty-contents, parts,
}
use atomkv.BTree.Rounds.{Goes, first-Goes, Moves, next_loop-Moves}

-- for (auto& iter : btree): the slots the iterator stands at, from `it` on.
unfoldable pub visits : ℕ → TreeState → Iterator → List (ℕ × ℕ)
unfolding equals next front
visits zero t it = []
visits (suc fuel) t it = elim (equals it end) [
  | true ↦ []
  | false ↦ front it.stack ∷ visits fuel t (next t it)
]

module _ (t : TreeState) where
  visits-Goes :
      (fuel n : ℕ) (it : Iterator) (es : List (ℕ × ℕ))
      → Goes t es n it
      → n ≤ max_rounds
      → length es < fuel
      → visits fuel t it ≡ es
  unfolding Goes visits equals next Moves contents
  visits-Goes zero n it es g le l = absurd (omega arith)
  visits-Goes (suc fuel) n it es (inl e) le l = rw (visits, empty-contents t it e.0) (sym e.1)
  visits-Goes (suc fuel) n it es (inr s) le l =
      let busy = not_empty-contents t it s.here s.above s.path in
      let status = s.status in
      let f = (parts t it s.here s.above s.path).1 in
      let all = length-elements it.stack.array it.stack.cur_pos in
      let path = ap (λ (xs : List (ℕ × ℕ)). length xs) s.path in
      let size = s.size in
      let shorter = ap (λ (xs : List (ℕ × ℕ)). length xs) s.ahead in
      let moved =
        next_loop-Moves t it.stack.cur_pos 0 n it s.here s.above s.path s.good status (omega arith)
          le (omega arith) in
      rw (visits, busy, status)
        (rw f (
          ap (λ (xs : List (ℕ × ℕ)). s.here ∷ xs)
            (visits-Goes fuel n (next t it) (rest t 0 (s.here ∷ s.above)) moved le (omega arith))
          ∙ sym s.ahead))

  -- In a tree whose leaves are at most 31 pages below the root and hold records: the loop from begin by Next to end
  -- visits every record of the leaves, from the first leaf to the last and in the order of their slots, and ends.
  pub visits-entries :
      (h fuel : ℕ)
      → (t.root_pgid == page_invalid_id) ≡ false
      → IsFilled t h t.root_pgid
      → h < 32
      → length (entries t h t.root_pgid) < fuel
      → visits fuel t (begin t) ≡ entries t h t.root_pgid
  unfolding begin contents OnPath rest
  visits-entries h fuel valid f lt l =
      visits-Goes fuel (h + 1) (begin t) (entries t h t.root_pgid)
        (first-Goes t h t.root_pgid (h + 1) end [] (entries t h t.root_pgid) f (omega arith) valid
          refl tt (omega arith) (append-nil (entries t h t.root_pgid)))
        (omega arith) l
