-- ===== src/BTree/Search.antt =====
-- BTree::LowerBound and BTree::Get of src/btree.cpp: the loop ends, and finds the key if the tree has it.
use atomkv.Prelude.{
  ℕ, zero, suc, ◌+◌, ◌≤◌, ◌<◌, ◌≡◌, refl, sym, ap, subst, ◌∙◌, Bool, true, false, inl, inr,
  Bool-cases, ◌==◌, arith, ltb,
}
use atomkv.Format.{page_invalid_id}
use atomkv.Comparator.{Key}
use atomkv.Node.{is_leaf, lower_bound as lower_bound_in}
use atomkv.Stack.{front, empty}
use atomkv.BTree.{Bucket, TreeState, node_at, is_branch}
use atomkv.BTree.Descent.{slot_of-le, lower_bound_in-InBounds}
use atomkv.BTree.Iterator.{Iterator, slot_of, down, descend, lower_bound, end, is_eq, get}
use atomkv.BTree.Ordered.{
  Finds, branch_not_leaf, child_at, IsOfHeight, IsSearchTree, place, into, into-front, into-cur_pos,
  leaf-Finds, branch-Finds,
}

module _ (bucket : Bucket) (key : Key) (t : TreeState) where
  -- The loop ends at the iterator, whose path is `n` pages long.
  pub record Ends (n : ℕ) (it : Iterator) : Type 0 where
    pub stops : (down bucket key t it).0 ≡ false
    pub length : it.stack.cur_pos ≡ n

  down_at_leaf :
      (it : Iterator)
      → empty it.stack ≡ false
      → is_leaf (t.pages (front it.stack).0) ≡ true
      → down bucket key t it ≡ (false, it)
  unfolding down
  down_at_leaf it e l = rw (e, l) refl

  down_at_branch :
      (it : Iterator)
      → empty it.stack ≡ false
      → is_leaf (t.pages (front it.stack).0) ≡ false
      → down bucket key t it
        ≡ (true, into bucket key t (child_at bucket key t (front it.stack).0 (front it.stack).1) it)
  unfolding down into
  down_at_branch it e l = rw (e, l) refl

  into-empty : (p : ℕ) (it : Iterator) → empty (into bucket key t p it).stack ≡ false
  unfolding empty
  into-empty p it = rw (into-cur_pos bucket key t p it) (ground arith)

  down_leaf :
      (p : ℕ) (it : Iterator)
      → is_leaf (t.pages p) ≡ true
      → down bucket key t (into bucket key t p it) ≡ (false, into bucket key t p it)
  down_leaf p it l =
      down_at_leaf (into bucket key t p it) (into-empty p it)
        (ap (λ (v : ℕ × ℕ). is_leaf (t.pages v.0)) (into-front bucket key t p it) ∙ l)

  down_branch :
      (p : ℕ) (it : Iterator)
      → is_branch (t.pages p) ≡ true
      → down bucket key t (into bucket key t p it) ≡ (
        true,
        into bucket key t
            (child_at bucket key t p (slot_of (t.pages p) (place bucket key t p)))
            (into bucket key t p it),
      )
  down_branch p it b =
      down_at_branch (into bucket key t p it) (into-empty p it) (
        ap (λ (v : ℕ × ℕ). is_leaf (t.pages v.0)) (into-front bucket key t p it)
        ∙ branch_not_leaf (t.pages p).type b)
      ∙ ap
          (λ (v : ℕ × ℕ).
            (true, into bucket key t (child_at bucket key t v.0 v.1) (into bucket key t p it)))
          (into-front bucket key t p it)

  descend_ends :
      (fuel : ℕ) (it it' : Iterator)
      → down bucket key t it ≡ (false, it')
      → descend (suc fuel) bucket key t it ≡ it'
  unfolding descend
  descend_ends fuel it it' e =
      rw (descend, ap (λ (r : Bool × Iterator). r.0) e) (ap (λ (r : Bool × Iterator). r.1) e)

  descend_goes_on :
      (fuel : ℕ) (it it' : Iterator)
      → down bucket key t it ≡ (true, it')
      → descend (suc fuel) bucket key t it ≡ descend fuel bucket key t it'
  unfolding descend
  descend_goes_on fuel it it' e =
      rw (descend, ap (λ (r : Bool × Iterator). r.0) e)
        (ap (λ (r : Bool × Iterator). descend fuel bucket key t r.1) e)

  place-le : (p : ℕ) → slot_of (t.pages p) (place bucket key t p) ≤ (t.pages p).count
  place-le p = elim (Bool-cases (ltb 0 (t.pages p).count)) [
    | inl e ↦ rw e (
        slot_of-le (t.pages p) (lower_bound_in bucket.comparator (node_at t p) key)
          (lower_bound_in-InBounds bucket.comparator (node_at t p) key))
    | inr e ↦ rw e (omega arith)
  ]

  -- From a page on.
  Result : ℕ → ℕ → ℕ → Iterator → Type 0
  Result h p n it =
      Ends (n + h + 1) it × (IsSearchTree bucket key t h p → Finds bucket key t h p it)

  descend_from :
      (h p fuel n : ℕ) (it : Iterator)
      → IsOfHeight bucket key t h p
      → h < fuel
      → it.stack.cur_pos ≡ n
      → Result h p n (descend fuel bucket key t (into bucket key t p it))
  unfolding Result IsOfHeight IsSearchTree
  descend_from h p zero n it v lt e = absurd (omega arith)
  descend_from zero p (suc fuel) n it v lt e =
      let d = down_leaf p it v in
      subst (Result zero p n)
        (sym (descend_ends fuel (into bucket key t p it) (into bucket key t p it) d))
        (
          record {
            stops = ap (λ (r : Bool × Iterator). r.0) d;
            length = into-cur_pos bucket key t p it ∙ omega arith;
          },
          λ s. leaf-Finds bucket key t p it v s,
        )
  descend_from (suc h) p (suc fuel) n it v lt e =
      let slot = slot_of (t.pages p) (place bucket key t p) in
      let le : slot ≤ (t.pages p).count = place-le p in
      let rest =
        descend_from h (child_at bucket key t p slot) fuel (n + 1) (into bucket key t p it)
          (v.1 slot le) (omega arith) (into-cur_pos bucket key t p it ∙ ap (λ k. k + 1) e) in
      subst (Result (suc h) p n)
        (sym (descend_goes_on fuel (into bucket key t p it) _ (down_branch p it v.0)))
        (
          record { stops = rest.0.stops; length = rest.0.length ∙ omega arith },
          λ s. branch-Finds bucket key t h p _ v.0 s le (rest.1 (s.2 slot le)),
        )

  module _ (h : ℕ) (valid : (t.root_pgid == page_invalid_id) ≡ false)
      (v : IsOfHeight bucket key t h t.root_pgid) (fits : h < 32) where
    start : down bucket key t end ≡ (true, into bucket key t t.root_pgid end)
    unfolding down into empty
    start = rw valid refl

    lower_bound_from : Result h t.root_pgid 0 (lower_bound bucket key t)
    unfolding lower_bound
    lower_bound_from =
        subst (Result h t.root_pgid 0)
          (sym (descend_goes_on 32 end (into bucket key t t.root_pgid end) start))
          (descend_from h t.root_pgid 32 0 end v fits refl)

    -- In a tree whose leaves are at most 31 pages below the root, the loop of LowerBound ends before the rounds do, and
    -- its path, a page for each level, fits the array of 32 elements.
    pub lower_bound-Ends : Ends (h + 1) (lower_bound bucket key t)
    unfolding Result
    lower_bound-Ends =
        let r = lower_bound_from in record { stops = r.0.stops; length = r.0.length ∙ omega arith }

    lower_bound-Finds :
        IsSearchTree bucket key t h t.root_pgid
        → Finds bucket key t h t.root_pgid (lower_bound bucket key t)
    unfolding Result
    lower_bound-Finds = lower_bound_from.1

    -- Get in such a tree, in order as the comparator sees it from the key: the status is kEq exactly if the tree has a
    -- record with the key, and the iterator then stands at one; otherwise it is the end.
    pub get-Finds :
        IsSearchTree bucket key t h t.root_pgid
        → Finds bucket key t h t.root_pgid (get bucket key t)
          × (is_eq (get bucket key t).status ≡ false → get bucket key t ≡ end)
    unfolding get
    get-Finds s =
        let f = lower_bound-Finds s in
        elim (Bool-cases (is_eq (lower_bound bucket key t).status)) [
          | inl e ↦ rw (get, e) (f, λ n. absurd (cc (e, n)))
          | inr e ↦
              rw (get, e) (record { found = λ n. absurd (cc); missed = λ n. f.missed e }, λ n. refl)
        ]
