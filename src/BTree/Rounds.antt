-- ===== src/BTree/Rounds.antt =====
-- BTreeIterator::Next of src/btree_iterator.cpp: the loop comes to the next record.
use atomkv.Prelude.{
  ℕ, zero, suc, ◌+◌, ◌-◌, ◌≤◌, ◌<◌, ◌≡◌, refl, sym, ap, ◌∙◌, true, false, inl, inr, Bool-cases,
  ◌==◌, ◌&&◌, arith, ltb, List, [], ◌∷◌, ◌++◌, length,
}
use mathlib.Core.Logic.{◌⊎◌}
use atomkv.Format.{page_invalid_id}
use atomkv.Node.{is_leaf}
use atomkv.Branch.{get_left_child}
use atomkv.Stack.{front, empty}
use atomkv.Stack.Contents.{contents}
use atomkv.BTree.{TreeState, is_branch}
use atomkv.BTree.Ordered.{branch_not_leaf, leaf_not_branch}
use atomkv.BTree.Iterator.{
  Iterator, k_iter, pop, set_front, set_slot_at, first, next_round, next_loop, max_rounds,
}
use atomkv.BTree.Entries.{
  child_at, slots_from, children_from, entries, IsFilled, behind, rest, OnPath, empty-contents,
  not_empty-contents, Stands-cast, length-push, slots_from-next, children_from-next,
  first_loop-Stands, Stands, parts, set_front-contents,
}

module _ (t : TreeState) where
  -- It stands at the first of the records, or they have come to an end.
  unfoldable pub Goes : List (ℕ × ℕ) → ℕ → Iterator → Type 0
  Goes es n it = ((contents it.stack ≡ []) × (es ≡ [])) ⊎ Stands t es n it

  pub first-Goes :
      (h p n : ℕ) (it : Iterator) (vs es : List (ℕ × ℕ))
      → IsFilled t h p
      → h < max_rounds
      → (p == page_invalid_id) ≡ false
      → contents it.stack ≡ vs
      → OnPath t (suc h) vs
      → length vs + suc h ≡ n
      → entries t h p ++ rest t (suc h) vs ≡ es
      → Goes es n (first t p it)
  unfolding first Goes
  first-Goes h p n it vs es f lt valid e g k same =
      rw (first, valid)
        (inr (
          Stands-cast t _ _ _ _ _ same (k' k) (
            first_loop-Stands t h p max_rounds (length vs) (record it { status = k_iter }) vs f lt
              refl e g refl)))
    where
      k' : length vs + suc h ≡ n → length vs + h + 1 ≡ n
      k' k = omega arith

  -- `n` is the length of a path from the root to a leaf, of which `fuel` rounds can pop the elements.
  unfoldable pub Moves : ℕ → Type 0
  Moves fuel =
      (h n : ℕ) (it : Iterator) (v : ℕ × ℕ) (vs : List (ℕ × ℕ))
      → contents it.stack ≡ v ∷ vs
      → OnPath t h (v ∷ vs)
      → it.status ≡ k_iter
      → length vs + suc h ≡ n
      → n ≤ max_rounds
      → length vs < fuel
      → Goes (rest t h (v ∷ vs)) n (next_loop fuel t it)

  up :
      (fuel h n : ℕ) (it : Iterator) (vs : List (ℕ × ℕ))
      → Moves fuel
      → contents it.stack ≡ vs
      → OnPath t h vs
      → it.status ≡ k_iter
      → length vs + h ≡ n
      → n ≤ max_rounds
      → length vs ≤ fuel
      → Goes (rest t h vs) n (elim (empty it.stack) [ true ↦ it | false ↦ next_loop fuel t it ])
  unfolding rest Goes Moves
  up fuel h n it [] m e g st k le l = rw (empty-contents t it e) (inl (e, refl))
  up fuel h n it (v ∷ vs) m e g st k le l =
      rw (not_empty-contents t it v vs e) (m h n it v vs e g st (omega arith) le (omega arith))

  -- A round of the loop of Next, at slot `s` of page `p`.
  module _ (fuel p s : ℕ) (it : Iterator) (q : front it.stack ≡ (p, s)) where
    round : next_loop (suc fuel) t it ≡ next_round t (next_loop fuel t) (p, s) it
    unfolding next_loop
    round = rw q refl

    tail : (s + 1 == (t.pages p).count) ≡ true → child_at t p (s + 1) ≡ (t.pages p).tail_child
    unfolding get_left_child
    tail l = rw l refl

    round-next_slot :
        ltb (s + 1) (t.pages p).count ≡ true
        → is_leaf (t.pages p) ≡ true
        → next_loop (suc fuel) t it ≡ set_front (p, s + 1) it
    unfolding next_round
    round-next_slot c l = round ∙ rw (next_round, c, l) refl

    round-next_child :
        ltb (s + 1) (t.pages p).count ≡ true
        → is_leaf (t.pages p) ≡ false
        → next_loop (suc fuel) t it ≡ first t (child_at t p (s + 1)) (set_front (p, s + 1) it)
    unfolding next_round
    round-next_child c l = round ∙ rw (next_round, c, l) refl

    round-tail_child :
        ltb (s + 1) (t.pages p).count ≡ false
        → is_branch (t.pages p) ≡ true
        → (s + 1 == (t.pages p).count) ≡ true
        → next_loop (suc fuel) t it ≡ first t (child_at t p (s + 1)) (set_front (p, s + 1) it)
    unfolding next_round
    round-tail_child c b l =
        let it1 = set_front (p, s + 1) it in
        let r : next_round t (next_loop fuel t) (p, s) it ≡ first t (t.pages p).tail_child it1 =
          rw (next_round, c, b, l) refl in
        round ∙ r ∙ ap (λ (child : ℕ). first t child it1) (sym (tail l))

    round-up :
        ltb (s + 1) (t.pages p).count ≡ false
        → (is_branch (t.pages p) && (s + 1 == (t.pages p).count)) ≡ false
        → (it2 : Iterator) → pop (set_front (p, s + 1) it) ≡ it2
        → next_loop (suc fuel) t it
          ≡ elim (empty it2.stack) [ true ↦ it2 | false ↦ next_loop fuel t it2 ]
    unfolding next_round
    round-up c b it2 e =
        round
        ∙ rw (next_round, c, b)
            (ap (λ (i : Iterator). elim (empty i.stack) [ true ↦ i | false ↦ next_loop fuel t i ])
              e)

  step_up :
      (fuel h n p s : ℕ) (it : Iterator) (vs es : List (ℕ × ℕ))
      → Moves fuel
      → contents it.stack ≡ (p, s) ∷ vs
      → OnPath t h ((p, s) ∷ vs)
      → it.status ≡ k_iter
      → length vs + suc h ≡ n
      → n ≤ max_rounds
      → length vs < suc fuel
      → ltb (s + 1) (t.pages p).count ≡ false
      → (is_branch (t.pages p) && (s + 1 == (t.pages p).count)) ≡ false
      → es ≡ rest t (suc h) vs
      → Goes es n (next_loop (suc fuel) t it)
  unfolding OnPath pop set_front set_slot_at
  step_up fuel h n p s it vs es m e g st k le l c b same =
      let it1 = set_front (p, s + 1) it in
      let e1 = (parts t it1 (p, s + 1) vs (set_front-contents t it (p, s) vs e (p, s + 1))).2 in
      rw (round-up fuel p s it (parts t it (p, s) vs e).1 c b (pop it1) refl, same)
        (up fuel (suc h) n (pop it1) vs m e1 g.1 st k le (omega arith))

  step_leaf :
      (fuel n p s : ℕ) (it : Iterator) (vs : List (ℕ × ℕ))
      → Moves fuel
      → contents it.stack ≡ (p, s) ∷ vs
      → OnPath t 0 ((p, s) ∷ vs)
      → it.status ≡ k_iter
      → length vs + 1 ≡ n
      → n ≤ max_rounds
      → length vs < suc fuel
      → Goes (rest t 0 ((p, s) ∷ vs)) n (next_loop (suc fuel) t it)
  unfolding OnPath IsFilled rest behind Goes set_front set_slot_at slots_from
  step_leaf fuel n p s it vs m e g st k le l =
      let q = (parts t it (p, s) vs e).1 in
      let f = g.0.0 in
      let count = (t.pages p).count in
      elim (Bool-cases (ltb (s + 1) count)) [
        | inl lt ↦ rw (round-next_slot fuel p s it q lt f) (
            inr (record {
              here = (p, s + 1);
              above = vs;
              status = st;
              path = set_front-contents t it (p, s) vs e (p, s + 1);
              good = g;
              ahead =
                  ap (λ (xs : List (ℕ × ℕ)). xs ++ rest t 1 vs)
                    (slots_from-next t p (s + 1) (count - (s + 1)) (count - (s + 1 + 1))
                      (ground arith));
              size = length-push t (p, s) vs (length vs) refl ∙ k;
            }))
        | inr ge ↦
            let none : count - (s + 1) ≡ 0 = ground arith in
            step_up fuel 0 n p s it vs (rest t 0 ((p, s) ∷ vs)) m e g st k le l ge
              (rw (leaf_not_branch (t.pages p).type f) refl)
              (ap (λ (k : ℕ). slots_from t p (s + 1) k ++ rest t 1 vs) none)
      ]

  step_branch :
      (fuel h n p s : ℕ) (it : Iterator) (vs : List (ℕ × ℕ))
      → Moves fuel
      → contents it.stack ≡ (p, s) ∷ vs
      → OnPath t (suc h) ((p, s) ∷ vs)
      → it.status ≡ k_iter
      → length vs + suc (suc h) ≡ n
      → n ≤ max_rounds
      → length vs < suc fuel
      → Goes (rest t (suc h) ((p, s) ∷ vs)) n (next_loop (suc fuel) t it)
  unfolding OnPath IsFilled rest behind children_from
  step_branch fuel h n p s it vs m e g st k le l =
      let q = (parts t it (p, s) vs e).1 in
      let f = g.0 in
      let count = (t.pages p).count in
      let it1 = set_front (p, s + 1) it in
      let go_down : s + 1 ≤ count
          → Goes (rest t (suc h) ((p, s) ∷ vs)) n (first t (child_at t p (s + 1)) it1) =
        λ lt.
          first-Goes h (child_at t p (s + 1)) n it1 ((p, s + 1) ∷ vs) (rest t (suc h) ((p, s) ∷ vs))
            (f.2 (s + 1) lt) (omega arith) (f.1 (s + 1) lt)
            (set_front-contents t it (p, s) vs e (p, s + 1)) g (omega arith)
            (children_from-next t (entries t h) p (s + 1) (count - s) (count - (s + 1))
              (rest t (suc (suc h)) vs) (omega arith)) in
      elim (Bool-cases (ltb (s + 1) count)) [
        | inl lt ↦
            rw (round-next_child fuel p s it q lt (branch_not_leaf (t.pages p).type f.0))
              (go_down (ground arith))
        | inr ge ↦ elim (Bool-cases (s + 1 == count)) [
          | inl last ↦ rw (round-tail_child fuel p s it q ge f.0 last) (go_down (ground arith))
          | inr past ↦
              let none : count - s ≡ 0 = ground arith in
              step_up fuel (suc h) n p s it vs (rest t (suc h) ((p, s) ∷ vs)) m e g st k le l ge
                (let b = f.0 in rw (b, past) refl)
                (ap
                  (λ (k : ℕ). children_from t (entries t h) p (s + 1) k ++ rest t (suc (suc h)) vs)
                  none)
        ]
      ]

  -- Next goes on, whatever the path is.
  pub next_loop-Moves : (fuel : ℕ) → Moves fuel
  unfolding Moves
  next_loop-Moves zero = λ h n it v vs e g st k le l. absurd (omega arith)
  next_loop-Moves (suc fuel) = λ h n it v vs e g st k le l.
      elim h
          as (λ h'.
            OnPath t h' (v ∷ vs)
            → length vs + suc h' ≡ n
            → Goes (rest t h' (v ∷ vs)) n (next_loop (suc fuel) t it)) [
              | zero ↦
                  λ g' k'. step_leaf fuel n v.0 v.1 it vs (next_loop-Moves fuel) e g' st k' le l
              | suc h' ↦ λ g' k'.
                  step_branch fuel h' n v.0 v.1 it vs (next_loop-Moves fuel) e g' st k' le l
            ]
        g k
