-- ===== src/BTree/PathCopy.antt =====
-- CopyAllPagesByPath of src/btree_iterator.cpp: afterwards the open transaction may write every page of the path.
use atomkv.Prelude.{
  ℕ, zero, suc, ◌≤◌, ◌<◌, ◌≡◌, refl, sym, ap, subst, true, false, List, [], ◌∷◌, inl, inr,
  Bool-cases, ◌==◌, arith,
}
use native.Mathlib.Decide.{dec_lt}
use atomkv.Format.{page_invalid_id}
use atomkv.Result.{Result, ok, err}
use atomkv.Space.InUse.{InUse, Fits}
use atomkv.Node.{Node}
use atomkv.Branch as Branch
use atomkv.Branch.Keeps as BranchKeeps
use atomkv.Stack.{at_pos, empty}
use atomkv.BTree.{Bucket, TreeState, TreeExec, then_run, ◌>>=◌, ◌>>◌, return, read, is_branch, copy}
use atomkv.BTree.Iterator.{Iterator, set_slot_at, link_lower, copy_path, copy_all_pages_by_path}
use atomkv.BTree.Path.{path, pages_of}
use atomkv.BTree.Steps.{
  IsGood, MayWrite, Owned, Step, Step-refl, Step-trans, Runs, Runs-after, AllOwned, AllOwned-Step,
  Safe, plain, Safe-root, Safe-done, Safe-read_bind,
}
use atomkv.BTree.Writes.{Within, itself, Safe-run_node, Safe-copy}

-- The page at an element of the path.
abbrev pub page_at : Iterator → ℕ → ℕ
page_at it j = (it.stack.array j).0

-- The pages of the path are in use, and above a page that the transaction may write it may write every page.
pub record IsPath (bucket : Bucket) (t : TreeState) (it : Iterator) : Type 0 where
  pub in_use : (j : ℕ) → j < it.stack.cur_pos → InUse t.space (page_at it j)
  pub closed :
      (i j : ℕ)
      → i ≤ j
      → j < it.stack.cur_pos
      → Owned bucket t (page_at it j)
      → Owned bucket t (page_at it i)

module _ (bucket : Bucket) (own : bucket.copy_needed bucket.txid ≡ false) where
  abbrev OwnedFrom : TreeState → Iterator → ℕ → Type 0
  OwnedFrom t it i = (j : ℕ) → i ≤ j → j < it.stack.cur_pos → MayWrite bucket t (page_at it j)

  AllOwned-from :
      (t : TreeState) (array : ℕ → ℕ × ℕ) (n : ℕ)
      → ((j : ℕ) → j < n → MayWrite bucket t (array j).0)
      → AllOwned bucket (pages_of array n) t
  AllOwned-from t array zero h = tt
  AllOwned-from t array (suc n) h =
      (h n (omega arith), AllOwned-from t array n (λ j lt. h j (omega arith)))

  -- The value is an iterator with a path of the same length, over pages that the transaction may write.
  abbrev pub Leaves : ℕ → Iterator → TreeState → Type 0
  Leaves n it t = AllOwned bucket (path it) t × (it.stack.cur_pos ≡ n)

  abbrev Owns : {A : Type 0} → (A → List ℕ) → A → TreeState → Type 0
  Owns own_a a t = AllOwned bucket (own_a a) t

  return-Runs :
      (n : ℕ) (it : Iterator) (t t' : TreeState)
      → Step bucket t t'
      → Leaves n it t'
      → Runs bucket (Leaves n) t (return it t')
  unfolding return
  return-Runs n it t t' s l = (s, l)

  then-Runs :
      {A B : Type 0} (Q : A → TreeState → Type 0) (R : B → TreeState → Type 0) (t : TreeState)
      (r : Result A × TreeState) (k : A → TreeExec B)
      → Runs bucket Q t r
      → ((a : A) (t' : TreeState) → Step bucket t t' → Q a t' → Runs bucket R t' (k a t'))
      → Runs bucket R t (then_run r k)
  unfolding then_run
  then-Runs Q R t (ok a, t') k h f = Runs-after bucket R t t' (k a t') h.0 (f a t' h.0 h.1)
  then-Runs Q R t (err e, t') k h f = h

  -- A call, and then the rest, from a given state.
  pub bind-Runs_at :
      {A B : Type 0} (Q : A → TreeState → Type 0) (R : B → TreeState → Type 0) (t : TreeState)
      (m : TreeExec A) (k : A → TreeExec B)
      → Runs bucket Q t (m t)
      → ((a : A) (t' : TreeState) → Step bucket t t' → Q a t' → Runs bucket R t' (k a t'))
      → Runs bucket R t ((m >>= k) t)
  unfolding ◌>>=◌
  bind-Runs_at Q R t m k h f = then-Runs Q R t (m t) k h f

  -- Another property of the value.
  pub Runs-map :
      {A : Type 0} (Q R : A → TreeState → Type 0) (t : TreeState) (r : Result A × TreeState)
      → Runs bucket Q t r
      → ((a : A) (t' : TreeState) → Q a t' → R a t')
      → Runs bucket R t r
  Runs-map Q R t (ok a, t') h f = (h.0, f a t' h.1)
  Runs-map Q R t (err e, t') h f = h

  link_lower-Safe :
      {ps : List ℕ} (pgid slot_id lower_pgid : ℕ)
      → Within bucket ps pgid
      → Safe bucket ps (link_lower pgid slot_id lower_pgid) plain
  unfolding link_lower
  link_lower-Safe pgid slot_id lower_pgid w = Safe-read_bind bucket _ _ _ (λ n.
      elim (Bool-cases (is_branch n)) [
        | inl e ↦ rw e (
            Safe-run_node bucket pgid (Branch.set_left_child slot_id lower_pgid) w
              (BranchKeeps.set_left_child-txid slot_id lower_pgid))
        | inr e ↦ rw e (Safe-done bucket)
      ])

  module _ (t0 : TreeState) (it0 : Iterator) (v : IsPath bucket t0 it0) where
    -- What holds when the loop comes to the elements below `i`.
    record Inv (i : ℕ) (it : Iterator) (t : TreeState) : Type 0 where
      bound : i ≤ it0.stack.cur_pos
      good : IsGood t
      step : Step bucket t0 t
      length : it.stack.cur_pos ≡ it0.stack.cur_pos
      before : (j : ℕ) → j < i → page_at it j ≡ page_at it0 j
      after : OwnedFrom t it i

    -- A page of the path that the transaction may write now, it could write at the start.
    Owned-before :
        (i : ℕ) (it : Iterator) (t : TreeState)
        → Inv (suc i) it t
        → Fits t.space
        → Owned bucket t (page_at it i)
        → Owned bucket t0 (page_at it0 i)
    Owned-before i it t inv fits o =
        let p = page_at it0 i in
        let b = inv.bound in
        let o' : Owned bucket t p = subst (Owned bucket t) (inv.before i (omega arith)) o in
        elim (Bool-cases (bucket.copy_needed (t0.pages p).last_modified_txid)) [
          | inl e ↦ absurd (
              let k = inv.step.kept fits p (e, v.in_use i (omega arith)) in
              let e' = ap (λ (n : Node). bucket.copy_needed n.last_modified_txid) k in
              cc (e, e', o'))
          | inr e ↦ e
        ]

    AllOwned-now :
        (i : ℕ) (it : Iterator) (t : TreeState)
        → Inv (suc i) it t
        → Owned bucket t (page_at it i)
        → AllOwned bucket (path it) t
    AllOwned-now i it t inv o =
        let b = inv.bound in
        AllOwned-from t it.stack.array it.stack.cur_pos (λ j lt. elim (dec_lt j (suc i)) [
          | yes below ↦ subst (MayWrite bucket t) (sym (inv.before j below)) (λ fits.
              let o0 = Owned-before i it t inv fits o in
              inv.step.owned (page_at it0 j) (λ _. v.closed j i (omega arith) (omega arith) o0)
                fits)
          | no above ↦ inv.after j (omega arith) lt
        ])

    Inv-copied :
        (i new_pgid slot_id : ℕ) (it : Iterator) (t t' : TreeState)
        → Inv (suc i) it t
        → Step bucket t t'
        → MayWrite bucket t' new_pgid
        → Inv i (set_slot_at i (new_pgid, slot_id) it) t'
    unfolding set_slot_at
    Inv-copied i new_pgid slot_id it t t' inv s o = record {
      bound = let b = inv.bound in omega arith;
      good = s.good;
      step = Step-trans bucket t0 t t' inv.step s;
      length = inv.length;
      before = λ j lt.
          let ne : (j == i) ≡ false = ground arith in rw (page_at, ne) (inv.before j (omega arith));
      after = λ j ge lt. elim (Bool-cases (j == i)) [
        | inl e ↦ rw (page_at, e) o
        | inr e ↦ rw (page_at, e) (s.owned (page_at it j) (inv.after j (ground arith) lt))
      ];
    }

    -- One round of the loop.
    abbrev round : ℕ → ℕ → Iterator → Node → TreeExec Iterator
    round i lower_pgid it n = elim (bucket.copy_needed n.last_modified_txid) [
      | false ↦ link_lower (page_at it i) (it.stack.array i).1 lower_pgid >> return it
      | true ↦ copy bucket (page_at it i) >>= (λ new_pgid.
          link_lower new_pgid (it.stack.array i).1 lower_pgid
          >> copy_path i bucket new_pgid (set_slot_at i (new_pgid, (it.stack.array i).1) it))
    ]

    copy_path-suc :
        (i lower_pgid : ℕ) (it : Iterator) (t : TreeState)
        → copy_path (suc i) bucket lower_pgid it t
          ≡ round i lower_pgid it (t.pages (page_at it i)) t
    unfolding copy_path at_pos ◌>>=◌ read then_run
    copy_path-suc i lower_pgid it t = refl

    abbrev pub Ends : TreeState → Result Iterator × TreeState → Type 0
    Ends = Runs bucket (Leaves it0.stack.cur_pos)

    copy_path-Runs :
        (i lower_pgid : ℕ) (it : Iterator) (t : TreeState)
        → Inv i it t
        → Ends t (copy_path i bucket lower_pgid it t)
    unfolding copy_path ◌>>◌
    copy_path-Runs zero lower_pgid it t inv =
        bind-Runs_at (Owns plain) (Leaves it0.stack.cur_pos) t _ _
          ((Safe-root bucket {ps = []} lower_pgid).runs t inv.good tt)
          (λ _ t1 s1 _. return-Runs it0.stack.cur_pos it t1 t1 (Step-refl bucket t1 s1.good) (
            AllOwned-Step bucket (path it) t t1 s1 (
                AllOwned-from t it.stack.array it.stack.cur_pos
                  (λ j lt. inv.after j (omega arith) lt)),
            inv.length,
          ))
    copy_path-Runs (suc i) lower_pgid it t inv =
        let pgid = page_at it i in
        let slot_id = (it.stack.array i).1 in
        subst (Ends t) (sym (copy_path-suc i lower_pgid it t))
          (elim (Bool-cases (bucket.copy_needed (t.pages (page_at it i)).last_modified_txid)) [
            | inl e ↦
                rw (round, e)
                  (bind-Runs_at (Owns itself) (Leaves it0.stack.cur_pos) t _ _
                    ((Safe-copy bucket own {ps = []} pgid).runs t inv.good tt)
                    (λ new_pgid t1 s1 o1.
                      bind-Runs_at (Owns plain) (Leaves it0.stack.cur_pos) t1 _ _
                        ((link_lower-Safe {ps = new_pgid ∷ []} new_pgid slot_id lower_pgid
                            (λ t' o. o.0)).runs
                          t1 s1.good o1)
                        (λ _ t2 s2 o2.
                          copy_path-Runs i new_pgid (set_slot_at i (new_pgid, slot_id) it) t2 (
                            Inv-copied i new_pgid slot_id it t t2 inv
                              (Step-trans bucket t t1 t2 s1 s2) (s2.owned new_pgid o1.0)))))
            | inr e ↦
                rw (round, e)
                  (bind-Runs_at (Owns plain) (Leaves it0.stack.cur_pos) t _ _
                    ((link_lower-Safe {ps = pgid ∷ []} pgid slot_id lower_pgid (λ t' o. o.0)).runs t
                      inv.good ((λ fits. e), tt))
                    (λ _ t1 s1 o1.
                      return-Runs it0.stack.cur_pos it t1 t1 (Step-refl bucket t1 s1.good) (
                        AllOwned-Step bucket (path it) t t1 s1 (AllOwned-now i it t inv e),
                        inv.length,
                      )))
          ])

    -- Every page of the path is one that the transaction may write, and no shared page has changed.
    pub copy_all-Ends : IsGood t0 → Ends t0 (copy_all_pages_by_path bucket it0 t0)
    unfolding copy_all_pages_by_path empty
    copy_all-Ends w = elim (Bool-cases (empty it0.stack)) [
      | inl e ↦ rw e (
          return-Runs it0.stack.cur_pos it0 t0 t0 (Step-refl bucket t0 w) (
            AllOwned-from t0 it0.stack.array it0.stack.cur_pos (λ j lt. absurd (ground arith)),
            refl,
          ))
      | inr e ↦ rw e (
          copy_path-Runs it0.stack.cur_pos page_invalid_id it0 t0 (record {
            bound = omega arith;
            good = w;
            step = Step-refl bucket t0 w;
            length = refl;
            before = λ j lt. refl;
            after = λ j ge lt. absurd (omega arith);
          }))
    ]
