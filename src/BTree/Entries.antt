-- ===== src/BTree/Entries.antt =====
-- The records below a page of src/btree.cpp, and the path of src/btree_iterator.cpp that stands at the first of them.
use atomkv.Prelude.{
  ℕ, zero, suc, ◌+◌, ◌-◌, ◌≤◌, ◌<◌, ◌≡◌, refl, sym, ap, ap₂, subst, ◌∙◌, true, false, ◌==◌, arith,
  List, [], ◌∷◌, ◌++◌, length,
}
use mathlib.Core.List.{append_assoc, head-eq_of_cons-eq, tail-eq_of_cons-eq}
use atomkv.Format.{page_invalid_id}
use atomkv.Node.{is_leaf}
use atomkv.Branch.{get_left_child}
use atomkv.Stack.{set_at, front, pop_back, empty}
use atomkv.Stack.Contents.{
  contents, elements, elements_ext, set_at-at, set_at-ne, push_back-contents,
}
use atomkv.BTree.{TreeState, is_branch}
use atomkv.BTree.Ordered.{branch_not_leaf}
use atomkv.BTree.Iterator.{Iterator, k_iter, push, pop, set_front, set_slot_at, first_loop}

-- The first element and the others.
elements-split :
    (array : ℕ → ℕ × ℕ) (n : ℕ) (v : ℕ × ℕ) (vs : List (ℕ × ℕ))
    → elements array n ≡ v ∷ vs
    → (0 < n) × (array (n - 1) ≡ v) × (elements array (n - 1) ≡ vs)
unfolding elements
elements-split array zero v vs e = absurd (cc)
elements-split array (suc n) v vs e =
    let same : suc n - 1 ≡ n = omega arith in
    rw same (omega arith, head-eq_of_cons-eq e, tail-eq_of_cons-eq e)

pub length-elements : (array : ℕ → ℕ × ℕ) (n : ℕ) → length (elements array n) ≡ n
unfolding elements
length-elements array zero = refl
length-elements array (suc n) = ap suc (length-elements array n)

elements-set :
    (array : ℕ → ℕ × ℕ) (n m : ℕ) (w : ℕ × ℕ)
    → n ≡ suc m
    → elements (set_at array m w) n ≡ w ∷ elements array m
unfolding elements
elements-set array n m w e = rw e (
    ap₂ (λ (x : ℕ × ℕ) (xs : List (ℕ × ℕ)). x ∷ xs) (set_at-at array m w)
      (elements_ext (set_at array m w) array m (λ i lt. set_at-ne array m i w (omega arith))))

module _ (t : TreeState) where
  abbrev pub child_at : ℕ → ℕ → ℕ
  child_at p j = get_left_child (t.pages p) j

  -- The slots of a leaf, `n` from slot `i` on.
  unfoldable pub slots_from : ℕ → ℕ → ℕ → List (ℕ × ℕ)
  slots_from p i zero = []
  slots_from p i (suc n) = (p, i) ∷ slots_from p (i + 1) n

  -- `entries_of` for `n` children, from child `j` on.
  unfoldable pub children_from : (ℕ → List (ℕ × ℕ)) → ℕ → ℕ → ℕ → List (ℕ × ℕ)
  children_from entries_of p j zero = []
  children_from entries_of p j (suc n) =
      entries_of (child_at p j) ++ children_from entries_of p (j + 1) n

  -- The records below a page whose leaves are `h` pages down, in order.
  unfoldable pub entries : ℕ → ℕ → List (ℕ × ℕ)
  entries zero p = slots_from p 0 (t.pages p).count
  entries (suc h) p = children_from (entries h) p 0 ((t.pages p).count + 1)

  -- The leaves below the page are `h` pages down, and hold records.
  unfoldable pub IsFilled : ℕ → ℕ → Type 0
  IsFilled zero p = (is_leaf (t.pages p) ≡ true) × (0 < (t.pages p).count)
  IsFilled (suc h) p =
      (is_branch (t.pages p) ≡ true)
      × ((j : ℕ) → j ≤ (t.pages p).count → (child_at p j == page_invalid_id) ≡ false)
      × ((j : ℕ) → j ≤ (t.pages p).count → IsFilled h (child_at p j))

  -- What is below a page behind the slot.
  unfoldable pub behind : ℕ → ℕ × ℕ → List (ℕ × ℕ)
  behind zero (p, s) = slots_from p (s + 1) ((t.pages p).count - (s + 1))
  behind (suc h) (p, s) = children_from (entries h) p (s + 1) ((t.pages p).count - s)

  -- What is behind the path, from a page on whose leaves are `h` pages down.
  unfoldable pub rest : ℕ → List (ℕ × ℕ) → List (ℕ × ℕ)
  rest h [] = []
  rest h (v ∷ vs) = behind h v ++ rest (suc h) vs

  unfoldable pub OnPath : ℕ → List (ℕ × ℕ) → Type 0
  OnPath h [] = Unit
  OnPath h (v ∷ vs) = IsFilled h v.0 × OnPath (suc h) vs

  -- The iterator stands at the first of the records, and the others are behind it.
  pub record Stands (es : List (ℕ × ℕ)) (n : ℕ) (it : Iterator) : Type 0 where
    pub here : ℕ × ℕ
    pub above : List (ℕ × ℕ)
    pub status : it.status ≡ k_iter
    pub path : contents it.stack ≡ here ∷ above
    pub good : OnPath 0 (here ∷ above)
    pub ahead : es ≡ here ∷ rest 0 (here ∷ above)
    pub size : length (here ∷ above) ≡ n

  pub push-contents :
      (v : ℕ × ℕ) (it : Iterator) → contents (push v it).stack ≡ v ∷ contents it.stack
  unfolding push
  push-contents v it = (push_back-contents v it.stack).0

  -- What the first elements of the path are.
  module _ (it : Iterator) (v : ℕ × ℕ) (vs : List (ℕ × ℕ)) (e : contents it.stack ≡ v ∷ vs) where
    pub parts : (0 < it.stack.cur_pos) × (front it.stack ≡ v) × (contents (pop it).stack ≡ vs)
    unfolding front pop pop_back contents
    parts = elements-split it.stack.array it.stack.cur_pos v vs e

    pub set_front-contents : (w : ℕ × ℕ) → contents (set_front w it).stack ≡ w ∷ vs
    unfolding contents set_front set_slot_at pop pop_back
    set_front-contents w =
        elements-set it.stack.array it.stack.cur_pos (it.stack.cur_pos - 1) w
          (let b = parts.0 in omega arith)
        ∙ ap (λ (xs : List (ℕ × ℕ)). w ∷ xs) parts.2

  -- A path without elements is empty.
  pub empty-contents : (it : Iterator) → contents it.stack ≡ [] → empty it.stack ≡ true
  unfolding contents empty elements
  empty-contents it e = go it.stack.array it.stack.cur_pos e
    where
      go : (array : ℕ → ℕ × ℕ) (n : ℕ) → elements array n ≡ [] → (n == 0) ≡ true
      go array zero e = refl
      go array (suc n) e = absurd (cc)

  pub not_empty-contents :
      (it : Iterator) (v : ℕ × ℕ) (vs : List (ℕ × ℕ))
      → contents it.stack ≡ v ∷ vs
      → empty it.stack ≡ false
  unfolding empty
  not_empty-contents it v vs e = let h = (parts it v vs e).0 in ground arith

  pub Stands-cast :
      (es es' : List (ℕ × ℕ)) (n n' : ℕ) (it : Iterator)
      → es ≡ es'
      → n ≡ n'
      → Stands es n it
      → Stands es' n' it
  Stands-cast es es' n n' it e k s =
      subst (λ m. Stands es' m it) k (subst (λ xs. Stands xs n it) e s)

  pub length-push :
      (v : ℕ × ℕ) (vs : List (ℕ × ℕ)) (n : ℕ) → length vs ≡ n → length (v ∷ vs) ≡ n + 1
  length-push v vs n k = rw k (omega arith)

  pub slots_from-next :
      (p i c m : ℕ) → c ≡ suc m → slots_from p i c ≡ (p, i) ∷ slots_from p (i + 1) m
  unfolding slots_from
  slots_from-next p i c m e = rw e refl

  pub children_from-next :
      (entries_of : ℕ → List (ℕ × ℕ)) (p j c m : ℕ) (es : List (ℕ × ℕ))
      → c ≡ suc m
      → entries_of (child_at p j) ++ (children_from entries_of p (j + 1) m ++ es)
        ≡ children_from entries_of p j c ++ es
  unfolding children_from
  children_from-next entries_of p j c m es e =
      rw e
        (sym (append_assoc (entries_of (child_at p j)) (children_from entries_of p (j + 1) m) es))

  -- Behind the first child of a branch are the other ones.
  pub below_branch :
      (h p : ℕ) (vs : List (ℕ × ℕ))
      → entries h (child_at p 0) ++ rest (suc h) ((p, 0) ∷ vs)
        ≡ entries (suc h) p ++ rest (suc (suc h)) vs
  unfolding entries rest behind
  below_branch h p vs =
      children_from-next (entries h) p 0 ((t.pages p).count + 1) ((t.pages p).count - 0)
        (rest (suc (suc h)) vs) (omega arith)

  -- The loop of First, from a page on: it stands at the first record below.
  pub first_loop-Stands :
      (h p fuel n : ℕ) (it : Iterator) (vs : List (ℕ × ℕ))
      → IsFilled h p
      → h < fuel
      → it.status ≡ k_iter
      → contents it.stack ≡ vs
      → OnPath (suc h) vs
      → length vs ≡ n
      → Stands (entries h p ++ rest (suc h) vs) (n + h + 1) (first_loop fuel t p it)
  unfolding IsFilled entries OnPath first_loop push rest behind
  first_loop-Stands h p zero n it vs f lt st e g k = absurd (omega arith)
  first_loop-Stands zero p (suc fuel) n it vs f lt st e g k =
      let c : ((t.pages p).count == 0) ≡ false = let b = f.1 in ground arith in
      let f0 = f.0 in
      rw (first_loop, f0, c)
        (record {
          here = (p, 0);
          above = vs;
          status = st;
          path = push-contents (p, 0) it ∙ ap (λ (xs : List (ℕ × ℕ)). (p, 0) ∷ xs) e;
          good = (f, g);
          ahead =
              ap (λ (xs : List (ℕ × ℕ)). xs ++ rest 1 vs)
                (slots_from-next p 0 (t.pages p).count ((t.pages p).count - 1)
                  (let b = f.1 in omega arith));
          size = length-push (p, 0) vs n k ∙ omega arith;
        })
  first_loop-Stands (suc h) p (suc fuel) n it vs f lt st e g k =
      let l = branch_not_leaf (t.pages p).type f.0 in
      rw (first_loop, l)
        (Stands-cast _ _ _ _ _ (below_branch h p vs) (omega arith) (
          first_loop-Stands h (child_at p 0) fuel (n + 1) (push (p, 0) it) ((p, 0) ∷ vs)
            (f.2 0 (omega arith)) (omega arith) st
            (push-contents (p, 0) it ∙ ap (λ (xs : List (ℕ × ℕ)). (p, 0) ∷ xs) e) (f, g)
            (length-push (p, 0) vs n k)))
