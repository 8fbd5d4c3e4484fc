-- ===== src/Node/LowerBound.antt =====
-- The binary search of Node::LowerBound in src/node.cpp.
use atomkv.Prelude.{
  ℕ, zero, suc, ◌+◌, ◌-◌, ◌/◌, ◌≤◌, ◌<◌, ◌≡◌, ◌≢◌, refl, sym, subst, ◌⊎◌, inl, inr, Bool, true,
  false, Ordering, arith, ◌==◌,
}
use atomkv.Comparator.{Key}
use atomkv.Node.{NodeState, get_key, lower_bound_loop, lower_bound}

-- `comp i` says how element `i` of `n` compares with what is searched for. Elements in front of a
-- `less` one are less, those behind a `greater` one greater.
pub record IsAscending (n : ℕ) (comp : ℕ → Ordering) : Type 0 where
  pub less : (i j : ℕ) → i ≤ j → j < n → comp j ≡ Ordering.lt → comp i ≡ Ordering.lt
  pub greater : (i j : ℕ) → i ≤ j → j < n → comp i ≡ Ordering.gt → comp j ≡ Ordering.gt

-- `pos` is the number of the elements that are less, and `eq` whether the element there is equal.
pub record IsLowerBound (n : ℕ) (comp : ℕ → Ordering) (pos : ℕ) (eq : Bool) : Type 0 where
  pub bound : pos ≤ n
  pub before : (i : ℕ) → i < pos → comp i ≡ Ordering.lt
  pub after : (i : ℕ) → pos ≤ i → i < n → comp i ≢ Ordering.lt
  pub found : eq ≡ true → (pos < n) × (comp pos ≡ Ordering.eq)
  pub missed : eq ≡ false → pos < n → comp pos ≢ Ordering.eq

-- What the loop keeps: the elements in front of `pos` are less, those from `pos + len` on are not, and
-- the flag tells of the element at `pos + len`.
record Inv (n : ℕ) (comp : ℕ → Ordering) (pos len : ℕ) (eq : Bool) : Type 0 where
  bound : pos + len ≤ n
  before : (i : ℕ) → i < pos → comp i ≡ Ordering.lt
  after : (i : ℕ) → pos + len ≤ i → i < n → comp i ≢ Ordering.lt
  found : eq ≡ true → (pos + len < n) × (comp (pos + len) ≡ Ordering.eq)
  missed : eq ≡ false → pos + len < n → comp (pos + len) ≢ Ordering.eq

abbrev after_test : Ordering → Bool → Bool
after_test Ordering.lt eq = eq
after_test Ordering.eq eq = true
after_test Ordering.gt eq = eq

pub Ordering-cases : (o : Ordering) → (o ≡ Ordering.lt) ⊎ ((o ≡ Ordering.eq) ⊎ (o ≡ Ordering.gt))
Ordering-cases Ordering.lt = inl refl
Ordering-cases Ordering.eq = inr (inl refl)
Ordering-cases Ordering.gt = inr (inr refl)

nonzero : (len : ℕ) → (suc len == 0) ≡ false
nonzero len = ground arith

module _ (n : ℕ) (comp : ℕ → Ordering) (v : IsAscending n comp) where
  at_end : (a b : ℕ) (o : Ordering) → comp a ≡ o → a ≡ b → comp b ≡ o
  at_end a b o h e = subst (λ x. comp x ≡ o) e h

  Inv-right :
      (pos len half : ℕ) (eq : Bool)
      → half < len
      → comp (pos + half) ≡ Ordering.lt
      → Inv n comp pos len eq
      → Inv n comp (pos + half + 1) (len - half - 1) eq
  Inv-right pos len half eq h e inv =
      let same : pos + half + 1 + (len - half - 1) ≡ pos + len = omega arith in
      record {
        bound = rw same inv.bound;
        before = λ i hi. v.less i (pos + half) (omega arith) (let b = inv.bound in omega arith) e;
        after = λ i h1 h2. inv.after i (omega arith) h2;
        found = λ t. rw same (inv.found t);
        missed = λ f. rw same (inv.missed f);
      }

  Inv-left :
      (pos len half : ℕ) (eq eq' : Bool)
      → half < len
      → comp (pos + half) ≢ Ordering.lt
      → (eq' ≡ true → comp (pos + half) ≡ Ordering.eq)
      → (eq' ≡ false → comp (pos + half) ≢ Ordering.eq)
      → Inv n comp pos len eq
      → Inv n comp pos half eq'
  Inv-left pos len half eq eq' h e ht hf inv = record {
    bound = let b = inv.bound in omega arith;
    before = inv.before;
    after = λ i h1 h2 t. e (v.less (pos + half) i h1 h2 t);
    found = λ t. let b = inv.bound in (omega arith, ht t);
    missed = λ f _. hf f;
  }

  -- A greater element in front of the end: the flag cannot be set.
  flag_of_greater :
      (pos len half : ℕ) (eq : Bool)
      → half < len
      → comp (pos + half) ≡ Ordering.gt
      → Inv n comp pos len eq
      → eq ≡ false
  flag_of_greater pos len half true h e inv = absurd (
      let f = inv.found refl in
      let g = v.greater (pos + half) (pos + len) (omega arith) f.0 e in cc (f.1, g))
  flag_of_greater pos len half false h e inv = refl

  Inv-end : (pos : ℕ) (eq : Bool) → Inv n comp pos 0 eq → IsLowerBound n comp pos eq
  Inv-end pos eq inv =
      let same : pos + 0 ≡ pos = omega arith in
      record {
        bound = let b = inv.bound in omega arith;
        before = inv.before;
        after = λ i h. inv.after i (omega arith);
        found = λ t. rw same at (inv.found t);
        missed = λ f. rw same at (inv.missed f);
      }

  abbrev run : ℕ → ℕ → ℕ → Bool → ℕ × Bool
  run = lower_bound_loop comp

  run_lt :
      (fuel pos len : ℕ) (eq : Bool)
      → comp (pos + suc len / 2) ≡ Ordering.lt
      → run (suc fuel) pos (suc len) eq
        ≡ run fuel (pos + suc len / 2 + 1) (suc len - suc len / 2 - 1) eq
  unfolding lower_bound_loop
  run_lt fuel pos len eq e = rw (lower_bound_loop, nonzero len, e)

  run_eq :
      (fuel pos len : ℕ) (eq : Bool)
      → comp (pos + suc len / 2) ≡ Ordering.eq
      → run (suc fuel) pos (suc len) eq ≡ run fuel pos (suc len / 2) true
  unfolding lower_bound_loop
  run_eq fuel pos len eq e = rw (lower_bound_loop, nonzero len, e)

  run_gt :
      (fuel pos len : ℕ) (eq : Bool)
      → comp (pos + suc len / 2) ≡ Ordering.gt
      → run (suc fuel) pos (suc len) eq ≡ run fuel pos (suc len / 2) eq
  unfolding lower_bound_loop
  run_gt fuel pos len eq e = rw (lower_bound_loop, nonzero len, e)

  abbrev Finds : ℕ × Bool → Type 0
  Finds r = IsLowerBound n comp r.0 r.1

  run-Finds :
      (fuel pos len : ℕ) (eq : Bool)
      → len ≤ fuel
      → Inv n comp pos len eq
      → Finds (run fuel pos len eq)
  unfolding lower_bound_loop
  run-Finds zero pos len eq h inv =
      Inv-end pos eq (subst (λ l. Inv n comp pos l eq) (omega arith) inv)
  run-Finds (suc fuel) pos zero eq h inv = Inv-end pos eq inv
  run-Finds (suc fuel) pos (suc len) eq h inv = elim (Ordering-cases (comp (pos + suc len / 2))) [
    | inl e ↦ subst Finds (sym (run_lt fuel pos len eq e)) (
        run-Finds fuel _ _ eq (omega arith)
          (Inv-right pos (suc len) (suc len / 2) eq (omega arith) e inv))
    | inr (inl e) ↦ subst Finds (sym (run_eq fuel pos len eq e)) (
        run-Finds fuel pos (suc len / 2) true (omega arith) (
          Inv-left pos (suc len) (suc len / 2) eq true (omega arith) (λ t. cc (e, t)) (λ _. e)
            (λ f. cc) inv))
    | inr (inr e) ↦
        let unset = flag_of_greater pos (suc len) (suc len / 2) eq (omega arith) e inv in
        subst Finds (sym (run_gt fuel pos len eq e)) (
          run-Finds fuel pos (suc len / 2) eq (omega arith) (
            Inv-left pos (suc len) (suc len / 2) eq eq (omega arith) (λ t. cc (e, t))
              (λ t. cc (t, unset)) (λ f t. cc (e, t)) inv))
  ]

  Inv-start : Inv n comp 0 n false
  Inv-start = record {
    bound = omega arith;
    before = λ i h. absurd (omega arith);
    after = λ i h1 h2. absurd (omega arith);
    found = λ t. absurd (cc);
    missed = λ f h. absurd (omega arith);
  }

-- LowerBound on a node whose keys are in order, as the comparator sees it from the key: the position is
-- the number of the keys that are less, and the flag is set exactly if the key at this position exists
-- and is equal.
pub lower_bound-IsLowerBound :
    (comparator : Key → Key → Ordering) (s : NodeState) (key : Key)
    → IsAscending s.node.count (λ i. comparator (get_key s i) key)
    → let r = lower_bound comparator s key in
      IsLowerBound s.node.count (λ i. comparator (get_key s i) key) r.0 r.1
unfolding lower_bound
lower_bound-IsLowerBound comparator s key v =
    run-Finds s.node.count (λ i. comparator (get_key s i) key) v s.node.count 0 s.node.count false
      (omega arith) (Inv-start s.node.count (λ i. comparator (get_key s i) key) v)
