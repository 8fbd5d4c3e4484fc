-- ===== src/BTree/Steps.antt =====
-- Copy-on-write in src/btree.cpp, step by step: what a step of an operation may do to the pages.
use atomkv.Prelude.{
  ℕ, ◌≡◌, refl, sym, ap, ◌∙◌, true, false, arith, List, [], ◌∷◌, ◌++◌, inl, inr, Bool-cases,
}
use atomkv.Result.{Result, ok, err}
use atomkv.Space.InUse.{InUse, IsSound, Grows, Grows-refl, Grows-trans, Fits, Fits-before}
use atomkv.Space.{Space}
use atomkv.Pager.{get_ptr}
use atomkv.Node.{Node, NodeState}
use atomkv.BTree.{
  Bucket, TreeState, TreeExec, then_run, ◌>>=◌, ◌>>◌, return, read, set_root, same_place,
}

-- The value stands for no pages.
abbrev pub plain : {A : Type 0} → A → List ℕ
plain a = []

-- Pages with one address hold one node.
abbrev pub IsConsistent : TreeState → Type 0
IsConsistent t = (p q : ℕ) → same_place t.space.pager p q ≡ true → t.pages p ≡ t.pages q

pub record IsGood (t : TreeState) : Type 0 where
  pub sound : IsSound t.space
  pub consistent : IsConsistent t

pub same_place-Grows :
    (s s' : Space) (p q : ℕ) → Grows s s' → same_place s'.pager p q ≡ same_place s.pager p q
unfolding get_ptr
same_place-Grows s s' p q g = rw g.page_size refl

module _ (bucket : Bucket) where
  -- The open transaction may write the page.
  abbrev pub Owned : TreeState → ℕ → Type 0
  Owned t p = bucket.copy_needed (t.pages p).last_modified_txid ≡ false

  -- The page is in use, and other transactions may read it.
  abbrev pub Shared : TreeState → ℕ → Type 0
  Shared t p = (bucket.copy_needed (t.pages p).last_modified_txid ≡ true) × InUse t.space p

  -- The open transaction may write the page, as long as the database ends below 4 GiB.
  abbrev pub MayWrite : TreeState → ℕ → Type 0
  MayWrite t p = Fits t.space → Owned t p

  pub record Step (t t' : TreeState) : Type 0 where
    pub good : IsGood t'
    pub grows : Grows t.space t'.space
    pub kept : Fits t'.space → (p : ℕ) → Shared t p → t'.pages p ≡ t.pages p
    pub owned : (p : ℕ) → MayWrite t p → MayWrite t' p

  -- The nodes are the same.
  pub Step-space :
      (t t' : TreeState) → IsGood t → Grows t.space t'.space → t'.pages ≡ t.pages → Step t t'
  Step-space t t' v g e = record {
    good = record {
      sound = g.sound;
      consistent =
          λ p q h. rw e (v.consistent p q (sym (same_place-Grows t.space t'.space p q g) ∙ h));
    };
    grows = g;
    kept = λ fits p s. rw e refl;
    owned = λ p o fits. rw e (o (Fits-before t.space t'.space g fits));
  }

  pub Step-refl : (t : TreeState) → IsGood t → Step t t
  Step-refl t v = Step-space t t v (Grows-refl t.space v.sound) refl

  Step-Shared : (t t' : TreeState) (p : ℕ) → Step t t' → Fits t'.space → Shared t p → Shared t' p
  Step-Shared t t' p a fits s = (rw (a.kept fits p s) s.0, a.grows.in_use p s.1)

  pub Step-trans : (t1 t2 t3 : TreeState) → Step t1 t2 → Step t2 t3 → Step t1 t3
  Step-trans t1 t2 t3 a b = record {
    good = b.good;
    grows = Grows-trans t1.space t2.space t3.space a.grows b.grows;
    kept = λ fits p s.
        let fits2 = Fits-before t2.space t3.space b.grows fits in
        b.kept fits p (Step-Shared t1 t2 p a fits2 s) ∙ a.kept fits2 p s;
    owned = λ p o. b.owned p (a.owned p o);
  }

  -- One place changes, which is written only where no other transaction can see a page of that address.
  pub Step-change :
      (t t' : TreeState) (pgid : ℕ)
      → IsGood t
      → Grows t.space t'.space
      → (Fits t'.space → (p : ℕ) → same_place t'.space.pager p pgid ≡ true → ¬ (Shared t p))
      → MayWrite t' pgid
      → ((p : ℕ) → same_place t'.space.pager p pgid ≡ true → t'.pages p ≡ t'.pages pgid)
      → ((p : ℕ) → same_place t'.space.pager p pgid ≡ false → t'.pages p ≡ t.pages p)
      → Step t t'
  Step-change t t' pgid v g private o there others = record {
    good = record {
      sound = g.sound;
      consistent = λ p q h. elim (Bool-cases (same_place t'.space.pager p pgid)) [
        | inl e ↦ there p e ∙ sym (there q (ground arith))
        | inr e ↦
            others p e
            ∙ v.consistent p q (sym (same_place-Grows t.space t'.space p q g) ∙ h)
            ∙ sym (others q (ground arith))
      ];
    };
    grows = g;
    kept = λ fits p s. elim (Bool-cases (same_place t'.space.pager p pgid)) [
      | inl e ↦ absurd (private fits p e s)
      | inr e ↦ others p e
    ];
    owned = λ p h fits. elim (Bool-cases (same_place t'.space.pager p pgid)) [
      | inl e ↦ rw (there p e) (o fits)
      | inr e ↦ rw (others p e) (h (Fits-before t.space t'.space g fits))
    ];
  }

  pub Owned-private :
      (t t' : TreeState) (pgid : ℕ)
      → IsGood t
      → Grows t.space t'.space
      → MayWrite t pgid
      → Fits t'.space
      → (p : ℕ) → same_place t'.space.pager p pgid ≡ true
      → ¬ (Shared t p)
  Owned-private t t' pgid v g o fits p h s =
      let same = v.consistent p pgid (sym (same_place-Grows t.space t'.space p pgid g) ∙ h) in
      let e = ap (λ (n : Node). bucket.copy_needed n.last_modified_txid) same in
      let o' = o (Fits-before t.space t'.space g fits) in let s' = s.0 in cc (o', s', e)

  module _ {A : Type 0} where
    -- The call makes a step, and if it returns, the value has the property.
    abbrev pub Runs : (A → TreeState → Type 0) → TreeState → Result A × TreeState → Type 0
    Runs Q t (ok a, t') = Step t t' × Q a t'
    Runs Q t (err e, t') = Step t t'

    pub Runs-after :
        (Q : A → TreeState → Type 0) (t t' : TreeState) (r : Result A × TreeState)
        → Step t t'
        → Runs Q t' r
        → Runs Q t r
    Runs-after Q t t' (ok a, t'') s h = (Step-trans t t' t'' s h.0, h.1)
    Runs-after Q t t' (err e, t'') s h = Step-trans t t' t'' s h

  -- The pages that the transaction may write.
  abbrev pub AllOwned : List ℕ → TreeState → Type 0
  AllOwned [] t = Unit
  AllOwned (p ∷ ps) t = MayWrite t p × AllOwned ps t

  AllOwned-append :
      (ps qs : List ℕ) (t : TreeState) → AllOwned ps t → AllOwned qs t → AllOwned (ps ++ qs) t
  AllOwned-append [] qs t a b = b
  AllOwned-append (p ∷ ps) qs t a b = (a.0, AllOwned-append ps qs t a.1 b)

  pub AllOwned-Step : (ps : List ℕ) (t t' : TreeState) → Step t t' → AllOwned ps t → AllOwned ps t'
  AllOwned-Step [] t t' s a = tt
  AllOwned-Step (p ∷ ps) t t' s a = (s.owned p a.0, AllOwned-Step ps t t' s a.1)

  -- If the transaction may write the pages `ps`, the call makes a step, and then it may write the pages that the
  -- value stands for, too.
  pub record Safe {A : Type 0} (ps : List ℕ) (m : TreeExec A) (own : A → List ℕ) : Type 0 where
    pub runs :
        (t : TreeState) → IsGood t → AllOwned ps t → Runs (λ a t'. AllOwned (own a) t') t (m t)

  bind-Runs :
      {A B : Type 0} (ps : List ℕ) (own : A → List ℕ) (own' : B → List ℕ) (t : TreeState)
      (r : Result A × TreeState) (k : A → TreeExec B)
      → AllOwned ps t
      → Runs (λ a t'. AllOwned (own a) t') t r
      → ((a : A) → Safe (own a ++ ps) (k a) own')
      → Runs (λ b t'. AllOwned (own' b) t') t (then_run r k)
  unfolding then_run
  bind-Runs ps own own' t (err e, t') k o h f = h
  bind-Runs ps own own' t (ok a, t') k o h f =
      Runs-after (λ b t'. AllOwned (own' b) t') t t' (k a t') h.0
        ((f a).runs t' h.0.good (AllOwned-append (own a) ps t' h.1 (AllOwned-Step ps t t' h.0 o)))

  pub Safe-bind :
      {A B : Type 0} {ps : List ℕ} (own : A → List ℕ) {own' : B → List ℕ} {m : TreeExec A}
      {k : A → TreeExec B}
      → Safe ps m own
      → ((a : A) → Safe (own a ++ ps) (k a) own')
      → Safe ps (m >>= k) own'
  unfolding ◌>>=◌
  Safe-bind {ps = ps} own {own' = own'} {m = m} {k = k} h f = record {
    runs = λ t v o. bind-Runs ps own own' t (m t) k o (h.runs t v o) f;
  }

  pub Safe-seq :
      {B : Type 0} {ps : List ℕ} {own' : B → List ℕ} {m : TreeExec (Unit {0})} {k : TreeExec B}
      → Safe ps m plain
      → Safe ps k own'
      → Safe ps (m >> k) own'
  unfolding ◌>>◌
  Safe-seq h f = Safe-bind plain h (λ _. f)

  pub Safe-return :
      {A : Type 0} {ps : List ℕ} {own : A → List ℕ} (a : A)
      → ((t : TreeState) → AllOwned ps t → AllOwned (own a) t)
      → Safe ps (return a) own
  unfolding return
  Safe-return a h = record { runs = λ t v o. (Step-refl t v, h t o) }

  pub Safe-done : {ps : List ℕ} → Safe ps (return tt) plain
  Safe-done = Safe-return tt (λ t o. tt)

  pub Safe-read : {A : Type 0} {ps : List ℕ} (p : ℕ) (f : NodeState → A) → Safe ps (read p f) plain
  unfolding read
  Safe-read p f = record { runs = λ t v o. (Step-refl t v, tt) }

  pub Safe-read_bind :
      {A B : Type 0} {ps : List ℕ} {own' : B → List ℕ} (p : ℕ) (f : NodeState → A)
      (k : A → TreeExec B)
      → ((a : A) → Safe ps (k a) own')
      → Safe ps (read p f >>= k) own'
  Safe-read_bind p f k h = Safe-bind plain (Safe-read p f) h

  -- A node is read, and CopyNeeded asked of it.
  pub Safe-read_test :
      {B : Type 0} {ps : List ℕ} {own' : B → List ℕ} (p : ℕ) (k : Node → TreeExec B)
      → ((n : Node) → bucket.copy_needed n.last_modified_txid ≡ true → Safe ps (k n) own')
      → ((n : Node) → bucket.copy_needed n.last_modified_txid ≡ false → Safe (p ∷ ps) (k n) own')
      → Safe ps (read p (λ s. s.node) >>= k) own'
  unfolding ◌>>=◌ read then_run
  Safe-read_test p k h g = record {
    runs = λ t v o. elim (Bool-cases (bucket.copy_needed (t.pages p).last_modified_txid)) [
      | inl e ↦ (h (t.pages p) e).runs t v o
      | inr e ↦ (g (t.pages p) e).runs t v ((λ fits. e), o)
    ];
  }

  pub Safe-root : {ps : List ℕ} (p : ℕ) → Safe ps (set_root p) plain
  unfolding set_root
  Safe-root p = record {
    runs = λ t v o.
        (Step-space t (record t { root_pgid = p }) v (Grows-refl t.space v.sound) refl, tt);
  }
