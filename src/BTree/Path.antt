-- ===== src/BTree/Path.antt =====
-- The pages of an iterator's path.
use atomkv.Prelude.{ℕ, zero, suc, ◌+◌, ◌-◌, ◌<◌, ◌≡◌, refl, ap₂, false, arith, List, [], ◌∷◌}
use atomkv.Stack.{set_at, front, push_back, pop_back, empty}
use atomkv.BTree.Iterator.{Iterator, push, pop}

-- The first `n` elements, the last one first.
abbrev pub pages_of : (ℕ → ℕ × ℕ) → ℕ → List ℕ
pages_of array zero = []
pages_of array (suc n) = (array n).0 ∷ pages_of array n

abbrev pub path : Iterator → List ℕ
path it = pages_of it.stack.array it.stack.cur_pos

pub pages_of-ext :
    (f g : ℕ → ℕ × ℕ) (n : ℕ) → ((i : ℕ) → i < n → (f i).0 ≡ (g i).0) → pages_of f n ≡ pages_of g n
pages_of-ext f g zero h = refl
pages_of-ext f g (suc n) h =
    ap₂ (λ (p : ℕ) (ps : List ℕ). p ∷ ps) (h n (omega arith))
      (pages_of-ext f g n (λ i lt. h i (omega arith)))

pub path-front :
    (it : Iterator) → empty it.stack ≡ false → path it ≡ (front it.stack).0 ∷ path (pop it)
unfolding empty front pop pop_back
path-front it h = go it.stack.array it.stack.cur_pos (ground arith)
  where
    go :
        (array : ℕ → ℕ × ℕ) (n : ℕ)
        → 0 < n
        → pages_of array n ≡ (array (n - 1)).0 ∷ pages_of array (n - 1)
    go array zero pos = absurd (omega arith)
    go array (suc n) pos = let e : suc n - 1 ≡ n = omega arith in rw e refl

pub path-push : (v : ℕ × ℕ) (it : Iterator) → path (push v it) ≡ v.0 ∷ path it
unfolding push push_back
path-push v it =
    let array = it.stack.array in
    let n = it.stack.cur_pos in
    let e : n + 1 ≡ suc n = omega arith in
    rw e (
      ap₂ (λ (p : ℕ) (ps : List ℕ). p ∷ ps) (ground arith)
        (pages_of-ext (set_at array n v) array n (λ i lt. ground arith)))
