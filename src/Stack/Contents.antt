-- ===== src/Stack/Contents.antt =====
-- detail::Stack of include/atomkv/stack.h is a list: whatever its array holds above the top does not count.
use atomkv.Prelude.{
  ℕ, zero, suc, ◌+◌, ◌-◌, ◌<◌, ◌≡◌, ◌≢◌, refl, sym, ap, ap₂, ◌∙◌, List, [], ◌∷◌, arith,
}
use native.Mathlib.Decide.{dec_lt}
use atomkv.Stack.{Stack, set_at, copy_loop, copy_from, move_from, front, push_back, pop_back}

module _ {ℓ} {T : Type ℓ} where
  -- The first `n` elements, the last one first.
  unfoldable pub elements : (ℕ → T) → ℕ → List T
  elements array zero = []
  elements array (suc n) = array n ∷ elements array n

  unfoldable pub contents : Stack T → List T
  unfolding elements
  contents s = elements s.array s.cur_pos

  pub elements_ext :
      (f g : ℕ → T) (n : ℕ) → ((i : ℕ) → i < n → f i ≡ g i) → elements f n ≡ elements g n
  unfolding elements
  elements_ext f g zero h = refl
  elements_ext f g (suc n) h =
      ap₂ (λ (x : T) (xs : List T). x ∷ xs) (h n (omega arith))
        (elements_ext f g n (λ i lt. h i (omega arith)))

  pub set_at-at : (array : ℕ → T) (i : ℕ) (value : T) → set_at array i value i ≡ value
  set_at-at array i value = ground arith

  pub set_at-ne : (array : ℕ → T) (i j : ℕ) (value : T) → i ≢ j → set_at array i value j ≡ array j
  set_at-ne array i j value ne = ground arith

  elements-plus_one : (array : ℕ → T) (n : ℕ) → elements array (n + 1) ≡ array n ∷ elements array n
  unfolding elements
  elements-plus_one array n = let e : n + 1 ≡ suc n = omega arith in rw e refl

  elements-set_at :
      (s : Stack T) (value : T) → elements (set_at s.array s.cur_pos value) s.cur_pos ≡ contents s
  unfolding contents
  elements-set_at s value =
      elements_ext (set_at s.array s.cur_pos value) s.array s.cur_pos
        (λ i lt. set_at-ne s.array s.cur_pos i value (omega arith))

  -- push_back puts the value in front of the contents, front then answers it, and pop_back takes it away again.
  pub push_back-contents :
      (value : T) (s : Stack T)
      → (contents (push_back value s) ≡ value ∷ contents s)
        × (front (push_back value s) ≡ value)
        × (contents (pop_back (push_back value s)) ≡ contents s)
  unfolding push_back pop_back front contents
  push_back-contents value s =
      let e : s.cur_pos + 1 - 1 ≡ s.cur_pos = omega arith in
      (
        elements-plus_one (set_at s.array s.cur_pos value) s.cur_pos
            ∙ ap₂ (λ (x : T) (xs : List T). x ∷ xs) (set_at-at s.array s.cur_pos value)
                (elements-set_at s value),
        rw e (set_at-at s.array s.cur_pos value),
        rw e (elements-set_at s value),
      )

  copy_loop-copied :
      (rounds i j : ℕ) (right array : ℕ → T)
      → j < i + rounds
      → (j < i → array j ≡ right j)
      → copy_loop rounds i right array j ≡ right j
  unfolding copy_loop
  copy_loop-copied zero i j right array h k = k (omega arith)
  copy_loop-copied (suc rounds) i j right array h k =
      copy_loop-copied rounds (i + 1) j right (set_at array i (right i)) (omega arith) (λ lt.
        elim (dec_lt j i) [
          | yes less ↦ set_at-ne array i j (right i) (omega arith) ∙ k less
          | no ge ↦
              let e : i ≡ j = omega arith in
              ap (set_at array i (right i)) (sym e) ∙ set_at-at array i (right i) ∙ ap right e
        ])

  -- Copying and moving give the contents of the other stack, whatever this one held; a moved stack is empty.
  copy_from-contents :
      (right s : Stack T)
      → (contents (copy_from right s) ≡ contents right)
        × (contents (move_from right s).0 ≡ contents right)
        × (contents (move_from right s).1 ≡ [])
  unfolding contents copy_from move_from elements
  copy_from-contents right s =
      let same =
        elements_ext (copy_loop right.cur_pos 0 right.array s.array) right.array right.cur_pos
          (λ i lt.
            copy_loop-copied right.cur_pos 0 i right.array s.array (omega arith)
              (λ less. absurd (omega arith))) in
      (same, same, refl)
