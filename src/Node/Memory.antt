-- ===== src/Node/Memory.antt =====
-- memcpy of src/node.cpp on the bytes of a page: what a read gives after a write.
use atomkv.Prelude.{
  ℕ, zero, suc, ◌+◌, ◌≤◌, ◌<◌, ◌≡◌, refl, ap, ◌∙◌, ◌⊎◌, inl, List, [], ◌∷◌, ◌++◌, arith, length,
}
use native.Mathlib.Decide.{dec_lt}
use atomkv.Space.{write_by_bytes, write_byte}
use atomkv.Node.{slice}

pub length-slice : (bytes : ℕ → ℕ) (a n : ℕ) → length (slice bytes a n) ≡ n
unfolding slice
length-slice bytes a zero = refl
length-slice bytes a (suc n) = ap suc (length-slice bytes (a + 1) n)

pub write_by_bytes_outside :
    (bytes : ℕ → ℕ) (a i : ℕ) (buf : List ℕ)
    → (i < a) ⊎ (a + length buf ≤ i)
    → write_by_bytes bytes a buf i ≡ bytes i
unfolding write_by_bytes
write_by_bytes_outside bytes a i [] h = refl
write_by_bytes_outside bytes a i (b ∷ buf) h =
    write_by_bytes_outside (write_byte bytes a b) (a + 1) i buf (omega arith) ∙ ground arith

pub slice_ext :
    (bytes bytes' : ℕ → ℕ) (a n : ℕ)
    → ((i : ℕ) → a ≤ i → i < a + n → bytes i ≡ bytes' i)
    → slice bytes a n ≡ slice bytes' a n
unfolding slice
slice_ext bytes bytes' a zero f = refl
slice_ext bytes bytes' a (suc n) f =
    let here = f a (omega arith) (omega arith) in
    let rest = slice_ext bytes bytes' (a + 1) n (λ i h1 h2. f i (omega arith) (omega arith)) in
    cc (here, rest)

-- A read of what was written.
pub slice-write_self :
    (bytes : ℕ → ℕ) (a : ℕ) (buf : List ℕ) → slice (write_by_bytes bytes a buf) a (length buf) ≡ buf
unfolding slice write_by_bytes
slice-write_self bytes a [] = refl
slice-write_self bytes a (b ∷ buf) =
    let here = write_by_bytes_outside (write_byte bytes a b) (a + 1) a buf (omega arith) in
    let set_here : write_byte bytes a b a ≡ b = ground arith in
    let rest = slice-write_self (write_byte bytes a b) (a + 1) buf in cc (here, set_here, rest)

-- A read beside what was written.
pub slice-write_apart :
    (bytes : ℕ → ℕ) (a a' n : ℕ) (buf : List ℕ)
    → (a' + n ≤ a) ⊎ (a + length buf ≤ a')
    → slice (write_by_bytes bytes a buf) a' n ≡ slice bytes a' n
slice-write_apart bytes a a' n buf h =
    slice_ext (write_by_bytes bytes a buf) bytes a' n
      (λ i h1 h2. write_by_bytes_outside bytes a i buf (omega arith))

pub slice-append :
    (bytes : ℕ → ℕ) (a m n : ℕ) → slice bytes a (m + n) ≡ slice bytes a m ++ slice bytes (a + m) n
unfolding slice
slice-append bytes a zero n = rw (zero_add n, add_zero a)
  where
    zero_add : (k : ℕ) → 0 + k ≡ k
    zero_add k = omega arith

    add_zero : (k : ℕ) → k + 0 ≡ k
    add_zero k = omega arith
slice-append bytes a (suc m) n =
    let e : suc m + n ≡ suc (m + n) = omega arith in
    let e' : a + 1 + m ≡ a + suc m = omega arith in
    let ih = slice-append bytes (a + 1) m n in rw e (rw (← e') (ap (◌∷◌ (bytes a)) ih))

-- memcpy(p + a, q + a, n): inside the range the target has the source's bytes.
pub write-slice_inside :
    (bytes source : ℕ → ℕ) (a n i : ℕ)
    → a ≤ i
    → i < a + n
    → write_by_bytes bytes a (slice source a n) i ≡ source i
unfolding slice write_by_bytes
write-slice_inside bytes source a zero i h1 h2 = absurd (omega arith)
write-slice_inside bytes source a (suc n) i h1 h2 = elim (dec_lt a i) [
  | yes lt ↦
      write-slice_inside (write_byte bytes a (source a)) source (a + 1) n i (omega arith)
        (omega arith)
  | no ge ↦
      let same : a ≡ i = omega arith in
      write_by_bytes_outside (write_byte bytes a (source a)) (a + 1) i (slice source (a + 1) n)
        (inl (omega arith))
      ∙ (ground arith)
]
