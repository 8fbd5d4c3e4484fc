-- ===== src/Node/Inline.antt =====
-- A record of src/node.cpp that fits the page: the key, and the value behind it.
use atomkv.Prelude.{
  ℕ, suc, ◌+◌, ◌≤◌, ◌≡◌, refl, ◌∙◌, inl, inr, false, List, [], ◌∷◌, arith, length, ◌==◌,
}
use atomkv.Comparator.{Key}
use atomkv.Space.{write_by_bytes}
use atomkv.Node.{slice, inline_bytes}
use atomkv.Node.Memory.{write_by_bytes_outside, slice-write_self, slice-write_apart}

nonempty : (n : ℕ) → (suc n == 0) ≡ false
nonempty n = ground arith

pub inline_bytes_outside :
    (bytes : ℕ → ℕ) (key : Key) (value : List ℕ) (offset i : ℕ)
    → offset + (length key + length value) ≤ i
    → inline_bytes bytes key value offset i ≡ bytes i
unfolding inline_bytes
inline_bytes_outside bytes key [] offset i h =
    write_by_bytes_outside bytes offset i key (inr (omega arith))
inline_bytes_outside bytes key (b ∷ value) offset i h = rw (nonempty (length value)) (
    write_by_bytes_outside (write_by_bytes bytes offset key) (offset + length key) i (b ∷ value)
      (inr (omega arith))
    ∙ write_by_bytes_outside bytes offset i key (inr (omega arith)))

pub inline_bytes-key :
    (bytes : ℕ → ℕ) (key : Key) (value : List ℕ) (offset : ℕ)
    → slice (inline_bytes bytes key value offset) offset (length key) ≡ key
unfolding inline_bytes
inline_bytes-key bytes key [] offset = slice-write_self bytes offset key
inline_bytes-key bytes key (b ∷ value) offset = rw (nonempty (length value)) (
    slice-write_apart (write_by_bytes bytes offset key) (offset + length key) offset (length key)
      (b ∷ value) (inl (omega arith))
    ∙ slice-write_self bytes offset key)

-- Nothing is read of an empty value.
slice_empty : (bytes : ℕ → ℕ) (offset : ℕ) → slice bytes offset 0 ≡ []
unfolding slice
slice_empty bytes offset = refl

pub inline_bytes-value :
    (bytes : ℕ → ℕ) (key : Key) (value : List ℕ) (offset : ℕ)
    → slice (inline_bytes bytes key value offset) (offset + length key) (length value) ≡ value
unfolding inline_bytes
inline_bytes-value bytes key [] offset =
    slice_empty (write_by_bytes bytes offset key) (offset + length key)
inline_bytes-value bytes key (b ∷ value) offset =
    rw (nonempty (length value))
      (slice-write_self (write_by_bytes bytes offset key) (offset + length key) (b ∷ value))
