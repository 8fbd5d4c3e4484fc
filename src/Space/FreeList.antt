-- ===== src/Space/FreeList.antt =====
-- SaveFreeList and LoadFreeList of src/pager.cpp: what is saved is read back.
use atomkv.Prelude.{
  ℕ, ◌+◌, ◌*◌, ◌/◌, ◌%◌, ◌^◌, ◌<◌, ◌≡◌, ◌≢◌, refl, subst, ◌∙◌, List, [], ◌∷◌, ◌++◌, arith, length,
  ◌==◌, ==_iff, Bool-cases, inl, inr,
}
use native.Mathlib.Nat.{mod-eq_of_lt}
use atomkv.Format.{u32_mod, page_invalid_id}
use atomkv.Pager.{PagePair, FreeMap, Pager, free_to_map, free_all, get_ptr}
use atomkv.Pager.Release.{AreFreeable, AreApart, AddsAll, free_all-AddsAll}
use atomkv.Space.{
  Space, write_byte, write_by_bytes, pair_bytes, read_uint32_at, read_pairs, pending_pairs,
  load_pairs, load_free_list, write_free_list,
}

write_by_bytes_before :
    (bytes : ℕ → ℕ) (a i : ℕ) (buf : List ℕ) → i < a → write_by_bytes bytes a buf i ≡ bytes i
unfolding write_by_bytes
write_by_bytes_before bytes a i [] h = refl
write_by_bytes_before bytes a i (b ∷ buf) h =
    write_by_bytes_before (write_byte bytes a b) (a + 1) i buf (omega arith) ∙ ground arith

-- Both halves of each pair fit 32 bits.
abbrev pub AllWords : List PagePair → Type 0
AllWords [] = Unit
AllWords ((k, c) ∷ pairs) = (k < u32_mod) × (c < u32_mod) × AllWords pairs

word_bytes :
    (n : ℕ)
    → n < u32_mod
    → n % 2 ^ 8
        + n / 2 ^ 8 % 2 ^ 8 * 2 ^ 8
        + n / 2 ^ 16 % 2 ^ 8 * 2 ^ 16
        + n / 2 ^ 24 % 2 ^ 8 * 2 ^ 24
      ≡ n
word_bytes n h = omega arith

-- The bytes stand in memory from the address on.
abbrev pub Holds : (ℕ → ℕ) → ℕ → List ℕ → Type 0
Holds bytes a [] = Unit
Holds bytes a (b ∷ buf) = (bytes a ≡ b) × Holds bytes (a + 1) buf

pub write_by_bytes-Holds :
    (bytes : ℕ → ℕ) (a : ℕ) (buf : List ℕ) → Holds (write_by_bytes bytes a buf) a buf
unfolding write_by_bytes
write_by_bytes-Holds bytes a [] = tt
write_by_bytes-Holds bytes a (b ∷ buf) = (
  write_by_bytes_before (write_byte bytes a b) (a + 1) a buf (omega arith) ∙ ground arith,
  write_by_bytes-Holds (write_byte bytes a b) (a + 1) buf,
)

read_uint32_at-Holds :
    (bytes : ℕ → ℕ) (a n : ℕ)
    → n < u32_mod
    → bytes a ≡ n % 2 ^ 8
    → bytes (a + 1) ≡ n / 2 ^ 8 % 2 ^ 8
    → bytes (a + 2) ≡ n / 2 ^ 16 % 2 ^ 8
    → bytes (a + 3) ≡ n / 2 ^ 24 % 2 ^ 8
    → read_uint32_at bytes a ≡ n
unfolding read_uint32_at
read_uint32_at-Holds bytes a n h h0 h1 h2 h3 = omega (arith, h0, h1, h2, h3)

moved : (bytes : ℕ → ℕ) (a a' n : ℕ) → bytes a ≡ n → a ≡ a' → bytes a' ≡ n
moved bytes a a' n h e = subst (λ x. bytes x ≡ n) e h

Holds-moved :
    (bytes : ℕ → ℕ) (a a' : ℕ) (buf : List ℕ) → Holds bytes a buf → a ≡ a' → Holds bytes a' buf
Holds-moved bytes a a' buf h e = subst (λ x. Holds bytes x buf) e h

read_pairs-Holds :
    (bytes : ℕ → ℕ) (a : ℕ) (pairs : List PagePair)
    → AllWords pairs
    → Holds bytes a (pair_bytes pairs)
    → read_pairs bytes a (length pairs) ≡ pairs
unfolding read_pairs pair_bytes
read_pairs-Holds bytes a [] w h = refl
read_pairs-Holds bytes a ((k, c) ∷ pairs) w h =
    let h4 = h.1.1.1.1 in
    let first =
      read_uint32_at-Holds bytes a k w.0 h.0 h.1.0 (moved bytes _ (a + 2) _ h.1.1.0 (omega arith))
        (moved bytes _ (a + 3) _ h.1.1.1.0 (omega arith)) in
    let second =
      read_uint32_at-Holds bytes (a + 4) c w.1 (moved bytes _ (a + 4) _ h4.0 (omega arith))
        (moved bytes _ (a + 4 + 1) _ h4.1.0 (omega arith))
        (moved bytes _ (a + 4 + 2) _ h4.1.1.0 (omega arith))
        (moved bytes _ (a + 4 + 3) _ h4.1.1.1.0 (omega arith)) in
    rw (
      first,
      second,
      read_pairs-Holds bytes (a + 8) pairs w.2
          (Holds-moved bytes _ (a + 8) (pair_bytes pairs) h4.1.1.1.1 (omega arith)),
    )

-- Blocks that are freeable are not empty, so none is skipped.
load_pairs-free_all :
    (m : FreeMap) (pairs : List PagePair) (m0 : FreeMap)
    → AreApart pairs m0
    → load_pairs m pairs ≡ free_all m pairs
unfolding load_pairs free_all
load_pairs-free_all m [] m0 r = refl
load_pairs-free_all m ((k, c) ∷ pairs) m0 r =
    ground (arith, load_pairs-free_all (free_to_map m k c) pairs m0 r.4)

AllWords-of_AreApart : (pairs : List PagePair) (m : FreeMap) → AreApart pairs m → AllWords pairs
AllWords-of_AreApart [] m r = tt
AllWords-of_AreApart ((k, c) ∷ pairs) m r =
    (omega arith, omega arith, AllWords-of_AreApart pairs m r.4)

-- What SaveFreeList writes once it has the pages for it, read by LoadFreeList of a new pager from
-- the meta_struct that SaveFreeList filled in, which is that of the transaction: where the free and the pending
-- blocks are valid, apart from each other and fewer than 2^32, FreeToMap is defined for each in turn on an
-- empty free map, and the pages are not at the invalid id, the new free map is well-formed and covers exactly
-- the pages that were free or pending.
pub load_free_list-write_free_list :
    (s : Space) (pgid page_count : ℕ) (pager : Pager)
    → pgid ≢ page_invalid_id
    → length (s.pager.free_map ++ pending_pairs s.pager.pending_map) < u32_mod
    → AreFreeable (s.pager.free_map ++ pending_pairs s.pager.pending_map) []
    → pager.free_map ≡ []
    → pager.page_size ≡ s.pager.page_size
    → let s' = write_free_list pgid page_count s in
      AddsAll
        (s.pager.free_map ++ pending_pairs s.pager.pending_map)
        []
        (load_free_list pager s'.meta s'.file).free_map
unfolding load_free_list write_free_list get_ptr
load_free_list-write_free_list s pgid page_count pager h hl r e0 e1 =
    let pairs = s.pager.free_map ++ pending_pairs s.pager.pending_map in
    let address = (pgid * s.pager.page_size) % u32_mod + 0 in
    let written =
      read_pairs-Holds (write_by_bytes s.file.bytes address (pair_bytes pairs)) address pairs
        (AllWords-of_AreApart pairs [] r.0)
        (write_by_bytes-Holds s.file.bytes address (pair_bytes pairs)) in
    elim (Bool-cases (pgid == page_invalid_id)) [
      | inl t ↦ absurd (h ((==_iff pgid page_invalid_id).0 t))
      | inr t ↦
          rw (t, e0, e1, mod-eq_of_lt hl, written, load_pairs-free_all [] pairs [] r.0)
            (free_all-AddsAll pairs [] tt r)
    ]
