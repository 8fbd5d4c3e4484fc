-- ===== src/Node/Keeps.antt =====
-- What every operation of src/node.cpp leaves alone: the transaction a page belongs to, and the pages in use.
use atomkv.Prelude.{
  ℕ, zero, suc, ◌+◌, ◌*◌, ◌/◌, ◌%◌, ◌^◌, ◌≤◌, ◌<◌, ◌≡◌, refl, ◌∙◌, inl, inr, Bool, ltb, leb, ◌==◌,
  ◌||◌, arith, if◌then◌else◌, Bool-cases, List, length,
}
use atomkv.Format.{u32_mod, key_max_size, value_max_size}
use atomkv.Result.{Result, ok, err}
use atomkv.Comparator.{Key}
use atomkv.Pager.{get_page_count}
use atomkv.Space.{Space, alloc}
use atomkv.Pager.Address.{get_page_count-ceiling, get_page_count-word}
use atomkv.Node.Overflow.{IsOutside, write_overflow-SameBytes}
use atomkv.Space.InUse.{
  InUse, IsSound, Grows, Grows-refl, Grows-trans, SameBytes-trans, Fresh, AllocGrows,
  alloc-AllocGrows,
}
use native.Mathlib.Nat.{div-add-mod'}
use native.Mathlib.Decide.{dec_lt}
use atomkv.Node.{
  Slot, Node, NodeState, page_size_of, is_leaf, free_space, free_space_after_compaction, compactify,
  copy_record_range, request_space, request_space_for, place_record, write_overflow,
  store_record_to_overflow_pages, store_overflow, store_inline, store_record,
  max_inline_record_size, delete_record, restore_record,
}

pub record Keeps (s s' : NodeState) : Type 0 where
  pub txid : s'.node.last_modified_txid ≡ s.node.last_modified_txid
  pub space : Grows s.space s'.space

pub Keeps-refl : (s : NodeState) → IsSound s.space → Keeps s s
Keeps-refl s v = record { txid = refl; space = Grows-refl s.space v }

pub Keeps-trans : (s1 s2 s3 : NodeState) → Keeps s1 s2 → Keeps s2 s3 → Keeps s1 s3
Keeps-trans s1 s2 s3 a b = record {
  txid = b.txid ∙ a.txid;
  space = Grows-trans s1.space s2.space s3.space a.space b.space;
}

-- A change of the node alone.
pub Keeps-node :
    (s : NodeState) (n : Node)
    → IsSound s.space
    → n.last_modified_txid ≡ s.node.last_modified_txid
    → Keeps s (record s { node = n })
Keeps-node s n v e = record { txid = e; space = Grows-refl s.space v }

copy_record_range-txid :
    (rounds i : ℕ) (src dst : Node)
    → (copy_record_range rounds i src dst).0.last_modified_txid ≡ src.last_modified_txid
unfolding copy_record_range
copy_record_range-txid zero i src dst = refl
copy_record_range-txid (suc rounds) i src dst = copy_record_range-txid rounds (i + 1) _ _

compactify-txid :
    (page_size : ℕ) (tmp_page : ℕ → ℕ) (n : Node)
    → (compactify page_size tmp_page n).last_modified_txid ≡ n.last_modified_txid
unfolding compactify
compactify-txid page_size tmp_page n = copy_record_range-txid n.count 0 n _

pub request_space-Keeps :
    (s : NodeState) (needed : ℕ) → IsSound s.space → Keeps s (request_space s needed).1
unfolding request_space
request_space-Keeps s needed v = elim (Bool-cases (leb needed (free_space s.node))) [
  | inl t ↦ rw t (Keeps-refl s v)
  | inr f ↦
      rw f (elim (Bool-cases (leb needed (free_space_after_compaction (page_size_of s) s.node))) [
        | inl t ↦ rw t (
            Keeps-node s (compactify (page_size_of s) s.tmp_page s.node) v
              (compactify-txid (page_size_of s) s.tmp_page s.node))
        | inr f' ↦ rw f' (Keeps-refl s v)
      ])
]

pub request_space_for-Keeps :
    (key : Key) (value : List ℕ) (slot_needed : Bool) (s : NodeState)
    → IsSound s.space
    → Keeps s (request_space_for key value slot_needed s).1
unfolding request_space_for
request_space_for-Keeps key value slot_needed s v = request_space-Keeps s _ v

-- The answer of an allocation, whatever the pages are written with.
StoreGrows : Space → Result (ℕ × Space) → Type 0
StoreGrows s (err e) = Unit
StoreGrows s (ok (pgid, s')) = Grows s s'

-- A page in use is none of a fresh block.
used-IsOutside :
    (s s' : Space) (count pgid p : ℕ) → Fresh s count pgid s' → InUse s p → IsOutside pgid count p
used-IsOutside s s' count pgid p f u = elim (dec_lt p pgid) [
  | yes lt ↦ inl lt
  | no ge ↦ elim (dec_lt p (pgid + count)) [
    | yes lt ↦ absurd (f.unused p (omega arith) lt u)
    | no ge' ↦ inr (omega arith)
  ]
]

written_Grows :
    (s : Space) (key : Key) (value : List ℕ) (count : ℕ) (r : Result (ℕ × Space))
    → 0 < count
    → length key + length value ≤ count * s.pager.page_size
    → AllocGrows s count r
    → StoreGrows s (elim r [
      | err e ↦ err e
      | ok (pgid, space') ↦ ok (pgid, write_overflow key value pgid space')
    ])
unfolding StoreGrows write_overflow
written_Grows s key value count (err e) some holds g = tt
written_Grows s key value count (ok (pgid, s')) some holds g =
    let same = g.0.page_size in
    let holds' : length key + length value ≤ count * s'.pager.page_size = rw same holds in
    record {
      sound = record {
        well_formed = g.0.sound.well_formed;
        below = g.0.sound.below;
        page = g.0.sound.page;
      };
      in_use = λ p u. g.0.in_use p u;
      page_size = same;
      count = g.0.count;
      bytes = λ fits p u.
          SameBytes-trans s s' (write_overflow key value pgid s') p same (g.0.bytes fits p u) (
            write_overflow-SameBytes s' key value pgid count g.0.sound.page fits some g.1.inside
              holds' p (g.0.in_use p u).0 (used-IsOutside s s' count pgid p g.1 u));
    }

store_to_pages-StoreGrows :
    (s : Space) (key : Key) (value : List ℕ)
    → IsSound s
    → 0 < get_page_count s.pager (length key + length value)
    → length key + length value < 2 ^ 32 + 2 ^ 15
    → StoreGrows s (store_record_to_overflow_pages s key value)
unfolding store_record_to_overflow_pages StoreGrows
store_to_pages-StoreGrows s key value v h small =
    let count = get_page_count s.pager (length key + length value) in
    written_Grows s key value count (alloc s count) h
      (get_page_count-ceiling s.pager (length key + length value) v.page small).0
      (alloc-AllocGrows s count v h (get_page_count-word s.pager (length key + length value)))

store_overflow-Keeps :
    (slot_id : ℕ) (slot : Slot) (r : Result (ℕ × Space)) (s : NodeState)
    → IsSound s.space
    → StoreGrows s.space r
    → Keeps s (store_overflow slot_id slot r s).1
unfolding store_overflow StoreGrows place_record
store_overflow-Keeps slot_id slot (err e) s v g = Keeps-node s _ v refl
store_overflow-Keeps slot_id slot (ok (pgid, space)) s v g = record { txid = refl; space = g }

le_half : (d page_size m size : ℕ) → 2 ≤ page_size → d * page_size + m ≡ size → d * 2 ≤ size
le_half d page_size m size h e = grind arith

page_count_pos :
    (size page_size : ℕ)
    → 2 ≤ page_size
    → 0 < size
    → size < 2 ^ 32 + 2 ^ 15
    → 0 < (
        if size % page_size == 0
        then (size / page_size) % u32_mod
        else ((size / page_size) % u32_mod + 1) % u32_mod)
page_count_pos size page_size h1 h2 h3 =
    let e = div-add-mod' size page_size in
    let b = le_half (size / page_size) page_size (size % page_size) size h1 e in
    elim (Bool-cases (size % page_size == 0)) [
      | inl t ↦
          let z : size % page_size ≡ 0 = ground arith in
          rw t (elim (dec_lt 0 (size / page_size)) [
            | yes pos ↦ omega arith
            | no nonpos ↦ absurd (
                let d : size / page_size ≡ 0 = omega arith in
                let e' : 0 * page_size + 0 ≡ size = rw (d, z) at e in omega arith)
          ])
      | inr f ↦ rw f (omega arith)
    ]

pub store_record-Keeps :
    (slot_id : ℕ) (key : Key) (value : List ℕ) (s : NodeState)
    → IsSound s.space
    → Keeps s (store_record slot_id key value s).1
unfolding store_record store_inline place_record get_page_count
store_record-Keeps slot_id key value s v =
    elim (Bool-cases (ltb (page_size_of s) (length key) || ltb key_max_size (length key))) [
      | inl t ↦ rw t (Keeps-refl s v)
      | inr k ↦ rw k (elim (Bool-cases (ltb value_max_size (length value))) [
        | inl t ↦ rw t (Keeps-refl s v)
        | inr w ↦
            rw w
              (elim (Bool-cases
                (ltb (max_inline_record_size (page_size_of s)) (length key + length value))) [
                  | inl t ↦ rw t (
                      store_overflow-Keeps slot_id _
                        (store_record_to_overflow_pages s.space key value) s v
                        (store_to_pages-StoreGrows s.space key value v
                          (page_count_pos (length key + length value) s.space.pager.page_size v.page
                            (ground arith) (ground arith))
                          (ground arith)))
                  | inr f ↦ rw f (Keeps-node s _ v refl)
                ])
      ])
    ]

pub delete_record-Keeps :
    (slot_id : ℕ) (s : NodeState)
    → IsSound s.space
    → Keeps s (record s { node = delete_record slot_id s.node })
unfolding delete_record
delete_record-Keeps slot_id s v = elim (Bool-cases (s.node.slots slot_id).is_overflow_pages) [
  | inl t ↦ rw t (Keeps-node s _ v refl)
  | inr f ↦ rw f (elim (Bool-cases (is_leaf s.node)) [
    | inl t ↦ rw t (Keeps-node s _ v refl)
    | inr f' ↦ rw f' (Keeps-node s _ v refl)
  ])
]

pub restore_record-Keeps :
    (slot_id : ℕ) (saved : Slot) (s : NodeState)
    → IsSound s.space
    → Keeps s (record s { node = restore_record slot_id saved s.node })
unfolding restore_record
restore_record-Keeps slot_id saved s v = elim (Bool-cases saved.is_overflow_pages) [
  | inl t ↦ rw t (Keeps-node s _ v refl)
  | inr f ↦ rw f (elim (Bool-cases (is_leaf s.node)) [
    | inl t ↦ rw t (Keeps-node s _ v refl)
    | inr f' ↦ rw f' (Keeps-node s _ v refl)
  ])
]
