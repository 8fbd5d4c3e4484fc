-- ===== src/Node/Store.antt =====
-- RequestSpaceFor of src/node.cpp, and a record that is placed below the others.
use atomkv.Prelude.{
  ℕ, ◌+◌, ◌-◌, ◌≤◌, ◌<◌, ◌≡◌, refl, ap, ap₂, ◌⊎◌, inl, inr, Bool, true, false, List, arith, leb,
  leb→le, Bool-cases,
}
use atomkv.Node.{
  Slot, Node, NodeState, page_size_of, slot_space, free_space, free_space_after_compaction,
  compactify, request_space,
}
use atomkv.Node.Invariant.{IsNode, raw_record}
use atomkv.Node.Compactify.{Compacted, compactify-Compacted}

-- A slot without the place of its record, and the record's bytes: what a rearrangement keeps.
unfoldable pub entry : Node → ℕ → Slot × List ℕ
entry n j = (record (n.slots j) { record_offset = 0 }, raw_record n j)

-- `n'` holds the entries of `n`, in a well-formed page in which `needed` bytes are free between the
-- slots and the records.
pub record Makes (page_size needed : ℕ) (n n' : Node) : Type 0 where
  pub node : IsNode page_size n'
  pub others : n' ≡ record n { slots = n'.slots; data_offset = n'.data_offset; bytes = n'.bytes }
  pub entries : (j : ℕ) → j < n.count → entry n' j ≡ entry n j
  pub free : slot_space n' + needed ≤ n'.data_offset

entry-Compacted :
    (page_size : ℕ) (n n' : Node)
    → Compacted page_size n n'
    → (j : ℕ) → j < n.count
    → entry n' j ≡ entry n j
unfolding entry
entry-Compacted page_size n n' c j h =
    ap₂ (λ (slot : Slot) (bytes : List ℕ). (slot, bytes))
      (ap (λ (slot : Slot). record slot { record_offset = 0 }) (c.slots j h)) (c.records j h)

-- The room that a page has once its records are together.
abbrev pub room_of : ℕ → Node → ℕ
room_of page_size n = page_size - (slot_space n + n.space_used)

free_space_exact :
    (page_size : ℕ) (n : Node) → IsNode page_size n → free_space n ≡ n.data_offset - slot_space n
unfolding free_space
free_space_exact page_size n v = let s = v.small in let r = v.room in let f = v.fits in omega arith

free_space_after_compaction_exact :
    (page_size : ℕ) (n : Node)
    → IsNode page_size n
    → free_space_after_compaction page_size n ≡ room_of page_size n
unfolding free_space_after_compaction
free_space_after_compaction_exact page_size n v =
    let s = v.small in let r = v.room in let f = v.fits in omega arith

compactify-Makes :
    (page_size needed : ℕ) (tmp_page : ℕ → ℕ) (n : Node)
    → IsNode page_size n
    → needed ≤ room_of page_size n
    → slot_space n + n.space_used ≤ page_size
    → Makes page_size needed n (compactify page_size tmp_page n)
unfolding slot_space
compactify-Makes page_size needed tmp_page n v h b =
    let c = compactify-Compacted page_size tmp_page n v in
    let t = c.tight in
    let e1 = ap (λ (m : Node). m.count) c.others in
    let e2 = ap (λ (m : Node). m.space_used) c.others in
    record {
      node = c.node;
      others = c.others;
      entries = entry-Compacted page_size n (compactify page_size tmp_page n) c;
      free = omega arith;
    }

keeps-Makes :
    (page_size needed : ℕ) (n : Node)
    → IsNode page_size n
    → needed ≤ n.data_offset - slot_space n
    → Makes page_size needed n n
keeps-Makes page_size needed n v h = record {
  node = v;
  others = refl;
  entries = λ j lt. refl;
  free = let r = v.room in omega arith;
}

-- What a request for space answers: yes, and the node has the space; or no, nothing has changed, and
-- even a page with all its free space together would not have it.
unfoldable pub Requests : NodeState → ℕ → Bool × NodeState → Type 0
Requests s needed r =
    ((n : Node) × (r ≡ (true, record s { node = n })) × Makes (page_size_of s) needed s.node n)
    ⊎ ((r ≡ (false, s)) × (room_of (page_size_of s) s.node < needed))

-- RequestSpaceFor on a well-formed page, for a record that needs `needed` bytes: it answers true, and the page
-- keeps its entries and has the bytes between slots and records; or it answers false, nothing has changed,
-- and all the free space of the page together is less.
pub request_space-Requests :
    (s : NodeState) (needed : ℕ)
    → IsNode (page_size_of s) s.node
    → Requests s needed (request_space s needed)
unfolding request_space Requests
request_space-Requests s needed v =
    let f = v.fits in
    let r = v.room in
    rw
      (
        free_space_exact (page_size_of s) s.node v,
        free_space_after_compaction_exact (page_size_of s) s.node v,
      )
      (elim (Bool-cases (leb needed (s.node.data_offset - slot_space s.node))) [
        | inl t ↦
            rw t (inl (s.node, refl, keeps-Makes (page_size_of s) needed s.node v (leb→le _ _ t)))
        | inr t ↦ rw t (elim (Bool-cases (leb needed (room_of (page_size_of s) s.node))) [
          | inl u ↦ rw u (
              inl (
                compactify (page_size_of s) s.tmp_page s.node,
                refl,
                compactify-Makes (page_size_of s) needed s.tmp_page s.node v (leb→le _ _ u)
                    (omega arith),
              ))
          | inr u ↦ rw u (inr (refl, ground arith))
        ])
      ])
