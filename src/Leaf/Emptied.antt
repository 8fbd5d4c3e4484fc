-- ===== src/Leaf/Emptied.antt =====
-- DeleteRecord and RestoreRecord of src/node.cpp, as LeafNode::Update calls them for a record in the page.
use atomkv.Prelude.{
  ℕ, ◌+◌, ◌-◌, ◌≤◌, ◌<◌, ◌≡◌, ◌≢◌, refl, sym, ap, ap₂, subst, ◌∙◌, inl, inr, true, false, arith,
  ◌==◌, Bool-cases,
}
use mathlib.Core.Path.{fun_ext}
use native.Mathlib.Decide.{dec_lt}
use atomkv.Node.{
  Slot, Node, leaf, is_leaf, set_slot, slot_space, record_size, sub16, add16, delete_record,
  restore_record,
}
use atomkv.Node.Store.{entry}
use atomkv.Node.Invariant.{IsNode, records_size-le, raw_record}
use atomkv.Node.Compactify.{set_slot_at, set_slot_ne}
use atomkv.Node.Replace.{records_size-set_slot}

restore_inline :
    (slot_id : ℕ) (saved : Slot) (m : Node)
    → saved.is_overflow_pages ≡ false
    → is_leaf m ≡ true
    → restore_record slot_id saved m ≡ record m {
      space_used = add16 (add16 m.space_used saved.key_size) saved.link;
      slots =
          set_slot m.slots slot_id
            (record (m.slots slot_id) { key_size = saved.key_size; link = saved.link });
    }
unfolding restore_record
restore_inline slot_id saved m o l = rw (o, l) refl

module _ (page_size : ℕ) (n : Node) (v : IsNode page_size n) (slot_id : ℕ)
    (is_leaf_node : n.type ≡ leaf) (bound : slot_id < n.count)
    (inline : (n.slots slot_id).is_overflow_pages ≡ false) where
  abbrev pub old : Slot
  old = n.slots slot_id

  abbrev pub emptied : Slot
  emptied = record old { key_size = 0; link = 0 }

  old_size : record_size (is_leaf n) old ≡ old.key_size + old.link
  unfolding record_size
  old_size = rw (inline, is_leaf_node) refl

  emptied_size : record_size (is_leaf n) emptied ≡ 0
  unfolding record_size
  emptied_size = rw (inline, is_leaf_node) refl

  pub old_le : old.key_size + old.link ≤ n.space_used
  old_le =
      let u = v.used in
      let l = records_size-le (is_leaf n) n.slots slot_id n.count bound in
      let o = old_size in omega arith

  abbrev pub deleted : Node
  deleted = record n {
    space_used = n.space_used - (old.key_size + old.link);
    slots = set_slot n.slots slot_id emptied;
  }

  pub delete_record-exact : delete_record slot_id n ≡ deleted
  unfolding delete_record
  delete_record-exact =
      let l = old_le in
      let p = v.small in
      let f = v.fits in
      let e : sub16 (sub16 n.space_used old.key_size) old.link
          ≡ n.space_used - (old.key_size + old.link) =
        omega arith in
      rw (inline, is_leaf_node, e)

  abbrev Inside : Slot → Type 0
  Inside s =
      (n.data_offset ≤ s.record_offset) × (s.record_offset + record_size (is_leaf n) s ≤ page_size)

  pub deleted-IsNode : IsNode page_size deleted
  unfolding slot_space
  deleted-IsNode = record {
    small = v.small;
    room = let r = v.room in omega arith;
    used =
        let u = v.used in
        let s = records_size-set_slot (is_leaf n) n.slots emptied slot_id n.count bound in
        let o = old_size in let z = emptied_size in omega arith;
    fits = let f = v.fits in omega arith;
    inside = λ i h. elim (dec_lt i slot_id) [
      | yes lt ↦
          subst Inside (sym (set_slot_ne n.slots slot_id i emptied (omega arith))) (v.inside i h)
      | no ge ↦ elim (dec_lt slot_id i) [
        | yes gt ↦
            subst Inside (sym (set_slot_ne n.slots slot_id i emptied (omega arith))) (v.inside i h)
        | no le ↦
            let ins = v.inside slot_id bound in
            let z = emptied_size in
            subst Inside (sym (set_slot_at n.slots slot_id i emptied (omega arith)))
              (ins.0, omega arith)
      ]
    ];
  }

  restored_slot :
      (j : ℕ)
      → set_slot deleted.slots slot_id
          (record (deleted.slots slot_id) { key_size = old.key_size; link = old.link })
          j
        ≡ n.slots j
  restored_slot j = elim (Bool-cases (j == slot_id)) [
    | inl t ↦
        let here : slot_id ≡ j = ground arith in
        let e = set_slot_at n.slots slot_id slot_id emptied refl in
        rw t (
          ap (λ (x : Slot). record x { key_size = old.key_size; link = old.link }) e
          ∙ ap n.slots here)
    | inr t ↦ rw t refl
  ]

  pub restore_record-exact : restore_record slot_id old deleted ≡ n
  restore_record-exact =
      let l = old_le in
      let p = v.small in
      let f = v.fits in
      let e : add16 (add16 (n.space_used - (old.key_size + old.link)) old.key_size) old.link
          ≡ n.space_used =
        omega arith in
      restore_inline slot_id old deleted inline (rw is_leaf_node refl)
      ∙ ap₂ (λ (u : ℕ) (slots : ℕ → Slot). record n { space_used = u; slots = slots }) e
          (fun_ext restored_slot)

  pub deleted-entry : (j : ℕ) → slot_id ≢ j → entry deleted j ≡ entry n j
  unfolding entry raw_record
  deleted-entry j ne = rw (set_slot_ne n.slots slot_id j emptied ne) refl
