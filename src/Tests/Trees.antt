-- ===== src/Tests/Trees.antt =====
-- A tree of src/btree.cpp: a branch with one key over two leaves with one record each.
use atomkv.BTree as BTree
use atomkv.BTree.Iterator as Iterator
use atomkv.BTree.Put as Put
use atomkv.BTree.Delete as Delete
use atomkv.Leaf as Leaf
use atomkv.Branch as Branch
use atomkv.Node as Node
use atomkv.Stack as Stack
use atomkv.Space as Space
use atomkv.Pager as Pager
use atomkv.StdMap as StdMap
use atomkv.Comparator as Comparator
use atomkv.Prelude.{
  ℕ, ◌+◌, ◌*◌, ◌%◌, ◌≤◌, ◌≡◌, refl, sym, ap, ap₂, subst, ◌∙◌, true, false, Ordering, [], ◌∷◌, arith,
  ◌==◌, if◌then◌else◌, ltb, ◌⊎◌, inl, inr, Bool-cases,
}
use atomkv.Comparator.{byte_array_comp_func, memcmp}
use atomkv.Format.{u32_mod}
use atomkv.Pager.{get_ptr}
use atomkv.Space.{Space}
use atomkv.Space.InUse.{Fits}
use atomkv.Pager.Covers.{covers}
use atomkv.Node.{Node, leaf, branch, is_leaf, get_key, slice, read_record}
use atomkv.Node.LowerBound.{IsAscending}
use atomkv.Branch.{get_left_child}
use atomkv.BTree.{Bucket, TreeState}
use atomkv.BTree.Iterator.{is_eq, lower_bound, get, begin, end}
use atomkv.BTree.Put.{insert, put}
use atomkv.BTree.Delete.{delete}
use atomkv.BTree.Steps.{IsGood, Owned}
use atomkv.BTree.Descent.{Reach, root, child, IsTree}
use atomkv.BTree.Entries.{slots_from, children_from, entries, IsFilled}
use atomkv.BTree.Walk.{visits, visits-entries}
use atomkv.BTree.Backward.{IsBackward, prevs, prevs-IsBackward}
use atomkv.BTree.CopyOnWrite.{CopiesOnWrite, changes-CopiesOnWrite}
use atomkv.BTree.Ordered.{IsOfHeight, IsSearchTree, HasEntry, Finds, comp_at}
use atomkv.BTree.Search.{Ends, lower_bound-Ends, get-Finds}
use atomkv.Tests.Allocator.{pager-IsFreeMap}
use atomkv.Tests.Database.{space}

abbrev bucket : Bucket
bucket = record { comparator = byte_array_comp_func; txid = 9; copy_needed = λ txid. ltb txid 9 }

-- One record, of a key byte and a value byte, at 4094; in a branch a key of one byte.
abbrev pub leaf_page : ℕ → Node
leaf_page k = record {
  last_modified_txid = 4;
  type = leaf;
  count = 1;
  space_used = 2;
  data_offset = 4094;
  tail_child = 0;
  slots = λ i. record {
    record_offset = 4094;
    is_overflow_pages = false;
    key_size = 1;
    is_bucket = false;
    link = 1;
  };
  bytes = λ a. if a == 4094 then k else 0;
}

abbrev branch_page : Node
branch_page = record {
  last_modified_txid = 4;
  type = branch;
  count = 1;
  space_used = 1;
  data_offset = 4095;
  tail_child = 34;
  slots = λ i. record {
    record_offset = 4095;
    is_overflow_pages = false;
    key_size = 1;
    is_bucket = false;
    link = 33;
  };
  bytes = λ a. if a == 4095 then 7 else 0;
}

-- The nodes by page id, among the pages whose addresses do not wrap.
abbrev nodes : ℕ → Node
nodes q = if q == 35 then branch_page else if q == 33 then leaf_page 5 else leaf_page 7

abbrev tree : TreeState
tree = record { pages = λ p. nodes (p % 1048576); space = space; tmp_page = λ a. 0; root_pgid = 35 }

pub same_address :
    (p q : ℕ) → (p * 4096) % u32_mod + 0 ≡ (q * 4096) % u32_mod + 0 → p % 1048576 ≡ q % 1048576
same_address p q h = omega arith

tree-IsGood : IsGood tree
unfolding covers get_ptr
tree-IsGood = record {
  sound = record { well_formed = pager-IsFreeMap; below = λ p h. ground arith; page = omega arith };
  consistent = λ p q h. ap nodes (same_address p q (ground arith));
}

Reach-pages : (p : ℕ) → Reach tree p → (p ≡ 35) ⊎ ((p ≡ 33) ⊎ (p ≡ 34))
unfolding get_left_child
Reach-pages p (root valid) = inl refl
Reach-pages p (child q j r b h) = elim (Reach-pages q r) [
  | inl e ↦
      rw e (elim (Bool-cases (j == 1)) [
        | inl l ↦ rw l (inr (inr refl))
        | inr l ↦ rw l (inr (inl refl))
      ])
  | inr (inl e) ↦ absurd (let f : is_leaf (tree.pages q) ≡ true = rw e refl in cc (f, b))
  | inr (inr e) ↦ absurd (let f : is_leaf (tree.pages q) ≡ true = rw e refl in cc (f, b))
]

all_of_4 : (p : ℕ) → (tree.pages p).last_modified_txid ≡ 4
all_of_4 p = elim (Bool-cases (p % 1048576 == 35)) [
  | inl e ↦ rw e refl
  | inr e ↦ elim (Bool-cases (p % 1048576 == 33)) [
    | inl f ↦ rw (e, f) refl
    | inr f ↦ rw (e, f) refl
  ]
]

none-Owned : (p : ℕ) → ¬ (Owned bucket tree p)
none-Owned p o =
    let e : ltb (tree.pages p).last_modified_txid 9 ≡ true = rw (all_of_4 p) refl in cc (e, o)

tree-IsTree : IsTree bucket tree
unfolding covers
tree-IsTree = record {
  in_use = λ p r. elim (Reach-pages p r) [
    | inl e ↦ rw e (omega arith, refl)
    | inr (inl e) ↦ rw e (omega arith, refl)
    | inr (inr e) ↦ rw e (omega arith, refl)
  ];
  closed = λ p j r b h o. absurd (none-Owned (get_left_child (tree.pages p) j) o);
}

-- 40 pages of 4096 bytes.
abbrev pub IsSmall : Space → Type 0
IsSmall s = (s.meta.page_count ≡ 40) × (s.pager.page_size ≡ 4096)

pub IsSmall-Fits : (s : Space) → IsSmall s → Fits s
IsSmall-Fits s (e1, e2) = rw (e1, e2) (omega arith)

results-IsSmall :
    IsSmall (insert bucket (7 ∷ []) (1 ∷ []) false tree).1.space
    × IsSmall (put bucket (7 ∷ []) (1 ∷ []) false tree).1.space
    × IsSmall (delete bucket (7 ∷ []) tree).1.space
unfolding BTree.then_run BTree.◌>>=◌ BTree.◌>>◌ BTree.return BTree.read BTree.run BTree.run_state
    BTree.run_node BTree.set_root BTree.alloc_page BTree.free_page BTree.get_fill_rate
    BTree.is_filled BTree.is_over_half BTree.copy Iterator.push Iterator.pop Iterator.set_slot_at
    Iterator.down_into Iterator.down Iterator.descend Iterator.lower_bound Iterator.link_lower
    Iterator.copy_path Iterator.copy_all_pages_by_path Put.put_at Put.search_to_change Put.insert
    Put.put Delete.get_sibling Delete.copy_sibling Delete.merge_leaf_loop Delete.merge_leaf
    Delete.update_or_put Delete.shrink_root Delete.delete_up Delete.delete_at Delete.delete
    Leaf.set_is_bucket Leaf.open_slot Leaf.insert Leaf.update Leaf.drop_record Leaf.close_slot
    Leaf.delete Branch.get_left_child Branch.set_left_child Branch.get_right_child
    Branch.set_right_child Branch.update_key Branch.insert_child Branch.delete_child Branch.delete
    Node.max_inline_record_size Node.space_needed Node.slot_space Node.free_space
    Node.free_space_after_compaction Node.record_size Node.slice Node.copy_record_range
    Node.compactify Node.request_space Node.stored_size Node.request_space_for Node.store_record
    Node.delete_record Stack.at_pos Space.alloc Pager.first_fit Pager.alloc_from_map Pager.free
    Pager.get_ptr StdMap.erase StdMap.insert Comparator.byte_array_comp_func Node.get_key
results-IsSmall = ((refl, refl), (refl, refl), (refl, refl))

changes-CopiesOnWrite_example :
    CopiesOnWrite bucket tree (insert bucket (7 ∷ []) (1 ∷ []) false tree).1
    × CopiesOnWrite bucket tree (put bucket (7 ∷ []) (1 ∷ []) false tree).1
    × CopiesOnWrite bucket tree (delete bucket (7 ∷ []) tree).1
changes-CopiesOnWrite_example =
    changes-CopiesOnWrite bucket refl (7 ∷ []) tree tree-IsGood tree-IsTree (1 ∷ []) false
      (IsSmall-Fits (insert bucket (7 ∷ []) (1 ∷ []) false tree).1.space results-IsSmall.0)
      (IsSmall-Fits (put bucket (7 ∷ []) (1 ∷ []) false tree).1.space results-IsSmall.1)
      (IsSmall-Fits (delete bucket (7 ∷ []) tree).1.space results-IsSmall.2)

one_below : (j : ℕ) → j ≤ 1 → (j ≡ 0) ⊎ (j ≡ 1)
one_below j h = ground arith

tree-IsOfHeight : IsOfHeight bucket (7 ∷ []) tree 1 35
unfolding IsOfHeight get_left_child
tree-IsOfHeight = (refl, λ j h. elim (one_below j h) [ inl e ↦ rw e refl | inr e ↦ rw e refl ])

lower_bound-Ends_example : Ends bucket (7 ∷ []) tree (1 + 1) (lower_bound bucket (7 ∷ []) tree)
lower_bound-Ends_example =
    lower_bound-Ends bucket (7 ∷ []) tree 1 refl tree-IsOfHeight (omega arith)

-- One element is in order.
one-IsAscending : (comp : ℕ → Ordering) → IsAscending 1 comp
one-IsAscending comp = record {
  less = λ i j h1 h2 e. let same : j ≡ i = omega arith in ap comp (sym same) ∙ e;
  greater = λ i j h1 h2 e. let same : i ≡ j = omega arith in ap comp (sym same) ∙ e;
}

abbrev comp : ℕ → ℕ → Ordering
comp = comp_at bucket (7 ∷ []) tree

less : comp 33 0 ≡ Ordering.lt
unfolding get_key read_record slice byte_array_comp_func memcmp
less = refl

equal : comp 35 0 ≡ Ordering.eq
unfolding get_key read_record slice byte_array_comp_func memcmp
equal = refl

tree-IsSearchTree : IsSearchTree bucket (7 ∷ []) tree 1 35
unfolding IsSearchTree HasEntry get_left_child
tree-IsSearchTree = (
  one-IsAscending (comp 35),
  λ i j lt h e. absurd (omega arith),
  λ j h. elim (one_below j h) [
    | inl e ↦ rw e (one-IsAscending (comp 33))
    | inr e ↦ rw e (one-IsAscending (comp 34))
  ],
  λ j e h m g.
      let z : j ≡ 0 = omega arith in
      let m' = subst (λ k. HasEntry bucket (7 ∷ []) tree 0 (get_left_child branch_page k) e) z m in
      let first : e.1 ≡ 0 = let b = m'.1 in ground arith in ap₂ comp m'.0 first ∙ less,
  λ j e h m g. let z : j ≡ 0 = omega arith in let q = ap (comp 35) z ∙ equal in absurd (cc (q, g)),
)

get-Finds_example :
    Finds bucket (7 ∷ []) tree 1 35 (get bucket (7 ∷ []) tree)
    × (is_eq (get bucket (7 ∷ []) tree).status ≡ false → get bucket (7 ∷ []) tree ≡ end)
get-Finds_example =
    get-Finds bucket (7 ∷ []) tree 1 refl tree-IsOfHeight (omega arith) tree-IsSearchTree

tree-IsFilled : IsFilled tree 1 35
unfolding IsFilled get_left_child
tree-IsFilled = (
  refl,
  λ j h. elim (one_below j h) [ inl e ↦ rw e refl | inr e ↦ rw e refl ],
  λ j h. elim (one_below j h) [
    | inl e ↦ rw e (refl, omega arith)
    | inr e ↦ rw e (refl, omega arith)
  ],
)

visits-entries_example : visits 3 tree (begin tree) ≡ (33, 0) ∷ (34, 0) ∷ []
unfolding entries slots_from children_from get_left_child
visits-entries_example = visits-entries tree 1 3 refl tree-IsFilled (omega arith) (omega arith)

prevs-IsBackward_example : IsBackward tree (prevs tree 3 end)
prevs-IsBackward_example = prevs-IsBackward tree 3 refl
