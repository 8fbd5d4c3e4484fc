-- ===== src/BTree.antt =====
-- Class BTree of src/btree.cpp: what its operations read and change. The pages that hold nodes are kept decoded,
-- by page id; the record pages are bytes of the mapped file, whose addresses GetPtr computes for both. Assertions are compiled out (NDEBUG), and a Page
-- object only counts references, so it is its page id.
pub mod Iterator
pub mod Put
pub mod Delete
pub mod Steps
pub mod Writes
pub mod Path
pub mod PutSteps
pub mod UpSteps
pub mod DeleteSteps
pub mod PathCopy
pub mod Descent
pub mod CopyOnWrite
pub mod Ordered
pub mod Search
pub mod Entries
pub mod Rounds
pub mod Walk
pub mod Backward
use atomkv.Prelude.{
  ℕ, suc, ◌+◌, ◌-◌, ◌*◌, ◌%◌, ◌^◌, Bool, true, false, ltb, leb, ◌==◌, Ordering, if◌then◌else◌,
}
use atomkv.Format.{page_invalid_id, u64_mod}
use atomkv.Result.{Result, ok, err}
use atomkv.Comparator.{Key}
use atomkv.Pager.{Pager, free, get_ptr}
use atomkv.Space.{Space, alloc}
use atomkv.Node.{
  NodeType, invalid, branch, leaf, Node, NodeState, Exec, page_size_of, header_size, padding_size,
  free_space_after_compaction, is_leaf_type, get_key,
}
use atomkv.Branch.{get_left_child}

-- What the tree asks of its bucket: the comparator, and the open transaction's id and CopyNeeded.
pub record Bucket : Type 0 where
  pub comparator : Key → Key → Ordering
  pub txid : ℕ
  pub copy_needed : ℕ → Bool

pub record TreeState : Type 0 where
  pub pages : ℕ → Node
  pub space : Space
  pub tmp_page : ℕ → ℕ
  pub root_pgid : ℕ

-- A call that may throw leaves a state in any case.
abbrev pub TreeExec {ℓ} : Type ℓ → Type ℓ
TreeExec A = TreeState → Result A × TreeState

unfoldable pub then_run {ℓ κ} :
    {A : Type ℓ} {B : Type κ} → Result A × TreeState → (A → TreeExec B) → Result B × TreeState
then_run (ok a, t) k = k a t
then_run (err e, t) k = (err e, t)

infixl 5 ◌>>=◌
unfoldable pub ◌>>=◌ {ℓ κ} : {A : Type ℓ} {B : Type κ} → TreeExec A → (A → TreeExec B) → TreeExec B
(m >>= k) t = then_run (m t) k

infixl 5 ◌>>◌
unfoldable pub ◌>>◌ {ℓ} : {B : Type ℓ} → TreeExec (Unit {0}) → TreeExec B → TreeExec B
m >> k = m >>= (λ done. k)

unfoldable pub return {ℓ} : {A : Type ℓ} → A → TreeExec A
return a t = (ok a, t)

-- A page's node as the operations of LeafNode and BranchNode see it.
abbrev pub node_at : TreeState → ℕ → NodeState
node_at t pgid = record { node = t.pages pgid; space = t.space; tmp_page = t.tmp_page }

-- GetPtr gives both pages the same address. From 4 GiB on different pages have one address, since its product has 32
-- bits.
abbrev pub same_place : Pager → ℕ → ℕ → Bool
same_place pager p q = get_ptr pager p 0 == get_ptr pager q 0

-- A node is written at the address of its page, so it is then the node of every page with that address. The page
-- sizes are powers of two: two pages have the same address, or they do not overlap.
abbrev pub set_page : Pager → (ℕ → Node) → ℕ → Node → ℕ → Node
set_page pager pages pgid n p = if same_place pager p pgid then n else pages p

abbrev pub put_back : ℕ → NodeState → TreeState → TreeState
put_back pgid s t = record t { pages = set_page s.space.pager t.pages pgid s.node; space = s.space }

-- What `f` reads of the page.
unfoldable pub read {ℓ} : {A : Type ℓ} → ℕ → (NodeState → A) → TreeExec A
read pgid f t = (ok (f (node_at t pgid)), t)

abbrev put_result {ℓ} : {A : Type ℓ} → ℕ → TreeState → Result A × NodeState → Result A × TreeState
put_result pgid t (r, s) = (r, put_back pgid s t)

-- An operation on the page that may throw, one that may not, and one on the node alone.
unfoldable pub run : ℕ → Exec Bool → TreeExec Bool
run pgid op t = put_result pgid t (op (node_at t pgid))

unfoldable pub run_state : ℕ → (NodeState → NodeState) → TreeExec (Unit {0})
run_state pgid op t = (ok tt, put_back pgid (op (node_at t pgid)) t)

unfoldable pub run_node : ℕ → (Node → Node) → TreeExec (Unit {0})
run_node pgid f t =
    (ok tt, record t { pages = set_page t.space.pager t.pages pgid (f (t.pages pgid)) })

unfoldable pub set_root : ℕ → TreeExec (Unit {0})
set_root pgid t = (ok tt, record t { root_pgid = pgid })

abbrev alloc_result : TreeState → Result (ℕ × Space) → Result ℕ × TreeState
alloc_result t (ok (pgid, space)) = (ok pgid, record t { space = space })
alloc_result t (err e) = (err e, t)

-- pager().Alloc(1)
unfoldable pub alloc_page : TreeExec ℕ
alloc_page t = alloc_result t (alloc t.space 1)

-- pager().Free(pgid, 1)
unfoldable pub free_page : ℕ → TreeExec (Unit {0})
free_page pgid t = (
  ok tt,
  record t { space = record t.space { pager = free t.space.pager t.space.meta.txid pgid 1 } },
)

-- IsBranch
abbrev pub is_branch_type : NodeType → Bool
is_branch_type invalid = false
is_branch_type branch = true
is_branch_type leaf = false

abbrev pub is_branch : Node → Bool
is_branch n = is_branch_type n.type

-- Node::count
abbrev pub count_of : NodeState → ℕ
count_of s = s.node.count

-- GetFillRate, as the fraction used_space / max_space of numbers of 64 bits. The pages are at most 2^15 bytes long,
-- so its comparison with 0.4 and 0.5 in doubles is the comparison of fractions.
unfoldable pub get_fill_rate : ℕ → Node → ℕ × ℕ
get_fill_rate page_size n =
    let max_space = page_size - header_size - padding_size in
    ((max_space + (u64_mod - free_space_after_compaction page_size n)) % u64_mod, max_space)

-- GetFillRate() >= 0.4
unfoldable pub is_filled : NodeState → Bool
unfolding get_fill_rate
is_filled s =
    let (used_space, max_space) = get_fill_rate (page_size_of s) s.node in
    leb (2 * max_space) (5 * used_space)

-- GetFillRate() > 0.5
unfoldable pub is_over_half : NodeState → Bool
unfolding get_fill_rate
is_over_half s =
    let (used_space, max_space) = get_fill_rate (page_size_of s) s.node in
    ltb max_space (2 * used_space)

-- Node::Copy over Pager::Copy: the page's bytes go to a new page, which belongs to the open transaction, and the page
-- is freed.
unfoldable pub copy : Bucket → ℕ → TreeExec ℕ
copy bucket pgid = do
  new_pgid ← alloc_page
  n ← read pgid (λ s. s.node)
  run_node new_pgid (λ _. n)
  free_page pgid
  run_node new_pgid (λ m. record m { last_modified_txid = bucket.txid })
  return new_pgid
