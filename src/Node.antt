-- ===== src/Node.antt =====
-- include/atomkv/node_format.h, slot.h, node.h and class Node of src/node.cpp: the layout of a B+ tree
-- page. The header and the slot array are fields, the record area is the page's bytes; a page that
-- satisfies Node/Invariant.antt keeps the two apart. uint16_t arithmetic wraps as written.
pub mod Memory
pub mod Invariant
pub mod Compactify
pub mod Store
pub mod Place
pub mod Replace
pub mod Inline
pub mod LowerBound
pub mod Overflow
pub mod Keeps
use atomkv.Prelude.{
  ℕ, zero, suc, ◌+◌, ◌-◌, ◌*◌, ◌/◌, ◌%◌, ◌^◌, Bool, true, false, not, ◌&&◌, ◌||◌, Ordering, List,
  [], ◌∷◌, ◌++◌, ltb, leb, ◌==◌, if◌then◌else◌, length,
}
use atomkv.Format.{u16_mod, u32_mod, key_max_size, value_max_size}
use atomkv.Result.{Result, Error, ok, err, key_size_exceeded, value_size_exceeded}
use atomkv.Comparator.{Key}
use atomkv.Pager.{Pager, get_ptr, get_page_count}
use atomkv.Space.{DbFile, Space, write_by_bytes, read_uint32_at, alloc}

pub data NodeType : Type 0 where
  invalid branch leaf : NodeType

abbrev pub is_leaf_type : NodeType → Bool
is_leaf_type invalid = false
is_leaf_type branch = false
is_leaf_type leaf = true

-- `left_child` and `value_size` share their bytes; `link` is both.
pub record Slot : Type 0 where
  pub record_offset : ℕ
  pub is_overflow_pages : Bool
  pub key_size : ℕ
  pub is_bucket : Bool
  pub link : ℕ

pub record Node : Type 0 where
  pub last_modified_txid : ℕ
  pub type : NodeType
  pub count : ℕ
  pub space_used : ℕ
  pub data_offset : ℕ
  pub tail_child : ℕ
  pub slots : ℕ → Slot
  pub bytes : ℕ → ℕ

-- sizeof(NodeHeader), sizeof(padding), sizeof(Slot), sizeof(OverflowRecord)
abbrev pub header_size : ℕ
header_size = 14

abbrev pub padding_size : ℕ
padding_size = 4

abbrev pub slot_size : ℕ
slot_size = 8

abbrev pub overflow_record_size : ℕ
overflow_record_size = 4

-- a += b and a -= b on uint16_t (and on the bits of an int16_t).
abbrev pub add16 : ℕ → ℕ → ℕ
add16 a b = (a + b) % u16_mod

abbrev pub sub16 : ℕ → ℕ → ℕ
sub16 a b = (a + u16_mod - b % u16_mod) % u16_mod

abbrev pub is_leaf : Node → Bool
is_leaf n = is_leaf_type n.type

-- data_->slots[i] = slot
abbrev pub set_slot : (ℕ → Slot) → ℕ → Slot → ℕ → Slot
set_slot slots i slot j = if j == i then slot else slots j

-- memmove(slots + dst, slots + src, sizeof(Slot) * n)
abbrev pub move_slots : (ℕ → Slot) → ℕ → ℕ → ℕ → ℕ → Slot
move_slots slots dst src n i =
    if leb dst i && ltb i (dst + n) then slots (src + (i - dst)) else slots i

unfoldable pub max_inline_record_size : ℕ → ℕ
max_inline_record_size page_size = (page_size - header_size - padding_size - slot_size * 2) / 2

unfoldable pub space_needed : ℕ → Bool → ℕ
space_needed record_size slot_needed =
    if not slot_needed then record_size else record_size + slot_size

unfoldable pub slot_space : Node → ℕ
slot_space n = header_size + padding_size + slot_size * n.count

unfoldable pub free_space : Node → ℕ
free_space n = sub16 n.data_offset (slot_space n)

unfoldable pub free_space_after_compaction : ℕ → Node → ℕ
free_space_after_compaction page_size n = sub16 (sub16 page_size (slot_space n)) n.space_used

-- The size of a record in the record area, as CopyRecordRange computes it.
unfoldable pub record_size : Bool → Slot → ℕ
record_size with_value slot =
    if slot.is_overflow_pages
    then overflow_record_size
    else if with_value
    then slot.key_size + slot.link
    else slot.key_size

-- `n` bytes of memory from the address on: what memcpy reads.
unfoldable pub slice : (ℕ → ℕ) → ℕ → ℕ → List ℕ
slice bytes a zero = []
slice bytes a (suc n) = bytes a ∷ slice bytes (a + 1) n

-- CopyRecordRange, `rounds` slots from `i` on: the source's slots, and data_offset, space_used and
-- bytes of the destination.
unfoldable pub copy_record_range : ℕ → ℕ → Node → Node → Node × Node
unfolding record_size slice
copy_record_range zero i src dst = (src, dst)
copy_record_range (suc rounds) i src dst =
    let slot = src.slots i in
    let size = record_size (is_leaf src) slot in
    let offset = sub16 dst.data_offset size in
    copy_record_range rounds (i + 1)
      (record src { slots = set_slot src.slots i (record slot { record_offset = offset }) })
      (record dst {
        data_offset = offset;
        space_used = add16 dst.space_used size;
        bytes = write_by_bytes dst.bytes offset (slice src.bytes slot.record_offset size);
      })

-- The node of the temporary page.
abbrev tmp_node : ℕ → (ℕ → ℕ) → Node → Node
tmp_node page_size tmp_page n = record n {
  last_modified_txid = 0;
  type = invalid;
  count = 0;
  space_used = 0;
  data_offset = page_size % u16_mod;
  bytes = tmp_page;
}

-- The tail of Compactify: the records are copied back.
abbrev copy_back : Node × Node → Node
copy_back (src, dst) = record src {
  data_offset = dst.data_offset;
  bytes = write_by_bytes src.bytes dst.data_offset (slice dst.bytes dst.data_offset dst.space_used);
}

-- Compactify, with the bytes of the pager's temporary page.
unfoldable pub compactify : ℕ → (ℕ → ℕ) → Node → Node
unfolding copy_record_range
compactify page_size tmp_page n =
    copy_back (copy_record_range n.count 0 n (tmp_node page_size tmp_page n))

-- What the operations read and change: the node, the database behind the pager, and its temporary page.
pub record NodeState : Type 0 where
  pub node : Node
  pub space : Space
  pub tmp_page : ℕ → ℕ

abbrev pub page_size_of : NodeState → ℕ
page_size_of s = s.space.pager.page_size

-- A call that may throw leaves a state in any case.
abbrev pub Exec : Type 0 → Type 0
Exec A = NodeState → Result A × NodeState

unfoldable pub request_space : NodeState → ℕ → Bool × NodeState
unfolding free_space free_space_after_compaction compactify
request_space s needed =
    if leb needed (free_space s.node)
    then (true, s)
    else if leb needed (free_space_after_compaction (page_size_of s) s.node)
    then (true, record s { node = compactify (page_size_of s) s.tmp_page s.node })
    else (false, s)

unfoldable pub stored_size : ℕ → Key → List ℕ → ℕ
unfolding max_inline_record_size
stored_size page_size key value =
    let size = length key + length value in
    if ltb (max_inline_record_size page_size) size then overflow_record_size else size

unfoldable pub request_space_for : Key → List ℕ → Bool → NodeState → Bool × NodeState
unfolding request_space stored_size space_needed
request_space_for key value slot_needed s =
    request_space s (space_needed (stored_size (page_size_of s) key value) slot_needed)

-- The two memcpy of StoreRecordToOverflowPages.
unfoldable pub write_overflow : Key → List ℕ → ℕ → Space → Space
write_overflow key value pgid space =
    let page_size = space.pager.page_size in
    let with_key = write_by_bytes space.file.bytes (get_ptr space.pager pgid 0) key in
    let with_value =
      if length value == 0
      then with_key
      else write_by_bytes with_key
          (get_ptr space.pager ((pgid + length key / page_size) % u32_mod) (length key % page_size))
          value in
    record space { file = record space.file { bytes = with_value } }

unfoldable pub store_record_to_overflow_pages : Space → Key → List ℕ → Result (ℕ × Space)
unfolding write_overflow
store_record_to_overflow_pages space key value =
    elim (alloc space (get_page_count space.pager (length key + length value))) [
      | err e ↦ err e
      | ok (pgid, space') ↦ ok (pgid, write_overflow key value pgid space')
    ]

-- The slot with the sizes of the record.
unfoldable pub sized_slot : Bool → Slot → Key → List ℕ → Slot
sized_slot with_value slot key value = record slot {
  key_size = length key % 2 ^ 15;
  link = if with_value then length value % u32_mod else slot.link;
}

-- A record of `size` bytes is placed below the others, and `bytes` are the page's bytes with it.
unfoldable pub place_record : Node → ℕ → Slot → Bool → ℕ → (ℕ → ℕ → ℕ) → Node
place_record n slot_id slot overflow size write =
    let offset = sub16 n.data_offset size in
    record n {
      data_offset = offset;
      space_used = add16 n.space_used size;
      slots =
          set_slot n.slots slot_id
            (record slot { record_offset = offset % 2 ^ 15; is_overflow_pages = overflow });
      bytes = write (offset % 2 ^ 15);
    }

-- The little-endian bytes of an OverflowRecord.
abbrev pub overflow_record : ℕ → List ℕ
overflow_record pgid =
    (pgid % 2 ^ 8) ∷ (pgid / 2 ^ 8 % 2 ^ 8) ∷ (pgid / 2 ^ 16 % 2 ^ 8) ∷ (pgid / 2 ^ 24 % 2 ^ 8) ∷ []

unfoldable pub inline_bytes : (ℕ → ℕ) → Key → List ℕ → ℕ → ℕ → ℕ
inline_bytes bytes key value offset =
    let with_key = write_by_bytes bytes offset key in
    if length value == 0 then with_key else write_by_bytes with_key (offset + length key) value

unfoldable pub store_overflow :
    ℕ → Slot → Result (ℕ × Space) → NodeState → Result (Unit {0}) × NodeState
unfolding place_record
store_overflow slot_id slot (err e) s =
    (err e, record s { node = record s.node { slots = set_slot s.node.slots slot_id slot } })
store_overflow slot_id slot (ok (pgid, space)) s = (
  ok tt,
  record s {
    space = space;
    node =
        place_record s.node slot_id slot true overflow_record_size
          (λ offset. write_by_bytes s.node.bytes offset (overflow_record pgid));
  },
)

unfoldable pub store_inline : ℕ → Slot → Key → List ℕ → NodeState → NodeState
unfolding place_record inline_bytes
store_inline slot_id slot key value s = record s {
  node =
      place_record s.node slot_id slot false (length key + length value)
        (inline_bytes s.node.bytes key value);
}

unfoldable pub store_record : ℕ → Key → List ℕ → Exec (Unit {0})
unfolding sized_slot store_overflow store_inline max_inline_record_size
store_record slot_id key value s =
    if ltb (page_size_of s) (length key) || ltb key_max_size (length key)
    then (err key_size_exceeded, s)
    else if ltb value_max_size (length value)
    then (err value_size_exceeded, s)
    else (let slot = sized_slot (is_leaf s.node) (s.node.slots slot_id) key value in
        if ltb (max_inline_record_size (page_size_of s)) (length key + length value)
        then store_overflow slot_id slot (store_record_to_overflow_pages s.space key value) s
        else (ok tt, store_inline slot_id slot key value s))

-- DeleteRecord: the record's space is given up; the sizes of an inline record become 0.
unfoldable pub delete_record : ℕ → Node → Node
delete_record slot_id n =
    let slot = n.slots slot_id in
    if slot.is_overflow_pages
    then record n { space_used = sub16 n.space_used overflow_record_size }
    else if is_leaf n
    then record n {
      space_used = sub16 (sub16 n.space_used slot.key_size) slot.link;
      slots = set_slot n.slots slot_id (record slot { key_size = 0; link = 0 });
    }
    else record n {
      space_used = sub16 n.space_used slot.key_size;
      slots = set_slot n.slots slot_id (record slot { key_size = 0 });
    }

unfoldable pub restore_record : ℕ → Slot → Node → Node
restore_record slot_id saved n =
    let slot = n.slots slot_id in
    if saved.is_overflow_pages
    then record n { space_used = add16 n.space_used overflow_record_size }
    else if is_leaf n
    then record n {
      space_used = add16 (add16 n.space_used saved.key_size) saved.link;
      slots =
          set_slot n.slots slot_id (record slot { key_size = saved.key_size; link = saved.link });
    }
    else record n {
      space_used = add16 n.space_used saved.key_size;
      slots = set_slot n.slots slot_id (record slot { key_size = saved.key_size });
    }

-- GetRecordPtr followed by a read of `size` bytes, `skip` bytes in.
unfoldable pub read_record : NodeState → ℕ → ℕ → ℕ → List ℕ
unfolding slice read_uint32_at
read_record s slot_id skip size =
    let slot = s.node.slots slot_id in
    if not slot.is_overflow_pages
    then slice s.node.bytes (slot.record_offset + skip) size
    else slice s.space.file.bytes
        (get_ptr s.space.pager (read_uint32_at s.node.bytes slot.record_offset) 0 + skip) size

unfoldable pub get_key : NodeState → ℕ → Key
unfolding read_record
get_key s slot_id = read_record s slot_id 0 (s.node.slots slot_id).key_size

-- LeafNode::GetValue
unfoldable pub get_value : NodeState → ℕ → List ℕ
unfolding read_record
get_value s slot_id =
    let slot = s.node.slots slot_id in read_record s slot_id slot.key_size slot.link

-- std::lower_bound over the slots [pos, pos + len), with the flag that the comparison sets; `fuel`
-- is at least `len`.
unfoldable pub lower_bound_loop : (ℕ → Ordering) → ℕ → ℕ → ℕ → Bool → ℕ × Bool
lower_bound_loop comp zero pos len eq = (pos, eq)
lower_bound_loop comp (suc fuel) pos len eq =
    let half = len / 2 in
    elim (len == 0) [
      | true ↦ (pos, eq)
      | false ↦ elim (comp (pos + half)) [
        | Ordering.lt ↦ lower_bound_loop comp fuel (pos + half + 1) (len - half - 1) eq
        | Ordering.eq ↦ lower_bound_loop comp fuel pos half true
        | Ordering.gt ↦ lower_bound_loop comp fuel pos half eq
      ]
    ]

unfoldable pub lower_bound : (Key → Key → Ordering) → NodeState → Key → ℕ × Bool
unfolding lower_bound_loop
lower_bound comparator s key =
    lower_bound_loop (λ i. comparator (get_key s i) key) s.node.count 0 s.node.count false
