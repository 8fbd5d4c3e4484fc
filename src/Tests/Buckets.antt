-- ===== src/Tests/Buckets.antt =====
-- An update transaction of src/tx_impl.cpp whose user bucket is one leaf.
use atomkv.BTree as BTree
use atomkv.BTree.Iterator as Iterator
use atomkv.BTree.Put as Put
use atomkv.BTree.Delete as Delete
use atomkv.Leaf as Leaf
use atomkv.Branch as Branch
use atomkv.Node as Node
use atomkv.Stack as Stack
use atomkv.Space as Space
use atomkv.Pager as Pager
use atomkv.StdMap as StdMap
use atomkv.Comparator as Comparator
use atomkv.Tx as Tx
use atomkv.Prelude.{ℕ, ◌≡◌, refl, true, [], ◌∷◌, arith, none, false}
use atomkv.Comparator.{byte_array_comp_func}
use atomkv.Format.{user_root_bucket_id}
use atomkv.Pager.Covers.{covers}
use atomkv.BTree.Descent.{Reach, root, child}
use atomkv.Tx.{TxImpl, user, user_root, root_pgid, at_sub_bucket, tree_of, put, delete}
use atomkv.Tx.CopyOnWrite.{KeepsShared, IsWritable, changes-KeepsShared}
use atomkv.Space.InUse.{Fits}
use atomkv.Space.{Space}
use atomkv.Tests.Allocator.{pager-IsFreeMap}
use atomkv.Tests.Trees.{leaf_page}
use atomkv.TxManager.{append_put_log, append_delete_log, copy_needed, is_tx_expired}
use atomkv.Tests.Transactions.{counting_writer, db}

abbrev tx : TxImpl counting_writer
tx = record {
  db = db;
  pages = λ p. leaf_page 5;
  tmp_page = λ a. 0;
  user_bucket = record {
    bucket_id = user_root_bucket_id;
    root = user_root;
    writable = true;
    sub_bucket_map = none;
  };
  sub_bucket_cache = [];
}

only_root : (p : ℕ) → Reach (tree_of counting_writer byte_array_comp_func user tx) p → p ≡ 33
unfolding tree_of root_pgid at_sub_bucket
only_root p (root valid) = refl
only_root p (child q j r b h) = absurd (cc)

tx-IsWritable : IsWritable counting_writer byte_array_comp_func user tx
unfolding tree_of covers
tx-IsWritable = record {
  good = record {
    sound = record {
      well_formed = pager-IsFreeMap;
      below = λ p h. ground arith;
      page = omega arith;
    };
    consistent = λ p q h. refl;
  };
  tree = record {
    in_use = λ p r. rw (only_root p r) (omega arith, refl);
    closed = λ p j r b h o. absurd (cc);
  };
}

-- 41 pages of 4096 bytes.
abbrev IsSmall : Space → Type 0
IsSmall s = (s.meta.page_count ≡ 41) × (s.pager.page_size ≡ 4096)

pub IsSmall-Fits : (s : Space) → IsSmall s → Fits s
IsSmall-Fits s (e1, e2) = rw (e1, e2) (omega arith)

results-IsSmall :
    IsSmall (put counting_writer byte_array_comp_func user (6 ∷ []) (1 ∷ []) false tx).1.db.space
    × IsSmall (delete counting_writer byte_array_comp_func user (6 ∷ []) tx).1.db.space
unfolding Tx.find Tx.insert Tx.assign Tx.then_run Tx.at_sub_bucket Tx.set_bucket Tx.set_map
    Tx.root_pgid Tx.set_root_pgid Tx.bucket_of Tx.tree_of Tx.call Tx.get Tx.lower_bound Tx.begin
    Tx.put Tx.delete Tx.update Tx.delete_at Tx.new_sub_bucket Tx.delete_sub_bucket Tx.reserve
    Tx.stored_root Tx.open_sub_bucket Tx.sub_bucket Tx.put_roots Tx.put_sub_buckets Tx.commit
    Tx.rollback append_put_log append_delete_log copy_needed is_tx_expired BTree.then_run
    BTree.◌>>=◌ BTree.◌>>◌ BTree.return BTree.read BTree.run BTree.run_state BTree.run_node
    BTree.set_root BTree.alloc_page BTree.free_page BTree.get_fill_rate BTree.is_filled
    BTree.is_over_half BTree.copy Iterator.push Iterator.pop Iterator.set_slot_at Iterator.down_into
    Iterator.down Iterator.descend Iterator.lower_bound Iterator.link_lower Iterator.copy_path
    Iterator.copy_all_pages_by_path Put.put_at Put.search_to_change Put.insert Put.put
    Delete.get_sibling Delete.copy_sibling Delete.merge_leaf_loop Delete.merge_leaf
    Delete.update_or_put Delete.shrink_root Delete.delete_up Delete.delete_at Delete.delete
    Leaf.set_is_bucket Leaf.open_slot Leaf.insert Leaf.update Leaf.drop_record Leaf.close_slot
    Leaf.delete Branch.get_left_child Branch.set_left_child Branch.get_right_child
    Branch.set_right_child Branch.update_key Branch.insert_child Branch.delete_child Branch.delete
    Node.max_inline_record_size Node.space_needed Node.slot_space Node.free_space
    Node.free_space_after_compaction Node.record_size Node.slice Node.copy_record_range
    Node.compactify Node.request_space Node.stored_size Node.request_space_for Node.store_record
    Node.delete_record Stack.at_pos Space.alloc Pager.first_fit Pager.alloc_from_map Pager.free
    Pager.get_ptr StdMap.erase StdMap.insert Comparator.byte_array_comp_func Node.get_key
results-IsSmall = ((refl, refl), (refl, refl))

changes-KeepsShared_example :
    KeepsShared counting_writer byte_array_comp_func tx
      (put counting_writer byte_array_comp_func user (6 ∷ []) (1 ∷ []) false tx).1
    × KeepsShared counting_writer byte_array_comp_func tx
        (delete counting_writer byte_array_comp_func user (6 ∷ []) tx).1
changes-KeepsShared_example =
    changes-KeepsShared counting_writer byte_array_comp_func user (6 ∷ []) (1 ∷ []) false tx
      tx-IsWritable
      (IsSmall-Fits
        (put counting_writer byte_array_comp_func user (6 ∷ []) (1 ∷ []) false tx).1.db.space
        results-IsSmall.0)
      (IsSmall-Fits (delete counting_writer byte_array_comp_func user (6 ∷ []) tx).1.db.space
        results-IsSmall.1)
