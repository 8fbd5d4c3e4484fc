-- ===== src/Lib.antt =====
-- atomkv: an embedded key-value store with a B+ tree in a memory-mapped file, copy-on-write transactions
-- and an optional write-ahead log.
--
-- A database file is a row of pages. Pages 0 and 1 hold two copies of the meta data, which say where the
-- tree and the free list are; a commit writes the copy that is not in use. The pager hands out pages: from
-- its map of free pages, or behind the last page. Pages that a transaction frees stay pending until no
-- reader can see them. The transaction manager runs one write transaction beside any number of readers;
-- it decides at the start of each write transaction which pending pages become free, and at the commit
-- saves the free list and the meta data, or appends to the log. The nodes of the tree lie in pages:
-- a header, an array of slots that grows up, and records that grow down; a record that is too large
-- for the page lies in overflow pages.
--
-- Which file is about which part (paths from the repository's root):
--   Comparator   include/atomkv/comparator.h: byte_array_comp_func, uint32_comp_func, uint64_comp_func
--   Format       include/atomkv/page_format.h, tx_format.h, slot.h, meta_format.h: constants, MetaStruct
--   Result       the exceptions as values
--   StdMap       std::map with integer keys, as a sorted list of entries
--   Pager        src/pager.cpp on the free map, the pending map and the allocation records:
--                FreeToMap, AllocFromMap, Free, Rollback, Release, GetPageCount, GetPtr, GetPageIdByPtr
--   Space        src/pager.cpp and src/db_impl.cpp where they extend or write the file: Alloc,
--                SaveFreeList, LoadFreeList, WriteByBytes, Remmap. `Space` is the pager, the meta_struct of
--                the open write transaction, and the mapped file, a function from addresses to bytes
--   Meta         src/meta.cpp: Init, Load, Save, Switch, Reset over the two copies
--   Node         src/node.cpp, class Node. `Node` is a page: the header's fields, the slots as a function,
--                and the bytes; `NodeState` adds the Space and the bytes of the pager's temporary page
--   Leaf         src/node.cpp, class LeafNode
--   Branch       src/node.cpp, class BranchNode
--   Stack        include/atomkv/stack.h: the path of a tree iterator
--   BTree        src/btree.cpp and src/btree_iterator.cpp. `TreeState` holds the nodes by page id, the Space,
--                the temporary page and the root; a call that changes it is a TreeExec. BTree/Iterator is
--                the iterator with CopyAllPagesByPath, BTree/Put is Split, Put, Insert and Update, and
--                BTree/Delete is GetSibling, Merge and Delete. `Bucket` is what the tree asks of its
--                bucket: the comparator, the id of the transaction and CopyNeeded
--   Db           the state behind DBImpl: modes, log headers, meta data, Space, and what TxManager and
--                Logger keep; the interface of wal::Writer
--   Logger       src/logger.cpp: AppendLog, FlushLog, Reset, Checkpoint
--   Recover      src/logger.cpp: Recover, record by record; the buckets are an interface
--   TxManager    src/tx_manager.cpp and src/tx_impl.cpp: Update, View, RollBack, Commit, CopyNeeded
--   Tx           src/tx_impl.cpp and src/bucket_impl.cpp: the buckets of an update transaction and their
--                write-back at the commit; Tx/Handles is UpdateTx, ViewTx and UpdateBucket
--   Opening      src/db_impl.cpp: DB::Open and the destructor of DBImpl, with those of src/logger.cpp. `Files` is
--                what Open finds on the disk
--   Tests        runs on small inputs
--
-- Numbers are natural numbers with the wrap-around of uint16_t, uint32_t and uint64_t written out where the
-- code computes with them; a difference of unsigned numbers adds the modulus first. A function that
-- throws returns an error; where the code leaves a changed state behind (Exec in Node), so does
-- the model. The loop of LowerBound runs on fuel, the number of slots, which is enough as every round
-- halves the range; the 31 rounds of Remmap are those of the code; a loop that goes down the tree has 33
-- rounds, as the path of an iterator has room for 32 pages, and a loop that goes up a path
-- has a round for each of its pages, or one more; all other loops run over a list or a number of slots.
--
-- Where FreeToMap decrements the first position of the free map, the behaviour of the program is undefined:
-- `is_defined` says where it does not, and the map is then `undefined_map`, of which nothing is stated.
--
-- Parameters: the checksum object wal::Crc32 (Meta.Crc32) and the log writer wal::Writer (Db.WalWriter) are
-- not in the repository, nor is wal::Reader, whose records are an argument of Recover and a field of Files;
-- mio::page_size is an argument of Open. std::map,
-- std::vector, memcpy, memmove and memcmp are modelled as the language describes them.
--
-- Not modelled: the locks (every operation is one step, as the locks make it), the sync and the mapping calls
-- of the operating system but for the error that a sync may report, checks that only a debug build has,
-- and BucketImpl::DeleteSubBucket, which follows an iterator that may be the end. Slots and bytes of a page
-- do not overlap in the model; Node/Invariant.antt states when that is so in the page. Of the mapped file,
-- the model keeps the pages that hold nodes decoded, by page id, and the records in overflow pages and the
-- free list as bytes, both at the address that GetPtr computes: a node is written to all page ids with the
-- address of its page, and the bytes of a record can meet those of any page. That a node and a record
-- do not meet is what BTree/CopyOnWrite states of the pages in use; it holds below 4 GiB, where the
-- addresses do not wrap.
-- Assertions are taken as compiled out.
pub mod BTree
pub mod Branch
pub mod Comparator
pub mod Db
pub mod Format
pub mod Leaf
pub mod Logger
pub mod Meta
pub mod Node
pub mod Opening
pub mod Pager
pub mod Prelude
pub mod Recover
pub mod Result
pub mod Space
pub mod Stack
pub mod StdMap
pub mod Tests
pub mod Tx
pub mod TxManager
