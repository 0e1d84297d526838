-- ===== src/Lib.antt =====
-- interprocess: memory management in a shared memory segment, the headers under interprocess/.
--
-- The program places a manager at the start of a POSIX shared memory segment. Behind it lies the heap
-- of the block allocator, and every pointer that is stored in the segment is an offset pointer, so that
-- processes may map the segment at different addresses. Containers take their nodes from a node pool,
-- the pool takes storage from an allocator, and the allocator adapter calls the block allocator.
--
-- Errors.antt: `InterprocessErrc` of interprocess/error.h.
-- OffsetPtr.antt: `OffsetPtr` of interprocess/allocator/offset_ptr.h. `set_pointer` and `get` are
-- the members of these names, `assign` the copies, `advance` and `retreat` the operators `+=` and
-- `-=`. An address is a number below 2 ^ 64, an offset an integer.
-- Allocator.antt: the state of `SharedMemoryBlockAllocator` in
-- interprocess/allocator/detail/shared_memory_block_allocator.h, its memory kept member by member.
-- Allocator/Layout.antt has the arithmetic of alignments, Allocator/FreeList.antt the free list,
-- Allocator/Walks.antt the walks over the chain and the tests on pointers, Allocator/Calls.antt the
-- public calls and Allocator/Stats.antt `get_stats`; functions carry the names of the members. The
-- other files under Allocator/ hold what the calls do, each named for what it is about.
-- NodePool.antt: `SharedMemoryNodePool` of interprocess/container/detail/shared_memory_node_pool.h,
-- over any node allocator, which is a parameter.
-- Registry.antt: `NamedObjectRegistry` of
-- interprocess/allocator/detail/named_object_registry.h; a walk along a chain gets as fuel one
-- round more than the headers that the registry counts. Registry/Chains.antt and
-- Registry/Unlink.antt say what the calls do to the chains.
-- Sync.antt: the loop that polls until a deadline, and Sync/Mutex.antt and Sync/SharedMutex.antt:
-- `InterprocessMutex` of interprocess/sync/posix_mutex.h and `InterprocessSharedMutex` of
-- interprocess/sync/posix_shared_mutex.h, over the calls of pthread and the clock, which are
-- parameters. The loop gets as fuel an attempt per millisecond to the deadline and one more.
-- Vector.antt: `SharedMemoryVector` of interprocess/container/shared_memory_vector.h, over an
-- allocator and an element type as parameters, its slots numbered and each with the object that was
-- constructed there; Vector/Calls.antt the calls that resize, erase, assign and copy. A move that
-- `std::move_if_noexcept` chooses is a copy. The files under Vector/ hold what the calls do. Its
-- loops get a round per element, and one more where they test once more.
-- SharedList.antt: `SharedMemoryList` of interprocess/container/shared_memory_list.h, a ring of nodes
-- over the pool of NodePool.antt; SharedList/Calls.antt the calls for several elements and
-- SharedList/Splicing.antt those that move nodes, with `std::stable_sort` as a parameter. The loops get
-- one round more than the list has nodes, which is enough for a well-formed ring. The other files under
-- SharedList/ hold what the calls do.
-- StandardAllocator.antt: `SharedMemoryAllocator` of interprocess/allocator/shared_memory_allocator.h,
-- over the calls of the block allocator.
-- HashTable.antt: `SharedMemoryHashTable` of
-- interprocess/container/detail/shared_memory_hash_table.h, nodes in chains of buckets and in the
-- order of insertion, over the pool of NodePool.antt; HashTable/Calls.antt has its public calls. The
-- hash, the equality of keys, the allocators and the tests of the load, which the source computes in
-- floating point, are parameters; the hash may throw where a call of `rehash` or `reserve` links the
-- nodes anew, and in no other call, and the equality does not. A loop gets one round more than the
-- table has nodes, which is enough for a well-formed table. The other files under HashTable/ hold
-- what the calls do.
-- Manager.antt: the generation of the metadata, the write lock and the reads without a lock of
-- `SharedMemoryManager` in interprocess/allocator/shared_memory_manager.h. A reader sees the state
-- that is there at each of its loads; what writers do in between is a list of events.
-- Manager/Lifecycle.antt has the state word, `create`, `attach` and the size, over Allocator.antt
-- and Registry.antt, and Manager/Processes.antt the steps of several processes: the exchange of the
-- state word, each group of writes of the constructor, and `attach`. The lock is that of
-- Sync/Mutex.antt, with the recovery after its owner died; a build without the shared mutex is
-- modelled. The size of the manager and the version of the layout, which the platform and the build
-- decide, are parameters. The reader's 1024 attempts are those of the source.
--
-- A 64-bit word is a number below 2 ^ 64, with `+w` and `-w` the operations that wrap. A call that
-- throws gives the error with the state that it leaves behind. The walks over the chain of blocks take
-- as fuel the bound that the source counts to, `segment_size / alignment + 1`, and one more, which
-- `get_stats` does without: a block has at least 32 bytes, so a valid state has fewer blocks. The loops
-- over the free list in `allocate`, `insert_free_block`, `remove_free_block` and `get_free_memory` have
-- no bound in the source, and get the same fuel. The loop of `normalize_alignment` gets 64 rounds;
-- behind 60 of them the word is 0 for good. The pool's loops get one round more than there are
-- cached nodes.
--
-- Not modelled: the bytes of payloads, the named objects of the manager, the string, the map and
-- the wrappers of system calls. A process that dies within a call of the block allocator, and two such
-- calls at once, are not modelled: the manager's mutex keeps calls apart.
pub mod Base
pub mod Errors
pub mod OffsetPtr
pub mod Allocator
pub mod Registry
pub mod NodePool
pub mod Sync
pub mod Tests
pub mod HashTable
pub mod Manager
pub mod SharedList
pub mod StandardAllocator
pub mod Vector
