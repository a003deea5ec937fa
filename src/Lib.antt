-- ===== src/Lib.antt =====
-- Verification library of lamellar-runtime: the parts of the runtime whose correctness does not rest on
-- the network or on the executor, with what they rely on as parameters.
--
-- The runtime runs one process, a PE, on each node; PEs form teams, and teams share distributed
-- objects. A `LamellarArchRT` translates the ids of a team's PEs. A `Barrier` of a team
-- synchronises its PEs, by messages to the PEs that the arch names. The lamellae keep the memory
-- that PEs reach remotely, and an allocator of src/lamellar_alloc.rs places objects in it, among
-- them the inner part of a `Darc`. Active messages of a PE are gathered in batches and serialized,
-- and a PE that receives a buffer takes them apart again. A PE sends these buffers through the
-- command queues of the lamellae: it fills buffers with commands, announces a buffer to its
-- destination, and takes it back when the destination has copied the buffer and then fetched what
-- its commands refer to. A `GlobalRwDarc` keeps its lock in there, on PE 0, and the others reach it
-- by active messages. A `LamellarArray` spreads its elements over the PEs of its team; the index
-- functions of an `UnsafeArray`, on which every other array type stands, say which PE holds which
-- element.
--
-- Files, with the paths of the sources from the repository's root:
--   Prelude         words of 64 bits with their wrap, Boolean tests, lists with native indexes, products.
--   Alloc           src/lamellar_alloc.rs: `calc_padding`; Alloc/Padding what it computes.
--   Alloc/Linear    `LinearAlloc`: `new`, `init`, `try_malloc` (in `find_gap`, `place` and the two cases of an
--                   empty vector), `fake_malloc`, `malloc`, `free` (in `take_entry` and `release`),
--                   `space_avail`, `occupied`. Gap: the search. Invariant: what a valid heap is, and
--                   `try_malloc`. Release: `free`. Search: when an attempt fails. Retry: `malloc`.
--                   Overrun: an empty heap.
--   Alloc/Obj       `ObjAlloc`: `new`, `init`, `try_malloc`, `fake_malloc`, `free`, `space_avail`, `occupied`. Slots: what
--                   `init` makes free. Clients: who holds what. Limits: the last slot and the dry run.
--   Alloc/BTree     `FreeEntries` and `BTreeAlloc`: `merge`, `remove_size`, `try_malloc` (in `take_area`, `split` and
--                   `hand_out`), `malloc`, `fake_malloc`, `free` (in `join_before`, `join_after`, `drop_area` and
--                   `enter`). Keys, Sizes, Emptied: the maps. Areas: free areas in both of them. Take, Merge: what is
--                   taken and what is merged. Heap: what a valid heap is. Attempt: `try_malloc`. Joins,
--                   Release: `free`.
--   ActiveMessages  src/active_messaging/registered_active_message.rs and src/active_messaging/batching/simple_batcher.rs.
--                   Messages: headers and requests, and what bincode and the generated code give. Batcher: how a
--                   batch is filled and serialized. Registered: `process_msg`, the messages sent by themselves, and
--                   `exec_msg`. Tasks: the threads and tasks that share a batch. Wire, Serialized, Batches: from
--                   entries to bytes and back. Pending, Delivery: what the tasks do with what is added. Process:
--                   what `process_msg` does with each message.
--   CommandQueues   src/lamellae/command_queues.rs. Hash: `calc_hash`. Messages: `CmdMsg`, its hash, and `ready`. Bufs:
--                   `CmdBuf` and `CmdMsgBuffer`. Link: `try_sending_buffer`, `progress_transfers` and the loops
--                   of `send`. Exchange: a link and its receiver as one system. Places, Owned, Pushing,
--                   Sending, Freeing, Progress, Single, Turns, Overwrite: what each operation does. Conserved, Drained,
--                   Transfers, Data: what holds in every reachable state, and of the data.
--   Arch            src/lamellar_arch.rs: the trait `LamellarArch` as a table of its methods and what its
--                   documentation asks of them. Global, Strided, Blocked: the implementors. Any:
--                   `LamellarArchEnum`. Team: `LamellarArchRT` and its iterator; Team/Ids, Team/Iterate
--                   and Team/Subset what they do.
--   Darc/RwLock     src/darc/global_rw_darc.rs: `DistRwLock`, with its readers and writers as tasks that
--                   take turns, one atomic access each. Turns, Invariant and Exclusion: what holds
--                   in every reachable state.
--   Darc/Counts     src/darc.rs: the reference counts of a `Darc`, `send_finished`, `drop` and `FinishedAm`. Tallies,
--                   Handles, Reports, Balance: what the counts are in every reachable state. Drops: the operations as steps.
--   Array           src/array/unsafe.rs: `new`, `sub_array`, and the index functions by their distribution.
--                   Array/Block: the block arm, with `f64` as a parameter. Split, Local: its laws
--                   where the arithmetic splits the array; Exact: exact fractions do. Array/Cyclic:
--                   the cyclic arm. Layout, Local: its laws. Array/New: what `new` makes.
--   Array/Iter      src/array/iterator/distributed_iterator.rs and its take.rs and skip.rs: `DistIter`, `Take` and `Skip`
--                   as records of the traits' operations. Chosen, Seek, Skipped: which elements a PE visits. Indexes:
--                   the index functions of arrays are of the kind that they ask for.
--   Array/Rdma      src/array/unsafe/rdma.rs: `block_op` and `cyclic_op`. BlockOp, Blocks: a put and a get in
--                   blocks. CyclicOp: a put dealt out to the PEs, and where `get_unchecked` reads.
--                   CyclicGet: a get from all PEs that waits.
--   Barrier         src/barrier.rs: `Barrier`: `new`, and `barrier_internal`, which `async_barrier` repeats, as
--                   turns of the PEs and messages that arrive in any order. Peers: whom a PE writes to and
--                   waits for. Invariant, Moves and Separation: what a PE knows, and what it knows when it leaves.
--                   Rounds: how many rounds `new` gives.
--
-- Conventions. A `usize` is a native number, with the wrap of a release build at each operation; a
-- subtraction that a test before it keeps from wrapping is written as one on ℕ. An `Option` or
-- `Result` is one here, and a panic is `none`. A lock around an operation makes it one step.
-- Sequentially consistent atomics make each access one turn. A `HashMap` or `BTreeMap` is a list of
-- entries. Loops are recursive on what they walk over: a list, a range, or the rounds left.
-- `malloc` spins without end in the source; here it has a number of attempts. `collect`, which runs
-- an iterator, has fuel: one step more than the team has PEs is enough, for each step but the last
-- yields one. A round of `merge` removes an area or counts one, so one more than there are areas is
-- enough. The loop of `Skip::init` rises by one index at least, so as many rounds as elements to
-- skip are enough. `step_by` has the length of its range for fuel, for it advances by one at least.
-- Bounds such as 2^63 in hypotheses keep addresses, distances and indexes from wrapping.
--
-- Parameters. `f64` is a record of the operations that the code uses, one for the arrays and one for the barrier;
-- `Splits` and `IsLogs` say what is asked of them. What other threads do to a heap between two attempts of
-- `malloc`, or while `try_malloc` of `BTreeAlloc` waits, is a function. What a hash reads from memory is a record of
-- reads, free in each step. bincode and the generated code of messages are a record, `Serde`, and `IsSerde` says that
-- what is serialized is read back and that headers have a fixed size. `create_data_buf` is a function to a buffer
-- of the size asked for.
--
-- Not modelled: of active messages what an executed message does, the retries of `create_data_buf`, and
-- `TeamAmBatcher`; of the command queues the receiving tasks, `send_alloc` and `send_panic`, several destinations at
-- once, and the counters of bytes; the collective writers of `DistRwLock`; of `Darc` the rounds of
-- `block_on_outstanding`, in which the PEs agree that no handle is left, and the loops of
-- `DroppedWaitAM` that wait for the counts and free the item; of the array's RDMA the variants by active
-- messages; the array operations, the other iterators and the locks above the index
-- functions; the timeouts and warnings of the barrier; schedulers, the other parts of the lamellae, memory regions
-- and the procedural macros, which are made of I/O, of the executor, and of generated code.
pub mod Prelude
pub mod ActiveMessages
pub mod CommandQueues
pub mod Alloc
pub mod Arch
pub mod Darc
pub mod Array
pub mod Barrier
