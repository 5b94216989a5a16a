-- ===== src/Lib.antt =====
-- A model of this OpenSHMEM library in C, and the theorems that hold of it.
--
-- The library gives the processing elements (PEs) of a job a symmetric heap each and copies memory
-- between them. A call of src/shmem.c goes to src/comm/comm.c, which asks the locality map
-- (src/comm/comm_node.c) whether the PE is on this node: if so the bytes are copied through shared
-- memory (src/comm/comm_local.c), otherwise a packet is queued for the communication thread
-- (src/comm/comm_remote.c), whose counterpart hands what it receives to a worker thread
-- (src/job/work.c). The symmetric heap is an allocator (src/memory/heap.c, src/memory/hashmap.c) over a
-- shared memory object (src/memory/shared_heap.c, src/memory/shared_mem.c).
--
-- Files, with the code that they model:
--   Base            helpers: Boolean tests, lists by native numbers, families, runs that may fault
--   Memory.Store    the block descriptors that malloc gives the allocator, by their addresses
--   Memory.Ram      a process's own memory, byte by byte
--   Memory.HashMap  src/memory/hashmap.c; a bucket is the list of its nodes' values;
--                   Free has hashmap_free, over the nodes' addresses
--   Memory.Heap     src/memory/heap.c; Cells, Search, Insert, Malloc, Free and Bounds hold the proofs,
--                   Sequence those on several calls,
--                   Symmetric those on the heaps of two PEs
--   Memory.SharedMem, Memory.SharedHeap
--                   src/memory/shared_mem.c and src/memory/shared_heap.c; Key has the objects' names
--   Comm.Node       src/comm/comm_node.c; the arrays, and the loops that fill them;
--                   Complete has the entries of all PEs that the lists name
--   Comm.Wireup     __comm_remote_wire_client, __comm_remote_wire_server and comm_remote_wireup of
--                   src/comm/comm_remote.c, as the sequence of connections and acceptances of a PE;
--                   Reads runs it over the node's locality map; Handshake has the calls of a
--                   server and its clients, one by one; Counts and Ending are about all the
--                   PEs at once
--   Comm.Barrier    comm_barrier_all of src/comm/comm.c, as a step relation on all the PEs; Measure and
--                   Completion are about its end
--   Comm.Packet     packet_t of src/comm/comm_remote.h as its bytes
--   Comm.Local      src/comm/comm_local.c; Setup has how the heaps are mapped and let go
--   Comm.Remote     the packet queue, the loops that send and receive, and put and get of
--                   src/comm/comm_remote.c
--   Comm.Stream     what is relied on in a socket, and what the receiving loop does with it
--   Comm.Delivery   a round of __comm_thread and of the worker with the layers that they call
--   Comm.Api        src/comm/comm.c, where the layers meet; its record Comm holds their states
--   Comm.Layers     comm_init, comm_wireup and comm_finalize of src/comm/comm.c, and the servers of
--                   src/comm/comm_remote.c
--   Job.Queue, Job.Work
--                   src/job/work.c; the queue is also the one of src/comm/comm_remote.c;
--                   Order and Finish are about all interleavings with the worker
--   Network         src/network/network.c, src/network/netutil.c
--   Rte             src/rte/pmix/rte.c; Strtok is the C library's strtok with a comma; Rte.Mpi is
--                   src/rte/mpi/rte.c
--   Shmem           src/shmem.c: Setup has the start of the library, Collective shmem_malloc on all
--                   the PEs; the functions that the macros make for each type are one function of the
--                   type's size
--   Examples        tests, and each theorem at an input that meets its conditions
--
-- Conventions. A pointer is a native number, 0 is NULL. A run ends in a value, in a fault (an access
-- through a pointer that is not valid, or out of bounds) or out of fuel. What malloc returns and what
-- the memory held before are arguments (`fresh`, `raw`), and malloc succeeds, since the code does
-- not test its result. Sizes and differences are reduced modulo 2^64 where the code's are; addresses
-- and regions lie below 2^63 in the theorems, as user addresses do.
--
-- Fuel. The search of heap_malloc needs one round for each block of the heap, and the send loop one
-- more than there are packets; the theorems give this much and conclude that the run ends. The loop of rte_hosts needs
-- one round more than the text has characters, or than there are hosts; that of hashmap_free one more
-- than the bucket has nodes. The worker's
-- loop has no end of its own, so its fuel is the number of rounds looked at. The levels of the wire-up
-- are an argument, since the code computes them by ceil(log2(n)) in floating point; the theorems ask
-- that they are enough for the number of PEs.
--
-- Concurrency. The functions of the queues hold a lock from beginning to end, so each is one step. The
-- barrier's steps are one access of a flag each, in any order, but for the test that finds a flag set,
-- which is one step with the reset behind it; a put is on its way until a step of its own delivers it.
-- The worker's test of its flag and the body of its loop are steps of their own. In shmem_malloc an allocation is one step, since no other PE touches the blocks
-- of a PE's heap. In the wire-up each call on a socket is a step, at which it returns.
--
-- What is outside. PMIx and MPI are records of the answers that they give, gethostname and gethostbyname are
-- arguments, shm_open and mmap too; a socket is a stream of bytes: a read takes the bytes that are there
-- in the order in which they were sent, and one that finds none does not wait.
--
-- Not modelled: src/job/job.c, four calls of the thread library which nothing uses; the tests and
-- examples; munmap; the functions that are one call of PMIx, MPI or the
-- system; and the barriers inside shmem_free and shmem_finalize. src/rte/mpi/rte.c has other types than
-- src/rte/rte.h declares, and the build leaves it out; of it what gathers the names of the hosts is
-- modelled. A read that finds a part of a message only, and a write that takes a part only, are outside
-- the theorems on streams. The other system calls are arguments of the functions that use them.
pub mod Base
pub mod Memory
pub mod Job
pub mod Network
pub mod Rte
pub mod Shmem
pub mod Comm
pub mod Examples
