-- ===== src/Lib.antt =====
-- A simulator of private caches kept coherent by a directory, and a model of it.
--
-- The program is a Pin tool. The callbacks of src/simulator/callbacks.cpp run under one lock: they map a
-- thread to a processor, and make the loads and stores of an instrumented program on a Controller
-- (src/simulator/cache.H). The controller decodes the address, looks the line up in the processor's
-- cache, which may evict another line, and then runs the protocol of DIR_MSI
-- (src/simulator/coherence.H, src/simulator/coherence.cpp) on the directory line of the address. The
-- protocol counts hits, misses, cycles and hops in a Profile (src/simulator/profile.H). Its detector
-- mode pushes written data to the processors that have read a line twice, and calls the controller
-- back to fetch the line into their caches.
--
--   Common      machine words, bits and two-bit fields, vectors, association lists, results; Runs:
--               calls that may end the program, and loops on fuel
--   Profile     Stat, Access_Stat, Profile; Profile/Counts: what an operation records
--   Directory   Directory_Line; Directory/Sharers: its bit vector as a set; Directory/Counts: its
--               word of two-bit read counters
--   Coherence   DIR_MSI without the detector's write; Lines and Valid: writes to the directory and
--               its invariant; Reads, Evicts and Evictions, Claims: one file for each kind of
--               access; Protocol: the MSI protocol, as relations between views of the lines
--   Cache       Cache_Line, Cache_Set, Cache; Cache/Victims: the choice of a victim; Sets and
--               Fetches: a fetch in a set
--   Controller  Controller, DIR_MSI::push_and_invalidate and DIR_MSI::process_write; Addresses: the
--               decoding; Caches: the invariant; Push, PushLoop, Writers: the detector; Stores and
--               Accesses: the entry points; Protocol: the entry points on the views
--   Callbacks   the callbacks as steps of a session; Runs and Sessions:
--               sequences of them; Protocol: sequences as runs of an abstract machine
--   Raytrace    the parts of a workload, the ray tracer of src/splash2/codes/apps/raytrace, that
--               manage shared memory and work (below)
--   Radiosity   the task queues of src/splash2/codes/apps/radiosity/taskman.C. Queue: one queue as a
--               list; Dequeue, Visits: the operations on all queues
--   Radix       the parallel radix sort of src/splash2/codes/kernels/radix/radix.C. Accepted: the
--               options; Digits, Parts: the digits of a key and the parts of the processes; Tree: the
--               prefix tree, Up and Down the two ways through it; Places, Pass: one pass; Sorted,
--               Passes, Sort: the order of the keys after all passes
--   Fft         the routines of src/splash2/codes/kernels/fft/fft.C that move data. BitReversal,
--               Reordering: BitReverse and Reverse; Cells, Transposition, Blocks, OneLine:
--               Transpose
--   Tests       concrete runs
--
-- An operation is a function of the same name as in the source. It takes the object's state and
-- returns the state after it, in a Result, whose errors are a failed assertion and a vector read out
-- of range. Parameters that the source takes by reference are results as well. Words are native
-- numbers with their wrap-around written out. An int shift `1 << k` is the 32-bit pattern, extended by
-- its sign where it meets a 64-bit word. A std::unordered_map is an association list, of which only
-- lookups are used; a reference into the directory is its key.
--
-- The ray tracer allocates shared memory from a heap of its own (memory.C), keeps a stack of pixel
-- bundles for each process (workpool.C), whose entries come from that heap, and one of ray messages
-- (raystack.C).
--
--   Raytrace/Heap      GlobalHeapInit, GlobalMalloc, GlobalFree, GlobalMemAvl, GlobalMemMax. Blocks:
--                      the arena as a list; Seg, Arena: its headers in memory, and the invariant;
--                      Carve, Malloc; Walks, Free, Merge, Release, Coalesce: GlobalFree; Coalesced:
--                      neighbours and addresses in use; Sessions: sequences of calls; Totals
--   Raytrace/Realloc   GlobalCalloc, GlobalRealloc
--   Raytrace/Objects   ObjectMalloc, ObjectFree, the records of a ray
--   Raytrace/WorkPool  PutJob, GetJob, GetJobs, InitWorkPool, over the interface of an allocator.
--                      Bundles: the cutting of a block; Steal: the search around the pools
--   Raytrace/RayStack  PushRayTreeStack and the others. Contents: the stack as a list
--
-- INT and UINT are 64-bit longs there, and sizeof(NODE) is 32. The heap's memory is a function from
-- addresses to words of 8 bytes, read only at multiples of 8 within the arena; sums of sizes of
-- neighbouring blocks stay within the arena, so they do not wrap. A routine that takes a lock is one
-- step. A task of the radiosity program is its address. The entries of the work pools are
-- kept apart from the allocator's state, and coordinates are natural numbers.
--
-- The processes of the radix sort run one after the other between two barriers, from the first one up
-- the prefix tree and from the last one down, as its pauses allow. Their counts are natural numbers:
-- the counts stay below the number of keys, which an int limits, and a mask (radix - 1) << shiftnum
-- below radix times the greatest key. The initial contents of the tree and of the second array are
-- arbitrary. The data of the Fourier transform is an array of doubles, two for each complex number, of
-- which only the places matter.
--
-- Bounds. The theorems on the detector's counters, and so those on whole runs, ask for at most 16
-- processors: the counter of a processor p is reached by a shift of an int by 2p + 1. The use counter
-- of a cache line is asserted to stay below ALL_ONES; a callback moves it by at most 36 (2 for the
-- fetch, 2 for the writer's copy and 2 for each of 16 processors), hence the bound on the length of a
-- run. Cache_Set takes its number of ways as an int32_t, which a vector cannot have when it is
-- negative, so the theorems on whole runs ask for fewer than 2^31 ways. Fuel: the loop of get_num_bits halves a 64-bit word, so 64 rounds end it; the loops over the
-- processors have their number as the number of rounds. A walk over the arena has one round for each
-- byte and one more, and a block takes 32 bytes at least; the loops of PutJob step by one at
-- least. Each round of get_max_digits divides the key by the radix, each round of the loops that cut
-- the keys into parts is one process, and the loops up and down the prefix tree halve the number of
-- the process, which is their number of rounds.
--
-- Ends of a program. The arrays of a node of the prefix tree are functions from places to counts, and
-- the sort of a radix above MAX_RADIX, which accesses them past their end, ends there without a
-- result. Transpose has no result when it divides by zero.
--
-- Not modelled: stat_to_string and stats_to_string, which format floating-point percentages;
-- process_detach, which writes them to a file and frees the controller;
-- src/simulator/simulator.cpp, which registers the callbacks with Pin and reads the configuration; the debug output; the rest of the benchmark
-- programs of src/splash2 and src/app, which are the simulator's workloads, most of it floating-point;
-- the printing routines of the ray tracer; the floating-point random keys of the radix sort, in place
-- of which the keys are arbitrary, its times and its printing; the floating-point part of the Fourier
-- transform.
pub mod Common
pub mod Profile
pub mod Directory
pub mod Coherence
pub mod Cache
pub mod Controller
pub mod Callbacks
pub mod Radiosity
pub mod Fft
pub mod Radix
pub mod Raytrace
pub mod Tests
