-- ===== src/Lib.antt =====
-- Verification of dotnet-pal-rs, a platform abstraction layer for .NET NativeAOT ports.
--
-- The crate dotnet-pal (src/) defines the contracts between a runtime and a platform: a port implements
-- the provider traits of src/port.rs, and front ends check every call of the C ABI and every answer of a
-- provider before a table of functions is negotiated. Providers for systems stand in crates/. Two of them
-- are algorithms rather than calls of a system: the storage of crates/dotnet-pal-storage and the file
-- system in memory of crates/dotnet-pal-memfs.
--
-- Which file models what:
--   Common: natural numbers, lists, bits and 64-bit words (`usize`, `checked_add`, `is_power_of_two`).
--   Port: `Error`, `Result` and the statuses of src/port.rs. Port/Laws: their round trips.
--   Boundary/Geometry: `round_size`, `aligned_output` and `geometry` of src/lib.rs, through which every
--     request for memory passes.
--   Boundary/Memory: the counters of src/counter.rs and the front ends of src/lib.rs for virtual memory
--     and for linear storage, over providers that are parameters. Boundary/Memory/Checks, Ranges, Answers
--     and Storage state them alone and above the arena of Storage/Arena.
--   Boundary/Text: `path` and `text` of src/io.rs. Boundary/Files: the front ends of src/files.rs over any
--     provider of files, in Calls, Paths and Listing. Boundary/Mappings: those of src/mappings.rs.
--   Boundary/Slot: `Slot` and `negotiate` of src/lib.rs as a system of threads that take turns, one access
--     of the slot's state at a time; the outcome of `build` is a parameter. Boundary/Slot/Threads: what
--     one thread does to the others. Boundary/Slot/Publication: what holds in every schedule.
--   Storage/Arena: `Arena` of crates/dotnet-pal-storage/src/lib.rs. The slots are the list of block
--     counts, the memory is a function from offsets to bytes. Storage/Arena/Validity, Search, Blocks and
--     Zero hold the invariant of the slots and the operations seen through the map of live allocations.
--   Storage/Ledger: `Ledger` of the same file, over a `Backing` with a state of its own, which is a
--     parameter. Regions, Validity, Ownership and Removal hold its accounting.
--   MemFs: crates/dotnet-pal-memfs/src/lib.rs. MemFs/Maps: its BTreeMaps, as association lists sorted by
--     their keys. MemFs/Exec: calls, functions from a state to an outcome and a state, with do blocks for
--     the chains of `?`; a call that fails leaves what it had written by then. MemFs/Exec/Keeps: one rule
--     for each way to build a call, and a ruleset, for what a call keeps of the state.
--   MemFs/Bytes: `reserve`, `resize` and `write` on the bytes of a file. MemFs/Content: `Pinned` and
--     `Content`, which moves them between a `Vec` and pages of the memory. Preparation tells how `prepare`
--     ends; View reads a content as its bytes; Bounds, Writes, Resizes, Reads and Pins stand above them.
--   MemFs/State: `Node`, `Body`, `Watcher`, `Mapped`, `Handle`, `State` and the lookups. MemFs/Walk:
--     `Place`, `Last`, `Pending`, `State::walk` and `vacant`. MemFs/Spelling: `climb` and `spell`.
--     MemFs/Reports: `report`, `report_entry` and `ended`. MemFs/Tree: `create`, `reap`, `unlinked`,
--     `change` and the other operations on nodes. MemFs/Tree/Creation: the names behind `create`.
--   MemFs/Handles, Names, Directories and Links: `impl Files for MemFs`, as calls on open files, on the
--     names of files, on directories, and on links and modes. MemFs/Watching: `impl Watches`.
--     MemFs/Mapping: `impl Mappings` and `impl Volumes`. MemFs/Calls: all that may change the state, as
--     one type of calls, and the states that they lead to.
--   MemFs/Accounting: `used` against the sizes of the files, operation by operation.
--   MemFs/Locks: `Lock` and the part of `State::relock` on the locks of one node; Bytes, Loop and
--     Exclusion read a list of locks as the bytes that it holds.
--   MemFs/Queue: `Queue`, and `Event::new` of src/watches.rs. Encoding and Order read its bytes as a list
--     of entries.
--
-- Numbers are natural numbers, and a `usize` has 64 bits: every addition that the code checks is checked
-- against `usize_max`, and words of 32 bits are written out where they are stored as bytes. The pointer to
-- an arena or to a provider's answer is a number, and 0 is null. The spin locks of the storage make each
-- of its calls one step, so the state is passed from call to call.
--
-- Loops: the search of the arena has fuel for one more than the number of blocks, and each round moves to
-- a higher block; the loop of `relock` has fuel for three times the number of locks and one more, since a
-- lock is cut into at most two pieces that are passed over. The loop of `walk` counts the links that it
-- may still enter and has fuel for one more than the bytes before it, from which each round takes at least
-- one. The loops of `climb` and `rename` follow the parents of a directory with fuel for one more than the
-- number of nodes; an outcome `endless` stands for a loop that does not come back, and for a panic. The
-- calls that wait, `Files::lock` and `Watches::read`, are given what other threads do in each pause, as a
-- list, and end with it. The loop of `directory_read` runs for a given number of rounds; a provider whose
-- listing gets shorter needs no more than its length and one.
--
-- The tree is guarded by one lock, so each time a function takes it is one step. What a call is given from
-- outside stands in a `Host`: the answers of the allocator, where it puts pages, the reading of the clock,
-- and the address of a new handle. The code trusts the address of a handle, and so does the model: what
-- stands behind an address is a function. Pages and boxes are given back without effect.
--
-- Not modelled: the front ends of sockets, processes, threads and the system; what `build` puts in the
-- table; the providers that call a system, the C hooks behind `Hooks`, the build support, the examples and
-- the tests. The data of a write to a file is a list of bytes, so a write is not modelled whose source lies
-- behind the file's end in a mapping of the file's own pages, where `set_size` clears it before the copy.
-- Atomic counters are counted one call at a time. Weak orderings of memory are not modelled:
-- the stores of the slot are seen in the order in which they happen, as its acquiring loads and releasing
-- stores promise.
pub mod Common
pub mod Port
pub mod Boundary
pub mod Storage
pub mod MemFs
