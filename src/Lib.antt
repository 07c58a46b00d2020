-- ===== src/Lib.antt =====
-- Verification library of HedgehogDB, a distributed document database in Go.
--
-- A node routes a request for a key with a consistent hash ring to the replicas of the key
-- (internal/cluster/ring.go), which are the members that the failure detector has not declared dead
-- (internal/cluster/membership.go). The coordinator (internal/cluster/coordinator.go) reads, writes
-- and deletes at a quorum of the replicas, or eventually, by way of the replicator, which keeps hints
-- for the replicas that are down (internal/cluster/replication.go). Versions are compared by vector
-- clocks (internal/consistency). Each node stores its items in pages (internal/storage/page.go) of a
-- file (internal/storage/pager.go), which are cached (internal/storage/bufferpool.go), reused once
-- they are free (internal/storage/freelist.go) and protected by a write-ahead log
-- (internal/storage/wal.go).
--
-- The files, and the code that each models:
-- - Base: numbers, lists, Boolean tests, Go maps as association lists (GoMap), the binary search of
--   the standard library (Search), little-endian integers (Bytes), byte slices that are written in
--   place (Buffer) and files that are read and written at an offset (File).
-- - Consistency/Quorum: `QuorumConfig` of internal/consistency/quorum.go.
-- - Consistency/VectorClock: internal/consistency/vectorclock.go, with the causal order in Order and
--   `Merge`, `Increment`, `Clone` and `ResolveConcurrent` in Resolve.
-- - Config: `Validate` and the defaults of internal/config/config.go.
-- - Cluster/Ring: internal/cluster/ring.go. Sorted and Owner hold the reference definition of the
--   owner of a key, Replicas and Preference that of a list of replicas, Invariant the balance of the
--   virtual nodes.
-- - Cluster/Membership: internal/cluster/membership.go. A membership holds the ring that its
--   operations change. Sync is the invariant that ties the two, Failure the failure detector, Revival
--   what becomes of a dead member that is added again.
-- - Cluster/Handoff and Cluster/Replicator: internal/cluster/replication.go. The state of a replicator
--   is the requests it has sent with their answers, and the hints. Delivery is about new writes, Replay
--   about the replay of hints.
-- - Cluster/Coordinator: internal/cluster/coordinator.go. Quorum is about quorum requests, Started about
--   what a write starts, Routes about `RoutePut` and `RouteDelete`. The operations return what they
--   answer and the actions that they start.
-- - Cluster/AntiEntropy: internal/cluster/antientropy.go, with the Merkle tree in Merkle and the sync of
--   a table with a node in Divergence.
-- - Cluster/Handlers: what the internal routes of coordinator.go answer, against `forward`.
-- - Storage/FileHeader: the file header of internal/storage/page.go.
-- - Storage/Keys: `compareKeys` of page.go, as an order on byte strings.
-- - Storage/Page: the rest of page.go, on the bytes of a page. Pointers are the moves of the cell
--   pointers, Slots the layout of a page, Insertion and Deletion keep it, Entries are the searches in
--   an ordered list, and Contents ties a page to such a list. Leaf, Internal and Overflow are the kinds
--   of pages; Leaf/Refinement and Internal/Refinement show them as a map and as a routing table, and
--   Leaf/Reached is about the reads of the cells.
-- - Storage/Pager: internal/storage/pager.go on the bytes of the file. Stored is about pages among the
--   bytes, Pages about the pager.
-- - Storage/FreeList: internal/storage/freelist.go on the pages of a pager; Reuse is about a page that
--   is freed and allocated.
-- - Storage/BufferPool: internal/storage/bufferpool.go, one shard over the pager. Eviction, Room, Fetch
--   and Flush compare it with what it shows of each page; Capacity is about the sizes of the shards.
-- - Storage/Wal: internal/storage/wal.go. Codec is the format of the records, Log the open log and its
--   invariant, Recovery the function `Recover`; Log/Durability joins the three.
-- - Catalog: internal/table/catalog.go, the catalog with the manager of the open tables.
-- - Tests: concrete inputs.
--
-- Functions keep their names in lower case (`GetNodes` is get_nodes), and so do fields. A method takes
-- its receiver and returns the new one. Mutexes are not modelled: a call is one step, and an
-- interleaving a sequence of calls. So it is in the source where a method holds its mutex for its whole
-- body. `FlushPage`, `FlushAll`, `flushDirtyPages` and `FreePage` of the buffer pool give up the lock of
-- the shard before they write or free the page, and what happens in between is not modelled. Where the
-- code walks a Go map, the order is that of an association list, and the theorems hold for every list.
--
-- Parameters stand for what is not in the repository: the hash, the label format and the sort of the
-- standard library (Library), the CRC-32 (Crc), SHA-256 (Digest), the answers of the HTTP client,
-- the order in which goroutines answer (Env), what net/url reads back from a query (read_back,
-- query_get), and the walk over a map in `Recover`. Times are natural numbers that the caller gives. The
-- ring that the coordinator is given is that of its membership.
--
-- A slice of a page that leaves it is a panic in the source and is cut short in the model (Base/Buffer).
--
-- Bounds: uint64 counters wrap at 2 ^ 64 as written. Hashes are any numbers. The loop that reads the
-- log has one more unit of fuel than the file has bytes, and each round takes 29 bytes at least. The
-- binary searches of a page have as much fuel as there are cells, and halve the range in each round.
-- Offsets in a page are 16 bits wide in the file and page numbers 32 bits.
--
-- The source puts table and key unescaped into the URLs of the internal requests, so that a receiver may
-- read others. A request of the coordinator or the replicator is a record of its parts; what the
-- receiver makes of the URL is in Handlers and in the sync of AntiEntropy.
--
-- Not modelled: the B+ tree of internal/storage and the tables of internal/table, which the catalog
-- takes as a parameter, the scans of anti-entropy, the HTTP interface, metrics and the programs; the
-- choice of the shard of a page; group commit, file-system errors, logging, tracing and timers of
-- the parts that are modelled.
pub mod Base
pub mod Consistency
pub mod Config
pub mod Cluster
pub mod Catalog
pub mod Storage
pub mod Tests
