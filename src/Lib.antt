-- ===== src/Lib.antt =====
-- A verification library for the order matching machine: a price-time-priority limit order book in
-- exact integer ticks, the matching engine that drives it, and the binary protocol of its gateway.
--
-- The program. A gateway takes frames from TCP connections, cuts the byte streams into messages,
-- checks them and passes them as commands to one matching thread. That thread owns the matching
-- engine, which owns the order book; it answers with events that the gateway encodes and sends back.
-- A write-ahead log and snapshots make the thread's state survive a crash. Beside the gateway stand
-- replay and measurement tools for recorded market data.
--
-- The files.
-- - Prelude.antt: the names that all modules share. Prelude/Lists and Prelude/Cuts: lists on native
--   numbers. Prelude/Int: integers on native numbers, with Boolean tests. Prelude/Words: the
--   wrap-around of 32-bit and 64-bit words.
-- - Orders.antt: include/order.h and include/trade.h.
-- - Book.antt: src/order_book.cpp and include/order_book/order_book.hpp. A side is the list of its
--   price levels, best first, and a level the FIFO of its orders with the running total; the hash map
--   `order_loc_` is a function to Option. `add_order`, `cancel_order`, `is_crossed`,
--   `execute_top_cross`: the member functions. Book/Market has `match_market`, Book/Queries the
--   observers, the consistency check and the digest, Book/Replay the two operations for recorded
--   market data. Book/Levels, Flat, Insert, Fill, Erase: lemmas on
--   the levels and on their flat priority list. Book/Valid: the invariant. Book/Add, Cancel, Cross and
--   Market/Refine: each operation against the priority list.
-- - Engine.antt: src/matching_engine.cpp, `processOrder` with its three branches. Engine/Reasons:
--   include/ome/reject_reason.hpp. Engine/CrossStep, CrossLoop, CrossRun, Apart: the crossing loop
--   against a sweep of the opposite side. Engine/TopCross: one match on any valid book. Engine/Limit,
--   Others, Cancel, Keeps: the branches, and all of them.
-- - Wire.antt: the parent of the protocol's modules. Wire/Bytes, Messages, Codec:
--   include/ome/protocol.hpp, the little-endian writes and the bounds-checked reader, the messages,
--   their encoders and decoders. Wire/Layout, RoundTrip, Updates, Canonical: what decoding gives.
--   Wire/Frames: include/ome/frame_reader.hpp, `FrameReader` with its buffer, position and failure
--   flag. Wire/Stream, Delivery, Whole: the bytes that go in against the frames that come out.
-- - Wal.antt: the parent of the log's modules. Wal/Command: the commands of include/ome/commands.hpp
--   and their codec in include/ome/wal.hpp. Wal/Crc: include/ome/crc32.hpp. Wal/Log: the records, the
--   writer `Wal` with its group commit, and `read_wal`; the file is the list of its bytes, and how
--   much of a record the system's writes took, or what a reader gets of the file, is an argument.
--   Wal/Record, Replay, Crash, Recovery: what is read back after appends, a crash or a loss.
--   Wal/Rewrite: `truncate_before`. Wal/Cut, Truncate: a log read in part, and what truncation leaves.
-- - Gateway.antt: the parent of the gateway's other modules. Gateway/WriteBuffer:
--   include/ome/write_buffer.hpp. Gateway/Session: include/ome/session.hpp; the hash set of live ids
--   is a list. Gateway/Events: the constructors of include/ome/commands.hpp.
-- - Snapshot.antt: the parent of the snapshot's modules. Snapshot/Format: include/ome/snapshot.hpp, the
--   bytes of the file, `write_snapshot` and `read_snapshot`. Snapshot/RoundTrip: what a read gives.
-- - Queue.antt: include/spsc_queue.h. Queue/Spsc: the ring with `push`, `empty` and `pop` as whole
--   calls. Queue/Window, Refine: the ring against the queue that it holds. Queue/Steps, Interleave: the
--   loads and stores of the two threads one by one, in any order.
-- - Thread.antt: include/ome/matching_thread.hpp, with the queues of include/ome/egress.hpp and
--   include/ome/book_snapshot.hpp and the limits of include/ome/risk_config.hpp. Thread/State: the
--   members, in three parts: the `Exchange` (engine, ownership maps, counters), the `Outbox` (queues,
--   subscribers, statistics) and the log. Thread/Risk: `check_risk` and `reference_price`. Thread/Routing:
--   `emit`, `publish_book`, `publish_trades`, `route_fill`, `forget_order`, `find_order`. Thread/Apply:
--   the handlers, `apply_new_order`, `apply_cancel`, `apply_modify`, `apply_cancel_all` and the rest.
--   Thread/Loop: `apply` with the write to the log before it, and `recover`. The proofs: Thread/Amount,
--   Tracks and Fills, what the maps have to say about each id; Thread/Ledger, the invariant;
--   Thread/Settled, NewOrder, Cancels, CancelIds, Retire, Gate, Total and Live, that each command keeps it;
--   Thread/Bounds, the risk checks; Thread/Machine, Acts and Determined, the thread without its outbox;
--   Thread/Durable, Recovery, Runs and Crash, the live thread against the recovered one. Thread/Restore:
--   `export_snapshot`, `restore` and `set_snapshot_baseline`; Thread/Ranked, Restart, Takeover and
--   Restarted: a thread that restores what another one exported.
-- - Tests.antt: runs and instances at concrete inputs.
--
-- Threads. Two of the program's threads meet only in the rings, so the matching thread is a function
-- from state to state; the ring alone is modelled under interleaving, with every atomic load and store
-- as one step of a shared memory. Queues are named by numbers where the source has pointers, and a null
-- pointer is `none`. What the system does during a command, the time and how many bytes of a record
-- reach the log, is the argument `Io`.
--
-- Numbers. Quantities are native natural numbers; where the source subtracts on 32 or 64 bits or adds
-- on 64 bits, the wrap-around is written out (`sub32`, `sub64`, `add64`). Prices are integers; the
-- products of the price band wrap around as two's complement does, where the source leaves them
-- undefined.
--
-- Loops. The crossing loop and the market loop run on fuel: one round more than there are orders in
-- the book, which is enough because every round takes an order out. The theorems state that the
-- operations return, not only what they return if they do. The scan of a log runs on one step more
-- than there are bytes, which is enough because every record takes 47. Other loops are structural.
--
-- Failure. `none` of an operation of the engine is a run out of fuel or an empty queue in a level;
-- the theorems show that valid states never get there. `none` of a decoder is `std::nullopt`.
--
-- Not modelled: when the matching thread takes a snapshot, its batches, its parking and its wake-ups;
-- the server and its sockets, the calls of the file system, clocks and logs
-- of text; the token bucket and the tick conversions, which count in floating point; the tools for
-- replay, simulation, benchmarks and plots; the text dump of the book.
pub mod Prelude
pub mod Orders
pub mod Book
pub mod Engine
pub mod Wire
pub mod Wal
pub mod Snapshot
pub mod Queue
pub mod Gateway
pub mod Thread
pub mod Tests
