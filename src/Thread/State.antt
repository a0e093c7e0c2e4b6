-- ===== src/Thread/State.antt =====
-- The state of `MatchingThread`, its queues included.
--
-- The members of the class stand in three groups: the exchange (engine, ownership and counters),
-- which decides what happens to orders, the outbox, through which sessions hear of it, and the log
-- with the snapshots. A hash map is a function to Option; a null pointer in a map is a missing entry,
-- which the source treats alike. The queues are shared with the network thread by pointer: they are a
-- store, from addresses to queues.
use order_matching_machine.Prelude.{ℕ, Bool, List, [], Option, none, some, ◌==◌, if◌then◌else◌}
use order_matching_machine.Prelude.Int.{ℤ, pos}
use order_matching_machine.Orders.{Side}
use order_matching_machine.Book.{empty_book}
use order_matching_machine.Engine.{MatchingEngine}
use order_matching_machine.Queue.Spsc.{Spsc}
use order_matching_machine.Gateway.Events.{OrderEvent}
use order_matching_machine.Wal.Log.{Wal}
use order_matching_machine.Thread.Risk.{RiskConfig}

abbrev pub Map : Type 0 → Type 0
Map V = ℕ → Option V

module _ {V : Type 0} where
  abbrev pub put : Map V → ℕ → V → Map V
  put m k v = λ i. if i == k then some v else m i

  abbrev pub erase : Map V → ℕ → Map V
  erase m k = λ i. if i == k then none else m i

  abbrev pub value_or : V → Option V → V
  value_or d none = d
  value_or d (some v) = v

abbrev pub egress_capacity : ℕ
egress_capacity = 4096

abbrev pub market_data_capacity : ℕ
market_data_capacity = 64

-- include/ome/egress.hpp: the queue `q_` and the latch `overflowed_`.
pub record EgressQueue : Type 0 where
  pub queue : Spsc OrderEvent
  pub overflowed : Bool

-- include/ome/book_snapshot.hpp: the arrays of ticks and quantities, level by level; the counts say how
-- many of the levels are meant.
pub record BookSnapshot : Type 0 where
  pub seq : ℕ
  pub n_bids : ℕ
  pub n_asks : ℕ
  pub bids : List (ℤ × ℕ)
  pub asks : List (ℤ × ℕ)

pub record MatchingStats : Type 0 where
  pub commands_applied : ℕ
  pub events_emitted : ℕ
  pub egress_overflows : ℕ
  pub wal_failures : ℕ
  pub market_data_dropped : ℕ
  pub snapshots : ℕ
  pub snapshot_failures : ℕ
  pub sessions_retired : ℕ

-- `session_orders` lists each set; an absent set is an empty one.
pub record Exchange : Type 0 where
  pub engine : MatchingEngine
  pub owner_of : Map ℕ
  pub client_id_of : Map ℕ
  pub remaining_of : Map ℕ
  pub side_of : Map Side
  pub session_orders : ℕ → List ℕ
  pub by_client_id : Map ℕ
  pub last_trade_ticks : ℤ
  pub next_exchange_id : ℕ
  pub logical_clock : ℕ

pub record Outbox : Type 0 where
  pub egress : Map ℕ
  pub md : Map ℕ
  -- the subscribed sessions, each with its depth
  pub subscribers : List (ℕ × ℕ)
  pub egress_queues : ℕ → EgressQueue
  pub md_queues : ℕ → Spsc BookSnapshot
  pub book_seq : ℕ
  pub stats : MatchingStats

-- `path` is empty where `has_path` is false.
pub record SnapshotPolicy : Type 0 where
  pub has_path : Bool
  pub every_n : ℕ

pub record MatchingThread : Type 0 where
  pub exchange : Exchange
  pub outbox : Outbox
  pub wal : Option Wal
  pub risk : RiskConfig
  pub replaying : Bool
  pub recovered : ℕ
  pub snap : SnapshotPolicy
  pub next_snapshot_at : ℕ
  pub last_snapshot_seq : ℕ
  -- the files at `path` and at `path + ".prev"`
  pub snapshot_file : Option (List ℕ)
  pub snapshot_prev : Option (List ℕ)

-- The members as they are initialised.
abbrev pub new_exchange : Exchange
new_exchange = record {
  engine = record { book = empty_book; trade_log = [] };
  owner_of = λ k. none;
  client_id_of = λ k. none;
  remaining_of = λ k. none;
  side_of = λ k. none;
  session_orders = λ k. [];
  by_client_id = λ k. none;
  last_trade_ticks = pos 0;
  next_exchange_id = 1;
  logical_clock = 0;
}
