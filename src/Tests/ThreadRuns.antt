-- ===== src/Tests/ThreadRuns.antt =====
-- The matching thread on concrete commands.
use order_matching_machine.Prelude.{
  ◌≡◌, ◌<◌, ◌≤◌, ◌+◌, ◌^◌, ◌&&◌, not, refl, true, false, List, [], ◌∷◌, Option, none, some, arith,
  leb, map, length, All, ◌==◌,
}
use order_matching_machine.Prelude.Int.{pos}
use order_matching_machine.Wire.Messages.{bid_side, limit_type}
use order_matching_machine.Wal.Command.{
  new_order_command, cancel_all_command, OrderCommand, CommandFits, is_loggable,
}
use order_matching_machine.Wal.Log.{Wal, WalReadResult, append, whole_read, read_wal}
use order_matching_machine.Wal.Record.{length-record}
use order_matching_machine.Book.{empty_book}
use order_matching_machine.Queue.Spsc.{new_queue}
use order_matching_machine.Gateway.Events.{session_retired}
use order_matching_machine.Thread.Risk.{RiskConfig, check_risk}
use order_matching_machine.Thread.Bounds.{is_accepted, is_allowed, check_risk-exact}
use order_matching_machine.Thread.State.{Outbox, BookSnapshot, MatchingThread, new_exchange}
use order_matching_machine.Thread.Apply.{apply_cancel_all}
use order_matching_machine.Thread.Loop.{Io, apply, apply_logged, replay, recover}
use order_matching_machine.Thread.Machine.{machine}
use order_matching_machine.Thread.Acts.{Answers}
use order_matching_machine.Thread.Determined.{apply_logged-Answers}
use order_matching_machine.Thread.Ledger.{IsLedger, new_exchange-IsLedger}
use order_matching_machine.Thread.Live.{apply-IsLedger}
use order_matching_machine.Thread.Retire.{Retired, apply_cancel_all-Retired}
use order_matching_machine.Thread.Durable.{loggable, log_all}
use order_matching_machine.Thread.Crash.{recover-live}

abbrev pub limits : RiskConfig
limits = record { max_order_qty = 1000; tick_size = pos 5; price_band_bp = pos 500 }

abbrev pub no_snapshot : BookSnapshot
no_snapshot = record { seq = 0; n_bids = 0; n_asks = 0; bids = []; asks = [] }

abbrev pub new_outbox : Outbox
new_outbox = record {
  egress = λ k. none;
  md = λ k. none;
  subscribers = [];
  egress_queues = λ k. record { queue = new_queue 4096 (session_retired 0); overflowed = false };
  md_queues = λ k. new_queue 64 no_snapshot;
  book_seq = 0;
  stats = record {
    commands_applied = 0;
    events_emitted = 0;
    egress_overflows = 0;
    wal_failures = 0;
    market_data_dropped = 0;
    snapshots = 0;
    snapshot_failures = 0;
    sessions_retired = 0;
  };
}

abbrev empty_wal : Wal
empty_wal = record {
  is_open = true;
  cfg = record { sync_interval_ns = 10000000; sync_every_n = 100 };
  seq = 0;
  since_sync = 0;
  last_sync_ns = 0;
  syncs = 0;
  file = [];
}

abbrev pub thread : Option Wal → MatchingThread
thread w = record {
  exchange = new_exchange;
  outbox = new_outbox;
  wal = w;
  risk = limits;
  replaying = false;
  recovered = 0;
  snap = record { has_path = false; every_n = 0 };
  next_snapshot_at = 0;
  last_snapshot_seq = 0;
  snapshot_file = none;
  snapshot_prev = none;
}

abbrev buy : OrderCommand
buy = record {
  command_type = new_order_command;
  session = 1;
  client_order_id = 7;
  price_ticks = pos 100;
  quantity = 5;
  side = bid_side;
  order_type = limit_type;
  egress = none;
  md_queue = none;
}

abbrev leave : OrderCommand
leave = record buy { command_type = cancel_all_command }

abbrev whole : Io
whole = record { now_ns = 5; landed = 47 }

apply-IsLedger_example :
    (u : MatchingThread) × (apply (thread (some empty_wal)) buy whole ≡ some u)
    × IsLedger u.exchange
    × (u.exchange.next_exchange_id ≤ 1 + 1)
apply-IsLedger_example =
    apply-IsLedger (thread (some empty_wal)) buy whole new_exchange-IsLedger (omega arith)
      (omega arith)

-- The thread after the order.
abbrev placed :
    (u : MatchingThread) × (apply (thread (some empty_wal)) buy whole ≡ some u)
    × IsLedger u.exchange
    × (u.exchange.next_exchange_id ≤ 1 + 1)
placed =
    apply-IsLedger (thread (some empty_wal)) buy whole new_exchange-IsLedger (omega arith)
      (omega arith)

abbrev bought : MatchingThread
bought = placed.0

apply_cancel_all-Retired_example :
    (u : MatchingThread) × (apply_cancel_all bought leave ≡ some u)
    × Retired bought.exchange 1 u.exchange
apply_cancel_all-Retired_example = apply_cancel_all-Retired bought leave placed.2

apply_logged-Answers_example :
    Answers (thread none) (machine limits new_exchange buy) (apply_logged (thread none) buy)
apply_logged-Answers_example = apply_logged-Answers (thread none) buy

check_risk-exact_example :
    is_accepted (check_risk limits (pos 100) empty_book buy)
    ≡ (not (5 == 0) && leb 5 1000 && is_allowed 5 500 100 100)
check_risk-exact_example =
    check_risk-exact limits 5 500 100 100 refl refl (omega arith) (omega arith) (omega arith)
      (omega arith) (omega arith) empty_book buy refl refl (omega arith)

buy-CommandFits : CommandFits buy
buy-CommandFits = record {
  session_fits = omega arith;
  id_fits = omega arith;
  price_fits = (omega arith, omega arith);
  quantity_fits = omega arith;
}

appended : (append empty_wal buy 5 47).0 ≡ true
unfolding append
appended = ground (arith, length-record 1 buy)

abbrev day : List (OrderCommand × Io)
day = (buy, whole) ∷ []

abbrev day_wal : Wal
day_wal = (append empty_wal buy 5 47).1

logged : log_all empty_wal day ≡ some day_wal
unfolding log_all is_loggable
logged = rw (log_all, appended) refl

day-CommandFits : All CommandFits (loggable day)
unfolding loggable is_loggable
day-CommandFits = (buy-CommandFits, tt)

day_numbers : 1 + length (loggable day) < 2 ^ 64
unfolding loggable is_loggable
day_numbers = omega arith

recover-live_example :
    (u : MatchingThread) × (replay (thread (some empty_wal)) day ≡ some u)
    × (u.wal ≡ some day_wal)
    × ((res : WalReadResult) × (read_wal day_wal.file whole_read ≡ some res)
        × ((s : MatchingThread) × (recover (thread none) (map (λ c. (c, whole)) res.commands)
              ≡ some s)
            × (s.exchange ≡ u.exchange)))
recover-live_example =
    recover-live (thread (some empty_wal)) (thread none) empty_wal day_wal day whole
      new_exchange-IsLedger refl refl refl logged (omega arith, tt) day-CommandFits (omega arith)
      (omega (arith, day_numbers)) refl refl
