-- ===== src/Thread/Loop.antt =====
-- One command: `apply`, with the write to the log before it; many: `drain` and `recover`.
use order_matching_machine.Prelude.{
  ℕ, Bool, true, false, not, ◌&&◌, List, [], ◌∷◌, Option, none, some, length, if◌then◌else◌,
}
use order_matching_machine.Prelude.Words.{add64}
use order_matching_machine.Wal.Command.{
  CommandType, session_opened_command, new_order_command, cancel_command, modify_command,
  subscribe_command, cancel_all_command, OrderCommand, is_loggable,
}
use order_matching_machine.Wal.Log.{Wal}
use order_matching_machine.Wal.Log
use order_matching_machine.Thread.State.{Outbox, MatchingThread}
use order_matching_machine.Thread.Routing.{cleared}
use order_matching_machine.Thread.Apply.{
  apply_new_order, apply_cancel, apply_modify, apply_cancel_all, open_session, apply_subscribe,
}

-- The switch over the kinds of commands.
abbrev pub dispatch : MatchingThread → OrderCommand → CommandType → Option MatchingThread
dispatch t c session_opened_command = some (record t { outbox = open_session t.outbox c })
dispatch t c subscribe_command = some (apply_subscribe t c)
dispatch t c new_order_command = apply_new_order t c
dispatch t c cancel_command = apply_cancel t c
dispatch t c modify_command = apply_modify t c
dispatch t c cancel_all_command = apply_cancel_all t c

abbrev pub apply_logged : MatchingThread → OrderCommand → Option MatchingThread
apply_logged t c = dispatch t c c.command_type

-- What the system does during one command: the time of the log's clock, and how many bytes of the
-- record its writes take.
pub record Io : Type 0 where
  pub now_ns : ℕ
  pub landed : ℕ

abbrev pub count_wal_failure : Outbox → Outbox
count_wal_failure b = record b {
  stats = record b.stats { wal_failures = add64 b.stats.wal_failures 1 };
}

abbrev pub after_append : MatchingThread → OrderCommand → Bool × Wal → Option MatchingThread
after_append t c (true, w) = apply_logged (record t { wal = some w }) c
after_append t c (false, w) = some (record t { wal = some w; outbox = count_wal_failure t.outbox })

abbrev pub log_and_apply : MatchingThread → OrderCommand → Io → Option Wal → Option MatchingThread
log_and_apply t c io none = apply_logged t c
log_and_apply t c io (some w) = after_append t c (Log.append w c io.now_ns io.landed)

-- Write-ahead: the record goes down before the book is touched.
unfoldable pub apply : MatchingThread → OrderCommand → Io → Option MatchingThread
apply t c io =
    if not t.replaying && is_loggable c.command_type
    then log_and_apply t c io t.wal
    else apply_logged t c

-- The loop of `recover`.
unfoldable pub replay : MatchingThread → List (OrderCommand × Io) → Option MatchingThread
replay t [] = some t
replay t ((c, io) ∷ cs) = elim (apply t c io) [ none ↦ none | some u ↦ replay u cs ]

abbrev pub finish_recover : ℕ → Option MatchingThread → Option MatchingThread
finish_recover n none = none
finish_recover n (some t) =
    some (record t { replaying = false; exchange = cleared t.exchange; recovered = n })

unfoldable pub recover : MatchingThread → List (OrderCommand × Io) → Option MatchingThread
recover t cs = finish_recover (length cs) (replay (record t { replaying = true }) cs)
