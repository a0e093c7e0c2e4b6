-- ===== src/Thread/Crash.antt =====
-- What recovery rebuilds is what the live thread had.
use order_matching_machine.Prelude.{
  suc, ◌+◌, ◌<◌, ◌^◌, ◌≡◌, refl, ap, ◌∙◌, sym, true, false, List, [], some, All, length, map,
}
use order_matching_machine.Orders.{Trade}
use order_matching_machine.Engine.{clear_trade_log}
use order_matching_machine.Wal.Command.{OrderCommand, CommandFits}
use order_matching_machine.Wal.Log.{Wal, WalReadResult, whole_read, read_wal}
use order_matching_machine.Wal.Recovery.{none_yet, read_wal-Logged}
use order_matching_machine.Thread.State.{Exchange, MatchingThread}
use order_matching_machine.Thread.Routing.{cleared}
use order_matching_machine.Thread.Loop.{Io, replay, recover, finish_recover}
use order_matching_machine.Thread.Durable.{loggable, log_all, run_machine, log_all-Logged}
use order_matching_machine.Thread.Ledger.{IsLedger}
use order_matching_machine.Thread.Live.{replay-IsLedger}
use order_matching_machine.Thread.Recovery.{run_machine-bare}
use order_matching_machine.Thread.Runs.{live-run, silent-run}

recover_is :
    (r s : MatchingThread) (cs : List (OrderCommand × Io))
    → replay (record r { replaying = true }) cs ≡ some s
    → recover r cs ≡ finish_recover (length cs) (some s)
unfolding recover
recover_is r s cs h = ap (finish_recover (length cs)) h

cleared_same : (x : Exchange) → x.engine.trade_log ≡ [] → cleared x ≡ x
unfolding clear_trade_log
cleared_same x h =
    ap (λ (l : List Trade). record x { engine = record x.engine { trade_log = l } }) (sym h)

-- A crash and a restart. A live thread whose log file was empty runs any commands, with 32-bit
-- quantities and counters that do not wrap; every append succeeds, and the logged commands are in
-- range. Then the run returns, `read_wal` returns for its log file, read as a whole, and `recover`, on a new thread with
-- the exchange and the risk limits that the live one started with, fed the commands that were read,
-- returns a thread with exactly the live thread's exchange: the book, the trade log, the owners, the
-- remaining quantities, the client ids, the reference price and the counters.
pub recover-live :
    (t r : MatchingThread) (w v : Wal) (cs : List (OrderCommand × Io)) (io : Io)
    → IsLedger t.exchange
    → t.replaying ≡ false
    → t.wal ≡ some w
    → w.file ≡ []
    → log_all w cs ≡ some v
    → All (λ p. p.0.quantity < 2 ^ 32) cs
    → All CommandFits (loggable cs)
    → t.exchange.next_exchange_id + length cs < 2 ^ 64
    → suc w.seq + length (loggable cs) < 2 ^ 64
    → r.exchange ≡ t.exchange
    → r.risk ≡ t.risk
    → (u : MatchingThread) × (replay t cs ≡ some u)
      × (u.wal ≡ some v)
      × ((res : WalReadResult) × (read_wal v.file whole_read ≡ some res)
          × ((s : MatchingThread) × (recover r (map (λ c. (c, io)) res.commands) ≡ some s)
              × (s.exchange ≡ u.exchange)))
recover-live t r w v cs io l p h empty logged words fits ids seqs same_exchange same_risk =
    let (u, ran, ledger) = replay-IsLedger t cs l words ids in
    let (live, file) = live-run t u w v cs p h logged ran in
    let (res, found, commands) =
      read_wal-Logged (loggable cs) (log_all-Logged w w v [] cs none_yet logged) empty fits seqs in
    let again : run_machine r.risk r.exchange res.commands ≡ some u.exchange =
      ap (run_machine r.risk r.exchange) commands
      ∙ run_machine-bare r.risk r.exchange (loggable cs)
      ∙ ap (λ k. run_machine k r.exchange (loggable cs)) same_risk
      ∙ ap (λ x. run_machine t.risk x (loggable cs)) same_exchange
      ∙ live in
    let (s, replayed, left) =
      silent-run (record r { replaying = true }) io res.commands u.exchange refl again in
    (
      u,
      ran,
      file,
      (
        res,
        found,
        (
          _,
          recover_is r s (map (λ c. (c, io)) res.commands) replayed,
          ap cleared left ∙ cleared_same u.exchange ledger.log_clear,
        ),
      ),
    )
