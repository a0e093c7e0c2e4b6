-- ===== src/Tests/WalRuns.antt =====
-- The log on concrete commands.
use order_matching_machine.Prelude.{
  ◌≡◌, ◌<◌, ◌++◌, refl, Bool, true, false, [], ◌∷◌, some, none, arith, length, take, sym,
  append-nil,
}
use order_matching_machine.Prelude.Int.{pos}
use order_matching_machine.Prelude.Words.{add64}
use order_matching_machine.Wire.Messages.{bid_side, limit_type}
use order_matching_machine.Wal.Command.{
  new_order_command, cancel_command, OrderCommand, CommandFits, bare, encode_command,
  decode_command, decode-encode_command,
}
use order_matching_machine.Wal.Log.{
  Wal, record_bytes, append, maybe_sync, sync, FileRead, whole_read, read_wal,
}
use order_matching_machine.Wal.Record.{length-record}
use order_matching_machine.Wal.Replay.{log_bytes}
use order_matching_machine.Wal.Crash.{replayed, read_wal-torn, read_wal-gap}
use order_matching_machine.Wal.Rewrite.{Rewrite, truncate_before}
use order_matching_machine.Wal.Truncate.{Truncated, kept_bytes, truncate_before-Truncated}
use order_matching_machine.Wal.Recovery.{none_yet, one_more, read_wal-append, append-since_sync}

abbrev order_command : OrderCommand
order_command = record {
  command_type = new_order_command;
  session = 1;
  client_order_id = 7;
  price_ticks = pos 100;
  quantity = 5;
  side = bid_side;
  order_type = limit_type;
  egress = some 4096;
  md_queue = none;
}

abbrev undo_command : OrderCommand
undo_command = record order_command { command_type = cancel_command; egress = none }

order_command-CommandFits : CommandFits order_command
order_command-CommandFits = record {
  session_fits = omega arith;
  id_fits = omega arith;
  price_fits = (omega arith, omega arith);
  quantity_fits = omega arith;
}

undo_command-CommandFits : CommandFits undo_command
undo_command-CommandFits = record {
  session_fits = omega arith;
  id_fits = omega arith;
  price_fits = (omega arith, omega arith);
  quantity_fits = omega arith;
}

decode-encode_command_example :
    decode_command (encode_command [] order_command) ≡ some (bare order_command)
decode-encode_command_example = decode-encode_command order_command order_command-CommandFits

read_wal-torn_example :
    read_wal (log_bytes 1 (order_command ∷ []) ++ take 20 (record_bytes 2 undo_command)) whole_read
    ≡ some (record (replayed 1 (order_command ∷ [])) { truncated_bytes = 20 })
read_wal-torn_example =
    read_wal-torn order_command [] 1 undo_command 20 (order_command-CommandFits, tt) (omega arith)
      (omega (arith, length-record 2 undo_command))

-- The record with the number 2 is missing.
read_wal-gap_example :
    read_wal (log_bytes 1 (order_command ∷ []) ++ (record_bytes 3 undo_command ++ [])) whole_read
    ≡ some (record (replayed 1 (order_command ∷ [])) {
      sequence_gap = true;
      gap_after = 1;
      truncated_bytes = length (record_bytes 3 undo_command ++ []);
    })
read_wal-gap_example =
    read_wal-gap order_command [] 1 3 undo_command [] (order_command-CommandFits, tt)
      undo_command-CommandFits (omega arith) (omega arith) (omega arith) (omega arith)

abbrev fresh_wal : Wal
fresh_wal = record {
  is_open = true;
  cfg = record { sync_interval_ns = 10000000; sync_every_n = 100 };
  seq = 0;
  since_sync = 0;
  last_sync_ns = 0;
  syncs = 0;
  file = [];
}

appended : (append fresh_wal order_command 5 47).0 ≡ true
unfolding append
appended = ground (arith, length-record 1 order_command)

append-since_sync_example : (append fresh_wal order_command 5 47).1.since_sync < 100
append-since_sync_example =
    append-since_sync fresh_wal order_command 5 47 (omega arith) (omega arith) appended

abbrev one_logged : Wal
one_logged = (append fresh_wal order_command 5 47).1

one_logged-is_open : one_logged.is_open ≡ true
unfolding append maybe_sync sync
one_logged-is_open = ground (arith, length-record 1 order_command)

second_fails : (w : Wal) → (append w undo_command 9 20).0 ≡ false
unfolding append
second_fails w = ground (arith, length-record (add64 w.seq 1) undo_command)

read_wal-append_example :
    read_wal (append one_logged undo_command 9 20).1.file whole_read
    ≡ some (record (replayed 1 (order_command ∷ [])) { truncated_bytes = 20 })
read_wal-append_example =
    read_wal-append order_command [] (one_more none_yet order_command 5 47 appended) refl
      (order_command-CommandFits, tt) (omega arith) one_logged-is_open undo_command 9 20
      (second_fails one_logged)

abbrev two_logged : Wal
two_logged = record fresh_wal { seq = 2; file = log_bytes 1 (order_command ∷ undo_command ∷ []) }

-- A `read` fails within the second record.
abbrev broken_read : FileRead
broken_read = record { opened = true; stops = some 60 }

abbrev careless : Rewrite
careless = record {
  read = broken_read;
  opened = true;
  landed = 47;
  renamed = true;
  reopened = true;
}

-- The second record is above the snapshot's number, and yet nothing of it is kept.
careless_loses : kept_bytes 1 1 (order_command ∷ []) ≡ []
unfolding log_bytes
careless_loses = refl

truncate_before-Truncated_example :
    (ok : Bool) × (v : Wal) × (truncate_before two_logged 0 careless ≡ some (ok, v))
    × Truncated two_logged careless (kept_bytes 0 1 (order_command ∷ [])) ok v
truncate_before-Truncated_example =
    truncate_before-Truncated two_logged 0 1 careless (order_command ∷ undo_command ∷ [])
      undo_command 0 (sym (append-nil (log_bytes 1 (order_command ∷ undo_command ∷ []))))
      (omega arith) (order_command-CommandFits, (undo_command-CommandFits, tt)) (omega arith)
