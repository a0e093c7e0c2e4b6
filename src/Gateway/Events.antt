-- ===== src/Gateway/Events.antt =====
-- The constructors of include/ome/commands.hpp: the commands that the gateway sends to the matching
-- thread, and the events that come back.
use order_matching_machine.Prelude.{ℕ, Bool, true, false, none, some, ◌==◌}
use order_matching_machine.Prelude.Int.{ℤ, pos}
use order_matching_machine.Engine.Reasons.{RejectReason, accepted_none}
use order_matching_machine.Wire.Messages.{NewOrder, Modify, bid_side, limit_type}
use order_matching_machine.Wal.Command.{
  OrderCommand, session_opened_command, new_order_command, cancel_command, modify_command,
  subscribe_command, cancel_all_command,
}

-- `OrderCommand c{}`
abbrev pub default_command : OrderCommand
default_command = record {
  command_type = new_order_command;
  session = 0;
  client_order_id = 0;
  price_ticks = pos 0;
  quantity = 0;
  side = bid_side;
  order_type = limit_type;
  egress = none;
  md_queue = none;
}

unfoldable pub session_opened : ℕ → ℕ → ℕ → OrderCommand
session_opened s q md = record default_command {
  command_type = session_opened_command;
  session = s;
  egress = some q;
  md_queue = some md;
}

unfoldable pub subscribe : ℕ → ℕ → OrderCommand
subscribe s depth = record default_command {
  command_type = subscribe_command;
  session = s;
  quantity = depth;
}

unfoldable pub new_order : ℕ → NewOrder → OrderCommand
new_order s m = record default_command {
  command_type = new_order_command;
  session = s;
  client_order_id = m.client_order_id;
  price_ticks = m.price_ticks;
  quantity = m.quantity;
  side = m.side;
  order_type = m.order_type;
}

unfoldable pub cancel : ℕ → ℕ → OrderCommand
cancel s client_order_id = record default_command {
  command_type = cancel_command;
  session = s;
  client_order_id = client_order_id;
}

unfoldable pub modify : ℕ → Modify → OrderCommand
modify s m = record default_command {
  command_type = modify_command;
  session = s;
  client_order_id = m.client_order_id;
  price_ticks = m.new_price_ticks;
  quantity = m.new_quantity;
}

unfoldable pub cancel_all : ℕ → OrderCommand
cancel_all s = record default_command { command_type = cancel_all_command; session = s }

pub data EventType : Type 0 where
  ack_event reject_event fill_event session_retired_event : EventType

pub record OrderEvent : Type 0 where
  pub event_type : EventType
  pub session : ℕ
  pub client_order_id : ℕ
  pub exchange_order_id : ℕ
  pub price_ticks : ℤ
  pub quantity : ℕ
  pub remaining_quantity : ℕ
  pub reason : RejectReason
  pub closes_order : Bool

-- `OrderEvent e{}`
abbrev pub default_event : OrderEvent
default_event = record {
  event_type = ack_event;
  session = 0;
  client_order_id = 0;
  exchange_order_id = 0;
  price_ticks = pos 0;
  quantity = 0;
  remaining_quantity = 0;
  reason = accepted_none;
  closes_order = false;
}

unfoldable pub ack : ℕ → ℕ → ℕ → Bool → OrderEvent
ack s coid xoid closes = record default_event {
  event_type = ack_event;
  session = s;
  client_order_id = coid;
  exchange_order_id = xoid;
  closes_order = closes;
}

unfoldable pub reject : ℕ → ℕ → RejectReason → OrderEvent
reject s coid r = record default_event {
  event_type = reject_event;
  session = s;
  client_order_id = coid;
  reason = r;
  closes_order = true;
}

unfoldable pub fill : ℕ → ℕ → ℕ → ℤ → ℕ → ℕ → OrderEvent
fill s coid xoid px qty remaining = record default_event {
  event_type = fill_event;
  session = s;
  client_order_id = coid;
  closes_order = remaining == 0;
  exchange_order_id = xoid;
  price_ticks = px;
  quantity = qty;
  remaining_quantity = remaining;
}

unfoldable pub session_retired : ℕ → OrderEvent
session_retired s = record default_event { event_type = session_retired_event; session = s }
