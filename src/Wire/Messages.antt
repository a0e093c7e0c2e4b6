-- ===== src/Wire/Messages.antt =====
-- The messages of include/ome/protocol.hpp, and the ranges of their fields.
use order_matching_machine.Prelude.{ℕ, ◌*◌, ◌<◌, ◌^◌, List, All}
use order_matching_machine.Prelude.Int.{ℤ}
use order_matching_machine.Wire.Bytes.{IsI64}

abbrev pub version : ℕ
version = 1

abbrev pub max_payload_size : ℕ
max_payload_size = 64 * 1024

abbrev pub header_size : ℕ
header_size = 8

abbrev pub max_book_depth : ℕ
max_book_depth = 10

-- `protocol::Side`, with the values 0 and 1.
pub data WireSide : Type 0 where
  bid_side ask_side : WireSide

-- `protocol::OrderType`, with the values 0 and 1.
pub data WireOrderType : Type 0 where
  market_type limit_type : WireOrderType

pub data MessageType : Type 0 where
  new_order_type cancel_type modify_type subscribe_type ack_type reject_type fill_type
        book_update_type heartbeat_type :
      MessageType

unfoldable pub type_code : MessageType → ℕ
type_code new_order_type = 1
type_code cancel_type = 2
type_code modify_type = 3
type_code subscribe_type = 4
type_code ack_type = 10
type_code reject_type = 11
type_code fill_type = 12
type_code book_update_type = 13
type_code heartbeat_type = 14

pub record MessageHeader : Type 0 where
  pub payload_length : ℕ
  pub message_type : ℕ
  pub header_version : ℕ

pub record NewOrder : Type 0 where
  pub client_order_id : ℕ
  pub price_ticks : ℤ
  pub quantity : ℕ
  pub side : WireSide
  pub order_type : WireOrderType

pub record Cancel : Type 0 where
  pub client_order_id : ℕ

pub record Modify : Type 0 where
  pub client_order_id : ℕ
  pub new_price_ticks : ℤ
  pub new_quantity : ℕ

pub record Subscribe : Type 0 where
  pub depth : ℕ

pub record Ack : Type 0 where
  pub client_order_id : ℕ
  pub exchange_order_id : ℕ

-- The reason as its number: a decoder must accept codes that it does not know.
pub record Reject : Type 0 where
  pub client_order_id : ℕ
  pub reason : ℕ

pub record Fill : Type 0 where
  pub exchange_order_id : ℕ
  pub price_ticks : ℤ
  pub quantity : ℕ
  pub remaining_quantity : ℕ

pub record BookLevel : Type 0 where
  pub price_ticks : ℤ
  pub quantity : ℕ

pub record BookUpdate : Type 0 where
  pub seq : ℕ
  pub bids : List BookLevel
  pub asks : List BookLevel

pub record Heartbeat : Type 0 where
  pub timestamp_ns : ℕ

-- The fields fit the integer types of the source.
pub record NewOrderFits (m : NewOrder) : Type 0 where
  pub id_fits : m.client_order_id < 2 ^ 64
  pub price_fits : IsI64 m.price_ticks
  pub quantity_fits : m.quantity < 2 ^ 32

pub record HeaderFits (h : MessageHeader) : Type 0 where
  pub length_fits : h.payload_length < 2 ^ 32
  pub type_fits : h.message_type < 2 ^ 16
  pub version_fits : h.header_version < 2 ^ 16

pub record ModifyFits (m : Modify) : Type 0 where
  pub id_fits : m.client_order_id < 2 ^ 64
  pub price_fits : IsI64 m.new_price_ticks
  pub quantity_fits : m.new_quantity < 2 ^ 32

pub record FillFits (m : Fill) : Type 0 where
  pub id_fits : m.exchange_order_id < 2 ^ 64
  pub price_fits : IsI64 m.price_ticks
  pub quantity_fits : m.quantity < 2 ^ 32
  pub remaining_fits : m.remaining_quantity < 2 ^ 32

pub record LevelFits (l : BookLevel) : Type 0 where
  pub price_fits : IsI64 l.price_ticks
  pub quantity_fits : l.quantity < 2 ^ 64

pub record BookUpdateFits (m : BookUpdate) : Type 0 where
  pub seq_fits : m.seq < 2 ^ 64
  pub bids_fit : All LevelFits m.bids
  pub asks_fit : All LevelFits m.asks

pub record ShortMessagesFit (c : Cancel) (s : Subscribe) (a : Ack) (r : Reject) (t : Heartbeat)
    : Type 0 where
  pub cancel_fits : c.client_order_id < 2 ^ 64
  pub subscribe_fits : s.depth < 2 ^ 8
  pub ack_id_fits : a.client_order_id < 2 ^ 64
  pub ack_exchange_id_fits : a.exchange_order_id < 2 ^ 64
  pub reject_id_fits : r.client_order_id < 2 ^ 64
  pub reject_reason_fits : r.reason < 2 ^ 16
  pub heartbeat_fits : t.timestamp_ns < 2 ^ 64
