-- ===== src/Engine/Reasons.antt =====
-- include/ome/reject_reason.hpp: why an order was refused, with the numbers that go on the wire and
-- the names that go into logs.
use Prim.Native.String.{String}
use order_matching_machine.Prelude.{ℕ}

-- `NONE` is `accepted_none` here, since `none` is an `Option`.
pub data RejectReason : Type 0 where
  accepted_none unknown_order invalid_price invalid_qty duplicate_order_id risk_max_order_size
        risk_price_band malformed rate_limited not_subscribed unknown_message_type not_implemented :
      RejectReason

-- The enumerators' values.
unfoldable pub reason_code : RejectReason → ℕ
reason_code accepted_none = 0
reason_code unknown_order = 1
reason_code invalid_price = 2
reason_code invalid_qty = 3
reason_code duplicate_order_id = 9
reason_code risk_max_order_size = 4
reason_code risk_price_band = 5
reason_code malformed = 6
reason_code rate_limited = 7
reason_code not_subscribed = 8
reason_code unknown_message_type = 10
reason_code not_implemented = 11

reason_name : RejectReason → String
reason_name accepted_none = "NONE"
reason_name unknown_order = "UNKNOWN_ORDER"
reason_name invalid_price = "INVALID_PRICE"
reason_name invalid_qty = "INVALID_QTY"
reason_name risk_max_order_size = "RISK_MAX_ORDER_SIZE"
reason_name risk_price_band = "RISK_PRICE_BAND"
reason_name malformed = "MALFORMED"
reason_name rate_limited = "RATE_LIMITED"
reason_name not_subscribed = "NOT_SUBSCRIBED"
reason_name duplicate_order_id = "DUPLICATE_ORDER_ID"
reason_name unknown_message_type = "UNKNOWN_MESSAGE_TYPE"
reason_name not_implemented = "NOT_IMPLEMENTED"
