-- ===== src/Wal/Command.antt =====
-- The commands of include/ome/commands.hpp, and their codec in include/ome/wal.hpp.
use order_matching_machine.Prelude.{
  ℕ, ◌<◌, ◌^◌, ◌≡◌, refl, Bool, true, false, ◌||◌, List, [], ◌++◌, Option, none, some, arith,
  append_assoc, append-nil, length, length-append, ltb, ◌==◌, le→ltb_false, if◌then◌else◌,
}
use order_matching_machine.Prelude.Int.{ℤ}
use order_matching_machine.Prelude.Words.{bits_of}
use order_matching_machine.Wire.Bytes.{
  le_bytes, put_u8, put_u32, put_u64, put_i64, reader, read, read_i64, finished, IsI64,
  read-le_bytes, length-le_bytes, bits_of-lt, signed_of-bits_of,
}
use order_matching_machine.Wire.Messages.{WireSide, WireOrderType}
use order_matching_machine.Wire.Codec.{side_code, order_type_code, side_of_code, order_type_of_code}
use order_matching_machine.Wire.Layout.{codes_small}

pub data CommandType : Type 0 where
  session_opened_command new_order_command cancel_command modify_command subscribe_command
        cancel_all_command :
      CommandType

unfoldable pub command_code : CommandType → ℕ
command_code session_opened_command = 0
command_code new_order_command = 1
command_code cancel_command = 2
command_code modify_command = 3
command_code subscribe_command = 4
command_code cancel_all_command = 5

-- The cast of a byte, where `is_known_command_type` accepts it.
unfoldable pub known_command_type : ℕ → Option CommandType
known_command_type t =
    if t == 0
    then some session_opened_command
    else if t == 1
    then some new_order_command
    else if t == 2
    then some cancel_command
    else if t == 3
    then some modify_command
    else if t == 4
    then some subscribe_command
    else if t == 5
    then some cancel_all_command
    else none

-- A pointer of the process is an address, or null.
pub record OrderCommand : Type 0 where
  pub command_type : CommandType
  pub session : ℕ
  pub client_order_id : ℕ
  pub price_ticks : ℤ
  pub quantity : ℕ
  pub side : WireSide
  pub order_type : WireOrderType
  pub egress : Option ℕ
  pub md_queue : Option ℕ

unfoldable pub is_loggable : CommandType → Bool
is_loggable new_order_command = true
is_loggable cancel_command = true
is_loggable modify_command = true
is_loggable cancel_all_command = true
is_loggable _ = false

unfoldable pub encode_command : List ℕ → OrderCommand → List ℕ
encode_command out c =
    put_u8
      (put_u8
        (put_u32
          (put_i64
            (put_u64 (put_u64 (put_u8 out (command_code c.command_type)) c.session)
              c.client_order_id)
            c.price_ticks)
          c.quantity)
        (side_code c.side))
      (order_type_code c.order_type)

-- The command of fields that were read in full; a number that no enumerator has is refused.
unfoldable pub command_of : Option CommandType → ℕ → ℕ → ℤ → ℕ → ℕ → ℕ → Option OrderCommand
command_of none session id price quantity side otype = none
command_of (some type) session id price quantity side otype =
    if ltb 1 side || ltb 1 otype
    then none
    else some (record {
      command_type = type;
      session = session;
      client_order_id = id;
      price_ticks = price;
      quantity = quantity;
      side = side_of_code side;
      order_type = order_type_of_code otype;
      egress = none;
      md_queue = none;
    })

unfoldable pub decode_command : List ℕ → Option OrderCommand
decode_command bytes =
    let (type, r1) = read 1 (reader bytes) in
    let (session, r2) = read 8 r1 in
    let (id, r3) = read 8 r2 in
    let (price, r4) = read_i64 r3 in
    let (quantity, r5) = read 4 r4 in
    let (side, r6) = read 1 r5 in
    let (otype, r7) = read 1 r6 in
    if finished r7
    then command_of (known_command_type type) session id price quantity side otype
    else none

pub record CommandFits (c : OrderCommand) : Type 0 where
  pub session_fits : c.session < 2 ^ 64
  pub id_fits : c.client_order_id < 2 ^ 64
  pub price_fits : IsI64 c.price_ticks
  pub quantity_fits : c.quantity < 2 ^ 32

-- What of a command reaches the disk: all but its pointers.
abbrev pub bare : OrderCommand → OrderCommand
bare c = record c { egress = none; md_queue = none }

command-flat :
    (c : OrderCommand)
    → encode_command [] c
      ≡ le_bytes 1 (command_code c.command_type)
        ++ (le_bytes 8 c.session
            ++ (le_bytes 8 c.client_order_id
                ++ (le_bytes 8 (bits_of c.price_ticks)
                    ++ (le_bytes 4 c.quantity
                        ++ (le_bytes 1 (side_code c.side)
                            ++ (le_bytes 1 (order_type_code c.order_type) ++ []))))))
unfolding encode_command
command-flat c = simp (append_assoc, append-nil)

known-command_code :
    (t : CommandType) → (command_code t < 256) × (known_command_type (command_code t) ≡ some t)
unfolding command_code known_command_type
known-command_code session_opened_command = (omega arith, refl)
known-command_code new_order_command = (omega arith, refl)
known-command_code cancel_command = (omega arith, refl)
known-command_code modify_command = (omega arith, refl)
known-command_code subscribe_command = (omega arith, refl)
known-command_code cancel_all_command = (omega arith, refl)

-- A command whose fields are in range comes back from its encoding without its pointers.
pub decode-encode_command :
    (c : OrderCommand) → CommandFits c → decode_command (encode_command [] c) ≡ some (bare c)
unfolding decode_command command_of
decode-encode_command c f =
    let (s, t, s', t') = codes_small c.side c.order_type in
    let (k, k') = known-command_code c.command_type in
    let tail6 = le_bytes 1 (order_type_code c.order_type) ++ [] in
    let tail5 = le_bytes 1 (side_code c.side) ++ tail6 in
    let tail4 = le_bytes 4 c.quantity ++ tail5 in
    let tail3 = le_bytes 8 (bits_of c.price_ticks) ++ tail4 in
    let tail2 = le_bytes 8 c.client_order_id ++ tail3 in
    let tail1 = le_bytes 8 c.session ++ tail2 in
    rw
      (
        command-flat c,
        read-le_bytes 1 (command_code c.command_type) k tail1,
        read-le_bytes 8 c.session f.session_fits tail2,
        read-le_bytes 8 c.client_order_id f.id_fits tail3,
        read-le_bytes 8 (bits_of c.price_ticks) (bits_of-lt c.price_ticks f.price_fits) tail4,
        signed_of-bits_of c.price_ticks f.price_fits,
        read-le_bytes 4 c.quantity f.quantity_fits tail5,
        read-le_bytes 1 (side_code c.side) (omega (arith, s)) tail6,
        read-le_bytes 1 (order_type_code c.order_type) (omega (arith, t)) [],
        k',
        le→ltb_false 1 (side_code c.side) (omega (arith, s)),
        le→ltb_false 1 (order_type_code c.order_type) (omega (arith, t)),
        s',
        t',
      )
      refl

pub length-encode_command : (c : OrderCommand) → length (encode_command [] c) ≡ 31
length-encode_command c =
    rw
      (
        command-flat c,
        length-append,
        length-append,
        length-append,
        length-append,
        length-append,
        length-append,
        length-append,
      )
      (omega (
        arith,
        length-le_bytes 1 (command_code c.command_type),
        length-le_bytes 8 c.session,
        length-le_bytes 8 c.client_order_id,
        length-le_bytes 8 (bits_of c.price_ticks),
        length-le_bytes 4 c.quantity,
        length-le_bytes 1 (side_code c.side),
        length-le_bytes 1 (order_type_code c.order_type),
      ))
