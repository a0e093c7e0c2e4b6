-- ===== src/Wire/Bytes.antt =====
-- `detail` of include/ome/protocol.hpp: little-endian writes, and the bounds-checked `Reader`.
--
-- A byte is a number below 256. The reader's state is what it has not read yet (`data_` from `pos_`
-- up to `size_`) and its failure flag.
use order_matching_machine.Prelude.{
  ℕ, zero, suc, ◌+◌, ◌-◌, ◌*◌, ◌/◌, ◌%◌, ◌^◌, ◌≤◌, ◌<◌, ◌≡◌, refl, ap, ◌∙◌, sym, Bool, true, false,
  ◌&&◌, List, [], ◌∷◌, ◌++◌, arith, All, length, length-append, take, drop, take-append,
  drop-append, leb, ltb, is_empty, if◌then◌else◌,
}
use order_matching_machine.Prelude.Int.{ℤ, pos, negsuc, pos_part, neg_part}
use order_matching_machine.Prelude.Words.{bits_of}

-- The bytes of `v >> (8 * i)` for `i < n`.
unfoldable pub le_bytes : ℕ → ℕ → List ℕ
le_bytes zero v = []
le_bytes (suc n) v = v % 256 ∷ le_bytes n (v / 256)

abbrev pub put_u8 : List ℕ → ℕ → List ℕ
put_u8 out v = out ++ le_bytes 1 v

abbrev pub put_u16 : List ℕ → ℕ → List ℕ
put_u16 out v = out ++ le_bytes 2 v

abbrev pub put_u32 : List ℕ → ℕ → List ℕ
put_u32 out v = out ++ le_bytes 4 v

abbrev pub put_u64 : List ℕ → ℕ → List ℕ
put_u64 out v = out ++ le_bytes 8 v

abbrev pub put_i64 : List ℕ → ℤ → List ℕ
put_i64 out v = put_u64 out (bits_of v)

pub record Reader : Type 0 where
  pub rest : List ℕ
  pub ok : Bool

abbrev pub reader : List ℕ → Reader
reader bytes = record { rest = bytes; ok = true }

-- The value of bytes, the lowest first.
unfoldable pub from_le : List ℕ → ℕ
from_le [] = 0
from_le (b ∷ bs) = b + 256 * from_le bs

-- `need(n)`, then the read of `n` bytes; a short buffer fails, and gives 0.
unfoldable pub read : ℕ → Reader → ℕ × Reader
read n r =
    if r.ok && leb n (length r.rest)
    then (from_le (take n r.rest), record { rest = drop n r.rest; ok = true })
    else (0, record r { ok = false })

-- The `int64_t` of a bit pattern.
abbrev pub signed_of : ℕ → ℤ
signed_of bits = if ltb bits (2 ^ 63) then pos bits else negsuc (2 ^ 64 - suc bits)

abbrev pub read_i64 : Reader → ℤ × Reader
read_i64 r = let (bits, r') = read 8 r in (signed_of bits, r')

-- `r.ok() && r.remaining() == 0`
abbrev pub finished : Reader → Bool
finished r = r.ok && is_empty r.rest

abbrev pub IsByte : ℕ → Type 0
IsByte b = b < 256

abbrev pub IsI64 : ℤ → Type 0
IsI64 p = (pos_part p < 2 ^ 63) × (neg_part p ≤ 2 ^ 63)

pub length-le_bytes : (n v : ℕ) → length (le_bytes n v) ≡ n
unfolding le_bytes
length-le_bytes zero v = refl
length-le_bytes (suc n) v = ap suc (length-le_bytes n (v / 256))

pub le_bytes-IsByte : (n v : ℕ) → All IsByte (le_bytes n v)
unfolding le_bytes
le_bytes-IsByte zero v = tt
le_bytes-IsByte (suc n) v = (omega arith, le_bytes-IsByte n (v / 256))

-- 256 ^ n, by recursion.
abbrev pub byte_span : ℕ → ℕ
byte_span zero = 1
byte_span (suc n) = 256 * byte_span n

pub from_le-le_bytes : (n v : ℕ) → v < byte_span n → from_le (le_bytes n v) ≡ v
unfolding le_bytes from_le
from_le-le_bytes zero v h = omega arith
from_le-le_bytes (suc n) v h = omega (arith, from_le-le_bytes n (v / 256) (omega arith))

pub le_bytes-from_le : (bs : List ℕ) → All IsByte bs → le_bytes (length bs) (from_le bs) ≡ bs
unfolding le_bytes from_le
le_bytes-from_le [] h = refl
le_bytes-from_le (b ∷ bs) h =
    let low : (b + 256 * from_le bs) % 256 ≡ b = omega (arith, h.0) in
    let high : (b + 256 * from_le bs) / 256 ≡ from_le bs = omega (arith, h.0) in
    rw (low, high) (ap (λ t. b ∷ t) (le_bytes-from_le bs h.1))

pub from_le-lt : (bs : List ℕ) → All IsByte bs → from_le bs < byte_span (length bs)
unfolding from_le
from_le-lt [] h = omega arith
from_le-lt (b ∷ bs) h = omega (arith, from_le-lt bs h.1, h.0)

-- A read takes off what a write of a value in range put there.
pub read-le_bytes :
    (n v : ℕ)
    → v < byte_span n
    → (rest : List ℕ) → read n (reader (le_bytes n v ++ rest)) ≡ (v, reader rest)
unfolding read
read-le_bytes n v h rest =
    let len = length-le_bytes n v in
    let fits : leb n (length (le_bytes n v ++ rest)) ≡ true =
      ground (arith, length-append (le_bytes n v) rest, len) in
    let front : take n (le_bytes n v ++ rest) ≡ le_bytes n v =
      ap (λ k. take k (le_bytes n v ++ rest)) (sym len) ∙ take-append (le_bytes n v) rest in
    let back : drop n (le_bytes n v ++ rest) ≡ rest =
      ap (λ k. drop k (le_bytes n v ++ rest)) (sym len) ∙ drop-append (le_bytes n v) rest in
    rw (fits, front, back, from_le-le_bytes n v h) refl

pub signed_of-bits_of : (p : ℤ) → IsI64 p → signed_of (bits_of p) ≡ p
signed_of-bits_of (pos n) h = ground arith
signed_of-bits_of (negsuc n) h = ground arith

pub bits_of-lt : (p : ℤ) → IsI64 p → bits_of p < byte_span 8
bits_of-lt (pos n) h = omega arith
bits_of-lt (negsuc n) h = omega arith

pub bits_of-signed_of : (b : ℕ) → b < 2 ^ 64 → bits_of (signed_of b) ≡ b
bits_of-signed_of b h = ground arith

pub read_i64-le_bytes :
    (p : ℤ)
    → IsI64 p
    → (rest : List ℕ) → read_i64 (reader (le_bytes 8 (bits_of p) ++ rest)) ≡ (p, reader rest)
read_i64-le_bytes p h rest =
    rw (read-le_bytes 8 (bits_of p) (bits_of-lt p h) rest, signed_of-bits_of p h) refl
