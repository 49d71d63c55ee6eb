-- ===== src/Aop/Bitmap.antt =====
-- A set of numbers as the bits of bytes: aop/bitmap/simple.go. The message that it prints for a
-- number out of range is left out.
pub mod Digits
pub mod Refines
mod Tests
use greatestworks.Base.{
  set, Bool, List, Outcome, false, get_elem?, if◌then◌else◌, length, ltb, none, not, panics,
  replicate, returns, some, ℕ, ◌%◌, ◌*◌, ◌+◌, ◌/◌, ◌==◌, ◌^◌,
}
use greatestworks.Base.Bits.{and_bits, or_bits}

abbrev pub BitMap : Type 0
BitMap = List ℕ

abbrev pub byte_size : ℕ
byte_size = 8

-- `|` and `&` of two bytes.
unfoldable pub or_byte : ℕ → ℕ → ℕ
or_byte a b = or_bits 8 a b

unfoldable pub and_byte : ℕ → ℕ → ℕ
and_byte a b = and_bits 8 a b

unfoldable pub new_bit_map : ℕ → BitMap
new_bit_map n = replicate (n / byte_size + 1) 0

-- A number one byte beyond the end passes the test, and is read out of range.
unfoldable pub set_bit : ℕ → BitMap → Outcome BitMap
set_bit n bt =
    let byte_index = n / byte_size in
    if ltb (length bt) byte_index then returns bt else elim (get_elem? bt byte_index) [
      | none ↦ panics
      | some b ↦ returns (set bt byte_index (or_byte b (1 * 2 ^ (n % byte_size) % 2 ^ 8)))
    ]

unfoldable pub del_bit : ℕ → BitMap → Outcome BitMap
del_bit n bt =
    let byte_index = n / byte_size in
    if ltb (length bt) byte_index then returns bt else elim (get_elem? bt byte_index) [
      | none ↦ panics
      | some b ↦ returns (set bt byte_index (and_byte b (0 * 2 ^ (n % byte_size) % 2 ^ 8)))
    ]

unfoldable pub is_exist : ℕ → BitMap → Outcome Bool
is_exist n bt =
    let byte_index = n / byte_size in
    if ltb (length bt) byte_index then returns false else elim (get_elem? bt byte_index) [
      | none ↦ panics
      | some b ↦ returns (not (and_byte b (1 * 2 ^ (n % byte_size) % 2 ^ 8) == 0))
    ]
