-- ===== src/Crc.antt =====
-- misc/flyd_crc32.cc: CRC-32 by a table of 256 words.
pub mod Bitwise
use flydragon.Base.{
  ℕ, zero, suc, ◌*◌, ◌/◌, ◌^◌, ◌≡◌, refl, List, [], ◌∷◌, ◌==◌, if◌then◌else◌, bit_and, bit_or,
  bit_xor, u32, get_or, tabulate,
}

-- The loop of `Reflect`; with `n` rounds to go after this one, the bit moves to place `n`.
unfoldable pub reflect_loop : ℕ → ℕ → ℕ → ℕ
reflect_loop zero ref value = value
reflect_loop (suc n) ref value =
    reflect_loop n (ref / 2) (if bit_and ref 1 == 1 then bit_or value (2 ^ n) else value)

-- `Reflect`: the lowest `ch` bits of `ref` in the opposite order.
unfoldable pub reflect : ℕ → ℕ → ℕ
unfolding reflect_loop
reflect ref ch = reflect_loop ch ref 0

-- `ulPolynomial`
abbrev pub polynomial : ℕ
polynomial = 0x04c11db7

-- The inner loop of `Init_CRC32_Table`.
unfoldable pub shift_loop : ℕ → ℕ → ℕ
shift_loop zero crc = crc
shift_loop (suc j) crc =
    shift_loop j (bit_xor (u32 (crc * 2)) (if bit_and crc (2 ^ 31) == 0 then 0 else polynomial))

-- One entry of the table.
unfoldable pub table_entry : ℕ → ℕ
unfolding reflect shift_loop
table_entry i = reflect (shift_loop 8 (u32 (reflect i 8 * 2 ^ 24))) 32

-- `Init_CRC32_Table`
unfoldable pub crc32_table : List ℕ
unfolding table_entry
crc32_table = tabulate 256 table_entry

-- The loop of `Get_CRC`.
unfoldable pub crc_loop : List ℕ → ℕ → List ℕ → ℕ
crc_loop table crc [] = crc
crc_loop table crc (b ∷ bs) =
    crc_loop table (bit_xor (crc / 2 ^ 8) (get_or table (bit_xor (bit_and crc 0xff) b) 0)) bs

-- `Get_CRC`; its int result is the same 32 bits.
unfoldable pub get_crc : List ℕ → ℕ
unfolding crc_loop crc32_table
get_crc bs = bit_xor (crc_loop crc32_table 0xffffffff bs) 0xffffffff
