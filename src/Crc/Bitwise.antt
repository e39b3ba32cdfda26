-- ===== src/Crc/Bitwise.antt =====
-- misc/flyd_crc32.cc against CRC-32 as its definition has it, a bit at a time.
use flydragon.Base.{
  ℕ, zero, suc, ◌+◌, ◌*◌, ◌/◌, ◌%◌, ◌^◌, ◌<◌, ◌≡◌, refl, sym, subst, ap, ap₂, ◌∙◌, List, [], ◌∷◌,
  arith, bit_and, bit_xor, get_or, tabulate,
}
use flydragon.Base.Bits.{
  xor_half, xor_parity, xor_assoc, xor_zero, xor_swap, xor_below, xor_byte, and_0xff,
}
use flydragon.Crc.{crc32_table, crc_loop, get_crc}

-- The polynomial with its digits in the opposite order, if the bit that leaves is set.
abbrev taps : ℕ → ℕ
taps zero = 0
taps (suc n) = 0xedb88320

-- One bit, and several.
abbrev pub shift_out : ℕ → ℕ
shift_out x = bit_xor (x / 2) (taps (x % 2))

abbrev pub shift_bits : ℕ → ℕ → ℕ
shift_bits zero x = x
shift_bits (suc n) x = shift_bits n (shift_out x)

-- CRC-32 of some bytes, after the register `crc`.
abbrev pub bitwise_crc : ℕ → List ℕ → ℕ
bitwise_crc crc [] = crc
bitwise_crc crc (b ∷ bs) = bitwise_crc (shift_bits 8 (bit_xor crc b)) bs

taps_xor : (x y : ℕ) → x < 2 → y < 2 → taps ((x + y) % 2) ≡ bit_xor (taps x) (taps y)
taps_xor zero zero p q = refl
taps_xor zero (suc zero) p q = refl
taps_xor (suc zero) zero p q = refl
taps_xor (suc zero) (suc zero) p q = refl
taps_xor zero (suc (suc y)) p q = absurd (omega arith)
taps_xor (suc zero) (suc (suc y)) p q = absurd (omega arith)
taps_xor (suc (suc x)) y p q = absurd (omega arith)

shift_out-xor : (x y : ℕ) → shift_out (bit_xor x y) ≡ bit_xor (shift_out x) (shift_out y)
shift_out-xor x y =
    ap₂ bit_xor (xor_half x y)
      (ap taps (xor_parity x y ∙ parts) ∙ taps_xor (x % 2) (y % 2) (omega arith) (omega arith))
    ∙ xor_swap (x / 2) (y / 2) (taps (x % 2)) (taps (y % 2))
  where
    parts : (x + y) % 2 ≡ (x % 2 + y % 2) % 2
    parts = omega arith

shift_bits-xor :
    (n x y : ℕ) → shift_bits n (bit_xor x y) ≡ bit_xor (shift_bits n x) (shift_bits n y)
shift_bits-xor zero x y = refl
shift_bits-xor (suc n) x y =
    ap (shift_bits n) (shift_out-xor x y) ∙ shift_bits-xor n (shift_out x) (shift_out y)

shift_out_even : (x y : ℕ) → y ≡ x * 2 → shift_out y ≡ x
shift_out_even x y h =
    let e : y / 2 ≡ x = omega (arith, h) in
    let o : y % 2 ≡ 0 = omega (arith, h) in ap₂ (λ (a b : ℕ). bit_xor a (taps b)) e o ∙ xor_zero x

shift_byte : (h : ℕ) → shift_bits 8 (h * 256) ≡ h
shift_byte h =
    ap (shift_bits 7) (shift_out_even (h * 128) (h * 256) (omega arith))
    ∙ ap (shift_bits 6) (shift_out_even (h * 64) (h * 128) (omega arith))
    ∙ ap (shift_bits 5) (shift_out_even (h * 32) (h * 64) (omega arith))
    ∙ ap (shift_bits 4) (shift_out_even (h * 16) (h * 32) (omega arith))
    ∙ ap (shift_bits 3) (shift_out_even (h * 8) (h * 16) (omega arith))
    ∙ ap (shift_bits 2) (shift_out_even (h * 4) (h * 8) (omega arith))
    ∙ ap (shift_bits 1) (shift_out_even (h * 2) (h * 4) (omega arith))
    ∙ shift_out_even h (h * 2) refl

-- The table that Init_CRC32_Table builds, by reflection and shifts to the left.
table_by_shifts : crc32_table ≡ tabulate 256 (shift_bits 8)
unfolding crc32_table
table_by_shifts = refl

get_or-tabulate : (n i : ℕ) (f : ℕ → ℕ) → i < n → get_or (tabulate n f) i 0 ≡ f i
get_or-tabulate zero i f h = absurd (omega arith)
get_or-tabulate (suc n) zero f h = refl
get_or-tabulate (suc n) (suc i) f h = get_or-tabulate n i (λ j. f (suc j)) (omega arith)

table_lookup : (i : ℕ) → i < 256 → get_or crc32_table i 0 ≡ shift_bits 8 i
table_lookup i h =
    ap (λ (t : List ℕ). get_or t i 0) table_by_shifts ∙ get_or-tabulate 256 i (shift_bits 8) h

-- One step of Get_CRC is eight steps of the register.
step_lem :
    (crc b : ℕ)
    → b < 256
    → bit_xor (crc / 256) (get_or crc32_table (bit_xor (bit_and crc 0xff) b) 0)
      ≡ shift_bits 8 (bit_xor crc b)
step_lem crc b h =
    ap (λ (x : ℕ). bit_xor (crc / 256) (get_or crc32_table (bit_xor x b) 0)) (and_0xff crc)
    ∙ ap (bit_xor (crc / 256))
        (table_lookup (bit_xor (crc % 256) b) (xor_below 8 (crc % 256) b (omega arith) h))
    ∙ ap (λ (x : ℕ). bit_xor x (shift_bits 8 (bit_xor (crc % 256) b)))
        (sym (shift_byte (crc / 256)))
    ∙ sym (shift_bits-xor 8 (crc / 256 * 256) (bit_xor (crc % 256) b))
    ∙ ap (shift_bits 8)
        (sym (xor_assoc (crc / 256 * 256) (crc % 256) b) ∙ ap (λ (x : ℕ). bit_xor x b) whole)
  where
    whole : bit_xor (crc / 256 * 256) (crc % 256) ≡ crc
    whole = xor_byte (crc / 256) (crc % 256) (omega arith) ∙ omega arith

-- Bytes, each below 256.
abbrev pub AreBytes : List ℕ → Type 0
AreBytes [] = Unit {0}
AreBytes (b ∷ bs) = (b < 256) × AreBytes bs

crc_loop-bitwise_crc :
    (crc : ℕ) (bs : List ℕ) → AreBytes bs → crc_loop crc32_table crc bs ≡ bitwise_crc crc bs
unfolding crc_loop
crc_loop-bitwise_crc crc [] h = refl
crc_loop-bitwise_crc crc (b ∷ bs) h =
    ap (λ (x : ℕ). crc_loop crc32_table x bs) (step_lem crc b h.0)
    ∙ crc_loop-bitwise_crc (shift_bits 8 (bit_xor crc b)) bs h.1

-- On bytes, `Get_CRC` with its table of 256 words computes CRC-32 as it is defined bit by bit, with
-- the reflected polynomial and the complements at the start and the end.
pub get_crc-bitwise_crc :
    (bs : List ℕ) → AreBytes bs → get_crc bs ≡ bit_xor (bitwise_crc 0xffffffff bs) 0xffffffff
unfolding get_crc
get_crc-bitwise_crc bs h =
    ap (λ (x : ℕ). bit_xor x 0xffffffff) (crc_loop-bitwise_crc 0xffffffff bs h)

taps_below : (x : ℕ) → taps x < 2 ^ 32
taps_below zero = omega arith
taps_below (suc x) = omega arith

shift_bits_below : (n x : ℕ) → x < 2 ^ 32 → shift_bits n x < 2 ^ 32
shift_bits_below zero x h = h
shift_bits_below (suc n) x h =
    shift_bits_below n (shift_out x)
      (xor_below 32 (x / 2) (taps (x % 2)) (omega arith) (taps_below (x % 2)))

bitwise_crc_below :
    (crc : ℕ) (bs : List ℕ) → crc < 2 ^ 32 → AreBytes bs → bitwise_crc crc bs < 2 ^ 32
bitwise_crc_below crc [] h are = h
bitwise_crc_below crc (b ∷ bs) h are =
    bitwise_crc_below (shift_bits 8 (bit_xor crc b)) bs
      (shift_bits_below 8 (bit_xor crc b) (xor_below 32 crc b h (omega (arith, are.0)))) are.1

-- The check of some bytes fits 32 bits.
pub get_crc_below : (bs : List ℕ) → AreBytes bs → get_crc bs < 2 ^ 32
get_crc_below bs h =
    subst (λ (x : ℕ). x < 2 ^ 32) (sym (get_crc-bitwise_crc bs h))
      (xor_below 32 (bitwise_crc 0xffffffff bs) 0xffffffff
        (bitwise_crc_below 0xffffffff bs (omega arith) h) (omega arith))
