-- ===== src/Base/Bits.antt =====
-- Exclusive or and the mask of the lowest bits, one binary digit at a time.
use Prim.Native.Nat.{
  ℕ, zero, suc, ◌+◌, ◌*◌, ◌/◌, ◌%◌, ◌^◌, ◌≤◌, ◌<◌, min, differ, digits, bit_and, bit_xor,
  bit_and-bitwise, bit_xor-bitwise,
}
use mathlib.Core.Path.{◌≡◌, refl, sym, ap, ◌∙◌}
use native.Mathlib.Omega.{arith}

-- More fuel than the number has digits does not matter.
digits_extra : (z : ℕ → ℕ) (f : ℕ → ℕ → ℕ) (n a b : ℕ) → a ≤ n → digits z f n a b ≡ digits z f a a b
digits_extra z f n a b h = between n a a b h (omega arith)
  where
    between : (n m a b : ℕ) → a ≤ n → a ≤ m → digits z f n a b ≡ digits z f m a b
    between zero zero a b p q = refl
    between zero (suc m) zero b p q = refl
    between (suc n) zero zero b p q = refl
    between (suc n) (suc m) zero b p q = refl
    between zero m (suc a) b p q = absurd (omega arith)
    between (suc n) zero (suc a) b p q = absurd (omega arith)
    between (suc n) (suc m) (suc a) b p q =
        ap (λ (d : ℕ). d * 2 + f (suc a % 2) (b % 2))
          (between n m (suc a / 2) (b / 2) (omega arith) (omega arith))

-- The lowest digit, and the others.
pub xor_digit : (a b : ℕ) → bit_xor a b ≡ bit_xor (a / 2) (b / 2) * 2 + differ (a % 2) (b % 2)
xor_digit zero b = simp bit_xor-bitwise (omega arith)
xor_digit (suc a) b =
    simp bit_xor-bitwise
      (omega (arith, digits_extra (λ y. y) differ a (suc a / 2) (b / 2) (omega arith)))

pub and_digit : (a b : ℕ) → bit_and a b ≡ bit_and (a / 2) (b / 2) * 2 + min (a % 2) (b % 2)
and_digit zero b = simp bit_and-bitwise (omega arith)
and_digit (suc a) b =
    simp bit_and-bitwise
      (omega (arith, digits_extra (λ y. 0) min a (suc a / 2) (b / 2) (omega arith)))

differ_digit : (x y : ℕ) → x < 2 → y < 2 → differ x y ≡ (x + y) % 2
differ_digit zero zero p q = refl
differ_digit zero (suc zero) p q = refl
differ_digit (suc zero) zero p q = refl
differ_digit (suc zero) (suc zero) p q = refl
differ_digit zero (suc (suc y)) p q = absurd (omega arith)
differ_digit (suc zero) (suc (suc y)) p q = absurd (omega arith)
differ_digit (suc (suc x)) y p q = absurd (omega arith)

pub xor_step : (a b : ℕ) → bit_xor a b ≡ bit_xor (a / 2) (b / 2) * 2 + (a + b) % 2
xor_step a b =
    omega (arith, xor_digit a b, differ_digit (a % 2) (b % 2) (omega arith) (omega arith))

pub xor_half : (a b : ℕ) → bit_xor a b / 2 ≡ bit_xor (a / 2) (b / 2)
xor_half a b = omega (arith, xor_step a b)

pub xor_parity : (a b : ℕ) → bit_xor a b % 2 ≡ (a + b) % 2
xor_parity a b = omega (arith, xor_step a b)

-- The laws, by induction on a bound of the numbers.
comm_below : (n a b : ℕ) → a ≤ n → b ≤ n → bit_xor a b ≡ bit_xor b a
comm_below zero zero zero p q = refl
comm_below zero (suc a) b p q = absurd (omega arith)
comm_below zero zero (suc b) p q = absurd (omega arith)
comm_below (suc n) a b p q =
    omega
      (arith, xor_step a b, xor_step b a, comm_below n (a / 2) (b / 2) (omega arith) (omega arith))

pub xor_comm : (a b : ℕ) → bit_xor a b ≡ bit_xor b a
xor_comm a b = comm_below (a + b) a b (omega arith) (omega arith)

assoc_below :
    (n a b c : ℕ) → a ≤ n → b ≤ n → c ≤ n → bit_xor (bit_xor a b) c ≡ bit_xor a (bit_xor b c)
assoc_below zero zero zero zero p q r = refl
assoc_below zero (suc a) b c p q r = absurd (omega arith)
assoc_below zero zero (suc b) c p q r = absurd (omega arith)
assoc_below zero zero zero (suc c) p q r = absurd (omega arith)
assoc_below (suc n) a b c p q r =
    let ih = assoc_below n (a / 2) (b / 2) (c / 2) (omega arith) (omega arith) (omega arith) in
    let l = ap (λ (x : ℕ). bit_xor x (c / 2)) (xor_half a b) in
    let m = ap (λ (x : ℕ). bit_xor (a / 2) x) (xor_half b c) in
    omega (
      arith,
      xor_step (bit_xor a b) c,
      xor_step a (bit_xor b c),
      xor_parity a b,
      xor_parity b c,
      l,
      m,
      ih,
    )

pub xor_assoc : (a b c : ℕ) → bit_xor (bit_xor a b) c ≡ bit_xor a (bit_xor b c)
xor_assoc a b c = assoc_below (a + b + c) a b c (omega arith) (omega arith) (omega arith)

pub zero_xor : (a : ℕ) → bit_xor 0 a ≡ a
zero_xor a = simp bit_xor-bitwise refl

pub xor_zero : (a : ℕ) → bit_xor a 0 ≡ a
xor_zero a = xor_comm a 0 ∙ zero_xor a

self_below : (n a : ℕ) → a ≤ n → bit_xor a a ≡ 0
self_below zero zero p = refl
self_below zero (suc a) p = absurd (omega arith)
self_below (suc n) a p = omega (arith, xor_step a a, self_below n (a / 2) (omega arith))

pub xor_self : (a : ℕ) → bit_xor a a ≡ 0
xor_self a = self_below a a (omega arith)

-- The middle ones of four change places.
pub xor_swap :
    (a b c d : ℕ) → bit_xor (bit_xor a b) (bit_xor c d) ≡ bit_xor (bit_xor a c) (bit_xor b d)
xor_swap a b c d =
    xor_assoc a b (bit_xor c d)
    ∙ ap (bit_xor a)
        (sym (xor_assoc b c d) ∙ ap (λ (x : ℕ). bit_xor x d) (xor_comm b c) ∙ xor_assoc c b d)
    ∙ sym (xor_assoc a c (bit_xor b d))

pub xor_below : (k a b : ℕ) → a < 2 ^ k → b < 2 ^ k → bit_xor a b < 2 ^ k
xor_below zero zero zero p q = omega (arith, zero_xor 0)
xor_below zero (suc a) b p q = absurd (omega arith)
xor_below zero zero (suc b) p q = absurd (omega arith)
xor_below (suc k) a b p q =
    omega (arith, xor_step a b, xor_below k (a / 2) (b / 2) (omega arith) (omega arith))

xor_double : (x y l : ℕ) → y ≡ x * 2 → bit_xor y l ≡ bit_xor x (l / 2) * 2 + l % 2
xor_double x y l h =
    let e : y / 2 ≡ x = omega (arith, h) in
    omega (arith, h, xor_step y l, ap (λ (z : ℕ). bit_xor z (l / 2)) e)

-- A number and a byte without a common digit.
pub xor_byte : (h l : ℕ) → l < 256 → bit_xor (h * 256) l ≡ h * 256 + l
xor_byte h l p = at_256 h l p
  where
    none_left : (l : ℕ) → l < 2 → l / 2 ≡ 0
    none_left l p = omega arith

    at_2 : (h l : ℕ) → l < 2 → bit_xor (h * 2) l ≡ h * 2 + l
    at_2 h l p =
        omega
          (arith, xor_double h (h * 2) l (omega arith), ap (bit_xor h) (none_left l p), xor_zero h)

    at_4 : (h l : ℕ) → l < 4 → bit_xor (h * 4) l ≡ h * 4 + l
    at_4 h l p =
        omega (arith, xor_double (h * 2) (h * 4) l (omega arith), at_2 h (l / 2) (omega arith))

    at_8 : (h l : ℕ) → l < 8 → bit_xor (h * 8) l ≡ h * 8 + l
    at_8 h l p =
        omega (arith, xor_double (h * 4) (h * 8) l (omega arith), at_4 h (l / 2) (omega arith))

    at_16 : (h l : ℕ) → l < 16 → bit_xor (h * 16) l ≡ h * 16 + l
    at_16 h l p =
        omega (arith, xor_double (h * 8) (h * 16) l (omega arith), at_8 h (l / 2) (omega arith))

    at_32 : (h l : ℕ) → l < 32 → bit_xor (h * 32) l ≡ h * 32 + l
    at_32 h l p =
        omega (arith, xor_double (h * 16) (h * 32) l (omega arith), at_16 h (l / 2) (omega arith))

    at_64 : (h l : ℕ) → l < 64 → bit_xor (h * 64) l ≡ h * 64 + l
    at_64 h l p =
        omega (arith, xor_double (h * 32) (h * 64) l (omega arith), at_32 h (l / 2) (omega arith))

    at_128 : (h l : ℕ) → l < 128 → bit_xor (h * 128) l ≡ h * 128 + l
    at_128 h l p =
        omega (arith, xor_double (h * 64) (h * 128) l (omega arith), at_64 h (l / 2) (omega arith))

    at_256 : (h l : ℕ) → l < 256 → bit_xor (h * 256) l ≡ h * 256 + l
    at_256 h l p =
        omega
          (arith, xor_double (h * 128) (h * 256) l (omega arith), at_128 h (l / 2) (omega arith))

min_one : (x : ℕ) → x < 2 → min x 1 ≡ x
min_one zero h = refl
min_one (suc zero) h = refl
min_one (suc (suc x)) h = absurd (omega arith)

zero_below : (n a : ℕ) → a ≤ n → bit_and a 0 ≡ 0
zero_below zero zero h = refl
zero_below zero (suc a) h = absurd (omega arith)
zero_below (suc n) a h =
    omega (arith, and_digit a 0, min_zero (a % 2) (omega arith), zero_below n (a / 2) (omega arith))
  where
    min_zero : (x : ℕ) → x < 2 → min x 0 ≡ 0
    min_zero zero p = refl
    min_zero (suc zero) p = refl
    min_zero (suc (suc x)) p = absurd (omega arith)

-- A mask with one more digit.
mask_double : (a m : ℕ) → bit_and a (m * 2 + 1) ≡ bit_and (a / 2) m * 2 + a % 2
mask_double a m =
    let odd : (m * 2 + 1) % 2 ≡ 1 = omega arith in
    let half : (m * 2 + 1) / 2 ≡ m = omega arith in
    omega (
      arith,
      and_digit a (m * 2 + 1),
      ap (min (a % 2)) odd,
      min_one (a % 2) (omega arith),
      ap (bit_and (a / 2)) half,
    )

-- The lowest eight bits.
pub and_0xff : (a : ℕ) → bit_and a 0xff ≡ a % 256
and_0xff a = at_255 a
  where
    at_1 : (x : ℕ) → bit_and x 1 ≡ x % 2
    at_1 x = omega (arith, mask_double x 0, zero_below (x / 2) (x / 2) (omega arith))

    at_3 : (x : ℕ) → bit_and x 3 ≡ x % 4
    at_3 x = omega (arith, mask_double x 1, at_1 (x / 2))

    at_7 : (x : ℕ) → bit_and x 7 ≡ x % 8
    at_7 x = omega (arith, mask_double x 3, at_3 (x / 2))

    at_15 : (x : ℕ) → bit_and x 15 ≡ x % 16
    at_15 x = omega (arith, mask_double x 7, at_7 (x / 2))

    at_31 : (x : ℕ) → bit_and x 31 ≡ x % 32
    at_31 x = omega (arith, mask_double x 15, at_15 (x / 2))

    at_63 : (x : ℕ) → bit_and x 63 ≡ x % 64
    at_63 x = omega (arith, mask_double x 31, at_31 (x / 2))

    at_127 : (x : ℕ) → bit_and x 127 ≡ x % 128
    at_127 x = omega (arith, mask_double x 63, at_63 (x / 2))

    at_255 : (x : ℕ) → bit_and x 255 ≡ x % 256
    at_255 x = omega (arith, mask_double x 127, at_127 (x / 2))
