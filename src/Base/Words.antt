-- ===== src/Base/Words.antt =====
-- Machine words: a w-bit integer is a number below 2 ^ w, and its arithmetic wraps.
-- An `AtomicInt32` is the bit pattern of its signed value.
use Prim.Native.Nat.{ℕ, ◌+◌, ◌-◌, ◌%◌, ◌^◌}
use mathlib.Core.Bool.{Bool, ◌&&◌}
use flydragon.Base.Tests.{ltb}

abbrev pub u16 : ℕ → ℕ
u16 n = n % 2 ^ 16

abbrev pub u32 : ℕ → ℕ
u32 n = n % 2 ^ 32

abbrev pub u64 : ℕ → ℕ
u64 n = n % 2 ^ 64

-- `increment()` and `decrement()` of an AtomicInt32.
abbrev pub increment : ℕ → ℕ
increment n = u32 (n + 1)

abbrev pub decrement : ℕ → ℕ
decrement n = u32 (n + 2 ^ 32 - 1)

-- `get() > 0`: the sign bit is clear and the word is not 0.
abbrev pub is_positive : ℕ → Bool
is_positive n = ltb 0 n && ltb n (2 ^ 31)

-- `--` and `++` of a size_t.
abbrev pub inc64 : ℕ → ℕ
inc64 n = u64 (n + 1)

abbrev pub dec64 : ℕ → ℕ
dec64 n = u64 (n + 2 ^ 64 - 1)
