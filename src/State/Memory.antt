-- ===== src/State/Memory.antt =====
-- misc/flyd_memory.cc. A block is given by its contents, so the allocator is a count of the blocks
-- that are live.
use flydragon.Base.{ℕ, ◌+◌, ◌-◌, List, Option, none, some, tabulate, Bool, if◌then◌else◌}

-- What AllocMemory gives for `n` bytes: zeros if asked for, else what the allocator left there.
unfoldable pub alloc_bytes : (ℕ → ℕ) → ℕ → Bool → List ℕ
alloc_bytes left_over n ifmemset = if ifmemset then tabulate n (λ _. 0) else tabulate n left_over

-- AllocMemory takes one more block.
abbrev pub alloc_memory : ℕ → ℕ
alloc_memory blocks = blocks + 1

-- FreeMemory gives a block back; on a null pointer `delete []` does nothing.
abbrev pub free_memory {ℓ} : {A : Type ℓ} → Option A → ℕ → ℕ
free_memory none blocks = blocks
free_memory (some p) blocks = blocks - 1
