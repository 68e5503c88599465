-- ===== src/Base/Word.antt =====
-- Arithmetic of the fixed widths. `size_t` and `uintptr_t` have 64 bits, as on the host that the
-- build file's tests run on.
use Prim.Native.Nat.{ℕ, ◌+◌, ◌-◌, ◌*◌, ◌%◌, ◌^◌}

abbrev pub u8 : ℕ → ℕ
u8 n = n % 2 ^ 8

abbrev pub u16 : ℕ → ℕ
u16 n = n % 2 ^ 16

abbrev pub u32 : ℕ → ℕ
u32 n = n % 2 ^ 32

abbrev pub size_max : ℕ
size_max = 2 ^ 64 - 1

abbrev pub size_add : ℕ → ℕ → ℕ
size_add a b = (a + b) % 2 ^ 64

-- `-` on ℕ stops at 0, so the modulus is added first.
abbrev pub size_sub : ℕ → ℕ → ℕ
size_sub a b = (a + 2 ^ 64 - b) % 2 ^ 64

abbrev pub size_mul : ℕ → ℕ → ℕ
size_mul a b = a * b % 2 ^ 64

-- uint32_t a - b, ~x and x << k.
abbrev pub u32_sub : ℕ → ℕ → ℕ
u32_sub a b = (a + 2 ^ 32 - b) % 2 ^ 32

abbrev pub u32_not : ℕ → ℕ
u32_not x = 2 ^ 32 - 1 - x

abbrev pub u32_shl : ℕ → ℕ → ℕ
u32_shl x k = x * 2 ^ k % 2 ^ 32
