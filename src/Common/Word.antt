-- ===== src/Common/Word.antt =====
-- `uint64_t` arithmetic, wrapping as the machine does.
use Prim.Native.Nat.{ℕ, ◌+◌, ◌-◌, ◌*◌, ◌%◌, ◌^◌}

abbrev pub add64 : ℕ → ℕ → ℕ
add64 a b = (a + b) % 2 ^ 64

abbrev pub sub64 : ℕ → ℕ → ℕ
sub64 a b = (a + 2 ^ 64 - b) % 2 ^ 64

abbrev pub mul64 : ℕ → ℕ → ℕ
mul64 a b = (a * b) % 2 ^ 64

-- `PAGE_SIZE` of kernel/mm/memory_map.h.
abbrev pub page_size : ℕ
page_size = 0x1000
