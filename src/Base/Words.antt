-- ===== src/Base/Words.antt =====
-- Unsigned machine words as native numbers: each operation wraps.
use libchronos.Base.{ℕ, ◌+◌, ◌-◌, ◌%◌, ◌^◌}

-- `x++` on a uint64_t.
abbrev pub inc64 : ℕ → ℕ
inc64 n = (n + 1) % 2 ^ 64

-- `x++` on a uint8_t.
abbrev pub inc8 : ℕ → ℕ
inc8 n = (n + 1) % 2 ^ 8

-- `x--` on a uint8_t.
abbrev pub dec8 : ℕ → ℕ
dec8 n = (n + 2 ^ 8 - 1) % 2 ^ 8

-- `a - b` on uint64_t.
abbrev pub sub64 : ℕ → ℕ → ℕ
sub64 a b = (a + 2 ^ 64 - b) % 2 ^ 64

-- `x++` on a uint32_t.
abbrev pub inc32 : ℕ → ℕ
inc32 n = (n + 1) % 2 ^ 32
