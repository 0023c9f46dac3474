-- ===== src/Prelude/Words.antt =====
-- Casts to the fixed widths of C on x86-64. A `char` is kept as its byte, below 256; it is signed,
-- so a cast to a wider type extends the sign.
use Prim.Native.Nat.{ℕ, ◌+◌, ◌-◌, ◌%◌, ◌^◌}
use zer0s.Prelude.Tests.{ltb, if◌then◌else◌}

abbrev pub u8 : ℕ → ℕ
u8 n = n % 2 ^ 8

abbrev pub u16 : ℕ → ℕ
u16 n = n % 2 ^ 16

abbrev pub u32 : ℕ → ℕ
u32 n = n % 2 ^ 32

abbrev pub u64 : ℕ → ℕ
u64 n = n % 2 ^ 64

-- A signed `char` widened to `w` bits.
abbrev pub sign_extend : ℕ → ℕ → ℕ
sign_extend w c = if ltb c 128 then c else c + 2 ^ w - 256

abbrev pub newline : ℕ
newline = 0x0A

abbrev pub backspace : ℕ
backspace = 0x08
