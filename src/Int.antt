-- ===== src/Int.antt =====
-- Go's `int64`, as an integer; where a value can leave the range, the code's wrap-around is written
-- out at the operation.
pub mod Atoi
use go_api_demo.Prelude.{ℕ, suc, ◌-◌, ◌^◌, String, ◌<>◌, digits, ltb, if◌then◌else◌}

-- `negsuc n` is -(n + 1).
pub data ℤ : Type 0 where
  pos : ℕ → ℤ
  negsuc : ℕ → ℤ

abbrev pub pos_part : ℤ → ℕ
pos_part (pos n) = n
pos_part (negsuc n) = 0

-- `%d`
unfoldable pub show : ℤ → String
show (pos n) = digits n
show (negsuc n) = "-" <> digits (suc n)

-- The value of an int64 with these bits.
abbrev pub signed : ℕ → ℤ
signed n = if ltb n (2 ^ 63) then pos n else negsuc (2 ^ 64 - 1 - n)
