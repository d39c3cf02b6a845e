-- ===== src/Int/Atoi.antt =====
-- strconv.Atoi, on 64-bit integers.
use Prim.Native.Char.{code}
use go_api_demo.Prelude.{
  ℕ, zero, suc, ◌+◌, ◌-◌, ◌*◌, String, Option, none, some, ◌⊎◌, inl, inr, ◌&&◌, ltb, leb, nat_eq,
  if◌then◌else◌,
}
use go_api_demo.Int.{ℤ, pos, negsuc}

-- The number of a text of decimal digits.
unfoldable pub decimal_from : ℕ → String → Option ℕ
decimal_from n String.[] = some n
decimal_from n (String.◌∷◌ c s) =
    let rest = decimal_from (n * 10 + (code c - b'0')) s in
    if leb b'0' (code c) && leb (code c) b'9' then rest else none

abbrev pub decimal : String → Option ℕ
decimal String.[] = none
decimal s = decimal_from 0 s

pub data NumError : Type 0 where
  syntax range : NumError

-- On 64-bit integers. `limit` is the first magnitude that is out of range.
abbrev in_range : ℕ → (ℕ → ℤ) → Option ℕ → ℤ ⊎ NumError
in_range limit sign none = inr syntax
in_range limit sign (some n) = if ltb n limit then inl (sign n) else inr range

abbrev pub minus : ℕ → ℤ
minus zero = pos 0
minus (suc n) = negsuc n

-- strconv.Atoi
unfoldable pub atoi : String → ℤ ⊎ NumError
unfolding decimal_from
atoi String.[] = inr syntax
atoi (String.◌∷◌ c s) =
    if nat_eq (code c) b'-'
    then in_range 9223372036854775809 minus (decimal s)
    else if nat_eq (code c) b'+'
    then in_range 9223372036854775808 pos (decimal s)
    else in_range 9223372036854775808 pos (decimal (String.◌∷◌ c s))
