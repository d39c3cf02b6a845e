-- ===== src/Format.antt =====
-- internal/format/format.go: the time of a change event, from the milliseconds of Debezium.
pub mod Laws
use go_api_demo.Prelude.{ℕ, zero, suc, ◌-◌, ◌*◌, ◌/◌}
use go_api_demo.Int.{ℤ, pos, negsuc}
use go_api_demo.Time.{Time, zero_time, unix}

abbrev pub divisor : ℕ
divisor = 1000

abbrev pub multiplier : ℕ
multiplier = 1000000

-- `msec > 0` are the patterns.
unfoldable pub msec_to_time : ℤ → Time
msec_to_time (negsuc n) = zero_time
msec_to_time (pos zero) = zero_time
msec_to_time (pos (suc n)) =
    let sec = suc n / divisor in let nsec = (suc n - sec * divisor) * multiplier in unix sec nsec
