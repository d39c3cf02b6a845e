-- ===== src/Format/Laws.antt =====
-- On `MsecToTime` of internal/format/format.go.
use go_api_demo.Prelude.{ℕ, zero, suc, ◌+◌, ◌/◌, ◌<◌, ◌≡◌, ◌↔◌, ◌≢◌, refl, sym, ap, ◌∙◌, arith}
use go_api_demo.Int.{ℤ, pos, negsuc, pos_part}
use go_api_demo.Time.{Time, zero_time, unix_epoch, unix, unix_milli}
use go_api_demo.Format.{msec_to_time}

-- For a positive timestamp the time, read back in milliseconds, is the timestamp; its nanoseconds
-- are in range, so `time.Unix` moved nothing into the seconds, and are a whole number of
-- milliseconds.
pub unix_milli-msec_to_time :
    (n : ℕ)
    → 0 < n
    → (unix_milli (msec_to_time (pos n)) ≡ n)
      × ((msec_to_time (pos n)).nsec < 1000000000)
      × ((msec_to_time (pos n)).sec ≡ unix_epoch + n / 1000)
unfolding unix_milli msec_to_time unix
unix_milli-msec_to_time zero h = absurd (omega arith)
unix_milli-msec_to_time (suc n) h = (omega arith, omega arith, omega arith)

msec_to_time-ne-zero_time : (n : ℕ) → msec_to_time (pos (suc n)) ≢ zero_time
unfolding msec_to_time unix
msec_to_time-ne-zero_time n e = omega (arith, ap (λ (t : Time). t.sec) e)

pos-injective : (m n : ℕ) → msec_to_time (pos m) ≡ msec_to_time (pos n) → m ≡ n
unfolding msec_to_time
pos-injective zero zero e = refl
pos-injective zero (suc n) e = absurd (msec_to_time-ne-zero_time n (sym e))
pos-injective (suc m) zero e = absurd (msec_to_time-ne-zero_time m e)
pos-injective (suc m) (suc n) e =
    sym ((unix_milli-msec_to_time (suc m) (omega arith)).0)
    ∙ ap unix_milli e
    ∙ (unix_milli-msec_to_time (suc n) (omega arith)).0

msec_to_time-pos_part : (a : ℤ) → msec_to_time a ≡ msec_to_time (pos (pos_part a))
unfolding msec_to_time
msec_to_time-pos_part (pos n) = refl
msec_to_time-pos_part (negsuc n) = refl

-- Two timestamps give one time exactly when they agree, all timestamps that are not positive
-- counting as one.
pub msec_to_time-eq_iff : (a b : ℤ) → (msec_to_time a ≡ msec_to_time b) ↔ (pos_part a ≡ pos_part b)
msec_to_time-eq_iff a b =
    rw (msec_to_time-pos_part a, msec_to_time-pos_part b)
      (pos-injective (pos_part a) (pos_part b), λ e. ap (λ (n : ℕ). msec_to_time (pos n)) e)
