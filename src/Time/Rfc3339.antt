-- ===== src/Time/Rfc3339.antt =====
-- time.Format(time.RFC3339): the civil date of a time in its zone, by the cycles of the calendar.
use Prim.Native.Nat.{min}
use go_api_demo.Prelude.{
  ℕ, ◌+◌, ◌-◌, ◌*◌, ◌/◌, ◌%◌, String, ◌<>◌, digits, Bool, false, not, ◌&&◌, ◌||◌, List, [], ◌∷◌,
  ltb, nat_eq, if◌then◌else◌,
}
use go_api_demo.Time.{utc, local, fixed, Time}

-- The offset of the system's zone at a time: its sign (true is west) and its seconds.
abbrev pub Zone : Type 0
Zone = ℕ → Bool × ℕ

abbrev offset : Zone → Time → Bool × ℕ
offset zone t = elim t.loc [ utc ↦ (false, 0) | local ↦ zone t.sec | fixed west n ↦ (west, n) ]

pub record Date : Type 0 where
  pub year : ℕ
  pub month : ℕ
  pub day : ℕ

unfoldable pub is_leap : ℕ → Bool
is_leap y = nat_eq (y % 4) 0 && (not (nat_eq (y % 100) 0) || nat_eq (y % 400) 0)

unfoldable pub month_lengths : Bool → List ℕ
month_lengths leap =
    31 ∷ (if leap then 29 else 28) ∷ 31 ∷ 30 ∷ 31 ∷ 30 ∷ 31 ∷ 31 ∷ 30 ∷ 31 ∷ 30 ∷ 31 ∷ []

-- The month and the day of a day of the year, both from 1.
in_months : List ℕ → ℕ → ℕ → ℕ × ℕ
in_months [] m d = (m, d + 1)
in_months (n ∷ ns) m d =
    let rest = in_months ns (m + 1) (d - n) in if ltb d n then (m, d + 1) else rest

-- The date of a number of days since the first of January of the year 1.
unfoldable pub date : ℕ → Date
unfolding is_leap month_lengths in_months
date days =
    let in_400 = days % 146097 in
    let n100 = min (in_400 / 36524) 3 in
    let in_100 = in_400 - 36524 * n100 in
    let in_4 = in_100 % 1461 in
    let n1 = min (in_4 / 365) 3 in
    let year = 400 * (days / 146097) + 100 * n100 + 4 * (in_100 / 1461) + n1 + 1 in
    let (month, day) = in_months (month_lengths (is_leap year)) 1 (in_4 - 365 * n1) in
    record { year = year; month = month; day = day }

two : ℕ → String
two n = if ltb n 10 then "0" <> digits n else digits n

four : ℕ → String
unfolding two
four n = if ltb n 100 then "00" <> two n else if ltb n 1000 then "0" <> digits n else digits n

zone_text : Bool × ℕ → String
unfolding two
zone_text (west, n) =
    if nat_eq n 0
    then "Z"
    else (if west then "-" else "+") <> two (n / 3600) <> ":" <> two (n / 60 % 60)

unfoldable pub format_rfc3339 : Zone → Time → String
unfolding date two four zone_text digits
format_rfc3339 zone t =
    let (west, n) = offset zone t in
    let s = (if west then t.sec - n else t.sec + n) in
    let d = date (s / 86400) in
    four d.year
    <> "-"
    <> two d.month
    <> "-"
    <> two d.day
    <> "T"
    <> two (s / 3600 % 24)
    <> ":"
    <> two (s / 60 % 60)
    <> ":"
    <> two (s % 60)
    <> zone_text (west, n)
