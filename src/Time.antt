-- ===== src/Time.antt =====
-- Go's `time.Time`, as far as the code uses it: seconds since the start of the year 1 in UTC,
-- nanoseconds within the second, and the location. A monotonic clock reading is left out: it shows
-- only under `==`, which the code applies to times made by `time.Unix` and to the zero time. Times
-- before the year 1 are left out, since the code never makes one.
pub mod Rfc3339
pub mod JsonText
use go_api_demo.Prelude.{
  ℕ, ◌+◌, ◌-◌, ◌*◌, ◌/◌, ◌%◌, ◌≡◌, ◌↔◌, Bool, true, false, ◌&&◌, arith, nat_eq,
}

pub data Location : Type 0 where
  -- `fixed` has the offset's sign (true is west of UTC) and its seconds
  utc local : Location
  fixed : Bool → ℕ → Location

pub record Time : Type 0 where
  pub sec : ℕ
  pub nsec : ℕ
  pub loc : Location

-- time.Time{}
abbrev pub zero_time : Time
zero_time = record { sec = 0; nsec = 0; loc = utc }

-- 1970-01-01T00:00:00Z, in seconds since the start of the year 1
abbrev pub unix_epoch : ℕ
unix_epoch = 62135596800

-- time.Unix(sec, nsec), for arguments that are not negative
unfoldable pub unix : ℕ → ℕ → Time
unix sec nsec = record {
  sec = unix_epoch + sec + nsec / 1000000000;
  nsec = nsec % 1000000000;
  loc = local;
}

-- t.UnixMilli(), for a time that is not before 1970
unfoldable pub unix_milli : Time → ℕ
unix_milli t = (t.sec - unix_epoch) * 1000 + t.nsec / 1000000

abbrev bool_eq : Bool → Bool → Bool
bool_eq true true = true
bool_eq false false = true
bool_eq _ _ = false

abbrev location_eq : Location → Location → Bool
location_eq utc utc = true
location_eq local local = true
location_eq (fixed a m) (fixed b n) = bool_eq a b && nat_eq m n
location_eq _ _ = false

-- `a == b` on structs
unfoldable pub time_eq : Time → Time → Bool
time_eq a b = nat_eq a.sec b.sec && nat_eq a.nsec b.nsec && location_eq a.loc b.loc

location_eq_iff : (a b : Location) → (location_eq a b ≡ true) ↔ (a ≡ b)
location_eq_iff a b = ground arith

pub time_eq_iff : (a b : Time) → (time_eq a b ≡ true) ↔ (a ≡ b)
unfolding time_eq
time_eq_iff a b = ground (arith, location_eq_iff a.loc b.loc)
