-- ===== src/Billing/Calendar.antt =====
-- `addInterval` (lib/billing/webhooks.ts): a `Date` in milliseconds since 1970, its UTC fields,
-- and the setters of its year and month, which carry a day that the month lacks into the next.
use directory_platform.Common.{ℕ, ◌+◌, ◌-◌, ◌*◌, ◌/◌, ◌%◌, ltb, leb, ◌==◌, if◌then◌else◌}

pub data Interval : Type 0 where
  annual monthly : Interval

abbrev pub day_ms : ℕ
day_ms = 86400000

pub record CivilDate : Type 0 where
  pub year : ℕ
  -- 1 to 12
  pub month : ℕ
  pub day : ℕ

-- Days since 1970 of a day of the Gregorian calendar from 1970 on; a day past the end of the
-- month counts on.
unfoldable pub days_of : CivilDate → ℕ
days_of d =
    let y = if leb d.month 2 then d.year - 1 else d.year in
    let m = if leb d.month 2 then d.month + 9 else d.month - 3 in
    y * 365 + y / 4 - y / 100 + y / 400 + (153 * m + 2) / 5 + d.day - 1 - 719468

unfoldable pub civil_of : ℕ → CivilDate
civil_of days =
    let z = days + 719468 in
    let era = z / 146097 in
    let doe = z % 146097 in
    let yoe = (doe + doe / 36524 - doe / 1460 - doe / 146096) / 365 in
    let doy = doe + yoe / 100 - (365 * yoe + yoe / 4) in
    let mp = (5 * doy + 2) / 153 in
    let y = yoe + era * 400 in
    record {
      year = if ltb mp 10 then y else y + 1;
      month = if ltb mp 10 then mp + 3 else mp - 9;
      day = doy + 1 - (153 * mp + 2) / 5;
    }

unfoldable pub next_month : CivilDate → CivilDate
next_month d =
    if d.month == 12
    then record d { year = d.year + 1; month = 1 }
    else record d { month = d.month + 1 }

abbrev moved : Interval → CivilDate → CivilDate
moved annual d = record d { year = d.year + 1 }
moved monthly d = next_month d

unfoldable pub add_interval : ℕ → Interval → ℕ
add_interval at interval = days_of (moved interval (civil_of (at / day_ms))) * day_ms + at % day_ms
