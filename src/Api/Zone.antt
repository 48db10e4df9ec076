-- ===== src/Api/Zone.antt =====
-- api/pkg/rails/db/event.go, `ToAssociationTimeZone`.
use dawn_patrol.Prelude.{
  ok-inj, ℕ, ◌+◌, ◌/◌, ◌%◌, ◌<◌, String, ◌≡◌, ◌↔◌, ap, arith, Result, ok, ◌>>=◌,
}
use dawn_patrol.Api.{Time}

-- `time.Date`: hours and minutes beyond their ranges carry over. (Times that a zone skips or
-- repeats are taken as they are.)
abbrev pub date_of : (day hour minute second nanosecond : ℕ) → Time
date_of day hour minute second nanosecond = record {
  day = day + (hour + minute / 60) / 24;
  hour = (hour + minute / 60) % 24;
  minute = minute % 60;
  second = second;
  nanosecond = nanosecond;
}

-- `location` is what `time.LoadLocation` returns.
unfoldable pub to_association_time_zone : {Z : Type 0} → Result String Z → Time → Result String Time
to_association_time_zone location date = do
  pacific ← location
  ok (date_of date.day date.minute date.hour date.second date.nanosecond)

kept :
    (date : Time)
    → date.hour < 24
    → date.minute < 60
    → date.hour ≡ date.minute
    → date_of date.day date.minute date.hour date.second date.nanosecond ≡ date
kept date h m same = ground arith

-- In a zone that loads, the wall clock of a date with hour, minute and second in their ranges is
-- kept, as the function's comment says, exactly if the hour and the minute are the same number.
pub to_association_time_zone-kept_iff :
    {Z : Type 0} (zone : Z) (date : Time)
    → date.hour < 24
    → date.minute < 60
    → date.second < 60
    → (to_association_time_zone (ok zone) date ≡ ok date) ↔ (date.hour ≡ date.minute)
unfolding to_association_time_zone
to_association_time_zone-kept_iff zone date h m s = (
  λ same. let minutes = ap (λ (t : Time). t.minute) (ok-inj same) in omega arith,
  λ same. ap ok (kept date h m same),
)
