-- ===== src/Cron/Next.antt =====
-- apps/api/src/scheduler/cron-utils.ts: `computeNextRunAt`. Points in time, the calendar and the time
-- zones belong to the runtime and are parameters.
pub mod Laws
use Prim.Native.String
use sync_bridge_platform.Base.{
  ℕ, zero, suc, ◌*◌, String, Bool, true, false, not, ◌&&◌, Option, none, some, List, Result, ok,
  err, throw_if, or_throw, ◌>>=◌, ◌>>◌, any, nat_eq, if◌then◌else◌,
}
use sync_bridge_platform.Cron.Parse.{ParsedCron, parse_cron_expression}

pub record DateParts : Type 0 where
  pub minute : ℕ
  pub hour : ℕ
  pub day_of_month : ℕ
  pub month : ℕ
  pub day_of_week : ℕ

-- `integer_of` and `shown` as for the parser; `setSeconds(0, 0)` and `setMinutes(getMinutes() + 1)` on
-- dates; `validateTimezone`; and `getZonedDateParts` without its error.
pub record Clock : Type 1 where
  pub Time : Type 0
  pub integer_of : String → Option ℕ
  pub shown : ℕ → String
  pub start_of_minute : Time → Time
  pub next_minute : Time → Time
  pub validate_timezone : String → Bool
  pub zoned_date_parts : Time → String → Option DateParts

-- `set.has(value)`
abbrev pub has : List ℕ → ℕ → Bool
has set value = any (λ x. nat_eq x value) set

abbrev pub fits : DateParts → ParsedCron → Bool
fits parts parsed =
    has parsed.minute parts.minute
    && has parsed.hour parts.hour
    && has parsed.day_of_month parts.day_of_month
    && has parsed.month parts.month
    && has parsed.day_of_week parts.day_of_week

-- A turn for each minute of 366 days.
abbrev pub turns_of_a_year : ℕ
turns_of_a_year = 60 * 24 * 366

module _ (clock : Clock) (timezone : String) where
  unfoldable pub matches_cron : clock.Time → ParsedCron → Result String Bool
  matches_cron date parsed = do
    parts ←
        or_throw (clock.zoned_date_parts date timezone)
          (String.◌++◌ "Unable to resolve weekday for timezone \"" (String.◌++◌ timezone "\""))
    ok (fits parts parsed)

  -- The loop, over the turns that are left.
  unfoldable pub search : ParsedCron → ℕ → clock.Time → Result String (Option clock.Time)
  search parsed zero cursor = ok none
  search parsed (suc turns) cursor = do
    let rest = search parsed turns (clock.next_minute cursor)
    found ← matches_cron cursor parsed
    if found then ok (some cursor) else rest

  unfoldable pub compute_next_run_at : String → clock.Time → Result String (Option clock.Time)
  compute_next_run_at cron_expression from_date = do
    parsed ← parse_cron_expression clock.integer_of clock.shown cron_expression
    throw_if (not (clock.validate_timezone timezone)) "Invalid schedule timezone"
    search parsed turns_of_a_year (clock.next_minute (clock.start_of_minute from_date))
