-- ===== src/Scheduler/Validation.antt =====
-- apps/api/src/scheduler/cron-utils.ts: `validateCronExpression`; and the calendar that the scheduler
-- works with, whose points in time are those of the tables.
use sync_bridge_platform.Base.{
  ℕ, String, Bool, true, false, Option, List, [], ◌∷◌, Result, ok, err, map_err,
}
use sync_bridge_platform.Cron.Parse.{ParsedCron, parse_cron_expression}
use sync_bridge_platform.Cron.Next.{Clock, DateParts, compute_next_run_at}
use sync_bridge_platform.Effects.{plain, M, lift}

pub record CronValidationResult : Type 0 where
  pub valid : Bool
  pub errors : List String

-- What the runtime provides, as for `Clock`.
pub record Calendar : Type 0 where
  pub integer_of : String → Option ℕ
  pub shown : ℕ → String
  pub start_of_minute : ℕ → ℕ
  pub next_minute : ℕ → ℕ
  pub validate_timezone : String → Bool
  pub zoned_date_parts : ℕ → String → Option DateParts

abbrev pub clock_of : Calendar → Clock
clock_of calendar = record {
  Time = ℕ;
  integer_of = calendar.integer_of;
  shown = calendar.shown;
  start_of_minute = calendar.start_of_minute;
  next_minute = calendar.next_minute;
  validate_timezone = calendar.validate_timezone;
  zoned_date_parts = calendar.zoned_date_parts;
}

abbrev validation : Result String ParsedCron → CronValidationResult
validation (ok parsed) = record { valid = true; errors = [] }
validation (err message) = record { valid = false; errors = message ∷ [] }

module _ (calendar : Calendar) where
  unfoldable pub validate_cron_expression : String → CronValidationResult
  validate_cron_expression expression =
      validation (parse_cron_expression calendar.integer_of calendar.shown expression)

  -- `computeNextRunAt` as a step of a handler: its errors are plain ones.
  unfoldable pub next_run_at : {N : Type 0} → String → String → ℕ → M N (Option ℕ)
  next_run_at cron timezone from =
      lift (map_err plain (compute_next_run_at (clock_of calendar) timezone cron from))
