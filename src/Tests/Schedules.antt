-- ===== src/Tests/Schedules.antt =====
-- Cron expressions on concrete texts.
use Prim.Native.String.{String}
use sync_bridge_platform.Base.{
  ℕ, suc, true, Option, none, some, [], ◌∷◌, ◌==◌, ◌≡◌, refl, ok, trim, split, if◌then◌else◌,
}
use sync_bridge_platform.Cron.Parse.{
  ParsedCron, day_of_week_spec, parse_cron_expression, parse_field, fields_of, add_segments,
  add_segment, step_match, parse_field_value, parse_range, add_range,
}
use sync_bridge_platform.Cron.Parse.Laws.{IsSchedule, parse_cron_expression-IsSchedule}
use sync_bridge_platform.Cron.Next.{
  Clock, DateParts, matches_cron, search, turns_of_a_year, compute_next_run_at,
}
use sync_bridge_platform.Cron.Next.Laws.{IsFirst, compute_next_run_at-IsFirst}

-- The numbers of these texts.
abbrev integer_of : String → Option ℕ
integer_of text =
    if text == "0"
    then some 0
    else if text == "5"
    then some 5
    else if text == "7"
    then some 7
    else if text == "3"
    then some 3
    else none

abbrev shown : ℕ → String
shown n = "?"

abbrev expression : String
expression = " 5  0 7 3 0 "

abbrev parsed : ParsedCron
parsed = record {
  minute = 5 ∷ [];
  hour = 0 ∷ [];
  day_of_month = 7 ∷ [];
  month = 3 ∷ [];
  day_of_week = 0 ∷ [];
}

text_parsed : parse_cron_expression integer_of shown expression ≡ ok parsed
unfolding parse_cron_expression fields_of parse_field add_segments add_segment step_match
    parse_field_value split trim
text_parsed = refl

parse_cron_expression-IsSchedule_example : IsSchedule parsed
parse_cron_expression-IsSchedule_example =
    parse_cron_expression-IsSchedule integer_of shown expression parsed text_parsed

-- The range from Sunday to Sunday denotes Sunday only.
sunday_to_sunday : parse_field integer_of shown "0-7" day_of_week_spec ≡ ok (0 ∷ [])
unfolding parse_field add_segments add_segment step_match parse_field_value parse_range add_range
    split trim
sunday_to_sunday = refl

-- A clock that shows the fourth and then the fifth minute of the hour.
abbrev parts_at : ℕ → DateParts
parts_at minute = record { minute = minute; hour = 0; day_of_month = 7; month = 3; day_of_week = 0 }

abbrev clock : Clock
clock = record {
  Time = ℕ;
  integer_of = integer_of;
  shown = shown;
  start_of_minute = λ t. t;
  next_minute = λ t. suc t;
  validate_timezone = λ z. true;
  zoned_date_parts = λ t z. some (parts_at t);
}

next_found : compute_next_run_at clock "UTC" expression 3 ≡ ok (some 5)
unfolding compute_next_run_at search matches_cron parse_cron_expression fields_of parse_field
    add_segments add_segment step_match parse_field_value split trim
next_found = refl

compute_next_run_at-IsFirst_example :
    (p : ParsedCron) × (parse_cron_expression integer_of shown expression ≡ ok p)
    × (clock.validate_timezone "UTC" ≡ true)
    × IsFirst clock "UTC" p turns_of_a_year 4 5
compute_next_run_at-IsFirst_example =
    compute_next_run_at-IsFirst clock "UTC" expression 3 5 next_found
