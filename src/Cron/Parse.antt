-- ===== src/Cron/Parse.antt =====
-- apps/api/src/scheduler/cron-utils.ts: `parseCronExpression`. A set of numbers is a list in order of
-- insertion; only membership is asked of it.
pub mod Laws
use Prim.Native.String
use Prim.Native.String.{String, [], ◌∷◌}
use Prim.Native.Char.{Char, code}
use sync_bridge_platform.Base.{
  ℕ, zero, suc, ◌+◌, ◌-◌, Bool, true, false, not, ◌&&◌, Option, none, some, List, [], ◌∷◌, ◌++◌,
  ◌==◌, ◌≡◌, refl, Result, ok, err, throw_if, or_throw, ◌>>=◌, ◌>>◌, trim, split, is_space,
  is_empty, any, length, ltb, leb, nat_eq, if◌then◌else◌,
}

pub record CronFieldSpec : Type 0 where
  pub name : String
  pub min : ℕ
  pub max : ℕ
  pub allow_seven_as_sunday : Bool

pub record ParsedCron : Type 0 where
  pub minute : List ℕ
  pub hour : List ℕ
  pub day_of_month : List ℕ
  pub month : List ℕ
  pub day_of_week : List ℕ

abbrev spec : String → ℕ → ℕ → Bool → CronFieldSpec
spec name min max seven = record {
  name = name;
  min = min;
  max = max;
  allow_seven_as_sunday = seven;
}

-- `CRON_FIELD_SPECS`
abbrev pub minute_spec : CronFieldSpec
minute_spec = spec "minute" 0 59 false

abbrev pub hour_spec : CronFieldSpec
hour_spec = spec "hour" 0 23 false

abbrev pub day_of_month_spec : CronFieldSpec
day_of_month_spec = spec "dayOfMonth" 1 31 false

abbrev pub month_spec : CronFieldSpec
month_spec = spec "month" 1 12 false

abbrev pub day_of_week_spec : CronFieldSpec
day_of_week_spec = spec "dayOfWeek" 0 6 true

abbrev complain : CronFieldSpec → String → String
complain s what = String.◌++◌ "Cron " (String.◌++◌ s.name what)

-- The last slash cuts a text in two.
cut_at_slash : String → Option (String × String)
cut_at_slash [] = none
cut_at_slash (c ∷ s) = elim (cut_at_slash s) [
  | some (before, after) ↦ some (c ∷ before, after)
  | none ↦ if nat_eq (code c) b'/' then some ("", s) else none
]

abbrev all_digits : String → Bool
all_digits [] = true
all_digits (c ∷ s) = leb b'0' (code c) && leb (code c) b'9' && all_digits s

abbrev if_step : Option (String × String) → Option (String × String)
if_step none = none
if_step (some (base, digits)) =
    if not (is_empty base) && not (is_empty digits) && all_digits digits
    then some (base, digits)
    else none

-- `trimmed.match(/^(.+)\/(\d+)$/)`
unfoldable pub step_match : String → Option (String × String)
unfolding cut_at_slash
step_match text = if_step (cut_at_slash text)

-- The loop of `addRange` from a value on, with fuel.
unfoldable pub values_from : ℕ → ℕ → ℕ → ℕ → List ℕ
values_from zero value end step = []
values_from (suc fuel) value end step =
    let rest = values_from fuel (value + step) end step in
    if leb value end then value ∷ rest else []

-- `addRange`; with a step of one at least, one turn for each number up to the end is enough.
unfoldable pub add_range : List ℕ → ℕ → ℕ → ℕ → CronFieldSpec → Result String (List ℕ)
unfolding values_from
add_range target start end step s =
    if nat_eq step 0
    then err (complain s " field has invalid step value")
    else ok (target ++ values_from (suc end) start end step)

-- A run of characters that are no white space, and what follows it.
abbrev into_word : Char → List String → List String
into_word c [] = (c ∷ []) ∷ []
into_word c (w ∷ ws) = (c ∷ w) ∷ ws

pieces : String → List String
pieces [] = "" ∷ []
pieces (c ∷ s) = let rest = pieces s in if is_space (code c) then "" ∷ rest else into_word c rest

abbrev nonempty : List String → List String
nonempty [] = []
nonempty (w ∷ ws) = if is_empty w then nonempty ws else w ∷ nonempty ws

-- `expression.trim().replace(/\s+/g, ' ')`, split at its spaces; nothing for a blank text.
unfoldable pub fields_of : String → List String
unfolding pieces
fields_of expression = nonempty (pieces expression)

abbrev has_hyphen : String → Bool
has_hyphen [] = false
has_hyphen (c ∷ s) = if nat_eq (code c) b'-' then true else has_hyphen s

abbrev refuse_empty : List ℕ → CronFieldSpec → Result String (List ℕ)
refuse_empty [] s = err (complain s " field resolved to empty set")
refuse_empty (v ∷ vs) s = ok (v ∷ vs)

-- `integer_of` is `Number(text)` where that is an integer. It is asked only about texts without a minus
-- sign, for which the integer is none below zero; `shown` is how a number reads in a message.
module _ (integer_of : String → Option ℕ) (shown : ℕ → String) where
  abbrev in_range : ℕ → CronFieldSpec → Result String ℕ
  in_range value s =
      if s.allow_seven_as_sunday && nat_eq value 7
      then ok 0
      else if not (leb s.min value && leb value s.max)
      then err (
          complain s (
            String.◌++◌ " field value " (
              String.◌++◌ (shown value) (
                String.◌++◌ " is out of range ("
                  (String.◌++◌ (shown s.min) (String.◌++◌ "-" (String.◌++◌ (shown s.max) ")")))))))
      else ok value

  unfoldable pub parse_field_value : String → CronFieldSpec → Result String ℕ
  parse_field_value raw s = elim (integer_of raw) [
    | none ↦ err (complain s " field must contain integers")
    | some value ↦ in_range value s
  ]

  abbrev range_of : List String → CronFieldSpec → Result String (ℕ × ℕ)
  range_of [] s = err (complain s " field has invalid range")
  range_of (a ∷ []) s = err (complain s " field has invalid range")
  range_of (a ∷ b ∷ more) s = do
    start ← parse_field_value a s
    end ← parse_field_value b s
    throw_if (ltb end start) (complain s " range end must be >= start")
    ok (start, end)

  -- Texts behind a second hyphen are dropped.
  unfoldable pub parse_range : String → CronFieldSpec → Result String (ℕ × ℕ)
  parse_range value s = range_of (split b'-' value) s

  abbrev add_single : List ℕ → String → CronFieldSpec → Result String (List ℕ)
  add_single result trimmed s = do value ← parse_field_value trimmed s; ok (result ++ value ∷ [])

  abbrev add_parsed : List ℕ → String → ℕ → CronFieldSpec → Result String (List ℕ)
  add_parsed result text step s = do
    (start, end) ← parse_range text s
    add_range result start end step s

  abbrev add_step : List ℕ → String → Option ℕ → CronFieldSpec → Result String (List ℕ)
  add_step result base none s = err (complain s " field has invalid step value")
  add_step result base (some step) s =
      if nat_eq step 0
      then err (complain s " field has invalid step value")
      else if base == "*"
      then add_range result s.min s.max step s
      else add_parsed result base step s

  abbrev add_plain : List ℕ → String → CronFieldSpec → Result String (List ℕ)
  add_plain result trimmed s =
      if has_hyphen trimmed then add_parsed result trimmed 1 s else add_single result trimmed s

  -- The loop's body in `parseField`.
  unfoldable pub add_segment : List ℕ → String → CronFieldSpec → Result String (List ℕ)
  add_segment result segment s =
      let trimmed = trim segment in
      if is_empty trimmed
      then err (complain s " field has an empty segment")
      else if trimmed == "*"
      then add_range result s.min s.max 1 s
      else elim (step_match trimmed) [
        | some (base, digits) ↦ add_step result base (integer_of digits) s
        | none ↦ add_plain result trimmed s
      ]

  unfoldable pub add_segments : List ℕ → List String → CronFieldSpec → Result String (List ℕ)
  add_segments result [] s = ok result
  add_segments result (segment ∷ more) s =
      add_segment result segment s >>= λ next. add_segments next more s

  unfoldable pub parse_field : String → CronFieldSpec → Result String (List ℕ)
  parse_field value s = add_segments [] (split b',' value) s >>= λ result. refuse_empty result s

  abbrev of_fields : List String → Result String ParsedCron
  of_fields [] = err "Cron expression is required"
  of_fields (minute ∷ hour ∷ day_of_month ∷ month ∷ day_of_week ∷ []) = do
    m ← parse_field minute minute_spec
    h ← parse_field hour hour_spec
    d ← parse_field day_of_month day_of_month_spec
    n ← parse_field month month_spec
    w ← parse_field day_of_week day_of_week_spec
    ok (record { minute = m; hour = h; day_of_month = d; month = n; day_of_week = w })
  of_fields _ = err "Cron expression must use 5 fields (minute hour day-of-month month day-of-week)"

  unfoldable pub parse_cron_expression : String → Result String ParsedCron
  parse_cron_expression expression = of_fields (fields_of expression)
