-- ===== src/Cron/Parse/Laws.antt =====
-- apps/api/src/scheduler/cron-utils.ts: what a parsed field can hold.
use Prim.Native.String.{String}
use sync_bridge_platform.Base.{
  ℕ, zero, suc, ◌+◌, ◌≤◌, ◌≢◌, true, Option, none, some, List, [], ◌∷◌, ◌++◌, ◌==◌, ◌≡◌, refl, inl,
  inr, arith, All, All-append, ok, >>=-eq-ok, Bool-cases, Option-cases, ok-injective, trim, split,
  is_empty, ltb, leb, nat_eq,
}
use sync_bridge_platform.Cron.Parse.{
  CronFieldSpec, ParsedCron, minute_spec, hour_spec, day_of_month_spec, month_spec,
  day_of_week_spec, values_from, add_range, parse_field_value, range_of, parse_range, add_single,
  add_parsed, add_step, step_match, has_hyphen, add_segment, add_segments, refuse_empty,
  parse_field, parse_cron_expression, fields_of, of_fields,
}

-- A value between the bounds of a field.
abbrev pub IsWithin : CronFieldSpec → ℕ → Type 0
IsWithin s v = (s.min ≤ v) × (v ≤ s.max)

values_from-IsWithin :
    (s : CronFieldSpec) (fuel value end step : ℕ)
    → s.min ≤ value
    → end ≤ s.max
    → All (IsWithin s) (values_from fuel value end step)
unfolding values_from
values_from-IsWithin s zero value end step low high = tt
values_from-IsWithin s (suc fuel) value end step low high =
    let rest = values_from-IsWithin s fuel (value + step) end step (omega (arith, low)) high in
    elim (Bool-cases (leb value end)) [
      | inl le ↦ rw le ((low, ground (arith, high, le)), rest)
      | inr gt ↦ rw gt tt
    ]

add_range-IsWithin :
    (s : CronFieldSpec) (target set : List ℕ) (start end step : ℕ)
    → s.min ≤ start
    → end ≤ s.max
    → All (IsWithin s) target
    → add_range target start end step s ≡ ok set
    → All (IsWithin s) set
unfolding add_range
add_range-IsWithin s target set start end step low high before h =
    elim (Bool-cases (nat_eq step 0)) [
      | inl z ↦ absurd (ground arith)
      | inr nz ↦
          let e : target ++ values_from (suc end) start end step ≡ set = ground arith in
          rw (← e) (
            All-append (IsWithin s) target (values_from (suc end) start end step) before
              (values_from-IsWithin s (suc end) start end step low high))
    ]

module _ (integer_of : String → Option ℕ) (shown : ℕ → String) (s : CronFieldSpec)
    (sunday : s.allow_seven_as_sunday ≡ true → s.min ≡ 0) where
  parse_field_value-IsWithin :
      (raw : String) (v : ℕ) → parse_field_value integer_of shown raw s ≡ ok v → IsWithin s v
  unfolding parse_field_value
  parse_field_value-IsWithin raw v h = elim (Option-cases (integer_of raw)) [
    | inl missing ↦ absurd (ground arith)
    | inr (n, is_n) ↦ elim (Bool-cases s.allow_seven_as_sunday) [
      | inl seven ↦ let low = sunday seven in (ground arith, ground arith)
      | inr plain ↦ (ground arith, ground arith)
    ]
  ]

  range_of-IsWithin :
      (parts : List String) (start end : ℕ)
      → range_of integer_of shown parts s ≡ ok (start, end)
      → (s.min ≤ start) × (end ≤ s.max)
  range_of-IsWithin [] start end h = absurd (ground arith)
  range_of-IsWithin (a ∷ []) start end h = absurd (ground arith)
  range_of-IsWithin (a ∷ b ∷ more) start end h =
      let (x, ex, kx) = >>=-eq-ok (parse_field_value integer_of shown a s) _ h in
      let (y, ey, ky) = >>=-eq-ok (parse_field_value integer_of shown b s) _ kx in
      let low = (parse_field_value-IsWithin a x ex).0 in
      let high = (parse_field_value-IsWithin b y ey).1 in
      elim (Bool-cases (ltb y x)) [
        | inl bad ↦ absurd (ground arith)
        | inr good ↦ (ground arith, ground arith)
      ]

  add_parsed-IsWithin :
      (result set : List ℕ) (text : String) (step : ℕ)
      → All (IsWithin s) result
      → add_parsed integer_of shown result text step s ≡ ok set
      → All (IsWithin s) set
  unfolding parse_range
  add_parsed-IsWithin result set text step before h =
      let ((start, end), e, k) = >>=-eq-ok (parse_range integer_of shown text s) _ h in
      let (low, high) = range_of-IsWithin (split b'-' text) start end e in
      add_range-IsWithin s result set start end step low high before k

  add_single-IsWithin :
      (result set : List ℕ) (text : String)
      → All (IsWithin s) result
      → add_single integer_of shown result text s ≡ ok set
      → All (IsWithin s) set
  add_single-IsWithin result set text before h =
      let (v, e, k) = >>=-eq-ok (parse_field_value integer_of shown text s) _ h in
      rw (← ok-injective k)
        (All-append (IsWithin s) result (v ∷ []) before (parse_field_value-IsWithin text v e, tt))

  add_step-IsWithin :
      (result set : List ℕ) (base : String) (step : Option ℕ)
      → s.min ≤ s.max
      → All (IsWithin s) result
      → add_step integer_of shown result base step s ≡ ok set
      → All (IsWithin s) set
  add_step-IsWithin result set base none order before h = absurd (ground arith)
  add_step-IsWithin result set base (some step) order before h = elim (Bool-cases (nat_eq step 0)) [
    | inl z ↦ absurd (ground arith)
    | inr nz ↦ elim (Bool-cases (base == "*")) [
      | inl star ↦
          add_range-IsWithin s result set s.min s.max step (omega arith) (omega arith) before
            (ground (arith, nz, star))
      | inr range ↦ add_parsed-IsWithin result set base step before (ground (arith, nz, range))
    ]
  ]

  add_segment-IsWithin :
      (result set : List ℕ) (segment : String)
      → s.min ≤ s.max
      → All (IsWithin s) result
      → add_segment integer_of shown result segment s ≡ ok set
      → All (IsWithin s) set
  unfolding add_segment
  add_segment-IsWithin result set segment order before h =
      elim (Bool-cases (is_empty (trim segment))) [
        | inl blank ↦ absurd (ground arith)
        | inr filled ↦ elim (Bool-cases (trim segment == "*")) [
          | inl star ↦
              add_range-IsWithin s result set s.min s.max 1 (omega arith) (omega arith) before
                (ground (arith, filled, star))
          | inr other ↦ elim (Option-cases (step_match (trim segment))) [
            | inr ((base, digits), stepped) ↦
                add_step-IsWithin result set base (integer_of digits) order before
                  (ground (arith, filled, other, stepped))
            | inl unstepped ↦ elim (Bool-cases (has_hyphen (trim segment))) [
              | inl hyphen ↦
                  add_parsed-IsWithin result set (trim segment) 1 before
                    (ground (arith, filled, other, unstepped, hyphen))
              | inr single ↦
                  add_single-IsWithin result set (trim segment) before
                    (ground (arith, filled, other, unstepped, single))
            ]
          ]
        ]
      ]

  add_segments-IsWithin :
      (segments : List String) (result set : List ℕ)
      → s.min ≤ s.max
      → All (IsWithin s) result
      → add_segments integer_of shown result segments s ≡ ok set
      → All (IsWithin s) set
  unfolding add_segments
  add_segments-IsWithin [] result set order before h = rw (← ok-injective h) before
  add_segments-IsWithin (segment ∷ more) result set order before h =
      let (next, e, k) = >>=-eq-ok (add_segment integer_of shown result segment s) _ h in
      add_segments-IsWithin more next set order
        (add_segment-IsWithin result next segment order before e) k

  parse_field-IsWithin :
      (value : String) (set : List ℕ)
      → s.min ≤ s.max
      → parse_field integer_of shown value s ≡ ok set
      → All (IsWithin s) set × (set ≢ [])
  unfolding parse_field
  parse_field-IsWithin value set order h =
      let (found, e, k) = >>=-eq-ok (add_segments integer_of shown [] (split b',' value) s) _ h in
      go found (add_segments-IsWithin (split b',' value) [] found order tt e) k
    where
      go :
          (found : List ℕ)
          → All (IsWithin s) found
          → refuse_empty found s ≡ ok set
          → All (IsWithin s) set × (set ≢ [])
      go [] all k = absurd (ground arith)
      go (v ∷ vs) all k =
          let same : v ∷ vs ≡ set = ok-injective k in (rw (← same) all, rw (← same) (λ e. cc))

-- What the five sets of an expression hold.
pub record IsSchedule (p : ParsedCron) : Type 0 where
  pub minute : All (IsWithin minute_spec) p.minute × (p.minute ≢ [])
  pub hour : All (IsWithin hour_spec) p.hour × (p.hour ≢ [])
  pub day_of_month : All (IsWithin day_of_month_spec) p.day_of_month × (p.day_of_month ≢ [])
  pub month : All (IsWithin month_spec) p.month × (p.month ≢ [])
  pub day_of_week : All (IsWithin day_of_week_spec) p.day_of_week × (p.day_of_week ≢ [])

-- An expression that parses gives five sets that are not empty, with minutes from 0 to 59, hours from 0
-- to 23, days from 1 to 31, months from 1 to 12 and days of the week from 0 to 6.
pub parse_cron_expression-IsSchedule :
    (integer_of : String → Option ℕ) (shown : ℕ → String) (expression : String) (p : ParsedCron)
    → parse_cron_expression integer_of shown expression ≡ ok p
    → IsSchedule p
unfolding parse_cron_expression
parse_cron_expression-IsSchedule integer_of shown expression p h = go (fields_of expression) h
  where
    go : (fields : List String) → of_fields integer_of shown fields ≡ ok p → IsSchedule p
    go [] k = absurd (ground arith)
    go (a ∷ []) k = absurd (ground arith)
    go (a ∷ b ∷ []) k = absurd (ground arith)
    go (a ∷ b ∷ c ∷ []) k = absurd (ground arith)
    go (a ∷ b ∷ c ∷ d ∷ []) k = absurd (ground arith)
    go (a ∷ b ∷ c ∷ d ∷ e ∷ f ∷ more) k = absurd (ground arith)
    go (a ∷ b ∷ c ∷ d ∷ e ∷ []) k0 =
        let (m, em, k1) = >>=-eq-ok (parse_field integer_of shown a minute_spec) _ k0 in
        let (h, eh, k2) = >>=-eq-ok (parse_field integer_of shown b hour_spec) _ k1 in
        let (x, ex, k3) = >>=-eq-ok (parse_field integer_of shown c day_of_month_spec) _ k2 in
        let (n, en, k4) = >>=-eq-ok (parse_field integer_of shown d month_spec) _ k3 in
        let (w, ew, k5) = >>=-eq-ok (parse_field integer_of shown e day_of_week_spec) _ k4 in
        rw (← ok-injective k5) (record {
          minute = parse_field-IsWithin integer_of shown minute_spec (λ z. cc) a m (omega arith) em;
          hour = parse_field-IsWithin integer_of shown hour_spec (λ z. cc) b h (omega arith) eh;
          day_of_month =
              parse_field-IsWithin integer_of shown day_of_month_spec (λ z. cc) c x (omega arith)
                ex;
          month = parse_field-IsWithin integer_of shown month_spec (λ z. cc) d n (omega arith) en;
          day_of_week =
              parse_field-IsWithin integer_of shown day_of_week_spec (λ z. refl) e w (omega arith)
                ew;
        })
