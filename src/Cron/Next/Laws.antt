-- ===== src/Cron/Next/Laws.antt =====
-- apps/api/src/scheduler/cron-utils.ts: the time found is the first that fits.
use sync_bridge_platform.Base.{
  ℕ, zero, suc, ◌<◌, String, true, false, some, ◌≡◌, sym, inl, inr, arith, ok, >>=-eq-ok,
  Result-cases, Bool-cases,
}
use sync_bridge_platform.Cron.Parse.{ParsedCron, parse_cron_expression}
use sync_bridge_platform.Cron.Next.{
  Clock, matches_cron, search, turns_of_a_year, compute_next_run_at,
}

module _ (clock : Clock) (timezone : String) where
  -- The cursor after some turns.
  abbrev pub after : ℕ → clock.Time → clock.Time
  after zero cursor = cursor
  after (suc turns) cursor = after turns (clock.next_minute cursor)

  -- The first cursor that fits, among those of the turns that there are.
  pub record IsFirst (parsed : ParsedCron) (turns : ℕ) (cursor found : clock.Time) : Type 0 where
    pub turn : ℕ
    pub in_time : turn < turns
    pub is_turn : found ≡ after turn cursor
    pub matches : matches_cron clock timezone found parsed ≡ ok true
    pub earlier :
        (k : ℕ) → k < turn → matches_cron clock timezone (after k cursor) parsed ≡ ok false

  abbrev earlier_or_here :
      (parsed : ParsedCron) (turn : ℕ) (cursor : clock.Time)
      → matches_cron clock timezone cursor parsed ≡ ok false
      → ((k : ℕ)
          → k < turn
          → matches_cron clock timezone (after k (clock.next_minute cursor)) parsed ≡ ok false)
      → (k : ℕ) → k < suc turn
      → matches_cron clock timezone (after k cursor) parsed ≡ ok false
  earlier_or_here parsed turn cursor here there zero lt = here
  earlier_or_here parsed turn cursor here there (suc k) lt = there k (omega (arith, lt))

  search-IsFirst :
      (parsed : ParsedCron) (turns : ℕ) (cursor found : clock.Time)
      → search clock timezone parsed turns cursor ≡ ok (some found)
      → IsFirst parsed turns cursor found
  unfolding search
  search-IsFirst parsed zero cursor found h = absurd (ground arith)
  search-IsFirst parsed (suc turns) cursor found h =
      elim (Result-cases (matches_cron clock timezone cursor parsed)) [
        | inr (e, bad) ↦ absurd (ground arith)
        | inl (true, fits) ↦
            let same : cursor ≡ found = ground arith in
            record {
              turn = 0;
              in_time = omega arith;
              is_turn = sym same;
              matches = rw (sym same) fits;
              earlier = λ k lt. absurd (omega (arith, lt));
            }
        | inl (false, fits) ↦
            let f = search-IsFirst parsed turns (clock.next_minute cursor) found (ground arith) in
            record {
              turn = suc f.turn;
              in_time = omega (arith, f.in_time);
              is_turn = f.is_turn;
              matches = f.matches;
              earlier = earlier_or_here parsed f.turn cursor fits f.earlier;
            }
      ]

  -- The time computed for the next run is the first minute behind the given time that the expression
  -- names, within 366 days: it fits, and none of the minutes before it does.
  pub compute_next_run_at-IsFirst :
      (cron_expression : String) (from_date found : clock.Time)
      → compute_next_run_at clock timezone cron_expression from_date ≡ ok (some found)
      → (parsed : ParsedCron) × (parse_cron_expression clock.integer_of clock.shown cron_expression
          ≡ ok parsed)
        × (clock.validate_timezone timezone ≡ true)
        × IsFirst parsed turns_of_a_year (clock.next_minute (clock.start_of_minute from_date)) found
  unfolding compute_next_run_at
  compute_next_run_at-IsFirst cron_expression from_date found h =
      let (parsed, e, k) =
        >>=-eq-ok (parse_cron_expression clock.integer_of clock.shown cron_expression) _ h in
      elim (Bool-cases (clock.validate_timezone timezone)) [
        | inr invalid ↦ absurd (ground arith)
        | inl valid ↦ (
          parsed,
          e,
          valid,
          search-IsFirst parsed turns_of_a_year
              (clock.next_minute (clock.start_of_minute from_date)) found
              (ground (arith, valid, k)),
        )
      ]
