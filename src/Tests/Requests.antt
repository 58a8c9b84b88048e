-- ===== src/Tests/Requests.antt =====
-- The limits on requests, on a concrete rule.
use sync_bridge_platform.Base.{ℕ, ◌+◌, ◌≤◌, none, some, [], ◌∷◌, refl, arith, All}
use sync_bridge_platform.RateLimit.{RateLimitRule, Limiter}
use sync_bridge_platform.RateLimit.Laws.{Visit, IsVisit, accepted, accepted-bound}

abbrev one_a_minute : RateLimitRule
one_a_minute = record { name = "one"; method = "POST"; path = []; limit = 1; window_ms = 60000 }

abbrev at : ℕ → Visit
at now = record { rule = one_a_minute; key = "one:ip"; cleanup_at = now; now = now }

abbrev fresh : Limiter
fresh = record { counters = λ key. none; last_cleanup_at = 0 }

in_a_minute : All (IsVisit "one:ip" 1 60000 100 60100) (at 100 ∷ at 200 ∷ [])
in_a_minute = (
  record {
    since = omega arith;
    before = omega arith;
    cleanup_before = omega arith;
    limit_is = λ e. refl;
    window_is = λ e. refl;
  },
  (
    record {
      since = omega arith;
      before = omega arith;
      cleanup_before = omega arith;
      limit_is = λ e. refl;
      window_is = λ e. refl;
    },
    tt,
  ),
)

span : 60100 ≤ 100 + 60000
span = omega arith

accepted-bound_example : accepted "one:ip" fresh (at 100 ∷ at 200 ∷ []) ≤ 1 + 1
accepted-bound_example =
    accepted-bound "one:ip" 1 60000 100 60100 span (at 100 ∷ at 200 ∷ []) fresh in_a_minute

-- A bucket that has run out when the cleanup comes.
abbrev stale : Limiter
stale = record { counters = λ key. some (record { count = 5; reset_at = 7 }); last_cleanup_at = 0 }

in_order : 40000 ≤ 40000
in_order = omega arith
