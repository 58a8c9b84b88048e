-- ===== src/RateLimit.antt =====
-- apps/api/src/common/middleware/rate-limit.middleware.ts: requests counted by rule and address in
-- fixed windows. The map of the buckets is a function; a path is matched by its segments, which is what
-- the regular expressions of the rules do.
pub mod Laws
use Prim.Native.String
use sync_bridge_platform.Base.{
  ℕ, suc, ◌+◌, ◌-◌, ◌/◌, max, String, Bool, true, false, ◌&&◌, Option, none, some, List, [], ◌∷◌,
  ◌==◌, ◌≡◌, refl, split, is_empty, ltb, leb, if◌then◌else◌,
}

-- A segment of a rule's path: `[^/]+` or a text.
pub data Segment : Type 0 where
  anything : Segment
  literal : String → Segment

pub record RateLimitRule : Type 0 where
  pub name : String
  pub method : String
  pub path : List Segment
  pub limit : ℕ
  pub window_ms : ℕ

pub record Bucket : Type 0 where
  pub count : ℕ
  pub reset_at : ℕ

pub record Limiter : Type 0 where
  pub counters : String → Option Bucket
  pub last_cleanup_at : ℕ

-- A request, with the two times that its handling reads, for the cleanup and for the count.
pub record Request : Type 0 where
  pub method : String
  pub path : String
  pub ip : Option String
  pub cleanup_at : ℕ
  pub now : ℕ

-- What goes to `next`, with the headers that were set.
pub data Response : Type 0 where
  passed : Response
  counted : (limit remaining reset : ℕ) → Response
  rejected : (limit remaining reset retry_after : ℕ) → Response

abbrev rule : String → List Segment → ℕ → RateLimitRule
rule name path limit = record {
  name = name;
  method = "POST";
  path = path;
  limit = limit;
  window_ms = 60000;
}

-- `RATE_LIMIT_RULES`
abbrev pub rate_limit_rules : List RateLimitRule
rate_limit_rules =
    rule "auth_register" (literal "auth" ∷ literal "register" ∷ []) 20
    ∷ rule "auth_login" (literal "auth" ∷ literal "login" ∷ []) 20
    ∷ rule "auth_refresh" (literal "auth" ∷ literal "refresh" ∷ []) 40
    ∷ rule "webhook_intake" (literal "webhooks" ∷ anything ∷ literal "events" ∷ []) 120
    ∷ rule "pipeline_runs" (literal "pipelines" ∷ anything ∷ literal "runs" ∷ []) 60
    ∷ rule "pipeline_preview" (literal "pipelines" ∷ anything ∷ literal "preview" ∷ []) 60
    ∷ rule "schedule_trigger"
        (literal "pipelines" ∷ anything ∷ literal "schedule" ∷ literal "trigger" ∷ []) 40
    ∷ []

abbrev first : List String → String
first [] = ""
first (part ∷ parts) = part

-- `/api/` in front goes, its last slash stays.
abbrev without_api : List String → List String
without_api [] = []
without_api (a ∷ []) = a ∷ []
without_api (a ∷ b ∷ []) = a ∷ b ∷ []
without_api (a ∷ b ∷ c ∷ more) = if is_empty a && b == "api" then a ∷ c ∷ more else a ∷ b ∷ c ∷ more

-- `normalizePath`, with the path cut at its slashes.
unfoldable pub normalize_path : String → List String
normalize_path path = without_api (split b'/' (first (split b'?' path)))

abbrev pub fits : Segment → String → Bool
fits anything s = if is_empty s then false else true
fits (literal t) s = t == s

abbrev all_fit : List Segment → List String → Bool
all_fit [] [] = true
all_fit [] (s ∷ more) = false
all_fit (p ∷ path) [] = false
all_fit (p ∷ path) (s ∷ more) = fits p s && all_fit path more

-- `rule.path.test`
abbrev pub test : List Segment → List String → Bool
test path [] = false
test path (s ∷ more) = is_empty s && all_fit path more

abbrev pub find_rule : String → List String → List RateLimitRule → Option RateLimitRule
find_rule method parts [] = none
find_rule method parts (r ∷ rules) =
    if r.method == method && test r.path parts then some r else find_rule method parts rules

unfoldable pub match_rule : String → String → Option RateLimitRule
unfolding normalize_path
match_rule method path = find_rule method (normalize_path path) rate_limit_rules

unfoldable pub build_key : String → String → String
build_key rule_name ip = String.◌++◌ rule_name (String.◌++◌ ":" ip)

abbrev pub unless_expired : ℕ → Option Bucket → Option Bucket
unless_expired now none = none
unless_expired now (some b) = if leb b.reset_at now then none else some b

-- `now - lastCleanupAt < 30000`, on integers
unfoldable pub cleanup_expired_buckets : ℕ → Limiter → Limiter
cleanup_expired_buckets now l =
    if ltb now (l.last_cleanup_at + 30000)
    then l
    else record { counters = λ key. unless_expired now (l.counters key); last_cleanup_at = now }

-- `!existing || existing.resetAt <= now ? { count: 0, resetAt: now + windowMs } : existing`
unfoldable pub live_bucket : ℕ → ℕ → Option Bucket → Bucket
live_bucket now window_ms none = record { count = 0; reset_at = now + window_ms }
live_bucket now window_ms (some b) =
    if leb b.reset_at now then record { count = 0; reset_at = now + window_ms } else b

abbrev respond : ℕ → ℕ → Bucket → Response
respond limit now b =
    if ltb limit b.count
    then rejected limit (limit - b.count) (b.reset_at / 1000)
        (max 1 ((b.reset_at - now + 999) / 1000))
    else counted limit (limit - b.count) (b.reset_at / 1000)

abbrev pub increment : Bucket → Bucket
increment b = record b { count = suc b.count }

-- The part of `use` behind the choice of the rule and the cleanup.
unfoldable pub count_request : RateLimitRule → String → ℕ → Limiter → Response × Limiter
count_request r key now l =
    let b = increment (live_bucket now r.window_ms (l.counters key)) in
    (respond r.limit now b, record l { counters = λ k. if k == key then some b else l.counters k })

abbrev pub address : Option String → String
address none = "unknown"
address (some ip) = ip

abbrev by_rule : Option RateLimitRule → Request → Limiter → Response × Limiter
by_rule none request l = (passed, l)
by_rule (some r) request l =
    count_request r (build_key r.name (address request.ip)) request.now
      (cleanup_expired_buckets request.cleanup_at l)

-- `use`
unfoldable pub handle : Bool → Request → Limiter → Response × Limiter
unfolding count_request cleanup_expired_buckets
handle disabled request l =
    if disabled then (passed, l) else by_rule (match_rule request.method request.path) request l

abbrev name_of : Option RateLimitRule → String
name_of none = ""
name_of (some r) = r.name

route_of_pipeline : name_of (match_rule "POST" "/api/pipelines/p1/runs?x=1") ≡ "pipeline_runs"
unfolding match_rule split
route_of_pipeline = refl
