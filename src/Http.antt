-- ===== src/Http.antt =====
-- What stands around the handlers: apps/api/src/common/filters/global-exception.filter.ts,
-- apps/api/src/common/guards/roles.guard.ts, apps/api/src/common/middleware/request-context.middleware.ts
-- and apps/api/src/health/health.service.ts.
pub mod Laws
use Prim.Native.Nat
use Prim.Native.Char.{code}
use Prim.Native.String
use sync_bridge_platform.Base.{
  ℕ, String, Bool, true, false, not, ◌&&◌, ◌||◌, Option, none, some, List, [], ◌∷◌, ◌==◌, any, ltb,
  leb, nat_eq, suc, zero, ◌+◌, is_empty, if◌then◌else◌,
}
use sync_bridge_platform.Database.{UserRole, user, operator, admin}
use sync_bridge_platform.Jobs.Queue.{
  QueueSettings, RedisStatus, Ping, skipped, unknown, up, degraded, down, check_redis_health,
}

-- The `message` of an exception's response.
pub data Message : Type 0 where
  text : String → Message
  texts : List String → Message
  other : Message

-- `exception.getResponse()`
pub data Payload : Type 0 where
  plain_text : String → Payload
  fields : Message → Payload
  nothing : Payload

-- What is thrown: an `HttpException` with its status and its response; another error with its message; or
-- anything else.
pub data Exception : Type 0 where
  http : ℕ → Payload → Exception
  error : String → Exception
  thing : Exception

-- The body of the answer; the path, the request's id and the time are left out.
pub record ErrorBody : Type 0 where
  pub status_code : ℕ
  pub message : Message

abbrev pub status_of : Exception → ℕ
status_of (http status payload) = status
status_of (error own) = 500
status_of thing = 500

abbrev or_by_status : Message → Message → Message
or_by_status (text s) fallback = text s
or_by_status (texts ss) fallback = texts ss
or_by_status other fallback = fallback

-- The framework makes the own message of an HTTP exception from its response: `init_message`.
module _ (init_message : Payload → String) where
  abbrev own_message : Exception → String
  own_message (http status payload) = init_message payload
  own_message (error own) = own
  own_message thing = ""

  abbrev by_status : Exception → ℕ → Message
  by_status e status =
      if leb 500 status
      then text "Internal server error"
      else if is_empty (own_message e)
      then text "Request failed"
      else text (own_message e)

  -- `extractMessage`
  unfoldable pub extract_message : Exception → ℕ → Message
  extract_message (http status (plain_text s)) code = text s
  extract_message (http status (fields m)) code =
      or_by_status m (by_status (http status (fields m)) code)
  extract_message (http status nothing) code = by_status (http status nothing) code
  extract_message (error own) code = by_status (error own) code
  extract_message thing code = by_status thing code

  -- `catch`
  unfoldable pub catch_exception : Exception → ErrorBody
  unfolding extract_message
  catch_exception e = record {
    status_code = status_of e;
    message = extract_message e (status_of e);
  }

abbrev same_role : UserRole → UserRole → Bool
same_role user user = true
same_role operator operator = true
same_role admin admin = true
same_role _ _ = false

abbrev includes : List UserRole → Option UserRole → Bool
includes roles none = false
includes roles (some role) = any (same_role role) roles

-- `canActivate`: the roles that the handler or its class names, and the role of the request's user.
unfoldable pub can_activate : List UserRole → Option UserRole → Bool
can_activate [] caller = true
can_activate (role ∷ roles) caller = includes (role ∷ roles) caller

-- `[A-Za-z0-9._:-]`
abbrev is_id_character : ℕ → Bool
is_id_character c =
    leb b'A' c && leb c b'Z'
    || leb b'a' c && leb c b'z'
    || leb b'0' c && leb c b'9'
    || nat_eq c b'.'
    || nat_eq c b'_'
    || nat_eq c b':'
    || nat_eq c b'-'

unfoldable pub count_characters : String → ℕ
count_characters String.[] = 0
count_characters (String.◌∷◌ c s) = suc (count_characters s)

unfoldable pub all_id_characters : String → Bool
all_id_characters String.[] = true
all_id_characters (String.◌∷◌ c s) = is_id_character (code c) && all_id_characters s

-- `isValidRequestId`
unfoldable pub is_valid_request_id : String → Bool
unfolding count_characters all_id_characters
is_valid_request_id value =
    all_id_characters value && leb 8 (count_characters value) && leb (count_characters value) 128

-- The header of a request, which may be there several times.
pub data HeaderValue : Type 0 where
  missing : HeaderValue
  single : String → HeaderValue
  several : List String → HeaderValue

-- `getHeaderValue`
abbrev pub get_header_value : HeaderValue → String
get_header_value missing = ""
get_header_value (single value) = value
get_header_value (several []) = ""
get_header_value (several (value ∷ values)) = value

-- The id of a request: its own, or a new one.
unfoldable pub request_id : HeaderValue → String → String
unfolding is_valid_request_id
request_id header random_uuid =
    if is_valid_request_id (get_header_value header) then get_header_value header else random_uuid

-- What `ready` reads of the configuration, beside the settings of the queues.
pub record Readiness : Type 0 where
  pub is_ready : Bool
  pub is_database_up : Bool
  pub redis : Option RedisStatus

abbrev redis_up : RedisStatus → Bool
redis_up up = true
redis_up skipped = true
redis_up unknown = true
redis_up degraded = false
redis_up down = false

-- `ready`: the answer where it is ready, and otherwise the exception's; the settings that both repeat are
-- left out. Redis is asked only where the database answered.
unfoldable pub ready : QueueSettings → (database_up : Bool) → Ping → Readiness
unfolding check_redis_health
ready s false ping = record { is_ready = false; is_database_up = false; redis = none }
ready s true ping = record {
  is_ready = redis_up (check_redis_health s ping);
  is_database_up = true;
  redis = some (check_redis_health s ping);
}
