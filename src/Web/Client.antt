-- ===== src/Web/Client.antt =====
-- apps/web/lib/api.ts: a call of the API, with one renewal of the tokens where the access token is refused;
-- and the calls that open and close a session.
use Prim.Native.String
use sync_bridge_platform.Base.{
  ℕ, String, Bool, true, false, ◌&&◌, Option, none, some, [], ◌∷◌, ◌++◌, Result, ok, err, ltb, leb,
  nat_eq, is_empty, if◌then◌else◌,
}
use sync_bridge_platform.Js.{
  Js, Json, Items, given, null, bool, num, str, arr, obj, nil, cons, end, field, own, Fields, write,
}
use sync_bridge_platform.Web.{
  Request, Response, Fetch, Tab, Failure, api_error, unreachable, not_json, C, pure, lift, gets,
  ◌>>=◌, ◌>>◌, property, session_of, access_token, refresh_token, truthy_member, set_stored_session,
  clear_stored_session, update_stored_tokens, stored_session,
}

-- `response.ok`
abbrev pub is_ok : ℕ → Bool
is_ok status = leb 200 status && ltb status 300

abbrev text_of : {N : Type 0} → Option (Json N) → Option String
text_of (some (str s)) = some s
text_of _ = none

abbrev pub or_not_json : {N : Type 0} → Option (Json N) → Result Failure (Json N)
or_not_json none = err not_json
or_not_json (some v) = ok v

module _ (js : Js) where
  -- An element that `join` writes: nothing for `null`.
  abbrev part : Json js.Num → Result String String
  part null = ok ""
  part v = js.to_text (given v)

  abbrev joined : Result String String → Result String String → Result String String
  joined (ok s) (ok rest) = ok (String.◌++◌ s (String.◌++◌ ", " rest))
  joined (ok s) (err e) = err e
  joined (err e) rest = err e

  -- `payload.message.join(', ')`
  unfoldable pub join_items : Items js.Num → Result String String
  join_items nil = ok ""
  join_items (cons x nil) = part x
  join_items (cons x (cons y xs)) = joined (part x) (join_items (cons y xs))

  -- How a status is written in a message.
  module _ (show : ℕ → String) where
    abbrev fallback : ℕ → String × Option String
    fallback status = (String.◌++◌ "Request failed with status " (show status), none)

    abbrev message_or : ℕ → Option String → Result String String → String × Option String
    message_or status request_id (ok message) = (message, request_id)
    message_or status request_id (err e) = fallback status

    abbrev message_of : ℕ → Option String → Option (Json js.Num) → String × Option String
    message_of status request_id (some (arr xs)) = message_or status request_id (join_items xs)
    message_of status request_id (some (str s)) =
        if is_empty s then fallback status else (s, request_id)
    message_of status request_id _ = fallback status

    -- `parseErrorPayload`: the message and the request's id.
    unfoldable pub parse_error_payload : Response js.Num → String × Option String
    unfolding join_items
    parse_error_payload response = elim response.json [
      | none ↦ fallback response.status
      | some v ↦ elim v [
        | obj fs ↦ message_of response.status (text_of (own fs "requestId")) (own fs "message")
        | null ↦ fallback response.status
        | bool b ↦ fallback response.status
        | num n ↦ fallback response.status
        | str s ↦ fallback response.status
        | arr xs ↦ fallback response.status
      ]
    ]

    -- A truthy id is added to the message.
    abbrev with_request_id : String → Option String → String
    with_request_id message none = message
    with_request_id message (some id) =
        if is_empty id
        then message
        else String.◌++◌ message (String.◌++◌ " (requestId: " (String.◌++◌ id ")"))

    abbrev thrown : ℕ → String × Option String → Failure
    thrown status (message, request_id) =
        api_error status (with_request_id message request_id) request_id

    -- What a call makes of its last answer.
    unfoldable pub answer_of : Response js.Num → Result Failure (Json js.Num)
    answer_of response =
        if is_ok response.status
        then or_not_json response.json
        else err (thrown response.status (parse_error_payload response))

-- The options of a call.
pub record RequestOptions (N : Type 0) : Type 0 where
  pub method : String
  pub path : String
  pub body : Option (Json N)
  pub authenticated : Bool

module _ (js : Js) (show : ℕ → String) {S : Type 0} (fetch : Fetch S js.Num) where
  -- `fetch`, with the request among those that were sent.
  abbrev pub answered :
      Option (Response js.Num) × S → Tab S js.Num → Result Failure (Response js.Num) × Tab S js.Num
  answered (none, server) tab = (err unreachable, record tab { server = server })
  answered (some response, server) tab = (ok response, record tab { server = server })

  unfoldable pub send : Request js.Num → C S js.Num (Response js.Num)
  send request tab =
      answered (fetch request tab.server) (record tab { sent = tab.sent ++ request ∷ [] })

  -- `if (accessToken) headers.Authorization = ...`
  abbrev if_truthy : Option (Json js.Num) → Option (Json js.Num)
  if_truthy token = if truthy_member js token then token else none

  abbrev pub token_for : Bool → Option (Json js.Num) → Option (Json js.Num)
  token_for authenticated storage =
      if authenticated then if_truthy (access_token js storage) else none

  abbrev pub request_of : RequestOptions js.Num → Option (Json js.Num) → Request js.Num
  request_of options storage = record {
    method = options.method;
    path = options.path;
    authorization = token_for options.authenticated storage;
    body = options.body;
  }

  abbrev pub refresh_request : Json js.Num → Request js.Num
  refresh_request token = record {
    method = "POST";
    path = "/auth/refresh";
    authorization = none;
    body = some (obj (field "refreshToken" token end));
  }

  -- The answer of the renewal: the session is dropped where it is refused.
  abbrev pub store_pair : Response js.Num → C S js.Num Bool
  store_pair response = do
    pair ← lift (or_not_json response.json)
    access ← lift (property pair "accessToken")
    refresh ← lift (property pair "refreshToken")
    update_stored_tokens js access refresh
    pure true

  abbrev pub drop_session : C S js.Num Bool
  drop_session = do clear_stored_session js; pure false

  unfoldable pub store_tokens : Response js.Num → C S js.Num Bool
  store_tokens response = if is_ok response.status then store_pair response else drop_session

  abbrev pub renew : Option (Json js.Num) → C S js.Num Bool
  renew none = pure false
  renew (some token) = do response ← send (refresh_request token); store_tokens response

  -- `performTokenRefresh`; a token in a stored session is truthy.
  unfoldable pub perform_token_refresh : C S js.Num Bool
  unfolding store_tokens send
  perform_token_refresh = do token ← gets (λ tab. refresh_token js tab.storage); renew token

  -- `requestApi` with `retry: false`
  unfoldable pub request_once : RequestOptions js.Num → C S js.Num (Json js.Num)
  unfolding send
  request_once options = do
    request ← gets (λ tab. request_of options tab.storage)
    response ← send request
    lift (answer_of js show response)

  abbrev pub try_again : RequestOptions js.Num → Response js.Num → Bool → C S js.Num (Json js.Num)
  try_again options response true = request_once options
  try_again options response false = lift (answer_of js show response)

  abbrev pub after_refresh : RequestOptions js.Num → Response js.Num → C S js.Num (Json js.Num)
  after_refresh options response = do
    refreshed ← perform_token_refresh
    try_again options response refreshed

  abbrev pub is_refused : RequestOptions js.Num → Response js.Num → Bool
  is_refused options response = nat_eq response.status 401 && options.authenticated

  abbrev pub after : RequestOptions js.Num → Response js.Num → C S js.Num (Json js.Num)
  after options response =
      if is_refused options response
      then after_refresh options response
      else lift (answer_of js show response)

  -- `requestApi`, as the methods of `api` call it: with a retry.
  unfoldable pub request_api : RequestOptions js.Num → C S js.Num (Json js.Num)
  unfolding send
  request_api options = do
    request ← gets (λ tab. request_of options tab.storage)
    response ← send request
    after options response

  abbrev open_session : String → Json js.Num → C S js.Num (Json js.Num)
  open_session path payload = do
    result ←
        request_api
          (record { method = "POST"; path = path; body = some payload; authenticated = false })
    access ← lift (property result "accessToken")
    refresh ← lift (property result "refreshToken")
    user ← lift (property result "user")
    set_stored_session js (session_of access refresh user)
    pure result

  -- `api.register`
  unfoldable pub register : Json js.Num → C S js.Num (Json js.Num)
  unfolding request_api
  register = open_session "/auth/register"

  -- `api.login`
  unfoldable pub login : Json js.Num → C S js.Num (Json js.Num)
  unfolding request_api
  login = open_session "/auth/login"

  abbrev logout_options : Json js.Num → RequestOptions js.Num
  logout_options token = record {
    method = "POST";
    path = "/auth/logout";
    body = some (obj (field "refreshToken" token end));
    authenticated = true;
  }

  abbrev tell_server : Option (Json js.Num) → Tab S js.Num → Tab S js.Num
  tell_server none tab = tab
  tell_server (some token) tab = (request_api (logout_options token) tab).1

  -- `api.logout`: an error of the call is caught.
  unfoldable pub logout : C S js.Num (Unit {0})
  logout tab = clear_stored_session js (tell_server (refresh_token js tab.storage) tab)

  abbrev store_user : Option (Fields js.Num) → Json js.Num → C S js.Num (Unit {0})
  store_user none u = pure tt
  store_user (some session) u = set_stored_session js (obj (write session "user" u))

  -- `api.me`
  unfoldable pub me : C S js.Num (Json js.Num)
  unfolding request_api
  me = do
    u ←
        request_api
          (record { method = "GET"; path = "/auth/me"; body = none; authenticated = true })
    current ← gets (λ tab. stored_session js tab.storage)
    store_user current u
    pure u
