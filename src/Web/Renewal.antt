-- ===== src/Web/Renewal.antt =====
-- Two calls of apps/web/lib/api.ts that renew the same session at once, at the API's `refresh`
-- (apps/api/src/auth/auth.controller.ts).
use sync_bridge_platform.Base.{
  ℕ, String, Bool, false, Option, none, some, is_empty, ◌==◌, ◌≡◌, refl, ap, ◌∙◌, arith, Result, ok,
  err, present, is_ok, if◌then◌else◌,
}
use sync_bridge_platform.Js.{Js, Json, str, obj, end, field, own}
use sync_bridge_platform.Database.{World}
use sync_bridge_platform.Effects.{
  Error, Env, not_found, forbidden, bad_request, conflict, unauthorized, payload_too_large, plain,
}
use sync_bridge_platform.Auth.{Crypto, JwtPayload, TokenPair}
use sync_bridge_platform.Auth.Session.{refresh}
use sync_bridge_platform.Auth.Calls.{Steps}
use sync_bridge_platform.Auth.Replay.{refresh_no_replay}
use sync_bridge_platform.Web.{
  Response, Fetch, Tab, Failure, session_of, stored_user, update_stored_tokens,
}
use sync_bridge_platform.Web.Client
use sync_bridge_platform.Web.Client.{send, refresh_request, store_tokens}

-- The statuses of the exceptions of NestJS; 500 of a plain error.
abbrev error_status : Error → ℕ
error_status (not_found m) = 404
error_status (forbidden m) = 403
error_status (bad_request ms) = 400
error_status (conflict m) = 409
error_status (unauthorized m) = 401
error_status (payload_too_large m) = 413
error_status (plain m) = 500

error_status-refused : (e : Error) → Client.is_ok (error_status e) ≡ false
error_status-refused (not_found m) = refl
error_status-refused (forbidden m) = refl
error_status-refused (bad_request ms) = refl
error_status-refused (conflict m) = refl
error_status-refused (unauthorized m) = refl
error_status-refused (payload_too_large m) = refl
error_status-refused (plain m) = refl

module _ {N : Type 0} where
  abbrev pair_json : TokenPair → Json N
  pair_json pair = obj (
      field "accessToken" (str pair.access_token)
        (field "refreshToken" (str pair.refresh_token) end))

  -- A `@Post()` handler that returns is answered with 201; the body of an error plays no part here.
  abbrev pub refresh_response : Result Error TokenPair → Response N
  refresh_response (ok pair) = record { status = 201; json = some (pair_json pair) }
  refresh_response (err e) = record { status = error_status e; json = none }

  abbrev text_of : Option (Json N) → Option String
  text_of (some (str s)) = some s
  text_of _ = none

  -- What the validation of the body lets through: a text that is not empty.
  abbrev token_of : Option (Json N) → Option String
  token_of (some (obj fs)) = present (text_of (own fs "refreshToken"))
  token_of _ = none

module _ (js : Js) (crypto : Crypto) (env : Env) (others : Fetch (World js.Num) js.Num) where
  abbrev serve_refresh : Option String → World js.Num → Option (Response js.Num) × World js.Num
  serve_refresh none w = (some (record { status = 400; json = none }), w)
  serve_refresh (some raw) w =
      (some (refresh_response (refresh js crypto env raw w).0), (refresh js crypto env raw w).1)

  -- The API as `fetch` meets it; the handlers other than `refresh` are `others`.
  unfoldable pub serve : Fetch (World js.Num) js.Num
  serve request w =
      if request.path == "/auth/refresh"
      then serve_refresh (token_of request.body) w
      else others request w

  abbrev Answer : Type 0
  Answer = Result Failure (Response js.Num) × Tab (World js.Num) js.Num

  module _ (show : ℕ → String) (raw rtid : String) (nonempty : is_empty raw ≡ false)
      (own_row : (secret : String) (t : ℕ) (p : JwtPayload)
        → crypto.verify secret raw t ≡ some p
        → present p.rtid ≡ some rtid) where
    -- The request of a renewal with the token `raw`.
    abbrev ask : Tab (World js.Num) js.Num → Answer
    ask tab = send js show serve (refresh_request js show serve (str raw)) tab

    abbrev exchange : World js.Num → Result Error TokenPair × World js.Num
    exchange w = refresh js crypto env raw w

    ask_lem :
        (tab : Tab (World js.Num) js.Num)
        → ((ask tab).0 ≡ ok (refresh_response (exchange tab.server).0))
          × ((ask tab).1.storage ≡ tab.storage)
    unfolding send serve own
    ask_lem tab = (rw nonempty refl, rw nonempty refl)

    abbrev store :
        Response js.Num
        → Tab (World js.Num) js.Num
        → Result Failure Bool × Tab (World js.Num) js.Num
    store response tab = store_tokens js show serve response tab

    stores_pair :
        (pair : TokenPair) (tab : Tab (World js.Num) js.Num)
        → (store (refresh_response (ok pair)) tab).1.storage
          ≡ some (
              session_of
                (some (str pair.access_token))
                (some (str pair.refresh_token))
                (some (stored_user js tab.storage)))
    unfolding store_tokens update_stored_tokens own
    stores_pair pair tab = refl

    drops_session :
        (r : Result Error TokenPair) (tab : Tab (World js.Num) js.Num)
        → is_ok r ≡ false
        → (store (refresh_response r) tab).1.storage ≡ none
    unfolding store_tokens
    drops_session (ok pair) tab h = absurd (ground (arith, h))
    drops_session (err e) tab h = rw (error_status-refused e)

    -- Two calls of one tab renew the same session, whose refresh token names its row: both ask the API before
    -- either has stored its answer. If the first exchange returned, then after any calls of register,
    -- login, refresh and logout in between the answer to the second is a refusal. The first stores the
    -- new tokens, and the second then drops the session that the first has stored.
    pub second_renewal_drops_session :
        (tab : Tab (World js.Num) js.Num) (pair : TokenPair) (v : World js.Num)
        → (exchange tab.server).0 ≡ ok pair
        → Steps js crypto env (exchange tab.server).1 v
        → let first = ask tab in
          let second = ask (record first.1 { server = v }) in
          let renewed = store (refresh_response (ok pair)) second.1 in
          (first.0 ≡ ok (refresh_response (ok pair)))
          × (renewed.1.storage
              ≡ some (
                  session_of
                    (some (str pair.access_token))
                    (some (str pair.refresh_token))
                    (some (stored_user js tab.storage))))
          × ((answer : Response js.Num) × (second.0 ≡ ok answer)
              × ((store answer renewed.1).1.storage ≡ none))
    second_renewal_drops_session tab pair v returned calls =
        let waiting = record (ask tab).1 { server = v } in
        let unchanged = (ask_lem waiting).1 ∙ (ask_lem tab).1 in
        let refused =
          refresh_no_replay js crypto env raw rtid own_row pair tab.server v returned calls in
        (
          (ask_lem tab).0 ∙ ap (λ r. ok (refresh_response r)) returned,
          stores_pair pair (ask waiting).1
              ∙ ap
                  (λ o. some (
                    session_of (some (str pair.access_token)) (some (str pair.refresh_token))
                      (some (stored_user js o))))
                  unchanged,
          (
            refresh_response (exchange v).0,
            (ask_lem waiting).0,
            drops_session (exchange v).0 _ refused,
          ),
        )
