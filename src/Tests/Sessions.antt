-- ===== src/Tests/Sessions.antt =====
-- Refresh tokens on concrete tables.

use sync_bridge_platform.Base.{
  present, ℕ, String, none, some, [], ◌∷◌, ◌≡◌, refl, false, ok, Result, is_ok, ◌==◌, arith,
}
use sync_bridge_platform.Database.{operator, World, find, update}
use sync_bridge_platform.Auth.{JwtPayload, Crypto, TokenPair, create_token, update_token}
use sync_bridge_platform.Auth.Tokens.{
  issue_tokens, verify_refresh_token, matching_token, find_matching_refresh_token,
  revoke_refresh_token,
}
use sync_bridge_platform.Auth.Session.{refresh, login, logout, end_session}
use sync_bridge_platform.Auth.Calls.{Steps, done, call, logging_in}
use sync_bridge_platform.Auth.Replay.{refresh_no_replay, logout_no_refresh}
use sync_bridge_platform.Tests.Data.{runtime, nth_id, no_rows}
use sync_bridge_platform.Tests.Webhooks.{at_once}
use sync_bridge_platform.Js.{str, obj, field, end}
use sync_bridge_platform.Web.{Fetch, Tab, Response, Failure, session_of, stored_user}
use sync_bridge_platform.Web.Client.{send, refresh_request, store_tokens}
use sync_bridge_platform.Web.Renewal.{serve, refresh_response, second_renewal_drops_session}

abbrev claims : JwtPayload
claims = record { sub = "u1"; email = "a@b"; role = operator; jti = none; rtid = some "t1" }

-- Every token carries the same claims; the hash of a text is the text.
abbrev crypto : Crypto
crypto = record {
  hash = λ text salt. text;
  compare = λ text hash. text == hash;
  sign = λ secret payload t. "signed";
  verify = λ secret text t. some claims;
  access_secret = "s";
  refresh_secret = some "s";
}

abbrev tables : World ℕ
tables = record no_rows {
  users =
      record { id = "u1"; email = "a@b"; password_hash = "pw"; full_name = "A"; role = operator }
      ∷ [];
  refresh_tokens =
      record { id = "t1"; user_id = "u1"; token_hash = "raw"; expires_at = 100; revoked_at = none }
      ∷ [];
}

own :
    (secret : String) (t : ℕ) (p : JwtPayload)
    → crypto.verify secret "raw" t ≡ some p
    → present p.rtid ≡ some "t1"
own secret t p h = ground (arith, h)

abbrev pair : TokenPair
pair = record { access_token = "signed"; refresh_token = "signed" }

exchanged : (refresh runtime crypto at_once "raw" tables).0 ≡ ok pair
unfolding refresh verify_refresh_token find_matching_refresh_token matching_token
    revoke_refresh_token issue_tokens create_token update_token find update
exchanged = refl

logged_out : (logout runtime crypto at_once "raw" "u1" tables).0 ≡ ok tt
unfolding logout end_session verify_refresh_token find_matching_refresh_token matching_token
    revoke_refresh_token update_token find update
logged_out = refl

abbrev after_login : World ℕ
after_login =
    (login runtime crypto at_once (record { email = "a@b"; password = "pw" })
      (refresh runtime crypto at_once "raw" tables).1).1

between : Steps runtime crypto at_once (refresh runtime crypto at_once "raw" tables).1 after_login
between = call (logging_in (record { email = "a@b"; password = "pw" }) _) (done _)

refresh_no_replay_example : is_ok (refresh runtime crypto at_once "raw" after_login).0 ≡ false
refresh_no_replay_example =
    refresh_no_replay runtime crypto at_once "raw" "t1" own pair tables after_login exchanged
      between

logout_no_refresh_example :
    is_ok
      (refresh runtime crypto at_once "raw" (logout runtime crypto at_once "raw" "u1" tables).1).0
    ≡ false
logout_no_refresh_example =
    logout_no_refresh runtime crypto at_once "raw" "t1" own "u1" tables
      (logout runtime crypto at_once "raw" "u1" tables).1 logged_out
      (done (logout runtime crypto at_once "raw" "u1" tables).1)

-- A server whose other handlers never answer.
abbrev api : Fetch (World ℕ) ℕ
api = serve runtime crypto at_once (λ request w. (none, w))

abbrev tab : Tab (World ℕ) ℕ
tab = record {
  storage = some (obj (field "accessToken" (str "old") (field "refreshToken" (str "raw") end)));
  server = tables;
  sent = [];
}

abbrev asked : Tab (World ℕ) ℕ → Result Failure (Response ℕ) × Tab (World ℕ) ℕ
asked tab' = send runtime nth_id api (refresh_request runtime nth_id api (str "raw")) tab'

abbrev second : Result Failure (Response ℕ) × Tab (World ℕ) ℕ
second = asked (record (asked tab).1 { server = after_login })

abbrev renewed : Tab (World ℕ) ℕ
renewed = (store_tokens runtime nth_id api (refresh_response (ok pair)) second.1).1

second_renewal_drops_session_example :
    ((asked tab).0 ≡ ok (refresh_response (ok pair)))
    × (renewed.storage
        ≡ some (
            session_of
              (some (str "signed"))
              (some (str "signed"))
              (some (stored_user runtime tab.storage))))
    × ((answer : Response ℕ) × (second.0 ≡ ok answer)
        × ((store_tokens runtime nth_id api answer renewed).1.storage ≡ none))
second_renewal_drops_session_example =
    second_renewal_drops_session runtime crypto at_once (λ request w. (none, w)) nth_id "raw" "t1"
      refl own tab pair after_login exchanged between
