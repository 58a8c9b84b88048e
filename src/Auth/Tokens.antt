-- ===== src/Auth/Tokens.antt =====
-- apps/api/src/auth/auth.service.ts: `issueTokens`, `verifyRefreshToken`, `findMatchingRefreshToken` and
-- `revokeRefreshToken`.
use sync_bridge_platform.Base.{
  present, is_there, ℕ, ◌+◌, String, Bool, not, ◌&&◌, ◌||◌, Option, none, some, List, [], ◌∷◌, ◌==◌,
  keep, take, latest_first, leb, if◌then◌else◌,
}
use sync_bridge_platform.Database.{User, RefreshToken}
use sync_bridge_platform.Effects.{unauthorized, Env, M, pure, or_throw, gets, draw, ◌>>=◌}
use sync_bridge_platform.Auth.{
  JwtPayload, Crypto, TokenPair, refresh_token_ttl_ms, find_token, create_token, update_token,
}

abbrev pub access_payload : User → String → JwtPayload
access_payload u jti = record {
  sub = u.id;
  email = u.email;
  role = u.role;
  jti = some jti;
  rtid = none;
}

abbrev pub refresh_payload : User → String → String → JwtPayload
refresh_payload u jti rtid = record {
  sub = u.id;
  email = u.email;
  role = u.role;
  jti = some jti;
  rtid = some rtid;
}

abbrev pub pending_token : String → ℕ → String → RefreshToken
pending_token user_id now id = record {
  id = id;
  user_id = user_id;
  token_hash = "pending_hash";
  expires_at = now + refresh_token_ttl_ms;
  revoked_at = none;
}

-- The row of `payload.rtid`, if it is the user's, has not expired and is not revoked.
abbrev pub is_usable : String → Bool → ℕ → RefreshToken → Bool
is_usable user_id include_revoked now t =
    t.user_id == user_id
    && not (leb t.expires_at now)
    && (include_revoked || not (is_there t.revoked_at))

module _ (crypto : Crypto) where
  -- The first candidate whose hash matches.
  unfoldable pub first_match : String → List RefreshToken → Option RefreshToken
  first_match raw_token [] = none
  first_match raw_token (t ∷ ts) =
      let rest = first_match raw_token ts in
      if crypto.compare raw_token t.token_hash then some t else rest

  -- The row of the token's own id, by what `findUnique` gave.
  abbrev pub own_match : String → String → Bool → ℕ → Option RefreshToken → Option RefreshToken
  own_match user_id raw_token include_revoked now none = none
  own_match user_id raw_token include_revoked now (some t) =
      if is_usable user_id include_revoked now t && crypto.compare raw_token t.token_hash
      then some t
      else none

  unfoldable pub matching_token :
      String → String → Option String → Bool → ℕ → List RefreshToken → Option RefreshToken
  unfolding first_match
  matching_token user_id raw_token (some rtid) include_revoked now tokens =
      own_match user_id raw_token include_revoked now (find_token rtid tokens)
  matching_token user_id raw_token none include_revoked now tokens =
      first_match raw_token
        (take 100 (latest_first (keep (is_usable user_id include_revoked now) tokens)))

module _ (crypto : Crypto) (env : Env) {N : Type 0} where
  unfoldable pub issue_tokens : User → M N TokenPair
  issue_tokens u = do
    access_jti ← draw env.uuid
    access_time ← draw env.clock
    let access_token = crypto.sign crypto.access_secret (access_payload u access_jti) access_time
    secret ←
        or_throw (present crypto.refresh_secret) (unauthorized "Refresh secret is not configured")
    now ← draw env.clock
    t ← create_token env (pending_token u.id now)
    refresh_jti ← draw env.uuid
    refresh_time ← draw env.clock
    let refresh_token = crypto.sign secret (refresh_payload u refresh_jti t.id) refresh_time
    hash ← draw (crypto.hash refresh_token)
    updated ← update_token t.id (λ t. record t { token_hash = hash })
    pure (record { access_token = access_token; refresh_token = refresh_token })

  unfoldable pub verify_refresh_token : String → M N JwtPayload
  verify_refresh_token raw_token = do
    secret ←
        or_throw (present crypto.refresh_secret) (unauthorized "Refresh secret is not configured")
    now ← draw env.clock
    or_throw (crypto.verify secret raw_token now) (unauthorized "Invalid refresh token")

  -- An empty `rtid` counts as none. The time is read once where the code reads it on one of two ways.
  unfoldable pub find_matching_refresh_token :
      String → String → JwtPayload → Bool → M N (Option RefreshToken)
  find_matching_refresh_token user_id raw_token payload include_revoked = do
    now ← draw env.clock
    gets (λ w.
        matching_token crypto user_id raw_token (present payload.rtid) include_revoked now
          w.refresh_tokens)

  unfoldable pub revoke_refresh_token : String → M N RefreshToken
  revoke_refresh_token id = do
    now ← draw env.clock
    update_token id (λ t. record t { revoked_at = some now })
