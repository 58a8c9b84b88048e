-- ===== src/Auth/Session.antt =====
-- apps/api/src/auth/auth.service.ts: `register`, `login`, `me`, `refresh` and `logout`.
use sync_bridge_platform.Base.{
  is_there, ℕ, String, true, false, not, Option, none, some, ◌==◌, trim,
}
use sync_bridge_platform.Js.{Js}
use sync_bridge_platform.Database.{user, User, RefreshToken}
use sync_bridge_platform.Effects.{
  not_found, conflict, unauthorized, Env, M, pure, throw_if, or_throw, gets, draw, log, ◌>>=◌, ◌>>◌,
}
use sync_bridge_platform.Auth.{
  Crypto, TokenPair, SafeUser, AuthResponse, sanitize, find_user, find_email, create_user,
}
use sync_bridge_platform.Auth.Tokens.{
  issue_tokens, verify_refresh_token, find_matching_refresh_token, revoke_refresh_token,
}

pub record RegisterDto : Type 0 where
  pub email : String
  pub password : String
  pub full_name : String

pub record LoginDto : Type 0 where
  pub email : String
  pub password : String

module _ (js : Js) where
  -- `email.toLowerCase().trim()`
  abbrev pub normal : String → String
  normal email = trim (js.to_lower email)

module _ (js : Js) (crypto : Crypto) (env : Env) where
  -- `UsersService.findByEmail`
  abbrev pub find_by_email : String → M js.Num (Option User)
  find_by_email email = gets (λ w. find_email (normal js email) w.users)

  abbrev pub new_user : RegisterDto → String → String → User
  new_user dto password_hash id = record {
    id = id;
    email = normal js dto.email;
    password_hash = password_hash;
    full_name = trim dto.full_name;
    role = user;
  }

  unfoldable pub register : RegisterDto → M js.Num AuthResponse
  register dto = do
    existing ← find_by_email (normal js dto.email)
    throw_if (is_there existing) (conflict "User with this email already exists")
    password_hash ← draw (crypto.hash dto.password)
    u ← create_user env (new_user dto password_hash)
    tokens ← issue_tokens crypto env u
    log "user_registered" "user" u.id (some u.id)
    pure (record { tokens = tokens; user = sanitize u })

  unfoldable pub login : LoginDto → M js.Num AuthResponse
  login dto = do
    found ← find_by_email (normal js dto.email)
    u ← or_throw found (unauthorized "Invalid credentials")
    throw_if (not (crypto.compare dto.password u.password_hash))
        (unauthorized "Invalid credentials")
    tokens ← issue_tokens crypto env u
    log "user_logged_in" "user" u.id (some u.id)
    pure (record { tokens = tokens; user = sanitize u })

  unfoldable pub me : String → M js.Num SafeUser
  me user_id = do
    found ← gets (λ w. find_user user_id w.users)
    u ← or_throw found (not_found "User not found")
    pure (sanitize u)

  unfoldable pub refresh : String → M js.Num TokenPair
  refresh refresh_token = do
    payload ← verify_refresh_token crypto env refresh_token
    found ← gets (λ w. find_user payload.sub w.users)
    u ← or_throw found (unauthorized "Invalid refresh token")
    matched ← find_matching_refresh_token crypto env payload.sub refresh_token payload false
    t ← or_throw matched (unauthorized "Invalid refresh token")
    revoked ← revoke_refresh_token crypto env t.id
    tokens ← issue_tokens crypto env u
    log "refresh_token_rotated" "user" u.id (some u.id)
    pure tokens

  unfoldable pub end_session : RefreshToken → String → Option ℕ → M js.Num (Unit {0})
  end_session t user_id (some revoked_at) = pure tt
  end_session t user_id none = do
    revoked ← revoke_refresh_token crypto env t.id
    log "user_logged_out" "user" user_id (some user_id)

  unfoldable pub logout : String → String → M js.Num (Unit {0})
  unfolding end_session
  logout refresh_token user_id = do
    payload ← verify_refresh_token crypto env refresh_token
    throw_if (not (payload.sub == user_id))
        (unauthorized "Refresh token does not belong to current user")
    matched ← find_matching_refresh_token crypto env user_id refresh_token payload true
    t ← or_throw matched (unauthorized "Invalid refresh token")
    end_session t user_id t.revoked_at
