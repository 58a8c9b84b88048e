-- ===== src/Auth.antt =====
-- apps/api/src/auth/auth.service.ts and apps/api/src/users/users.service.ts: accounts, and tokens that are
-- issued, rotated and revoked. Hashing and signing belong to the libraries and are parameters.
pub mod Tokens
pub mod Session
pub mod Revoked
pub mod Calls
pub mod Replay
use sync_bridge_platform.Base.{
  ℕ, zero, suc, ◌+◌, ◌*◌, String, Bool, true, false, not, ◌&&◌, ◌||◌, Option, none, some, List, [],
  ◌∷◌, ◌++◌, ◌==◌, ok, err, keep, leb, trim, is_empty, if◌then◌else◌,
}
use sync_bridge_platform.Js.{Js}
use sync_bridge_platform.Database.{user, User, RefreshToken, UserRole, World, find, update}
use sync_bridge_platform.Effects.{
  not_found, conflict, unauthorized, plain, Env, M, pure, throw, throw_if, or_throw, gets, draw,
  log, ◌>>=◌, ◌>>◌,
}

pub record JwtPayload : Type 0 where
  pub sub : String
  pub email : String
  pub role : UserRole
  pub jti : Option String
  pub rtid : Option String

-- bcrypt's `hash`, with the random salt that it draws, and `compare`; the JWT library's `signAsync` and
-- `verifyAsync` at a time, `none` where it throws; and the secrets of the configuration.
pub record Crypto : Type 0 where
  pub hash : String → ℕ → String
  pub compare : String → String → Bool
  pub sign : String → JwtPayload → ℕ → String
  pub verify : String → String → ℕ → Option JwtPayload
  pub access_secret : String
  pub refresh_secret : Option String

pub record TokenPair : Type 0 where
  pub access_token : String
  pub refresh_token : String

-- `sanitize`: the row without its hash.
pub record SafeUser : Type 0 where
  pub id : String
  pub email : String
  pub full_name : String
  pub role : UserRole

pub record AuthResponse : Type 0 where
  pub tokens : TokenPair
  pub user : SafeUser

abbrev pub sanitize : User → SafeUser
sanitize u = record { id = u.id; email = u.email; full_name = u.full_name; role = u.role }

abbrev pub refresh_token_ttl_ms : ℕ
refresh_token_ttl_ms = 30 * 24 * 60 * 60 * 1000

abbrev pub find_token : String → List RefreshToken → Option RefreshToken
find_token = find (λ t. t.id)

abbrev pub find_user : String → List User → Option User
find_user = find (λ u. u.id)

abbrev pub find_email : String → List User → Option User
find_email = find (λ u. u.email)

module _ {N : Type 0} where
  unfoldable pub create_token : Env → (String → RefreshToken) → M N RefreshToken
  create_token env row w =
      let made = row (env.uuid w.ticks) in
      (ok made, record w { refresh_tokens = w.refresh_tokens ++ made ∷ []; ticks = suc w.ticks })

  unfoldable pub update_token : String → (RefreshToken → RefreshToken) → M N RefreshToken
  update_token id change w = elim (find_token id w.refresh_tokens) [
    | none ↦ (err (plain "Refresh token not found"), w)
    | some t ↦
        (ok (change t), record w { refresh_tokens = update (λ t. t.id) id change w.refresh_tokens })
  ]

  unfoldable pub create_user : Env → (String → User) → M N User
  create_user env row w =
      let made = row (env.uuid w.ticks) in
      (ok made, record w { users = w.users ++ made ∷ []; ticks = suc w.ticks })
