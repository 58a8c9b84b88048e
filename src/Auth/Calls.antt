-- ===== src/Auth/Calls.antt =====
-- Calls of apps/api/src/auth/auth.service.ts: a token that was revoked stays so.
use sync_bridge_platform.Base.{
  present, ℕ, suc, String, true, false, not, Option, none, some, refl, inl, inr, arith, ◌==◌,
  Bool-cases, Option-cases,
}
use sync_bridge_platform.Js.{Js}
use sync_bridge_platform.Database.{User, RefreshToken, World}
use sync_bridge_platform.Effects.{
  unauthorized, Env, pure, or_throw, throw_if, draw, log, ◌>>=◌, ◌>>◌,
}
use sync_bridge_platform.Effects.Frame.{Keeps, Keeps-continue, Keeps-or_throw, Keeps-throw_if}
use sync_bridge_platform.Auth.{Crypto, find_user, find_email, create_user}
use sync_bridge_platform.Auth.Tokens.{
  issue_tokens, matching_token, verify_refresh_token, find_matching_refresh_token,
  revoke_refresh_token,
}
use sync_bridge_platform.Auth.Session.{
  RegisterDto, LoginDto, normal, new_user, register, login, refresh, end_session, logout,
}
use sync_bridge_platform.Auth.Revoked.{
  StayRevoked, revoking, alike, update_token-revoking, issue_tokens-revoking,
}

module _ (js : Js) (crypto : Crypto) (env : Env) where
  -- A call of the service, whatever it returns or throws.
  pub data Step : World js.Num → World js.Num → Type 0 where
    registering : (dto : RegisterDto) (w : World js.Num) → Step w (register js crypto env dto w).1
    logging_in : (dto : LoginDto) (w : World js.Num) → Step w (login js crypto env dto w).1
    refreshing : (raw : String) (w : World js.Num) → Step w (refresh js crypto env raw w).1
    logging_out : (raw id : String) (w : World js.Num) → Step w (logout js crypto env raw id w).1

  -- Any number of calls.
  pub data Steps : World js.Num → World js.Num → Type 0 where
    done : (w : World js.Num) → Steps w w
    call : {u v w : World js.Num} → Step u v → Steps v w → Steps u w

  register-revoking : (dto : RegisterDto) → Keeps revoking (register js crypto env dto)
  unfolding register create_user
  register-revoking dto w =
      elim (Option-cases (find_email (normal js (normal js dto.email)) w.users)) [
        | inr (u, at) ↦ rw (at, register) (revoking.self w)
        | inl missing ↦
            let v =
              (create_user env (new_user js crypto env dto (crypto.hash dto.password w.ticks))
                (record w { ticks = suc w.ticks })).1 in
            let u =
              new_user js crypto env dto (crypto.hash dto.password w.ticks)
                (env.uuid (suc w.ticks)) in
            let m = issue_tokens crypto env u v in
            rw (missing, register)
              (Keeps-continue revoking m.0 _ {w = w} {v = m.1}
                (revoking.trans (alike w v refl) (issue_tokens-revoking crypto env u v))
                (λ t. alike m.1 _ refl))
      ]

  login-revoking : (dto : LoginDto) → Keeps revoking (login js crypto env dto)
  unfolding login
  login-revoking dto w =
      elim (Option-cases (find_email (normal js (normal js dto.email)) w.users)) [
        | inl missing ↦ rw (missing, login) (revoking.self w)
        | inr (u, at) ↦ elim (Bool-cases (crypto.compare dto.password u.password_hash)) [
          | inr wrong ↦ rw (at, wrong, login) (revoking.self w)
          | inl right ↦
              let m = issue_tokens crypto env u w in
              rw (at, right, login)
                (Keeps-continue revoking m.0 _ {w = w} {v = m.1}
                  (issue_tokens-revoking crypto env u w) (λ t. alike m.1 _ refl))
        ]
      ]

  verify-revoking :
      (raw : String) → Keeps {N = js.Num} revoking (verify_refresh_token crypto env raw)
  unfolding verify_refresh_token
  verify-revoking raw w = alike w (verify_refresh_token crypto env raw w).1 (ground arith)

  revoke-revoking : (id : String) → Keeps {N = js.Num} revoking (revoke_refresh_token crypto env id)
  unfolding revoke_refresh_token
  revoke-revoking id w =
      let v = (draw env.clock w).1 in
      revoking.trans (alike w v refl) (
        update_token-revoking id (λ t. record t { revoked_at = some (env.clock w.ticks) })
          (λ t. refl) (λ t at off. (env.clock w.ticks, refl)) v)

  -- Behind the search for the row of a token.
  rotate-revoking :
      (u : User) (t : RefreshToken) (w : World js.Num)
      → StayRevoked w
          ((revoke_refresh_token crypto env t.id >>= λ revoked.
              issue_tokens crypto env u >>= λ tokens.
              log "refresh_token_rotated" "user" u.id (some u.id) >> pure tokens)
            w).1
  rotate-revoking u t w =
      let r = revoke_refresh_token crypto env t.id w in
      let m = issue_tokens crypto env u r.1 in
      Keeps-continue revoking r.0 _ {w = w} {v = r.1} (revoke-revoking t.id w) (λ revoked.
        Keeps-continue revoking m.0 _ {w = r.1} {v = m.1} (issue_tokens-revoking crypto env u r.1)
          (λ tokens. alike m.1 _ refl))

  end_session-revoking :
      (t : RefreshToken) (id : String) (o : Option ℕ)
      → Keeps revoking (end_session js crypto env t id o)
  unfolding end_session
  end_session-revoking t id (some at) w = revoking.self w
  end_session-revoking t id none w =
      let r = revoke_refresh_token crypto env t.id w in
      Keeps-continue revoking r.0 _ {w = w} {v = r.1} (revoke-revoking t.id w)
        (λ revoked. alike r.1 _ refl)

  refresh-revoking : (raw : String) → Keeps revoking (refresh js crypto env raw)
  unfolding refresh find_matching_refresh_token
  refresh-revoking raw w =
      let p = verify_refresh_token crypto env raw w in
      Keeps-continue revoking p.0 _ {w = w} {v = p.1} (verify-revoking raw w) (λ payload.
        let found =
          or_throw (find_user payload.sub p.1.users) (unauthorized "Invalid refresh token") p.1 in
        Keeps-continue revoking found.0 _ {w = p.1} {v = found.1} (Keeps-or_throw revoking _ _ p.1)
          (λ u.
            let v = (draw env.clock found.1).1 in
            let matched =
              matching_token crypto payload.sub raw (present payload.rtid) false
                (env.clock found.1.ticks) v.refresh_tokens in
            let m = or_throw matched (unauthorized "Invalid refresh token") v in
            revoking.trans (alike found.1 v refl) (
              Keeps-continue revoking m.0 _ {w = v} {v = m.1} (Keeps-or_throw revoking matched _ v)
                (λ t. rotate-revoking u t m.1))))

  logout-revoking : (raw id : String) → Keeps revoking (logout js crypto env raw id)
  unfolding logout find_matching_refresh_token
  logout-revoking raw id w =
      let p = verify_refresh_token crypto env raw w in
      Keeps-continue revoking p.0 _ {w = w} {v = p.1} (verify-revoking raw w) (λ payload.
        let c =
          throw_if (not (payload.sub == id))
            (unauthorized "Refresh token does not belong to current user") p.1 in
        Keeps-continue revoking c.0 _ {w = p.1} {v = c.1} (Keeps-throw_if revoking _ _ p.1) (λ _.
          let v = (draw env.clock c.1).1 in
          let matched =
            matching_token crypto id raw (present payload.rtid) true (env.clock c.1.ticks)
              v.refresh_tokens in
          let m = or_throw matched (unauthorized "Invalid refresh token") v in
          revoking.trans (alike c.1 v refl) (
            Keeps-continue revoking m.0 _ {w = v} {v = m.1} (Keeps-or_throw revoking matched _ v)
              (λ t. end_session-revoking t id t.revoked_at m.1))))

  Step-StayRevoked : {v w : World js.Num} → Step v w → StayRevoked v w
  Step-StayRevoked (registering dto w) = register-revoking dto w
  Step-StayRevoked (logging_in dto w) = login-revoking dto w
  Step-StayRevoked (refreshing raw w) = refresh-revoking raw w
  Step-StayRevoked (logging_out raw id w) = logout-revoking raw id w

  -- A token that is revoked stays revoked through any number of calls.
  pub Steps-StayRevoked : {v w : World js.Num} → Steps v w → StayRevoked v w
  Steps-StayRevoked (done w) = revoking.self w
  Steps-StayRevoked (call s ss) = revoking.trans (Step-StayRevoked s) (Steps-StayRevoked ss)
