-- ===== src/Auth/Replay.antt =====
-- apps/api/src/auth/auth.service.ts: a refresh token that was used or logged out is of no more use.
use mathlib.Core.Path.{subst}
use sync_bridge_platform.Base.{
  present, ℕ, String, Bool, true, false, not, Option, none, some, List, ◌≡◌, refl, sym, ◌∙◌, ap,
  inl, inr, arith, Result, ok, err, is_ok, ◌==◌, Bool-cases, Option-cases,
}
use sync_bridge_platform.Js.{Js}
use sync_bridge_platform.Database.{RefreshToken, World}
use sync_bridge_platform.Database.Laws.{find-update_self, find-id}
use sync_bridge_platform.Effects.{Error, unauthorized, Env, or_throw, throw_if, draw}
use sync_bridge_platform.Effects.Frame.{Returns, Returns-continue}
use sync_bridge_platform.Auth.{JwtPayload, Crypto, TokenPair, find_token, find_user, update_token}
use sync_bridge_platform.Auth.Tokens.{
  is_usable, issue_tokens, matching_token, verify_refresh_token, find_matching_refresh_token,
  revoke_refresh_token,
}
use sync_bridge_platform.Auth.Session.{refresh, end_session, logout}
use sync_bridge_platform.Auth.Revoked.{Revoked, issue_tokens-revoking}
use sync_bridge_platform.Auth.Calls.{Steps, Steps-StayRevoked}

never_ok : {A : Type 0} (r : Result Error A) → ((a : A) → r ≡ ok a → ⊥) → is_ok r ≡ false
never_ok (ok a) never = absurd (never a refl)
never_ok (err e) never = refl

module _ (js : Js) (crypto : Crypto) (env : Env) (raw rtid : String)
    (own : (secret : String) (t : ℕ) (p : JwtPayload)
      → crypto.verify secret raw t ≡ some p
      → present p.rtid ≡ some rtid) where
  verify_own :
      (w : World js.Num)
      → Returns (λ p v. present p.rtid ≡ some rtid) (verify_refresh_token crypto env raw w)
  unfolding verify_refresh_token
  verify_own w p returned = elim (Option-cases (present crypto.refresh_secret)) [
    | inl missing ↦ absurd (ground (arith, missing, returned))
    | inr (secret, there) ↦ elim (Option-cases (crypto.verify secret raw (env.clock w.ticks))) [
      | inl bad ↦ absurd (ground (arith, there, bad, returned))
      | inr (q, good) ↦ ground (arith, there, good, returned, own secret (env.clock w.ticks) q good)
    ]
  ]

  revoke-Revoked :
      (id : String) (w : World js.Num) (t : RefreshToken)
      → (revoke_refresh_token crypto env id w).0 ≡ ok t
      → Revoked id (revoke_refresh_token crypto env id w).1
  unfolding revoke_refresh_token update_token
  revoke-Revoked id w t returned = elim (Option-cases (find_token id w.refresh_tokens)) [
    | inl missing ↦ absurd (ground (arith, missing, returned))
    | inr (q, there) ↦
        let change = λ (x : RefreshToken). record x { revoked_at = some (env.clock w.ticks) } in
        (
          change q,
          env.clock w.ticks,
          ground (
            arith,
            there,
            find-update_self (λ (x : RefreshToken). x.id) id change w.refresh_tokens q (λ x. refl)
                there,
          ),
          refl,
        )
  ]

  -- The row that is found for a token with an id is the row of that id.
  matching_token_own :
      (user_id : String) (all : Bool) (now : ℕ) (o : Option String) (tokens : List RefreshToken)
      (t : RefreshToken)
      → o ≡ some rtid
      → matching_token crypto user_id raw o all now tokens ≡ some t
      → (find_token rtid tokens ≡ some t) × (is_usable user_id all now t ≡ true)
  unfolding matching_token
  matching_token_own user_id all now none tokens t same found = absurd (ground (arith, same))
  matching_token_own user_id all now (some id) tokens t same found =
      elim (Option-cases (find_token id tokens)) [
        | inl missing ↦ absurd (ground (arith, missing, found))
        | inr (q, there) ↦ elim (Bool-cases (is_usable user_id all now q)) [
          | inr off ↦ absurd (ground (arith, there, off, found))
          | inl on ↦ (ground (arith, there, on, same, found), ground (arith, there, on, found))
        ]
      ]

  or_throw_ok :
      {A : Type 0} (o : Option A) (a : A) (w : World js.Num)
      → (or_throw o (unauthorized "Invalid refresh token") w).0 ≡ ok a
      → o ≡ some a
  or_throw_ok none a w returned = absurd (ground (arith, returned))
  or_throw_ok (some b) a w returned = ap some (ground (arith, returned))

  verify_tokens :
      (w : World js.Num)
      → (verify_refresh_token crypto env raw w).1.refresh_tokens ≡ w.refresh_tokens
  unfolding verify_refresh_token
  verify_tokens w = ground arith

  or_throw_tokens :
      {A : Type 0} (o : Option A) (w : World js.Num)
      → (or_throw o (unauthorized "Invalid refresh token") w).1.refresh_tokens ≡ w.refresh_tokens
  or_throw_tokens none w = refl
  or_throw_tokens (some a) w = refl

  refresh-Revoked :
      (w : World js.Num) → Returns (λ tokens v. Revoked rtid v) (refresh js crypto env raw w)
  unfolding refresh find_matching_refresh_token
  refresh-Revoked w =
      let P = λ (tokens : TokenPair) (v : World js.Num). Revoked rtid v in
      let p = verify_refresh_token crypto env raw w in
      Returns-continue P p.0 _ p.1 (λ payload verified.
        let found =
          or_throw (find_user payload.sub p.1.users) (unauthorized "Invalid refresh token") p.1 in
        Returns-continue P found.0 _ found.1 (λ u _.
          let v = (draw env.clock found.1).1 in
          let matched =
            matching_token crypto payload.sub raw (present payload.rtid) false
              (env.clock found.1.ticks) v.refresh_tokens in
          let m = or_throw matched (unauthorized "Invalid refresh token") v in
          Returns-continue P m.0 _ m.1 (λ t got.
            let (there, usable) =
              matching_token_own payload.sub false (env.clock found.1.ticks) (present payload.rtid)
                v.refresh_tokens t (verify_own w payload verified) (or_throw_ok matched t v got) in
            let named = find-id (λ (x : RefreshToken). x.id) rtid v.refresh_tokens t there in
            let r = revoke_refresh_token crypto env t.id m.1 in
            Returns-continue P r.0 _ r.1 (λ gone revoked.
              let off =
                subst (λ (x : String). Revoked x r.1) named
                  (revoke-Revoked t.id m.1 gone revoked) in
              let i = issue_tokens crypto env u r.1 in
              Returns-continue P i.0 _ i.1
                (λ tokens _ tokens' _. (issue_tokens-revoking crypto env u r.1).kept rtid off)))))

  refresh_refused :
      (w : World js.Num) → Revoked rtid w → Returns (λ tokens v. ⊥) (refresh js crypto env raw w)
  unfolding refresh find_matching_refresh_token
  refresh_refused w (old, at, here, off) =
      let P = λ (tokens : TokenPair) (v : World js.Num). ⊥ in
      let p = verify_refresh_token crypto env raw w in
      Returns-continue P p.0 _ p.1 (λ payload verified.
        let found =
          or_throw (find_user payload.sub p.1.users) (unauthorized "Invalid refresh token") p.1 in
        Returns-continue P found.0 _ found.1 (λ u _.
          let v = (draw env.clock found.1).1 in
          let matched =
            matching_token crypto payload.sub raw (present payload.rtid) false
              (env.clock found.1.ticks) v.refresh_tokens in
          let m = or_throw matched (unauthorized "Invalid refresh token") v in
          Returns-continue P m.0 _ m.1 (λ t got.
            let (there, usable) =
              matching_token_own payload.sub false (env.clock found.1.ticks) (present payload.rtid)
                v.refresh_tokens t (verify_own w payload verified) (or_throw_ok matched t v got) in
            let same_table : v.refresh_tokens ≡ w.refresh_tokens =
              or_throw_tokens (find_user payload.sub p.1.users) p.1 ∙ verify_tokens w in
            absurd (ground (arith, usable, off, ap (find_token rtid) same_table, there, here)))))

  end_session-Revoked :
      (t : RefreshToken) (id : String) (o : Option ℕ) (w : World js.Num)
      → t.revoked_at ≡ o
      → find_token t.id w.refresh_tokens ≡ some t
      → Returns (λ x v. Revoked t.id v) (end_session js crypto env t id o w)
  unfolding end_session
  end_session-Revoked t id (some at) w off there = λ x same. (t, at, there, off)
  end_session-Revoked t id none w on there =
      let r = revoke_refresh_token crypto env t.id w in
      Returns-continue (λ x v. Revoked t.id v) r.0 _ r.1
        (λ gone revoked x same. revoke-Revoked t.id w gone revoked)

  logout-Revoked :
      (user_id : String) (w : World js.Num)
      → Returns (λ x v. Revoked rtid v) (logout js crypto env raw user_id w)
  unfolding logout find_matching_refresh_token
  logout-Revoked user_id w =
      let P = λ (x : Unit {0}) (v : World js.Num). Revoked rtid v in
      let p = verify_refresh_token crypto env raw w in
      Returns-continue P p.0 _ p.1 (λ payload verified.
        let c =
          throw_if (not (payload.sub == user_id))
            (unauthorized "Refresh token does not belong to current user") p.1 in
        Returns-continue P c.0 _ c.1 (λ _ _.
          let v = (draw env.clock c.1).1 in
          let matched =
            matching_token crypto user_id raw (present payload.rtid) true (env.clock c.1.ticks)
              v.refresh_tokens in
          let m = or_throw matched (unauthorized "Invalid refresh token") v in
          Returns-continue P m.0 _ m.1 (λ t got.
            let (there, usable) =
              matching_token_own user_id true (env.clock c.1.ticks) (present payload.rtid)
                v.refresh_tokens t (verify_own w payload verified) (or_throw_ok matched t v got) in
            let named = find-id (λ (x : RefreshToken). x.id) rtid v.refresh_tokens t there in
            let still : find_token t.id m.1.refresh_tokens ≡ some t =
              ap (find_token t.id) (or_throw_tokens matched v)
              ∙ subst (λ (x : String). find_token x v.refresh_tokens ≡ some t) (sym named) there in
            subst
              (λ (x : String).
                Returns (λ y z. Revoked x z) (end_session js crypto env t user_id t.revoked_at m.1))
              named (end_session-Revoked t user_id t.revoked_at m.1 refl still))))

  -- A refresh token whose payload names its row, at whatever time it is verified, can be exchanged once: after
  -- an exchange that returned, and any number of calls of register, login, refresh and logout, with any
  -- arguments and outcomes, an exchange of the same token throws.
  pub refresh_no_replay :
      (tokens : TokenPair) (w v : World js.Num)
      → (refresh js crypto env raw w).0 ≡ ok tokens
      → Steps js crypto env (refresh js crypto env raw w).1 v
      → is_ok (refresh js crypto env raw v).0 ≡ false
  refresh_no_replay tokens w v first calls = never_ok _ (
      refresh_refused v
        ((Steps-StayRevoked js crypto env calls).kept rtid (refresh-Revoked w tokens first)))

  -- After a logout that returned, and any number of calls, the refresh token that was logged out, whose payload
  -- names its row, cannot be exchanged.
  pub logout_no_refresh :
      (user_id : String) (w v : World js.Num)
      → (logout js crypto env raw user_id w).0 ≡ ok tt
      → Steps js crypto env (logout js crypto env raw user_id w).1 v
      → is_ok (refresh js crypto env raw v).0 ≡ false
  logout_no_refresh user_id w v first calls = never_ok _ (
      refresh_refused v
        ((Steps-StayRevoked js crypto env calls).kept rtid (logout-Revoked user_id w tt first)))
