-- ===== src/Auth/Revoked.antt =====
-- apps/api/src/auth/auth.service.ts: a refresh token that was revoked stays so.
use sync_bridge_platform.Base.{
  present, ℕ, suc, String, some, ◌≡◌, refl, ◌∙◌, ap, inl, inr, arith, ◌==◌, eq_iff, Bool-cases,
  Option-cases,
}
use sync_bridge_platform.Database.{User, RefreshToken, World}
use sync_bridge_platform.Database.Laws.{find-append, find-update_self, find-update_ne}
use sync_bridge_platform.Effects.{unauthorized, Env, or_throw, draw}
use sync_bridge_platform.Effects.Frame.{Frame, Keeps, Keeps-continue, Keeps-or_throw}
use sync_bridge_platform.Auth.{Crypto, find_token, create_token, update_token}
use sync_bridge_platform.Auth.Tokens.{pending_token, refresh_payload, issue_tokens}

-- The token under an id is revoked.
abbrev pub Revoked : {N : Type 0} → String → World N → Type 0
Revoked id w =
    (t : RefreshToken) × (at : ℕ) × (find_token id w.refresh_tokens ≡ some t)
    × (t.revoked_at ≡ some at)

-- What was revoked stays so.
pub record StayRevoked {N : Type 0} (v w : World N) : Type 0 where
  pub kept : (id : String) → Revoked id v → Revoked id w

abbrev pub revoking : {N : Type 0} → Frame N
revoking = record {
  Rel = StayRevoked;
  self = λ w. record { kept = λ id r. r };
  trans = λ a b. record { kept = λ id r. b.kept id (a.kept id r) };
}

module _ {N : Type 0} where
  pub alike : (v w : World N) → w.refresh_tokens ≡ v.refresh_tokens → StayRevoked v w
  alike v w same = record {
    kept = λ id (t, at, there, off). (t, at, ap (find_token id) same ∙ there, off);
  }

  pub update_token-revoking :
      (id : String) (change : RefreshToken → RefreshToken)
      → ((t : RefreshToken) → (change t).id ≡ t.id)
      → ((t : RefreshToken) (at : ℕ)
          → t.revoked_at ≡ some at
          → (s : ℕ) × ((change t).revoked_at ≡ some s))
      → Keeps {N = N} revoking (update_token id change)
  unfolding update_token
  update_token-revoking id change named stays w = record {
    kept = λ other (t, at, there, off). elim (Option-cases (find_token id w.refresh_tokens)) [
      | inl missing ↦ rw (missing, update_token) (t, at, there, off)
      | inr (q, here) ↦
          rw (here, update_token)
            (elim (Bool-cases (id == other)) [
              | inl same ↦
                  let (s, still) = stays t at off in
                  (
                    change t,
                    s,
                    ground (
                      arith,
                      find-update_self (λ (x : RefreshToken). x.id) id change w.refresh_tokens t
                          named,
                      eq_iff id other,
                      there,
                      same,
                    ),
                    still,
                  )
              | inr different ↦ (
                t,
                at,
                find-update_ne (λ (x : RefreshToken). x.id) id other change w.refresh_tokens named
                      (ground (arith, eq_iff id other))
                    ∙ there,
                off,
              )
            ])
    ];
  }

  pub create_token-revoking :
      (env : Env) (row : String → RefreshToken) → Keeps {N = N} revoking (create_token env row)
  unfolding create_token
  create_token-revoking env row w = record {
    kept = λ id (t, at, there, off).
        (t, at, find-append (λ x. x.id) id w.refresh_tokens _ t there, off);
  }

  module _ (crypto : Crypto) (env : Env) where
    pub issue_tokens-revoking : (u : User) → Keeps {N = N} revoking (issue_tokens crypto env u)
    unfolding issue_tokens create_token
    issue_tokens-revoking u w =
        let v = record w { ticks = suc (suc w.ticks) } in
        let m =
          or_throw (present crypto.refresh_secret) (unauthorized "Refresh secret is not configured")
            v in
        Keeps-continue revoking m.0 _ {w = w} {v = m.1}
          (revoking.trans (alike w v refl) (
            Keeps-or_throw revoking (present crypto.refresh_secret)
              (unauthorized "Refresh secret is not configured") v))
          (λ secret.
            let drawn = (draw env.clock m.1).1 in
            let row = pending_token u.id (env.clock m.1.ticks) in
            let made = create_token env row drawn in
            let id = env.uuid drawn.ticks in
            let u' = record made.1 { ticks = suc (suc (suc made.1.ticks)) } in
            let raw =
              crypto.sign secret (refresh_payload u (env.uuid made.1.ticks) id)
                (env.clock (suc made.1.ticks)) in
            let change = λ (t : RefreshToken). record t {
              token_hash = crypto.hash raw (suc (suc made.1.ticks));
            } in
            let n = update_token id change u' in
            revoking.trans (alike m.1 drawn refl) (
              revoking.trans (create_token-revoking env row drawn) (
                revoking.trans (alike made.1 u' refl) (
                  Keeps-continue revoking n.0 _ {w = u'} {v = n.1}
                    (update_token-revoking id change (λ t. refl) (λ t at off. (at, off)) u')
                    (λ updated. revoking.self n.1)))))
