-- ===== src/Effects.antt =====
-- Handlers that read and write the tables and may throw. What was written before a throw stays
-- written, so the tables come back beside the error too. A handler runs alone: between its steps
-- nobody else writes.
pub mod Frame
use Prim.Native.String
use sync_bridge_platform.Base.{
  ℕ, suc, String, Bool, true, false, Option, none, some, List, [], ◌∷◌, ◌++◌, Result, ok, err,
  is_empty, if◌then◌else◌,
}
use sync_bridge_platform.Database.{World}
use sync_bridge_platform.Transformations.Mapping.{ComputeMode}

-- The exceptions that the services throw: those of NestJS with their messages, and plain errors.
pub data Error : Type 0 where
  not_found : String → Error
  forbidden : String → Error
  bad_request : List String → Error
  conflict : String → Error
  unauthorized : String → Error
  payload_too_large : String → Error
  plain : String → Error

-- The surroundings of the process: generated ids, the clock and the computed values at each time of
-- asking; whether the insertion of a synced record fails, and the error of the insertion of an audit
-- entry, if any; the mode of the queue, whether its client was made, and the error of a call of its
-- `add`, if any.
pub record Env : Type 0 where
  pub uuid : ℕ → String
  pub clock : ℕ → ℕ
  pub computed : ComputeMode → ℕ → String
  pub insert_fails : ℕ → Bool
  pub audit_error : ℕ → Option String
  pub is_async_mode : Bool
  pub has_queue : Bool
  pub add_error : ℕ → Option String

abbrev pub M : Type 0 → Type 0 → Type 0
M N A = World N → Result Error A × World N

module _ {N A : Type 0} where
  abbrev pub pure : A → M N A
  pure a w = (ok a, w)

  abbrev pub throw : Error → M N A
  throw e w = (err e, w)

  abbrev pub lift : Result Error A → M N A
  lift r w = (r, w)

  abbrev pub or_throw : Option A → Error → M N A
  or_throw (some a) e w = (ok a, w)
  or_throw none e w = (err e, w)

  abbrev pub gets : (World N → A) → M N A
  gets f w = (ok (f w), w)

  -- A draw from the surroundings.
  abbrev pub draw : (ℕ → A) → M N A
  draw f w = (ok (f w.ticks), record w { ticks = suc w.ticks })

module _ {N : Type 0} where
  abbrev pub modify : (World N → World N) → M N (Unit {0})
  modify f w = (ok tt, f w)

  abbrev pub throw_if : Bool → Error → M N (Unit {0})
  throw_if true e w = (err e, w)
  throw_if false e w = (ok tt, w)

  -- `AuditService.log` where its insertion succeeds.
  abbrev pub log : String → String → String → Option String → M N (Unit {0})
  log action entity_type entity_id actor_id w = (
    ok tt,
    record w {
      audit_logs =
          w.audit_logs
          ++ record {
            actor_id = actor_id;
            action = action;
            entity_type = entity_type;
            entity_id = entity_id;
          }
            ∷ [];
    },
  )

  abbrev log_unless : Option String → String → String → String → Option String → M N (Unit {0})
  log_unless none action entity_type entity_id actor_id = log action entity_type entity_id actor_id
  log_unless (some message) action entity_type entity_id actor_id = throw (plain message)

  -- `AuditService.log`, whose insertion may fail.
  abbrev pub log_or_throw : Env → String → String → String → Option String → M N (Unit {0})
  log_or_throw env action entity_type entity_id actor_id w =
      log_unless (env.audit_error w.ticks) action entity_type entity_id actor_id
        (record w { ticks = suc w.ticks })

module _ {N A B : Type 0} where
  abbrev pub continue : Result Error A → (A → M N B) → M N B
  continue (ok a) f w = f a w
  continue (err e) f w = (err e, w)

  infixl 5 ◌>>=◌
  abbrev pub ◌>>=◌ : M N A → (A → M N B) → M N B
  ◌>>=◌ m f w = continue (m w).0 f (m w).1

  abbrev pub try_or : Result Error A → (A → M N B) → (Error → M N B) → M N B
  try_or (ok a) f h w = f a w
  try_or (err e) f h w = h e w

  -- `try { const a = await m; f(a) } catch (error) { h(error) }`, where `f` throws nothing that
  -- is not caught in it.
  abbrev pub try_catch : M N A → (A → M N B) → (Error → M N B) → M N B
  try_catch m f h w = try_or (m w).0 f h (m w).1

infixl 5 ◌>>◌
abbrev pub ◌>>◌ : {N B : Type 0} → M N (Unit {0}) → M N B → M N B
m >> k = m >>= λ _. k

-- `messages.join(', ')`
unfoldable pub join : List String → String
join [] = ""
join (m ∷ []) = m
join (m ∷ n ∷ more) = String.◌++◌ m (String.◌++◌ ", " (join (n ∷ more)))

abbrev or_fallback : String → String → String
or_fallback fallback message = if is_empty message then fallback else message

-- `sanitizeErrorMessage`
unfoldable pub sanitize_error_message : String → Error → String
unfolding join
sanitize_error_message fallback (bad_request messages) = join messages
sanitize_error_message fallback (not_found message) = or_fallback fallback message
sanitize_error_message fallback (forbidden message) = or_fallback fallback message
sanitize_error_message fallback (conflict message) = or_fallback fallback message
sanitize_error_message fallback (unauthorized message) = or_fallback fallback message
sanitize_error_message fallback (payload_too_large message) = or_fallback fallback message
sanitize_error_message fallback (plain message) = or_fallback fallback message
