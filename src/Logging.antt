-- ===== src/Logging.antt =====
-- apps/api/src/common/logging/structured-logger.service.ts: what is taken out of the metadata of a log entry
-- before it is written.
pub mod Laws
use sync_bridge_platform.Base.{
  ℕ, zero, suc, ◌+◌, String, Bool, true, false, Option, none, some, List, [], ◌∷◌, ◌==◌, any, ltb,
  if◌then◌else◌,
}
use sync_bridge_platform.Js.{Js}

-- The values of log entries: what JSON holds, `undefined`, and errors.
mutual
  pub data LogValue (N : Type 0) : Type 0 where
    undefined : LogValue N
    null : LogValue N
    bool : Bool → LogValue N
    num : N → LogValue N
    str : String → LogValue N
    error : String → LogValue N
    arr : LogItems N → LogValue N
    obj : LogFields N → LogValue N

  pub data LogItems (N : Type 0) : Type 0 where
    nil : LogItems N
    cons : LogValue N → LogItems N → LogItems N

  pub data LogFields (N : Type 0) : Type 0 where
    end : LogFields N
    field : String → LogValue N → LogFields N → LogFields N

-- `REQUEST_CONTEXT_SENSITIVE_KEYS` of apps/api/src/common/request-context.constants.ts
abbrev pub sensitive_keys : List String
sensitive_keys =
    "authorization" ∷ "cookie" ∷ "x-api-key" ∷ "x-auth-token" ∷ "password" ∷ "token" ∷ "apikey"
    ∷ "secret" ∷ "privatekey" ∷ "accesstoken" ∷ "refreshtoken" ∷ []

module _ {N : Type 0} where
  -- `if (item === undefined) continue`
  abbrev unless_undefined : String → LogValue N → LogFields N → LogFields N
  unless_undefined key undefined rest = rest
  unless_undefined key value rest = field key value rest

  unfoldable pub compact : LogFields N → LogFields N
  compact end = end
  compact (field key value fs) = unless_undefined key value (compact fs)

-- `index_key i` is the key of the i-th element of a list that is read as an object.
module _ (js : Js) (index_key : ℕ → String) where
  abbrev pub is_sensitive : String → Bool
  is_sensitive key = any (λ name. name == js.to_lower key) sensitive_keys

  abbrev or_redacted : Bool → LogValue js.Num → LogValue js.Num
  or_redacted true value = str "REDACTED"
  or_redacted false value = value

  -- `if (depth > 4) return {}`
  abbrev unless_deep : ℕ → LogFields js.Num → LogFields js.Num
  unless_deep depth fs = if ltb 4 depth then end else fs

  -- Keys are distinct, so that an assignment to `output[key]` adds a field. A list inside a list is read
  -- as an object by its indices, and an error there as one without fields.
  unfoldable mutual
    pub sanitize_fields : ℕ → LogFields js.Num → LogFields js.Num
    sanitize_fields depth end = end
    sanitize_fields depth (field key value fs) =
        field key (or_redacted (is_sensitive key) (sanitize_value depth value))
          (sanitize_fields depth fs)

    pub sanitize_value : ℕ → LogValue js.Num → LogValue js.Num
    sanitize_value depth undefined = undefined
    sanitize_value depth null = null
    sanitize_value depth (bool b) = bool b
    sanitize_value depth (num n) = num n
    sanitize_value depth (str s) = str s
    sanitize_value depth (error message) = str message
    sanitize_value depth (arr xs) = arr (sanitize_items depth 20 xs)
    sanitize_value depth (obj fs) = obj (unless_deep (suc depth) (sanitize_fields (suc depth) fs))

    -- `value.slice(0, 20).map(...)`, with the number of elements that are left
    pub sanitize_items : ℕ → ℕ → LogItems js.Num → LogItems js.Num
    sanitize_items depth left nil = nil
    sanitize_items depth zero (cons x xs) = nil
    sanitize_items depth (suc left) (cons x xs) =
        cons (sanitize_item depth x) (sanitize_items depth left xs)

    pub sanitize_item : ℕ → LogValue js.Num → LogValue js.Num
    sanitize_item depth undefined = undefined
    sanitize_item depth null = null
    sanitize_item depth (bool b) = bool b
    sanitize_item depth (num n) = num n
    sanitize_item depth (str s) = str s
    sanitize_item depth (error message) = obj end
    sanitize_item depth (arr xs) = obj (unless_deep (suc depth) (sanitize_indexed (suc depth) 0 xs))
    sanitize_item depth (obj fs) = obj (unless_deep (suc depth) (sanitize_fields (suc depth) fs))

    pub sanitize_indexed : ℕ → ℕ → LogItems js.Num → LogFields js.Num
    sanitize_indexed depth i nil = end
    sanitize_indexed depth i (cons x xs) =
        field (index_key i) (or_redacted (is_sensitive (index_key i)) (sanitize_value depth x))
          (sanitize_indexed depth (suc i) xs)

  -- `sanitizeObject`
  unfoldable pub sanitize_object : LogFields js.Num → ℕ → LogFields js.Num
  unfolding sanitize_fields
  sanitize_object input depth = unless_deep depth (sanitize_fields depth input)
