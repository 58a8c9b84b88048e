-- ===== src/Webhooks/Request.antt =====
-- apps/api/src/webhooks/webhooks.service.ts: what is read off a request: the payload, the type of the
-- event, the headers and the key that makes a delivery recognisable.
use sync_bridge_platform.Base.{
  ℕ, ◌*◌, String, Bool, Option, none, some, List, [], ◌∷◌, ◌==◌, any, trim, is_empty, ltb,
  if◌then◌else◌,
}
use sync_bridge_platform.Js.{Js, Json, Fields, Unknown, end, field, null, str, obj, given, read}

abbrev pub sensitive_headers : List String
sensitive_headers = "authorization" ∷ "cookie" ∷ "x-api-key" ∷ "x-auth-token" ∷ []

abbrev pub webhook_max_payload_bytes : ℕ
webhook_max_payload_bytes = 250 * 1024

module _ {N : Type 0} where
  abbrev raw_payload : Json N → Fields N
  raw_payload value = field "rawPayload" value end

  -- The body of a request, if it has one.
  unfoldable pub sanitize_payload : Option (Json N) → Fields N
  sanitize_payload (some (obj fs)) = fs
  sanitize_payload (some value) = raw_payload value
  sanitize_payload none = raw_payload null

module _ (js : Js) where
  -- Object keys are distinct, so that an assignment to `output[rawKey]` adds at the end.
  unfoldable pub redact_headers : Fields js.Num → Fields js.Num
  redact_headers end = end
  redact_headers (field raw_key value fs) =
      let rest = redact_headers fs in
      if any (λ name. name == js.to_lower raw_key) sensitive_headers
      then field raw_key (str "REDACTED") rest
      else field raw_key value rest

  abbrev nonempty : String → Option String
  nonempty text = if is_empty text then none else some text

  abbrev key_of : Json js.Num → Option String
  key_of (str text) = nonempty (trim text)
  key_of _ = none

  unfoldable pub get_idempotency_key : Fields js.Num → Option String
  get_idempotency_key end = none
  get_idempotency_key (field name value fs) =
      let rest = get_idempotency_key fs in
      if js.to_lower name == "x-syncbridge-event-id" then key_of value else rest

  abbrev or_generic : String → String
  or_generic text = if is_empty text then "generic_event" else text

  abbrev type_of : Unknown js.Num → String
  type_of (given (str text)) = or_generic (trim text)
  type_of _ = "generic_event"

  unfoldable pub event_type : Fields js.Num → String
  event_type payload = type_of (read payload "eventType")

  unfoldable pub is_too_large : Fields js.Num → Bool
  is_too_large payload = ltb webhook_max_payload_bytes (js.json_bytes payload)
