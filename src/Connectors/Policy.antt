-- ===== src/Connectors/Policy.antt =====
-- apps/api/src/connectors/connector-config.policy.ts: configurations that seem to hold a secret.
pub mod Laws
use Prim.Native.String
use Prim.Native.Char.{code}
use sync_bridge_platform.Base.{
  ℕ, String, Bool, true, false, ◌&&◌, ◌||◌, List, [], ◌∷◌, any, leb, nat_eq, if◌then◌else◌,
}
use sync_bridge_platform.Js.{
  Js, Json, Items, Fields, null, bool, num, str, arr, obj, nil, cons, end, field,
}

abbrev pub forbidden_config_key_markers : List String
forbidden_config_key_markers =
    "password" ∷ "token" ∷ "apikey" ∷ "secret" ∷ "privatekey" ∷ "accesstoken" ∷ "refreshtoken" ∷ []

-- `[a-z0-9]`
abbrev is_letter_or_digit : ℕ → Bool
is_letter_or_digit c = leb b'a' c && leb c b'z' || leb b'0' c && leb c b'9'

-- `text.replace(/[^a-z0-9]/g, '')`
unfoldable pub letters_and_digits : String → String
letters_and_digits String.[] = ""
letters_and_digits (String.◌∷◌ c s) =
    let rest = letters_and_digits s in
    if is_letter_or_digit (code c) then String.◌∷◌ c rest else rest

unfoldable pub starts_with : String → String → Bool
starts_with s String.[] = true
starts_with String.[] (String.◌∷◌ d m) = false
starts_with (String.◌∷◌ c s) (String.◌∷◌ d m) = nat_eq (code c) (code d) && starts_with s m

-- `text.includes(marker)`
unfoldable pub includes : String → String → Bool
unfolding starts_with
includes String.[] marker = starts_with String.[] marker
includes (String.◌∷◌ c s) marker = starts_with (String.◌∷◌ c s) marker || includes s marker

module _ (js : Js) where
  unfoldable pub normalize_key : String → String
  unfolding letters_and_digits
  normalize_key key = letters_and_digits (js.to_lower key)

  -- The loop over the markers.
  abbrev pub is_forbidden : String → Bool
  is_forbidden key = any (includes (normalize_key key)) forbidden_config_key_markers

  unfoldable mutual
    pub has_forbidden_config_keys : Json js.Num → Bool
    has_forbidden_config_keys null = false
    has_forbidden_config_keys (bool b) = false
    has_forbidden_config_keys (num n) = false
    has_forbidden_config_keys (str s) = false
    has_forbidden_config_keys (arr xs) = has_forbidden_items xs
    has_forbidden_config_keys (obj fs) = has_forbidden_fields fs

    pub has_forbidden_items : Items js.Num → Bool
    has_forbidden_items nil = false
    has_forbidden_items (cons x xs) = has_forbidden_config_keys x || has_forbidden_items xs

    pub has_forbidden_fields : Fields js.Num → Bool
    has_forbidden_fields end = false
    has_forbidden_fields (field key nested fs) =
        is_forbidden key || has_forbidden_config_keys nested || has_forbidden_fields fs
