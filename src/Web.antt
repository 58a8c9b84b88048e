-- ===== src/Web.antt =====
-- The web application's side of the API, in the browser: the session that it stores (apps/web/lib/auth.ts)
-- and its calls (apps/web/lib/api.ts). What `fetch` gives is a parameter: a server with a state of its own.
pub mod Client
pub mod Endpoints
pub mod Exchange
pub mod Laws
pub mod Renewal
use sync_bridge_platform.Base.{
  ℕ, String, Bool, true, false, not, ◌&&◌, Option, none, some, List, [], ◌∷◌, ◌++◌, Result, ok, err,
  or_else, if◌then◌else◌,
}
use sync_bridge_platform.Js.{
  Js, Json, Fields, Unknown, given, null, bool, num, str, arr, obj, end, field, own, truthy,
}

-- A request: `authorization` is the access token behind `Bearer`, if the header is there.
pub record Request (N : Type 0) : Type 0 where
  pub method : String
  pub path : String
  pub authorization : Option (Json N)
  pub body : Option (Json N)

-- An answer: its status, and its body where that is JSON.
pub record Response (N : Type 0) : Type 0 where
  pub status : ℕ
  pub json : Option (Json N)

-- `fetch`: no answer where it throws.
abbrev pub Fetch : Type 0 → Type 0 → Type 0
Fetch S N = Request N → S → Option (Response N) × S

-- What stands in the local storage under the session's key, where that is JSON; the server; and the
-- requests that were sent, in their order.
pub record Tab (S N : Type 0) : Type 0 where
  pub storage : Option (Json N)
  pub server : S
  pub sent : List (Request N)

-- `ApiError`, and the errors of the runtime: no answer, a body that is not JSON, a property of `null`.
pub data Failure : Type 0 where
  api_error : ℕ → String → Option String → Failure
  unreachable : Failure
  not_json : Failure
  of_null : Failure

abbrev pub C : Type 0 → Type 0 → Type 0 → Type 0
C S N A = Tab S N → Result Failure A × Tab S N

module _ {S N A : Type 0} where
  abbrev pub pure : A → C S N A
  pure a tab = (ok a, tab)

  abbrev pub lift : Result Failure A → C S N A
  lift r tab = (r, tab)

  abbrev pub gets : (Tab S N → A) → C S N A
  gets f tab = (ok (f tab), tab)

module _ {S N A B : Type 0} where
  abbrev pub continue : Result Failure A → (A → C S N B) → C S N B
  continue (ok a) f tab = f a tab
  continue (err e) f tab = (err e, tab)

  infixl 5 ◌>>=◌
  abbrev pub ◌>>=◌ : C S N A → (A → C S N B) → C S N B
  ◌>>=◌ m f tab = continue (m tab).0 f (m tab).1

infixl 5 ◌>>◌
abbrev pub ◌>>◌ : {S N B : Type 0} → C S N (Unit {0}) → C S N B → C S N B
m >> k = m >>= λ _. k

-- `value.name`, nothing where it is undefined.
abbrev pub property : {N : Type 0} → Json N → String → Result Failure (Option (Json N))
property null name = err of_null
property (obj fs) name = ok (own fs name)
property _ name = ok none

-- A member of an object literal; `JSON.stringify` leaves an undefined one out.
abbrev pub member : {N : Type 0} → String → Option (Json N) → Fields N → Fields N
member name none fs = fs
member name (some v) fs = field name v fs

abbrev pub session_of : {N : Type 0} → Option (Json N) → Option (Json N) → Option (Json N) → Json N
session_of access refresh user =
    obj (member "accessToken" access (member "refreshToken" refresh (member "user" user end)))

module _ (js : Js) where
  abbrev pub truthy_member : Option (Json js.Num) → Bool
  truthy_member none = false
  truthy_member (some v) = truthy js (given v)

  abbrev if_complete : Fields js.Num → Option (Fields js.Num)
  if_complete fs =
      if truthy_member (own fs "accessToken") && truthy_member (own fs "refreshToken")
      then some fs
      else none

  -- `getStoredSession`: the fields of the session.
  abbrev pub stored_session : Option (Json js.Num) → Option (Fields js.Num)
  stored_session (some (obj fs)) = if_complete fs
  stored_session _ = none

  abbrev pub member_of : Option (Fields js.Num) → String → Option (Json js.Num)
  member_of none name = none
  member_of (some fs) name = own fs name

  -- `getAccessToken`
  abbrev pub access_token : Option (Json js.Num) → Option (Json js.Num)
  access_token storage = member_of (stored_session storage) "accessToken"

  -- `getRefreshToken`
  abbrev pub refresh_token : Option (Json js.Num) → Option (Json js.Num)
  refresh_token storage = member_of (stored_session storage) "refreshToken"

  -- `current?.user ?? null`
  abbrev pub stored_user : Option (Json js.Num) → Json js.Num
  stored_user storage = or_else (member_of (stored_session storage) "user") null

  module _ {S : Type 0} where
    -- `setStoredSession`
    abbrev pub set_stored_session : Json js.Num → C S js.Num (Unit {0})
    set_stored_session session tab = (ok tt, record tab { storage = some session })

    -- `clearStoredSession`
    abbrev pub clear_stored_session : C S js.Num (Unit {0})
    clear_stored_session tab = (ok tt, record tab { storage = none })

    -- `updateStoredTokens`
    unfoldable pub update_stored_tokens :
        Option (Json js.Num) → Option (Json js.Num) → C S js.Num (Unit {0})
    update_stored_tokens access refresh tab =
        set_stored_session (session_of access refresh (some (stored_user tab.storage))) tab
