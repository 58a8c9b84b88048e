-- ===== src/Web/Exchange.antt =====
-- What a call of apps/web/lib/api.ts sends, what it is answered, and what it leaves of the session.
use sync_bridge_platform.Base.{
  ℕ, String, true, false, Option, none, some, List, [], ◌∷◌, ◌++◌, ◌≡◌, refl, Result, ok, err, ap,
}
use sync_bridge_platform.Js.{Js, Json, null, bool, num, str, arr, obj}
use sync_bridge_platform.Web.{
  Request, Response, Fetch, Tab, Failure, unreachable, C, continue, property, session_of,
  stored_user, refresh_token,
}
use sync_bridge_platform.Web.Client.{
  RequestOptions, is_ok, or_not_json, answered, send, request_of, refresh_request,
}

pub none_not_some : {A : Type 0} {a : A} → ◌≡◌ {A = Option A} none (some a) → ⊥
none_not_some h = cc

module _ (js : Js) (show : ℕ → String) {S : Type 0} (fetch : Fetch S js.Num) where
  -- What stands in the place of a pair of tokens that cannot be read: no answer, or one that is fine and
  -- whose body is no JSON or `null`.
  pub data Unreadable : Option (Response js.Num) → Type 0 where
    silent : Unreadable none
    without_json :
        (response : Response js.Num)
        → is_ok response.status ≡ true
        → response.json ≡ none
        → Unreadable (some response)
    without_pair :
        (response : Response js.Num)
        → is_ok response.status ≡ true
        → response.json ≡ some Json.null
        → Unreadable (some response)

  -- The answer of a renewal that carries the tokens under their names.
  pub record Grants (response : Response js.Num) (access refresh : Option (Json js.Num))
      : Type 0 where
    pub fine : is_ok response.status ≡ true
    pub pair : Json js.Num
    pub readable : response.json ≡ some pair
    pub has_access : property pair "accessToken" ≡ ok access
    pub has_refresh : property pair "refreshToken" ≡ ok refresh

  -- A call that renews: it is authenticated, its first request is answered with 401, and there is a refresh
  -- token; `q` is what `fetch` gives to the renewal.
  pub record Renews (options : RequestOptions js.Num) (tab : Tab S js.Num) (token : Json js.Num)
      (q : Option (Response js.Num)) : Type 0 where
    pub is_authenticated : options.authenticated ≡ true
    pub first_answer : Response js.Num
    pub next : S
    pub got :
        fetch (request_of js show fetch options tab.storage) tab.server ≡ (some first_answer, next)
    pub unauthorized : first_answer.status ≡ 401
    pub has_token : refresh_token js tab.storage ≡ some token
    pub answered_by : (fetch (refresh_request js show fetch token) next).0 ≡ q

  -- The requests of a call, in their order, and the session behind it.
  pub data Exchange (options : RequestOptions js.Num) (tab : Tab S js.Num)
      : List (Request js.Num) → Option (Json js.Num) → Type 0 where
    once :
        ((response : Response js.Num)
          → (fetch (request_of js show fetch options tab.storage) tab.server).0 ≡ some response
          → response.status ≡ 401
          → options.authenticated ≡ true
          → refresh_token js tab.storage ≡ none)
        → Exchange options tab (request_of js show fetch options tab.storage ∷ []) tab.storage
    refused :
        {token : Json js.Num} (answer : Response js.Num)
        → Renews options tab token (some answer)
        → is_ok answer.status ≡ false
        → Exchange options tab
            (request_of js show fetch options tab.storage
              ∷ refresh_request js show fetch token
              ∷ [])
            none
    broken :
        {token : Json js.Num} {q : Option (Response js.Num)}
        → Renews options tab token q
        → Unreadable q
        → Exchange options tab
            (request_of js show fetch options tab.storage
              ∷ refresh_request js show fetch token
              ∷ [])
            tab.storage
    renewed :
        {token session : Json js.Num} (answer : Response js.Num)
        (access refresh : Option (Json js.Num))
        → Renews options tab token (some answer)
        → Grants answer access refresh
        → session ≡ session_of access refresh (some (stored_user js tab.storage))
        → Exchange options tab
            (request_of js show fetch options tab.storage
              ∷ refresh_request js show fetch token
              ∷ request_of js show fetch options (some session)
              ∷ [])
            (some session)

  abbrev pub IsExchange :
      {A : Type 0} → RequestOptions js.Num → Tab S js.Num → Result Failure A × Tab S js.Num → Type 0
  IsExchange options tab x =
      (requests : List (Request js.Num)) × (x.1.sent ≡ tab.sent ++ requests)
      × Exchange options tab requests x.1.storage

  -- What holds behind an answer holds behind what `fetch` gave, if it holds too where nothing came.
  pub behind_answer :
      {B : Type 0} (G : Result Failure B × Tab S js.Num → Type 0)
      (f : Response js.Num → C S js.Num B) (q : Option (Response js.Num) × S) (t : Tab S js.Num)
      → ((server : S) → q ≡ (none, server) → G (err unreachable, record t { server = server }))
      → ((response : Response js.Num) (server : S)
          → q ≡ (some response, server)
          → G (f response (record t { server = server })))
      → G (continue (answered js show fetch q t).0 f (answered js show fetch q t).1)
  behind_answer G f (none, server) t thrown next = thrown server refl
  behind_answer G f (some response, server) t thrown next = next response server refl

  pub behind_send :
      {B : Type 0} (G : Result Failure B × Tab S js.Num → Type 0)
      (f : Response js.Num → C S js.Num B) (request : Request js.Num) (t : Tab S js.Num)
      → ((server : S)
          → fetch request t.server ≡ (none, server)
          → G (err unreachable, record t { server = server; sent = t.sent ++ request ∷ [] }))
      → ((response : Response js.Num) (server : S)
          → fetch request t.server ≡ (some response, server)
          → G (f response (record t { server = server; sent = t.sent ++ request ∷ [] })))
      → G (continue (send js show fetch request t).0 f (send js show fetch request t).1)
  unfolding send
  behind_send G f request t thrown next =
      behind_answer G f (fetch request t.server) (record t { sent = t.sent ++ request ∷ [] }) thrown
        next

  pub behind_lift :
      {A B : Type 0} (G : Result Failure B × Tab S js.Num → Type 0) (f : A → C S js.Num B)
      (r : Result Failure A) (t : Tab S js.Num)
      → ((e : Failure) → r ≡ err e → G (err e, t))
      → ((a : A) → r ≡ ok a → G (f a t))
      → G (continue r f t)
  behind_lift G f (err e) t thrown next = thrown e refl
  behind_lift G f (ok a) t thrown next = next a refl

  -- A body that cannot be read, and a pair without properties.
  pub no_json : (o : Option (Json js.Num)) (e : Failure) → or_not_json o ≡ err e → o ≡ none
  no_json none e h = refl
  no_json (some v) e h = absurd (cc)

  pub some_json :
      (o : Option (Json js.Num)) (pair : Json js.Num) → or_not_json o ≡ ok pair → o ≡ some pair
  some_json none pair h = absurd (cc)
  some_json (some v) pair h = ap some (cc)

  pub no_property :
      (pair : Json js.Num) (name : String) (e : Failure)
      → property pair name ≡ err e
      → pair ≡ Json.null
  no_property null name e h = refl
  no_property (bool b) name e h = absurd (cc)
  no_property (num n) name e h = absurd (cc)
  no_property (str s) name e h = absurd (cc)
  no_property (arr xs) name e h = absurd (cc)
  no_property (obj fs) name e h = absurd (cc)
