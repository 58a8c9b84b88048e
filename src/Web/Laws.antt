-- ===== src/Web/Laws.antt =====
-- What a call of apps/web/lib/api.ts leaves behind: the proof that each call is an exchange.
use mathlib.Core.List.{append_assoc}
use sync_bridge_platform.Base.{
  ℕ, String, Bool, true, false, Option, none, some, List, [], ◌∷◌, ◌++◌, ◌≡◌, refl, ◌∙◌, Result,
  err, inl, inr, Bool-cases, arith, ap, sym, some-injective,
}
use sync_bridge_platform.Js.{Js, Json}
use sync_bridge_platform.Web.{
  Request, Response, Fetch, Tab, Failure, unreachable, lift, continue, property, session_of,
  stored_user, refresh_token, update_stored_tokens,
}
use sync_bridge_platform.Web.Client.{
  RequestOptions, is_ok, is_refused, or_not_json, request_of, refresh_request, store_tokens, renew,
  perform_token_refresh, request_once, try_again, after, answer_of, request_api,
}
use sync_bridge_platform.Web.Exchange.{
  Unreadable, silent, without_json, without_pair, Grants, Renews, Exchange, once, refused, broken,
  renewed, IsExchange, behind_send, behind_lift, no_json, some_json, no_property, none_not_some,
}

module _ (js : Js) (show : ℕ → String) {S : Type 0} (fetch : Fetch S js.Num) where
  module _ (options : RequestOptions js.Num) (tab : Tab S js.Num) where
    abbrev first : Request js.Num
    first = request_of js show fetch options tab.storage

    refused-authenticated :
        (response : Response js.Num)
        → is_refused js show fetch options response ≡ true
        → (options.authenticated ≡ true) × (response.status ≡ 401)
    refused-authenticated response h = (ground arith, ground arith)

    module _ (r0 : Response js.Num) (next : S) (got : fetch first tab.server ≡ (some r0, next))
        (is_first : is_refused js show fetch options r0 ≡ true) {token : Json js.Num}
        (has_token : refresh_token js tab.storage ≡ some token) where
      renews :
          (q : Option (Response js.Num)) (later : S)
          → fetch (refresh_request js show fetch token) next ≡ (q, later)
          → Renews js show fetch options tab token q
      renews q later answered_as =
          let (known, status) = refused-authenticated r0 is_first in
          record {
            is_authenticated = known;
            first_answer = r0;
            next = next;
            got = got;
            unauthorized = status;
            has_token = has_token;
            answered_by = ap (λ x. x.0) answered_as;
          }

      -- Behind the first two requests.
      abbrev sent_two : S → Tab S js.Num
      sent_two server = record {
        storage = tab.storage;
        server = server;
        sent = (tab.sent ++ first ∷ []) ++ refresh_request js show fetch token ∷ [];
      }

      abbrev IsEnd : Result Failure (Json js.Num) × Tab S js.Num → Type 0
      IsEnd = IsExchange js show fetch options tab

      refused-IsEnd :
          (r : Result Failure (Json js.Num)) (server : S) (answer : Response js.Num)
          → Renews js show fetch options tab token (some answer)
          → is_ok answer.status ≡ false
          → IsEnd (r, record (sent_two server) { storage = none })
      refused-IsEnd r server answer asked bad =
          (_, append_assoc tab.sent _ _, refused answer asked bad)

      broken-IsEnd :
          (r : Result Failure (Json js.Num)) (server : S) (q : Option (Response js.Num))
          → Renews js show fetch options tab token q
          → Unreadable js show fetch q
          → IsEnd (r, sent_two server)
      broken-IsEnd r server q asked bad = (_, append_assoc tab.sent _ _, broken asked bad)

      abbrev session : (access refresh : Option (Json js.Num)) → Json js.Num
      session access refresh = session_of access refresh (some (stored_user js tab.storage))

      abbrev renewed_tab : (access refresh : Option (Json js.Num)) → S → Tab S js.Num
      renewed_tab access refresh server = record (sent_two server) {
        storage = some (session access refresh);
      }

      renewed-IsEnd :
          (access refresh : Option (Json js.Num)) (r : Result Failure (Json js.Num))
          (server later : S) (answer : Response js.Num)
          → Renews js show fetch options tab token (some answer)
          → Grants js show fetch answer access refresh
          → IsEnd (
            r,
            record (renewed_tab access refresh later) {
              sent =
                  (sent_two server).sent
                  ++ request_of js show fetch options (some (session access refresh)) ∷ [];
            },
          )
      renewed-IsEnd access refresh r server later answer asked grants = (
        _,
        append_assoc (tab.sent ++ first ∷ []) _ _ ∙ append_assoc tab.sent _ _,
        renewed answer access refresh asked grants refl,
      )

      request_once-IsEnd :
          (access refresh : Option (Json js.Num)) (server : S) (answer : Response js.Num)
          → Renews js show fetch options tab token (some answer)
          → Grants js show fetch answer access refresh
          → IsEnd (request_once js show fetch options (renewed_tab access refresh server))
      unfolding request_once
      request_once-IsEnd access refresh server answer asked grants =
          behind_send js show fetch IsEnd (λ response. lift (answer_of js show response)) _
            (renewed_tab access refresh server)
            (λ later _.
              renewed-IsEnd access refresh (err unreachable) server later answer asked grants)
            (λ response later _.
              renewed-IsEnd access refresh (answer_of js show response) server later answer asked
                grants)

      -- What follows the answer of the renewal.
      store_tokens-IsEnd :
          (r1 : Response js.Num) (server : S)
          → Renews js show fetch options tab token (some r1)
          → IsEnd (
              continue
                (store_tokens js show fetch r1 (sent_two server)).0
                (try_again js show fetch options r0)
                (store_tokens js show fetch r1 (sent_two server)).1)
      unfolding store_tokens update_stored_tokens
      store_tokens-IsEnd r1 server asked = elim (Bool-cases (is_ok r1.status)) [
        | inr e ↦ rw e (refused-IsEnd (answer_of js show r0) server r1 asked e)
        | inl e ↦ rw e (
            behind_lift js show fetch G _ (or_not_json r1.json) _
              (λ x bad.
                broken-IsEnd (err x) server (some r1) asked
                  (without_json r1 e (no_json js show fetch r1.json x bad)))
              (λ pair read.
                let json : r1.json ≡ some pair = some_json js show fetch r1.json pair read in
                behind_lift js show fetch G _ (property pair "accessToken") _
                  (thrown e pair json "accessToken")
                  (λ access has_access.
                    behind_lift js show fetch G _ (property pair "refreshToken") _
                      (thrown e pair json "refreshToken")
                      (λ refresh has_refresh.
                        request_once-IsEnd access refresh server r1 asked (record {
                          fine = e;
                          pair = pair;
                          readable = json;
                          has_access = has_access;
                          has_refresh = has_refresh;
                        })))))
      ]
        where
          G : Result Failure Bool × Tab S js.Num → Type 0
          G x = IsEnd (continue x.0 (try_again js show fetch options r0) x.1)

          thrown :
              is_ok r1.status ≡ true
              → (pair : Json js.Num) → r1.json ≡ some pair
              → (name : String) (x : Failure) → property pair name ≡ err x
              → G (err x, sent_two server)
          thrown e pair json name x bad =
              broken-IsEnd (err x) server (some r1) asked
                (without_pair r1 e (json ∙ ap some (no_property js show fetch pair name x bad)))

    abbrev sent_one : S → Tab S js.Num
    sent_one server = record {
      storage = tab.storage;
      server = server;
      sent = tab.sent ++ first ∷ [];
    }

    -- Where no renewal is called for.
    abbrev Unrenewed : Type 0
    Unrenewed =
        (response : Response js.Num)
        → (fetch first tab.server).0 ≡ some response
        → response.status ≡ 401
        → options.authenticated ≡ true
        → refresh_token js tab.storage ≡ none

    once-IsExchange :
        (r : Result Failure (Json js.Num)) (server : S)
        → Unrenewed
        → IsExchange js show fetch options tab (r, sent_one server)
    once-IsExchange r server unrenewed = (_, refl, once unrenewed)

    renew-IsExchange :
        (r0 : Response js.Num) (server : S)
        → fetch first tab.server ≡ (some r0, server)
        → is_refused js show fetch options r0 ≡ true
        → (q : Option (Json js.Num)) → refresh_token js tab.storage ≡ q
        → IsExchange js show fetch options tab (
            continue
              (renew js show fetch q (sent_one server)).0
              (try_again js show fetch options r0)
              (renew js show fetch q (sent_one server)).1)
    renew-IsExchange r0 server got known none e =
        once-IsExchange (answer_of js show r0) server (λ _ _ _ _. e)
    renew-IsExchange r0 server got known (some token) e =
        behind_send js show fetch G (store_tokens js show fetch) _ (sent_one server)
          (λ later none_came.
            broken-IsEnd r0 server got known e (err unreachable) later none
              (renews r0 server got known e none later none_came) silent)
          (λ r1 later came.
            store_tokens-IsEnd r0 server got known e r1 later
              (renews r0 server got known e (some r1) later came))
      where
        G : Result Failure Bool × Tab S js.Num → Type 0
        G x =
            IsExchange js show fetch options tab
              (continue x.0 (try_again js show fetch options r0) x.1)

    not_refused :
        (r0 : Response js.Num) (server : S)
        → fetch first tab.server ≡ (some r0, server)
        → is_refused js show fetch options r0 ≡ false
        → Unrenewed
    not_refused r0 server got fine response same status known =
        let one : response ≡ r0 = some-injective (sym same ∙ ap (λ x. x.0) got) in
        absurd (ground (arith, fine, ap (λ (x : Response js.Num). x.status) one, status, known))

    after-IsExchange :
        (r0 : Response js.Num) (server : S)
        → fetch first tab.server ≡ (some r0, server)
        → IsExchange js show fetch options tab (after js show fetch options r0 (sent_one server))
    unfolding perform_token_refresh
    after-IsExchange r0 server got = elim (Bool-cases (is_refused js show fetch options r0)) [
      | inr e ↦ rw e (once-IsExchange (answer_of js show r0) server (not_refused r0 server got e))
      | inl e ↦ rw e (renew-IsExchange r0 server got e _ refl)
    ]

    silence : (server : S) → fetch first tab.server ≡ (none, server) → Unrenewed
    silence server quiet response came status known =
        absurd (none_not_some (sym (ap (λ x. x.0) quiet) ∙ came))

  -- Whatever the server answers, a call of the API ends after at most three requests: its own, one renewal
  -- with the stored refresh token, and its own again with the session that the renewal stored. It renews
  -- exactly if it is authenticated, its first answer has status 401, and a refresh token is stored. The
  -- stored session is dropped if the renewal is answered with another status than 2xx; it stays as it was
  -- if the renewal has no answer, or a fine one whose body is no JSON or `null`; else it holds what stands
  -- under "accessToken" and "refreshToken" in the answer, with the user that stood there. Without a
  -- renewal it stays as it was.
  pub request_api-IsExchange :
      (options : RequestOptions js.Num) (tab : Tab S js.Num)
      → (requests : List (Request js.Num)) × ((request_api js show fetch options tab).1.sent
          ≡ tab.sent ++ requests)
        × Exchange js show fetch options tab requests
            (request_api js show fetch options tab).1.storage
  unfolding request_api
  request_api-IsExchange options tab =
      behind_send js show fetch (IsExchange js show fetch options tab) (after js show fetch options)
        _ tab
        (λ server quiet.
          once-IsExchange options tab (err unreachable) server (silence options tab server quiet))
        (λ r0 server got. after-IsExchange options tab r0 server got)
