-- ===== src/Webhooks/Handlers/Distinct.antt =====
-- Events of apps/api/src/webhooks/webhooks.service.ts that are distinct deliveries, and how one is found.
use sync_bridge_platform.Base.{
  String, none, some, List, [], ◌∷◌, ◌++◌, map, ◌≡◌, refl, arith, eq_iff, eq_refl, All,
}
use sync_bridge_platform.Database.{WebhookEvent}
use sync_bridge_platform.Webhooks.Tables.{find_delivery}
use sync_bridge_platform.Webhooks.Process.Identity.{Identity, identity}

-- Two events that are not the same delivery.
abbrev pub Apart : Identity → Identity → Type 0
Apart i j = (key : String) → i.ref ≡ j.ref → i.key ≡ some key → j.key ≡ some key → ⊥

-- No delivery is in the table twice.
abbrev pub IsDistinct : List Identity → Type 0
IsDistinct [] = Unit
IsDistinct (i ∷ more) = All (Apart i) more × IsDistinct more

pub All-Apart_last :
    (i j : Identity) (more : List Identity)
    → Apart i j
    → All (Apart i) more
    → All (Apart i) (more ++ j ∷ [])
All-Apart_last i j [] apart all = (apart, tt)
All-Apart_last i j (k ∷ more) apart (first, all) = (first, All-Apart_last i j more apart all)

pub append-IsDistinct :
    (j : Identity) (more : List Identity)
    → All (λ i. Apart i j) more
    → IsDistinct more
    → IsDistinct (more ++ j ∷ [])
append-IsDistinct j [] apart distinct = (tt, tt)
append-IsDistinct j (i ∷ more) (first, apart) (here, distinct) =
    (All-Apart_last i j more first here, append-IsDistinct j more apart distinct)

pub keyless-Apart : (j : Identity) (more : List Identity) → j.key ≡ none → All (λ i. Apart i j) more
keyless-Apart j [] without = tt
keyless-Apart j (i ∷ more) without = (λ k refs mine its. ground arith, keyless-Apart j more without)

module _ {N : Type 0} where
  pub find_delivery-append :
      (ref key : String) (events more : List (WebhookEvent N))
      → find_delivery ref key events ≡ none
      → find_delivery ref key (events ++ more) ≡ find_delivery ref key more
  unfolding find_delivery
  find_delivery-append ref key [] more missing = refl
  find_delivery-append ref key (e ∷ events) more missing =
      ground (arith, find_delivery-append ref key events more)

  pub find_delivery_self :
      (ref key : String) (e : WebhookEvent N)
      → e.source_connector_ref ≡ ref
      → e.idempotency_key ≡ some key
      → find_delivery ref key (e ∷ []) ≡ some e
  unfolding find_delivery
  find_delivery_self ref key e same_ref same_key =
      ground (arith, same_ref, same_key, eq_refl ref, eq_refl key)

  pub find_delivery-Apart :
      (ref key : String) (j : Identity) (events : List (WebhookEvent N))
      → j.ref ≡ ref
      → j.key ≡ some key
      → find_delivery ref key events ≡ none
      → All (λ i. Apart i j) (map identity events)
  unfolding find_delivery
  find_delivery-Apart ref key j [] same_ref same_key missing = tt
  find_delivery-Apart ref key j (e ∷ events) same_ref same_key missing = (
    λ k refs mine its. ground (arith, eq_iff e.source_connector_ref ref, eq_iff k key),
    find_delivery-Apart ref key j events same_ref same_key (ground arith),
  )
