-- ===== src/Http/Laws.antt =====
-- When apps/api/src/health/health.service.ts is ready.
use sync_bridge_platform.Base.{
  String, Bool, true, false, eq_iff, ◌≡◌, refl, ap, ◌↔◌, inl, inr, Bool-cases, arith,
}
use sync_bridge_platform.Jobs.Queue.{
  QueueSettings, Ping, answered, refused, check_redis_health, should_use_redis_queue_infrastructure,
}
use sync_bridge_platform.Http.{ready}

refused_not_answered : {pong : String} → ◌≡◌ {A = Ping} refused (answered pong) → ⊥
refused_not_answered h = cc

answered_injective : {p q : String} → answered p ≡ answered q → p ≡ q
answered_injective h = cc

-- The service is ready exactly if the database answers and, where the settings call for the queues of
-- Redis, Redis answers the ping with "PONG".
pub ready_iff :
    (s : QueueSettings) (database_up : Bool) (ping : Ping)
    → ((ready s database_up ping).is_ready ≡ true) ↔ (
        (database_up ≡ true)
        × (should_use_redis_queue_infrastructure s ≡ true → ping ≡ answered "PONG"))
unfolding ready check_redis_health should_use_redis_queue_infrastructure
ready_iff s false ping = (λ h. absurd (ground arith), λ (up, pinged). absurd (ground arith))
ready_iff s true refused = elim (Bool-cases (should_use_redis_queue_infrastructure s)) [
  | inl used ↦
      (λ h. absurd (ground arith), λ (up, pinged). absurd (refused_not_answered (pinged used)))
  | inr unused ↦ (λ h. (refl, λ used. absurd (ground arith)), λ _. ground arith)
]
ready_iff s true (answered pong) = elim (Bool-cases (should_use_redis_queue_infrastructure s)) [
  | inl used ↦ (
    λ h. (refl, λ _. ap answered (ground (arith, eq_iff pong "PONG"))),
    λ (up, pinged). ground (arith, eq_iff pong "PONG", answered_injective (pinged used)),
  )
  | inr unused ↦ (λ h. (refl, λ used. absurd (ground arith)), λ _. ground arith)
]
