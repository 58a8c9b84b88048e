-- ===== src/Scheduler/Due/Order.antt =====
-- apps/api/src/scheduler/scheduler.service.ts: the ordering of the pipelines that are due loses none.
use sync_bridge_platform.Base.{suc, List, [], ◌∷◌, ◌≡◌, refl, arith, length}
use sync_bridge_platform.Database.{SyncPipeline}
use sync_bridge_platform.Scheduler.Due.{insert_by_time, order_by_time}

module _ {N : Type 0} where
  length-insert :
      (p : SyncPipeline N) (ps : List (SyncPipeline N))
      → length (insert_by_time p ps) ≡ suc (length ps)
  unfolding insert_by_time
  length-insert p [] = refl
  length-insert p (q ∷ ps) = ground (arith, length-insert p ps)

  pub length-order_by_time : (ps : List (SyncPipeline N)) → length (order_by_time ps) ≡ length ps
  unfolding order_by_time
  length-order_by_time [] = refl
  length-order_by_time (p ∷ ps) =
      ground (arith, length-insert p (order_by_time ps), length-order_by_time ps)
