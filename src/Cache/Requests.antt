-- ===== src/Cache/Requests.antt =====
-- The requests that a cache takes from above: `add_rq`, `add_wq`, `add_ptwq` and `add_pq` of
-- src/cache.cc.
use proba_artifact.Prelude.{Bool, Option, some, ◌>>=◌}
use proba_artifact.CacheQueues.Packet.{Packet}
use proba_artifact.CacheQueues.Queues.{Queues}
use proba_artifact.CacheQueues.Queues
use proba_artifact.Cache.State.{CacheState}

module _ {L M : Type 0} where
  -- A request goes to the queues.
  unfoldable pub request :
      (Packet → Queues → Option (Bool × Queues))
      → Packet
      → CacheState L M
      → Option (Bool × CacheState L M)
  request add packet c = do
    (success, queues) ← add packet c.queues
    some (success, record c { queues = queues })

  unfoldable pub add_rq : Packet → CacheState L M → Option (Bool × CacheState L M)
  unfolding request
  add_rq = request Queues.add_rq

  unfoldable pub add_wq : Packet → CacheState L M → Option (Bool × CacheState L M)
  unfolding request
  add_wq = request Queues.add_wq

  unfoldable pub add_ptwq : Packet → CacheState L M → Option (Bool × CacheState L M)
  unfolding request
  add_ptwq = request Queues.add_ptwq

  unfoldable pub add_pq : Packet → CacheState L M → Option (Bool × CacheState L M)
  unfolding request
  add_pq = request Queues.add_pq
