-- ===== src/Handler/Listener.antt =====
-- `_listen_for_unlocks` of policyd_py/policy/handler.py: the poll of the scheduled unlocks.
use policyd_py.Base.{
  ◌/◌, ℕ, zero, suc, ltb, ◌&&◌, List, [], ◌∷◌, if◌then◌else◌, Text, codes, starts_with, false, Eff,
  pure, try_except, none, ◌>>=◌, ◌>>◌,
}
use policyd_py.Floats.{Floats}
use policyd_py.Outside.{Outside}
use policyd_py.Redis
use policyd_py.Handler.{Engine, Handler, on_redis}
use policyd_py.Handler.Events.{BackgroundEvent}
use policyd_py.Handler.Locks.{scheduled_unlocks}
use policyd_py.Handler.Background.{enqueue_background_event}

-- item[len("lock:"):]
without_lock : ℕ → Text → Text
without_lock zero item = item
without_lock (suc n) [] = []
without_lock (suc n) (c ∷ item) = without_lock n item

module _ (F : Floats) (o : Outside F.Float) (e : Engine F o.World) where
  open F use {Float}
  open o use {World}

  unlock_event : Text → BackgroundEvent Float
  unlock_event email = record {
    kind = codes "unlock";
    email = email;
    selector = [];
    message = [];
    local_sender = false;
    limits = none;
  }

  -- What the listener takes out of the schedule it puts into the queue; an item that another listener
  -- has taken first is left alone.
  unfoldable pub take_scheduled : List Text → Eff (Handler World) (Unit {0})
  unfolding unlock_event without_lock
  take_scheduled [] = pure tt
  take_scheduled (item ∷ items) =
      let rest = take_scheduled items in
      do
        removed ← on_redis (Redis.zrem o scheduled_unlocks (item ∷ []))
        if ltb 0 removed && starts_with item (codes "lock:")
            then (do enqueue_background_event F o e (unlock_event (without_lock 5 item)); rest)
            else rest

  poll : Eff (Handler World) (Unit {0})
  unfolding take_scheduled
  poll h =
      (do
        items ← on_redis (Redis.zrangebyscore o scheduled_unlocks (o.time h.redis.world / 1000000))
        take_scheduled items)
        h

  -- One round of the listener: an error ends the round.
  unfoldable pub listen_round : Eff (Handler World) (Unit {0})
  unfolding poll
  listen_round = try_except poll (λ exc. pure tt)
