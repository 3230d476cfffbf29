-- ===== src/Scheduler/Queue.antt =====
-- fifo.go: the queue in priority order, its observers and the positions it announces.
pub mod Order
use llemon_swap.Base.{
  ℕ, zero, suc, ◌+◌, ◌-◌, String, Bool, true, false, Option, none, some, List, [], ◌∷◌, ◌++◌,
  if◌then◌else◌,
}
use llemon_swap.Scheduler.State.{
  ℤ, pos, negsuc, ltb_ℤ, HandlerReq, Effects, Effect, queue_delta, queue_wait, position, Config,
  Fifo, emit, emit_all,
}

-- The 1-based positions, the last one newest in the trace. A full channel is drained first, so the
-- caller reads the newest value that was sent.
unfoldable pub positions : ℕ → List HandlerReq → List Effect
positions i [] = []
positions i (req ∷ queued) = positions (suc i) queued ++ position req.respond (suc i) ∷ []

unfoldable pub broadcast_queue_positions : List HandlerReq → Fifo → Fifo
unfolding positions
broadcast_queue_positions queued = emit_all (positions 0 queued)

-- The queue with `req` just before the first request of lower priority.
unfoldable pub insert_by_priority : Config → HandlerReq → List HandlerReq → List HandlerReq
insert_by_priority cfg req [] = req ∷ []
insert_by_priority cfg req (q ∷ queued) =
    if ltb_ℤ (cfg.priority q.model) (cfg.priority req.model)
    then req ∷ q ∷ queued
    else q ∷ insert_by_priority cfg req queued

abbrev pub stamp : ℕ → HandlerReq → HandlerReq
stamp now req = record req { queued_at = elim req.queued_at [ none ↦ some now | some t ↦ some t ] }

module _ (eff : Effects) where
  unfoldable pub enqueue : Config → HandlerReq → Fifo → Fifo
  unfolding insert_by_priority broadcast_queue_positions
  enqueue cfg req s =
      let queued = insert_by_priority cfg (stamp (eff.now s.trace) req) s.queued in
      broadcast_queue_positions queued
        (emit (queue_delta req.model (pos 1)) (record s { queued = queued }))

  -- The time since a request was queued.
  abbrev pub waited : Fifo → ℕ → ℕ
  waited s since = eff.now s.trace - since

  unfoldable pub queue_done : HandlerReq → Fifo → Fifo
  queue_done req s =
      let s' = emit (queue_delta req.model (negsuc 0)) s in
      elim req.queued_at [ none ↦ s' | some t ↦ emit (queue_wait req.model (waited s' t)) s' ]
