-- ===== src/Scheduler/Handlers.antt =====
-- fifo.go: the swap start, the walk of the queue, and the handlers of the Scheduler interface.
use llemon_swap.Base.{
  ℕ, ◌-◌, String, Bool, true, false, not, ◌&&◌, ◌||◌, Option, none, some, List, [], ◌∷◌, ◌++◌,
  ◌>>=◌, ◌==◌, leb, eqb, update, lookup, insert, remove, keys, contains, is_empty, if◌then◌else◌,
}
use llemon_swap.Scheduler.State.{
  Error, model_not_found, model_unloaded, HandlerReq, SwapDone, Effects, Swapper, swap_start,
  start_swap, stop_processes, ActiveSwap, Config, Fifo, is_ready, emit,
}
use llemon_swap.Scheduler.Collision.{collides_with, conflicts_with_in_flight}
use llemon_swap.Scheduler.Grant.{release, admit, reject_admission, grant_handler, grant_failure}
use llemon_swap.Scheduler.Queue.{enqueue, queue_done, broadcast_queue_positions}
use llemon_swap.Scheduler.Fairness.{
  pool_for, running_set, should_yield_to_cold, record_resident_admission, fair_order,
}

-- A loop whose body may panic.
unfoldable pub each {ℓ} : {A : Type ℓ} → (A → Fifo → Option Fifo) → List A → Fifo → Option Fifo
each body [] s = some s
each body (a ∷ as') s = do s' ← body a s; each body as' s'

-- The loops of OnCancel over a queue or a waiter list: what is kept, whether a request was removed,
-- and the state after the removed ones were observed and released.
unfoldable pub prune :
    (HandlerReq → Fifo → Fifo) → ℕ → List HandlerReq → Fifo → Option (List HandlerReq × Bool × Fifo)
unfolding release
prune observe respond [] s = some ([], false, s)
prune observe respond (q ∷ qs) s = do
  let hit = eqb q.respond respond
  s' ← if hit then release q.model (observe q s) else some s
  (kept, removed, s'') ← prune observe respond qs s'
  some (if hit then kept else q ∷ kept, hit || removed, s'')

-- One round of OnCancel's loop over the swaps in flight.
unfoldable pub cancel_swap : ℕ → String → Bool × Fifo → Option (Bool × Fifo)
unfolding prune lookup insert
cancel_swap respond id (removed, s) = elim (lookup id s.active) [
  | none ↦ some (removed, s)
  | some sw ↦ do
    (kept, hit, s') ← prune (λ w t. t) respond sw.waiters s
    some (removed || hit, record s' { active = insert id (record sw { waiters = kept }) s'.active })
]

unfoldable pub cancel_swaps : ℕ → List String → Bool × Fifo → Option (Bool × Fifo)
unfolding cancel_swap
cancel_swaps respond [] state = some state
cancel_swaps respond (id ∷ ids) state = do
  state' ← cancel_swap respond id state
  cancel_swaps respond ids state'

module _ (eff : Effects) (planner : Swapper) (cfg : Config) where
  unfoldable pub start_swap_for : HandlerReq → List String → List String → Fifo → Fifo
  unfolding pool_for insert
  start_swap_for initial evict running s =
      let sw : ActiveSwap = record {
        model_id = initial.model;
        evict = evict;
        waiters = initial ∷ [];
      } in
      let pool = pool_for cfg initial.model in
      emit (start_swap initial.model evict) (
        emit (swap_start initial.model running) (record s {
          active = insert initial.model sw s.active;
          resident_bursts =
              if pool == "" then s.resident_bursts else update s.resident_bursts pool 0;
        }))

  abbrev pub join : HandlerReq → ActiveSwap → Fifo → Fifo
  join req sw s = record s {
    active = insert req.model (record sw { waiters = sw.waiters ++ req ∷ [] }) s.active;
  }

  -- Steps (3) to (6) of OnRequest, for an admitted request whose model has no swap in flight.
  unfoldable pub decide_request : Bool → HandlerReq → Fifo → Option Fifo
  unfolding running_set collides_with conflicts_with_in_flight should_yield_to_cold enqueue
      record_resident_admission grant_handler start_swap_for
  decide_request ready req s =
      let running = running_set eff planner cfg req.model s in
      let evict = planner.eviction_for req.model running in
      let collides = collides_with req.model evict s.active in
      if ready && is_empty evict && not collides
      then (if should_yield_to_cold eff planner cfg s req.model
          then some (enqueue eff cfg req s)
          else grant_handler eff req req.model
              (record_resident_admission eff planner cfg req.model s))
      else if collides
      then some (enqueue eff cfg req s)
      else if conflicts_with_in_flight evict s.in_flight
      then some (enqueue eff cfg req s)
      else some (start_swap_for req evict running s)

  -- Steps (2) to (6), for an admitted request.
  unfoldable pub place_request : Bool → HandlerReq → Fifo → Option Fifo
  unfolding decide_request lookup
  place_request ready req s = elim (lookup req.model s.active) [
    | some sw ↦ some (join req sw s)
    | none ↦ decide_request ready req s
  ]

  abbrev pub if_admitted : Bool → HandlerReq → Bool × Fifo → Option Fifo
  if_admitted ready req (admitted, s) = if admitted then place_request ready req s else some s

  unfoldable pub on_request : HandlerReq → Fifo → Option Fifo
  unfolding place_request admit reject_admission
  on_request req s = elim (eff.model_state s.trace req.model) [
    | none ↦ some (reject_admission eff req model_not_found s)
    | some state ↦ if_admitted (is_ready state) req (admit eff cfg req s)
  ]

  -- The queue's walk for a request whose model has no swap in flight: whether it stays queued.
  unfoldable pub drain_idle : Bool → HandlerReq → Fifo → Option (Bool × Fifo)
  unfolding running_set collides_with conflicts_with_in_flight queue_done record_resident_admission
      grant_handler start_swap_for
  drain_idle ready req s =
      let running = running_set eff planner cfg req.model s in
      let evict = planner.eviction_for req.model running in
      let collides = collides_with req.model evict s.active in
      if ready && is_empty evict && not collides
      then (do
        s' ←
            grant_handler eff req req.model
              (record_resident_admission eff planner cfg req.model (queue_done eff req s))
        some (false, s'))
      else if collides
      then some (true, s)
      else if conflicts_with_in_flight evict s.in_flight
      then some (true, s)
      else some (false, start_swap_for req evict running (queue_done eff req s))

  -- One round of drainQueue.
  unfoldable pub drain_step : HandlerReq → Fifo → Option (Bool × Fifo)
  unfolding drain_idle queue_done grant_failure lookup
  drain_step req s = elim (eff.model_state s.trace req.model) [
    | none ↦ do s' ← grant_failure eff req model_not_found (queue_done eff req s); some (false, s')
    | some state ↦ elim (lookup req.model s.active) [
      | some sw ↦ some (false, join req sw (queue_done eff req s))
      | none ↦ drain_idle (is_ready state) req s
    ]
  ]

  -- The loop: the requests that stay queued, in their order.
  unfoldable pub drain_loop : List HandlerReq → Fifo → Option (List HandlerReq × Fifo)
  unfolding drain_step
  drain_loop [] s = some ([], s)
  drain_loop (req ∷ pending) s = do
    (blocked, s') ← drain_step req s
    (remaining, s'') ← drain_loop pending s'
    some (if blocked then req ∷ remaining else remaining, s'')

  unfoldable pub drain_queue : Fifo → Option Fifo
  unfolding drain_loop fair_order broadcast_queue_positions
  drain_queue s = if is_empty s.queued then some s else (do
    let (pending, s') = fair_order eff planner cfg s.queued s
    (remaining, s'') ← drain_loop pending s'
    some (broadcast_queue_positions remaining (record s'' { queued = remaining })))

  unfoldable pub on_cancel : HandlerReq → Fifo → Option Fifo
  unfolding prune cancel_swaps queue_done broadcast_queue_positions
  on_cancel req s = do
    (kept, dequeued, s') ← prune (queue_done eff) req.respond s.queued s
    (removed, s'') ←
        cancel_swaps req.respond (keys s'.active) (dequeued, record s' { queued = kept })
    some (if removed then broadcast_queue_positions s''.queued s'' else s'')

  abbrev pub answer : SwapDone → HandlerReq → Fifo → Option Fifo
  answer ev w s = elim ev.err [
    | some err ↦ grant_failure eff w err s
    | none ↦ grant_handler eff w ev.model_id s
  ]

  unfoldable pub on_swap_done : SwapDone → Fifo → Option Fifo
  unfolding each grant_failure grant_handler drain_queue lookup remove
  on_swap_done ev s = elim (lookup ev.model_id s.active) [
    | none ↦ some s
    | some sw ↦ do
      s' ← each (answer ev) sw.waiters (record s { active = remove ev.model_id s.active })
      drain_queue s'
  ]

  -- The count of a missing key goes to -1, which is deleted as well as 0.
  unfoldable pub on_serve_done : String → Fifo → Option Fifo
  unfolding release drain_queue
  on_serve_done m s = do
    s' ← release m (record s { in_flight = update s.in_flight m (s.in_flight m - 1) })
    if leb (s'.in_flight m) 0 then drain_queue s' else some s'

  -- OnUnload's loop over the targets: the waiters of a swap towards a target are refused.
  unfoldable pub unload_swap : String → Fifo → Option Fifo
  unfolding each grant_failure lookup remove
  unload_swap id s = elim (lookup id s.active) [
    | none ↦ some s
    | some sw ↦ do
      s' ← each (λ w. grant_failure eff w model_unloaded) sw.waiters s
      some (record s' { active = remove id s'.active })
  ]

  -- Its loop over the queue: what is kept, and the state after the others are refused.
  unfoldable pub unload_queue :
      List String → List HandlerReq → Fifo → Option (List HandlerReq × Fifo)
  unfolding queue_done grant_failure contains
  unload_queue targets [] s = some ([], s)
  unload_queue targets (w ∷ ws) s = do
    let hit = contains targets w.model
    s' ← if hit then grant_failure eff w model_unloaded (queue_done eff w s) else some s
    (kept, s'') ← unload_queue targets ws s'
    some (if hit then kept else w ∷ kept, s'')

  unfoldable pub on_unload : List String → Fifo → Option Fifo
  unfolding each unload_swap unload_queue drain_queue
  on_unload targets s = do
    s' ← each unload_swap targets s
    (kept, s'') ← unload_queue targets s'.queued s'
    drain_queue (emit (stop_processes targets) (record s'' { queued = kept }))

  -- The waiters are answered, and neither the swaps nor the queue are cleared: the run loop ends.
  unfoldable pub shutdown_swaps : Error → List (String × ActiveSwap) → Fifo → Option Fifo
  unfolding each grant_failure
  shutdown_swaps err [] s = some s
  shutdown_swaps err ((id, sw) ∷ active) s = do
    s' ← each (λ w. grant_failure eff w err) sw.waiters s
    shutdown_swaps err active s'

  unfoldable pub on_shutdown : Error → Fifo → Option Fifo
  unfolding shutdown_swaps each queue_done grant_failure
  on_shutdown err s = do
    s' ← shutdown_swaps err s.active s
    each (λ w t. grant_failure eff w err (queue_done eff w t)) s'.queued s'
