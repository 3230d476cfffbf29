-- ===== src/Scheduler/Tests.antt =====
-- fifo.go: runs of the scheduler at concrete inputs, and instances of its theorems.
use llemon_swap.Base.{
  ◌++◌, ℕ, ◌+◌, ◌≤◌, String, ◌≡◌, ◌≢◌, refl, true, false, none, some, List, [], ◌∷◌, arith, ◌==◌,
  lookup, contains, if◌then◌else◌, Returns,
}
use llemon_swap.Scheduler.State.{
  ready, stopped, pos, HandlerReq, Effects, Swapper, ActiveSwap, Config, Fifo, starting,
  shutting_down, grant_error, new_fifo, limit,
}
use llemon_swap.Scheduler.Handlers.{on_request, on_cancel, on_swap_done, on_serve_done, on_shutdown}
use llemon_swap.Scheduler.Ledger.{count, waiting, IsConsistent}
use llemon_swap.Scheduler.Ledger.Run.{
  Event, request, cancel, swap_done, serve_done, handle, Reach, start, next, Reach-IsConsistent,
  handle_total, reserved-eq, load-le-limit, evicted_idle,
}
use llemon_swap.Scheduler.Queue.Order.{
  IsOrdered, Inserted, queued_req, enqueue-Inserted, enqueue-IsOrdered,
}
use llemon_swap.Scheduler.Queue.{enqueue}
use llemon_swap.Scheduler.Fairness.{fair_order}
use llemon_swap.Scheduler.Ledger.Order.{Reorders, fair_order-Reorders}
use llemon_swap.Scheduler.Ledger.Cancel.{IsCancelled, on_cancel-IsDone}
use llemon_swap.Scheduler.Ledger.Shutdown.{
  answers, refused, swap_waiters, AllAnswered, on_shutdown-AllAnswered,
}

-- Two models that cannot run together; "a" runs, and every caller takes what it is offered.
abbrev demo : Effects
demo = record {
  model_state = λ t m. if m == "x" then none else some starting;
  running_models = λ t. "a" ∷ [];
  is_done = λ t req. false;
  takes_admission = λ t req. true;
  takes_grant = λ t req m. true;
  now = λ t. 5;
}

others : String → List String → List String
others m [] = []
others m (x ∷ xs) = let rest = others m xs in if x == m then rest else x ∷ rest

abbrev exclusive : Swapper
exclusive = record { eviction_for = others }

abbrev demo_config : Config
demo_config = record {
  priority = λ m. if m == "b" then pos 1 else pos 0;
  limits = ("a", 2) ∷ ("b", 1) ∷ [];
  models = [];
  pools = [];
}

abbrev call : String → ℕ → HandlerReq
call m r = record { model = m; respond = r; has_admit = true; queued_at = none }

abbrev after : Event → Fifo → Fifo
after ev s = elim (handle demo exclusive demo_config ev s) [ none ↦ s | some s' ↦ s' ]

abbrev first : Fifo
first = after (request (call "a" 1)) new_fifo

abbrev blocked : Fifo
blocked = after (request (call "b" 2)) first

abbrev served : Fifo
served = after (swap_done (record { model_id = "a"; err = none })) blocked

abbrev swapped : Fifo
swapped = after (serve_done "a") served

-- The request for "b" waits for "a" to finish, and then a swap stops "a".
demo_run :
    (count "b" blocked.queued ≡ 1)
    × (served.in_flight "a" ≡ 1)
    × (waiting "b" swapped.active ≡ 1)
    × (swapped.in_flight "a" ≡ 0)
unfolding handle on_request on_swap_done on_serve_done new_fifo others lookup
demo_run = (refl, refl, refl, refl)

Reach-first : Reach demo exclusive demo_config first
unfolding handle on_request new_fifo others lookup
Reach-first = next start (request (call "a" 1)) tt refl

Reach-blocked : Reach demo exclusive demo_config blocked
unfolding handle on_request new_fifo others lookup
Reach-blocked = next Reach-first (request (call "b" 2)) tt refl

Reach-served : Reach demo exclusive demo_config served
unfolding handle on_request on_swap_done new_fifo others lookup
Reach-served = next Reach-blocked (swap_done (record { model_id = "a"; err = none })) tt refl

Reach-swapped : Reach demo exclusive demo_config swapped
unfolding handle on_request on_swap_done on_serve_done new_fifo others lookup
Reach-swapped = next Reach-served (serve_done "a") (omega arith) refl

abbrev swap_to_b : ActiveSwap
swap_to_b = record {
  model_id = "b";
  evict = "a" ∷ [];
  waiters = record (call "b" 2) { queued_at = some 5 } ∷ [];
}

swapped_active : lookup "b" swapped.active ≡ some swap_to_b
unfolding handle on_request on_swap_done on_serve_done new_fifo others lookup
swapped_active = refl

handle_total_example :
    (s' : Fifo) × (handle demo exclusive demo_config (cancel (call "b" 2)) blocked ≡ some s')
handle_total_example =
    handle_total demo exclusive demo_config (cancel (call "b" 2)) blocked Reach-blocked tt

reserved-eq_example :
    served.reserved "a" ≡ served.in_flight "a" + count "a" served.queued + waiting "a" served.active
reserved-eq_example = reserved-eq demo exclusive demo_config served "a" Reach-served

load-le-limit_example :
    blocked.in_flight "b" + count "b" blocked.queued + waiting "b" blocked.active
    ≤ limit demo_config "b"
load-le-limit_example = load-le-limit demo exclusive demo_config blocked "b" Reach-blocked

evicted_idle_example :
    (swapped.in_flight "a" ≡ 0) × (◌≢◌ {A = String} "a" "b" → lookup "a" swapped.active ≡ none)
unfolding contains
evicted_idle_example =
    evicted_idle demo exclusive demo_config swapped "b" "a" swap_to_b Reach-swapped swapped_active
      refl

enqueue-Inserted_example :
    Inserted demo_config
      (queued_req demo demo_config (call "b" 3) blocked)
      blocked.queued
      (enqueue demo demo_config (call "b" 3) blocked).queued
unfolding handle on_request new_fifo others lookup
enqueue-Inserted_example = enqueue-Inserted demo demo_config (call "b" 3) blocked tt

-- In a queue out of order, a later request of equal priority goes first.
enqueue-out_of_order :
    (enqueue demo demo_config
      (call "b" 3)
      (record new_fifo { queued = call "a" 1 ∷ call "b" 2 ∷ [] })).queued
    ≡ record (call "b" 3) { queued_at = some 5 } ∷ call "a" 1 ∷ call "b" 2 ∷ []
unfolding enqueue new_fifo
enqueue-out_of_order = refl

enqueue-IsOrdered_example :
    IsOrdered demo_config (enqueue demo demo_config (call "b" 3) blocked).queued
unfolding handle on_request new_fifo others lookup
enqueue-IsOrdered_example = enqueue-IsOrdered demo demo_config (call "b" 3) blocked tt

on_cancel-IsDone_example :
    Returns (on_cancel demo exclusive demo_config (call "b" 2) blocked) (λ s'.
      (IsConsistent demo_config s' × IsCancelled 2 blocked s') × (s'.in_flight ≡ blocked.in_flight))
on_cancel-IsDone_example =
    on_cancel-IsDone demo_config demo exclusive (call "b" 2) blocked
      (Reach-IsConsistent demo exclusive demo_config Reach-blocked)

-- A caller waits on the swap towards "a", and one in the queue for "b".
blocked_waiting :
    refused shutting_down (swap_waiters blocked.active ++ blocked.queued) (answers blocked.trace)
    ≡ grant_error 2 shutting_down ∷ grant_error 1 shutting_down ∷ []
unfolding handle on_request new_fifo others lookup
blocked_waiting = refl

on_shutdown-AllAnswered_example :
    Returns
      (on_shutdown demo exclusive demo_config shutting_down blocked)
      (AllAnswered shutting_down blocked)
on_shutdown-AllAnswered_example =
    on_shutdown-AllAnswered demo exclusive demo_config shutting_down blocked
      (Reach-IsConsistent demo exclusive demo_config Reach-blocked)

-- A pool whose burst is used up promotes the request for "b", which would have to stop "a".
abbrev pooled_config : Config
pooled_config = record demo_config {
  models =
      ("a", record { concurrency_limit = 0; lifecycle_pool = "gpu" })
      ∷ ("b", record { concurrency_limit = 0; lifecycle_pool = "gpu" })
      ∷ [];
  pools =
      ("gpu", record { resident_first = true; max_resident_burst = 1; max_resident_wait = 0 }) ∷ [];
}

abbrev waiting_requests : List HandlerReq
waiting_requests = call "a" 1 ∷ call "b" 2 ∷ []

abbrev pooled : Fifo
pooled = record new_fifo { queued = waiting_requests; resident_bursts = λ pool. 1 }

abbrev resident : Effects
resident = record demo { model_state = λ t m. some (if m == "a" then ready else stopped) }

demo_promotion :
    (fair_order resident exclusive pooled_config waiting_requests pooled).0
    ≡ call "b" 2 ∷ call "a" 1 ∷ []
unfolding fair_order others lookup new_fifo
demo_promotion = refl

fair_order-Reorders_example :
    Reorders waiting_requests pooled
      (fair_order resident exclusive pooled_config waiting_requests pooled)
fair_order-Reorders_example =
    fair_order-Reorders resident exclusive pooled_config waiting_requests pooled
