-- ===== src/Router/Tests.antt =====
-- The run loop with its callers, and Unload, at concrete inputs.
use llemon_swap.Base.{
  ◌≤◌, String, ◌≡◌, refl, true, false, none, some, List, [], ◌∷◌, ◌==◌, arith, lookup, contains,
  if◌then◌else◌,
}
use llemon_swap.Scheduler.State.{stopped, pos, negsuc, Effects, Swapper, Config, new_fifo, limit}
use llemon_swap.Scheduler.Handlers.{on_request, on_swap_done, on_serve_done}
use llemon_swap.Scheduler.Ledger.Run.{Event, request, swap_done, serve_done}
use llemon_swap.Router.Loop.{Router, new_router, serving, run_event, Routes, opened, received}
use llemon_swap.Router.Serving.{is_evicted, run_event_total, serving-le-limit}
use llemon_swap.Router.Unload.{UnloadConfig, targets_of, seconds, unload}
use llemon_swap.Router.Unload.Divides.{timeout_for, Divides, unload-Divides}

-- Each model stops every other one, and every caller takes what it is offered.
abbrev patient : Effects
patient = record {
  model_state = λ t m. some stopped;
  running_models = λ t. "a" ∷ [];
  is_done = λ t req. false;
  takes_admission = λ t req. true;
  takes_grant = λ t req m. true;
  now = λ t. 5;
}

abbrev one_model : Swapper
one_model = record { eviction_for = λ m running. if m == "a" then [] else "a" ∷ [] }

abbrev two_calls : Config
two_calls = record { priority = λ m. pos 0; limits = ("a", 2) ∷ []; models = []; pools = [] }

abbrev asks : String → Event
asks m = request (record { model = m; respond = 1; has_admit = true; queued_at = none })

abbrev after : Event → Router → Router
after ev r = elim (run_event patient one_model two_calls ev r) [ none ↦ r | some r' ↦ r' ]

abbrev swapping : Router
swapping = after (asks "a") new_router

abbrev served : Router
served = after (swap_done (record { model_id = "a"; err = none })) swapping

abbrev ended : Router
ended = after (serve_done "a") served

abbrev stopping : Router
stopping = after (asks "b") ended

-- One handler runs, reports its end, and the model may be stopped.
served_run :
    (serving served "a" ≡ 1)
    × (serving ended "a" ≡ 0)
    × (is_evicted "a" served.fifo.active ≡ false)
    × (is_evicted "a" stopping.fifo.active ≡ true)
unfolding run_event on_request on_swap_done on_serve_done new_fifo lookup contains
served_run = (refl, refl, refl, refl)

Routes-served : Routes patient one_model two_calls served
unfolding run_event on_request on_swap_done new_fifo lookup
Routes-served =
    received (received opened (asks "a") tt refl)
      (swap_done (record { model_id = "a"; err = none })) tt refl

Routes-stopping : Routes patient one_model two_calls stopping
unfolding run_event on_request on_swap_done on_serve_done new_fifo lookup
Routes-stopping =
    received (received Routes-served (serve_done "a") (omega arith) refl) (asks "b") tt refl

run_event_total_example :
    (r' : Router) × (run_event patient one_model two_calls (serve_done "a") served ≡ some r')
unfolding run_event on_request on_swap_done new_fifo lookup
run_event_total_example =
    run_event_total patient one_model two_calls (serve_done "a") served Routes-served (omega arith)

serving-le-limit_example :
    serving stopping "a" ≤ (if is_evicted "a" stopping.fifo.active then 0 else limit two_calls "a")
serving-le-limit_example = serving-le-limit patient one_model two_calls stopping "a" Routes-stopping

abbrev slow : UnloadConfig
slow = record { model_timeouts = ("big", 60) ∷ ("small", 5) ∷ []; default_timeout = 5 }

abbrev loaded : List String
loaded = "big" ∷ "small" ∷ "peer" ∷ []

unload_order :
    unload slow loaded (pos 0) []
    ≡ (seconds 5, "small" ∷ "peer" ∷ []) ∷ (seconds 60, "big" ∷ []) ∷ []
unfolding unload seconds
unload_order = refl

-- The product of the conversion wraps.
seconds_wrap : seconds 9223372037 ≡ negsuc 9223372036709551615
unfolding seconds
seconds_wrap = refl

unload-Divides_example :
    Divides (timeout_for slow (pos 0)) (targets_of loaded []) (unload slow loaded (pos 0) [])
unload-Divides_example = unload-Divides slow loaded (pos 0) []
