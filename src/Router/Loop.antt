-- ===== src/Router/Loop.antt =====
-- internal/router/base.go: the run loop together with the handlers that it hands out.
use llemon_swap.Base.{ℕ, ◌≡◌, ◌+◌, ◌-◌, ◌<◌, String, Option, some, ◌>>=◌, update}
use llemon_swap.Scheduler.State.{Effects, Swapper, Config, Fifo, new_fifo}
use llemon_swap.Scheduler.Ledger.Run.{Event, serve_done, handle}
use llemon_swap.Router.Grants.{grants}

-- The scheduler, and how many handlers of each model have reported their end.
pub record Router : Type 0 where
  pub fifo : Fifo
  pub reported : String → ℕ

abbrev pub new_router : Router
unfolding new_fifo
new_router = record { fifo = new_fifo; reported = λ m. 0 }

-- trackedServe: the handlers of a model that were handed out and have not reported their end yet.
abbrev pub serving : Router → String → ℕ
serving r m = grants m r.fifo.trace - r.reported m

-- Its deferred send is the only source of the event: it comes from a handler that was handed out,
-- once.
abbrev pub IsSent : Event → Router → Type 0
IsSent (serve_done m) r = 0 < serving r m
IsSent _ r = Unit

abbrev pub report : Event → (String → ℕ) → String → ℕ
report (serve_done m) reported = update reported m (reported m + 1)
report _ reported = reported

module _ (eff : Effects) (planner : Swapper) (cfg : Config) where
  -- One round of `run`, up to the shutdown; `none` is a panic.
  unfoldable pub run_event : Event → Router → Option Router
  unfolding handle
  run_event ev r = do
    s ← handle eff planner cfg ev r.fifo
    some (record { fifo = s; reported = report ev r.reported })

  -- The states of the run loop under the events that its callers, its swaps and its handlers send.
  pub data Routes : Router → Type 0 where
    opened : Routes new_router
    received :
        {r r' : Router}
        → Routes r
        → (ev : Event) → IsSent ev r
        → run_event ev r ≡ some r'
        → Routes r'
