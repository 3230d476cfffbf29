-- ===== src/Server/Selector/Tests.antt =====
-- The strategies on two local models and a peer's.
use llemon_swap.Base.{
  ◌≡◌, refl, String, true, false, none, some, List, [], ◌∷◌, ◌==◌, if◌then◌else◌,
}
use llemon_swap.Scheduler.State.{ready, starting, stopping}
use llemon_swap.Server.Selector.{
  SpilloverState, Resolve, Running, new_spillover, strategy_spillover, chosen, release_target,
  strategy_warm,
}
use llemon_swap.Server.Selector.Spill.{Spills, strategy_spillover-Spills}
use llemon_swap.Server.Selector.Counts.{Serving, fresh, sent, done, count_of, inflight-count_of}
use llemon_swap.Server.Selector.Warm.{IsWarmest, strategy_warm-IsWarmest}

abbrev resolve : Resolve
resolve t = if t == "p" then ("peer/p", false) else (t, true)

abbrev names : List String
names = "a" ∷ "b" ∷ "p" ∷ []

-- Only `a` runs.
abbrev a_runs : Running
a_runs m = if m == "a" then some ready else none

abbrev idle_state : SpilloverState
idle_state = new_spillover resolve 1 names

after : String → SpilloverState → SpilloverState
unfolding strategy_spillover
after t s = elim (strategy_spillover a_runs s) [ chosen u s' ↦ s' | _ ↦ s ]

-- The first request goes to `a`, and the second to the first cold target.
first_choice : strategy_spillover a_runs idle_state ≡ chosen "a" (after "a" idle_state)
unfolding strategy_spillover new_spillover after
first_choice = refl

second_choice :
    strategy_spillover a_runs (after "a" idle_state) ≡ chosen "b" (after "b" (after "a" idle_state))
unfolding strategy_spillover new_spillover after
second_choice = refl

strategy_spillover-Spills_example :
    Spills a_runs (after "a" idle_state) (strategy_spillover a_runs (after "a" idle_state))
strategy_spillover-Spills_example = strategy_spillover-Spills a_runs (after "a" idle_state)

two_sent : Serving resolve 1 names ("b" ∷ "a" ∷ []) (after "b" (after "a" idle_state))
two_sent = sent (sent fresh a_runs first_choice) a_runs second_choice

inflight-count_of_example :
    (release_target "a" (after "b" (after "a" idle_state))).inflight "b"
    ≡ count_of resolve "b" ("b" ∷ [])
inflight-count_of_example = inflight-count_of resolve 1 names (done ("b" ∷ []) [] "a" two_sent) "b"

-- `a` is stopping and `c` is starting.
abbrev c_starts : Running
c_starts m = if m == "a" then some stopping else if m == "c" then some starting else none

strategy_warm-IsWarmest_example :
    (t : String) × (strategy_warm resolve c_starts ("a" ∷ "b" ∷ "c" ∷ []) ≡ some t)
    × IsWarmest resolve c_starts ("a" ∷ "b" ∷ "c" ∷ []) t
strategy_warm-IsWarmest_example = strategy_warm-IsWarmest resolve c_starts "a" ("b" ∷ "c" ∷ [])

warm-c : strategy_warm resolve c_starts ("a" ∷ "b" ∷ "c" ∷ []) ≡ some "c"
unfolding strategy_warm
warm-c = refl
