-- ===== src/Process/Tests.antt =====
-- The run loop and doStart at concrete inputs.
use llemon_swap.Base.{
  ◌+◌, ◌≡◌, refl, true, false, none, some, List, [], ◌∷◌, eqb, leb, if◌then◌else◌,
}
use llemon_swap.Process.Types.{kill_process, StartReq, StopReq, StartResult, ProcessEffect}
use llemon_swap.Process.Start.{StartEnv, do_start, started, do_start_total, IsClean}
use llemon_swap.Process.Loop.{
  ProcessLoop, ProcessRuns, begin, turn, new_process, finished, parent_ended, wait_ready,
  start_request, stop_request, early_answer, set_state, send_all, start_asks, start_leaves,
  on_start, on_wait_ready, on_stop,
}
use llemon_swap.Process.Settled.{IsSettled, Runs-IsSettled}
use llemon_swap.Process.Transitions.{Runs-Follows}
use llemon_swap.Process.Transitions.Path.{Follows}
use llemon_swap.Process.Answers.{Runs-answers, over-answers}
use llemon_swap.Process.Answers.Owed.{replies, parked, count}

-- The second health check passes.
abbrev second_round : StartEnv
second_round = record {
  proxy = "http://localhost:5800";
  command_ok = true;
  url_ok = true;
  starts = true;
  cmd = 1;
  cmd_done = 2;
  cancel = 3;
  handler = 4;
  done_first = false;
  check_endpoint = "/health";
  done_in_pause = false;
  rounds = λ i. record {
    before = none;
    late = leb 3 i;
    status = if eqb i 1 then 200 else 503;
    done_after = false;
    pause = none;
  };
  dies_in_time = true;
}

do_start-second_round : do_start second_round 2 ≡ some (started second_round, [])
unfolding do_start
do_start-second_round = refl

do_start-no_round : do_start second_round 1 ≡ none
unfolding do_start
do_start-no_round = refl

abbrev ensure_ready : StartReq
ensure_ready = record { timeout = 60; respond = 8; block = false }

abbrev run_req : StartReq
run_req = record { timeout = 60; respond = 10; block = true }

abbrev stop_req : StopReq
stop_req = record { timeout = 5; respond = 9 }

-- A subscriber waits, a start comes up, it is stopped, and a second start is cut short by the end of
-- the parent context.
abbrev waiting : ProcessLoop
waiting = on_wait_ready 7 new_process

abbrev serving : ProcessLoop
serving = on_start 0 ensure_ready (started second_round) [] finished waiting

abbrev halted : ProcessLoop
halted = on_stop stop_req true serving

abbrev gone : ProcessLoop
gone = on_start 0 run_req (started second_round) [] (parent_ended true) halted

serving_runs : ProcessRuns 0 (8 ∷ 7 ∷ []) [] serving
unfolding on_wait_ready on_start early_answer start_asks start_leaves
serving_runs =
    turn (turn begin refl (wait_ready 7 refl refl refl)) refl
      (start_request ensure_ready second_round 2 _ _ finished do_start-second_round refl refl refl)

gone_runs : ProcessRuns 0 (10 ∷ 9 ∷ 8 ∷ 7 ∷ []) (10 ∷ []) gone
unfolding on_wait_ready on_start on_stop early_answer set_state start_asks start_leaves
gone_runs = turn (turn serving_runs refl (stop_request stop_req true refl refl refl)) refl (
    start_request run_req second_round 2 _ _ (parent_ended true) do_start-second_round refl refl
      refl)

gone_ended : gone.ended ≡ true
unfolding on_wait_ready on_start on_stop early_answer set_state
gone_ended = refl

do_start_total_example :
    (p : StartResult × List ProcessEffect) × (do_start second_round 4 ≡ some p)
    × IsClean second_round p
do_start_total_example = do_start_total second_round 3 refl

Runs-IsSettled_example : IsSettled serving
Runs-IsSettled_example = Runs-IsSettled serving_runs

Runs-Follows_example : Follows gone.trace gone.state
Runs-Follows_example = Runs-Follows gone_runs

Runs-answers_example :
    replies 7 serving.trace + parked 7 serving + count 7 [] ≡ count 7 (8 ∷ 7 ∷ [])
Runs-answers_example = Runs-answers 7 serving_runs

over-answers_example : replies 9 gone.trace + count 9 (10 ∷ []) ≡ count 9 (10 ∷ 9 ∷ 8 ∷ 7 ∷ [])
over-answers_example = over-answers 9 gone_runs gone_ended

-- The subscriber and the caller of EnsureReady are told that the process is ready, the stop is
-- answered, and the interrupted Run is not.
gone-replies :
    replies 7 gone.trace ∷ replies 8 gone.trace ∷ replies 9 gone.trace ∷ replies 10 gone.trace ∷ []
    ≡ 1 ∷ 1 ∷ 1 ∷ 0 ∷ []
unfolding on_wait_ready on_start on_stop early_answer set_state send_all replies kill_process
gone-replies = refl
