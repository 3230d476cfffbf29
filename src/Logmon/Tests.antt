-- ===== src/Logmon/Tests.antt =====
-- The history of a small buffer.
use llemon_swap.Base.{◌≡◌, refl, none, List, [], ◌∷◌, last, arith}
use llemon_swap.Logmon.{LogCall, put, clear_log, log_run, log_history}
use llemon_swap.Logmon.Runs.{written, log_history-log_run}

-- A write round the end, one longer than the buffer, a clear, and one more.
abbrev first_calls : List LogCall
first_calls = put (1 ∷ 2 ∷ 3 ∷ []) ∷ put (4 ∷ 5 ∷ []) ∷ []

abbrev later_calls : List LogCall
later_calls =
    put (1 ∷ 2 ∷ 3 ∷ 4 ∷ 5 ∷ 6 ∷ []) ∷ put (7 ∷ []) ∷ clear_log ∷ put (8 ∷ 9 ∷ []) ∷ put [] ∷ []

history-first : log_history (log_run 4 first_calls none) ≡ 2 ∷ 3 ∷ 4 ∷ 5 ∷ []
unfolding log_history log_run
history-first = refl

history-later : log_history (log_run 4 later_calls none) ≡ 8 ∷ 9 ∷ []
unfolding log_history log_run
history-later = refl

log_history-log_run_example :
    log_history (log_run 4 first_calls none) ≡ last 4 (written first_calls [])
log_history-log_run_example = log_history-log_run 4 (omega arith) first_calls
