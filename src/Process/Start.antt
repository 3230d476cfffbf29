-- ===== src/Process/Start.antt =====
-- internal/process/process_command.go: doStart, up to the health checks.
use llemon_swap.Base.{
  ℕ, zero, suc, ◌+◌, String, ◌≡◌, refl, Bool, true, false, not, Option, none, some, List, [], ◌∷◌,
  ◌==◌, eqb, arith, Returns, Option-cases, subst, inl, inr, ◌⊎◌, if◌then◌else◌,
}
use llemon_swap.Process.Types.{
  ProcessError, aborted, proxy_missing, bad_command, bad_proxy_url, start_failed, exited_early,
  check_timed_out, StartResult, ProcessEffect, cancel_context, kill_process,
}

-- The case that a select takes, where it does not go on.
pub data Interrupt : Type 0 where
  context_done command_done : Interrupt

-- What one round of the health check sees: an interrupt before the check, whether the deadline has
-- passed, the status of the answer, whether the context is done then, and an interrupt of the pause.
pub record Round : Type 0 where
  pub before : Option Interrupt
  pub late : Bool
  pub status : ℕ
  pub done_after : Bool
  pub pause : Option Interrupt

-- The configuration that doStart reads, and what it sees outside.
pub record StartEnv : Type 0 where
  pub proxy : String
  pub command_ok : Bool
  pub url_ok : Bool
  pub starts : Bool
  pub cmd : ℕ
  pub cmd_done : ℕ
  pub cancel : ℕ
  pub handler : ℕ
  pub done_first : Bool
  pub check_endpoint : String
  pub done_in_pause : Bool
  pub rounds : ℕ → Round
  pub dies_in_time : Bool

abbrev pub failure : ProcessError → StartResult
failure e = record { cmd = none; cmd_done = none; cancel = none; handler = none; err = some e }

abbrev or_else {ℓ} : {A : Type ℓ} → Option A → Option A → Option A
or_else (some a) later = some a
or_else none later = later

module _ (env : StartEnv) where
  abbrev pub started : StartResult
  started = record {
    cmd = some env.cmd;
    cmd_done = some env.cmd_done;
    cancel = some env.cancel;
    handler = some env.handler;
    err = none;
  }

  -- The closures `abort` and `prematureExit`.
  abbrev pub abort : ProcessError → StartResult × List ProcessEffect
  abort e = (failure e, kill_process (some env.cmd) (some env.cancel) env.dies_in_time)

  abbrev pub premature_exit : StartResult × List ProcessEffect
  premature_exit = (failure exited_early, cancel_context env.cancel ∷ [])

  abbrev pub interrupted : Interrupt → StartResult × List ProcessEffect
  interrupted context_done = abort aborted
  interrupted command_done = premature_exit

  -- The end of round `r` where there is one.
  unfoldable pub check_round : Round → Option (StartResult × List ProcessEffect)
  check_round r = elim r.before [
    | some i ↦ some (interrupted i)
    | none ↦
        if r.late
        then some (abort check_timed_out)
        else if eqb r.status 200
        then some (started, [])
        else if r.done_after
        then some (abort aborted)
        else elim r.pause [ some i ↦ some (interrupted i) | none ↦ none ]
  ]

  -- The loop from round `i` on, for at most `fuel` rounds.
  unfoldable pub check_loop : ℕ → ℕ → Option (StartResult × List ProcessEffect)
  unfolding check_round
  check_loop zero i = none
  check_loop (suc fuel) i = or_else (check_round (env.rounds i)) (check_loop fuel (suc i))

  -- `strings.TrimSpace` of the endpoint is left to whoever gives it.
  unfoldable pub do_start : ℕ → Option (StartResult × List ProcessEffect)
  unfolding check_loop
  do_start fuel =
      if env.proxy == ""
      then some (failure proxy_missing, [])
      else if not env.command_ok
      then some (failure bad_command, [])
      else if not env.url_ok
      then some (failure bad_proxy_url, [])
      else if not env.starts
      then some (failure start_failed, cancel_context env.cancel ∷ [])
      else if env.done_first
      then some (abort aborted)
      else if env.check_endpoint == "none"
      then some (started, [])
      else if env.done_in_pause
      then some (abort aborted)
      else check_loop fuel 0

  -- How a start comes out: the command runs and nothing was torn down; it was never created; or the
  -- start failed and the command was killed, or its context cancelled.
  pub data IsClean : StartResult × List ProcessEffect → Type 0 where
    is_started : {p : StartResult × List ProcessEffect} → p ≡ (started, []) → IsClean p
    is_refused :
        {p : StartResult × List ProcessEffect} (e : ProcessError)
        → (e ≡ proxy_missing) ⊎ (e ≡ bad_command) ⊎ (e ≡ bad_proxy_url)
        → p ≡ (failure e, [])
        → IsClean p
    is_killed : {p : StartResult × List ProcessEffect} (e : ProcessError) → p ≡ abort e → IsClean p
    is_cancelled :
        {p : StartResult × List ProcessEffect} (e : ProcessError)
        → p ≡ (failure e, cancel_context env.cancel ∷ [])
        → IsClean p

  -- What is returned, where something is, comes out so.
  abbrev Yields : Option (StartResult × List ProcessEffect) → Type 0
  Yields none = Unit
  Yields (some p) = IsClean p

  if-Yields :
      (b : Bool) (x y : Option (StartResult × List ProcessEffect))
      → Yields x
      → Yields y
      → Yields (if b then x else y)
  if-Yields true x y h k = h
  if-Yields false x y h k = k

  interrupted-IsClean : (i : Interrupt) → IsClean (interrupted i)
  interrupted-IsClean context_done = is_killed aborted refl
  interrupted-IsClean command_done = is_cancelled exited_early refl

  pause-Yields :
      (i : Option Interrupt) → Yields (elim i [ some j ↦ some (interrupted j) | none ↦ none ])
  pause-Yields none = tt
  pause-Yields (some j) = interrupted-IsClean j

  check_round-Yields : (r : Round) → Yields (check_round r)
  unfolding check_round
  check_round-Yields r = elim (Option-cases r.before) [
    | inl e ↦ rw e (
        if-Yields r.late _ _ (is_killed check_timed_out refl) (
          if-Yields (eqb r.status 200) _ _ (is_started refl)
            (if-Yields r.done_after _ _ (is_killed aborted refl) (pause-Yields r.pause))))
    | inr (i, e) ↦ rw e (interrupted-IsClean i)
  ]

  or_else-Yields :
      (x y : Option (StartResult × List ProcessEffect)) → Yields x → Yields y → Yields (or_else x y)
  or_else-Yields none y h k = k
  or_else-Yields (some p) y h k = h

  check_loop-Yields : (fuel i : ℕ) → Yields (check_loop fuel i)
  unfolding check_loop
  check_loop-Yields zero i = tt
  check_loop-Yields (suc fuel) i =
      or_else-Yields _ _ (check_round-Yields (env.rounds i)) (check_loop-Yields fuel (suc i))

  do_start-Yields : (fuel : ℕ) → Yields (do_start fuel)
  unfolding do_start
  do_start-Yields fuel =
      if-Yields (env.proxy == "") _ _ (is_refused proxy_missing (inl refl) refl) (
        if-Yields (not env.command_ok) _ _ (is_refused bad_command (inr (inl refl)) refl) (
          if-Yields (not env.url_ok) _ _ (is_refused bad_proxy_url (inr (inr refl)) refl) (
            if-Yields (not env.starts) _ _ (is_cancelled start_failed refl) (
              if-Yields env.done_first _ _ (is_killed aborted refl) (
                if-Yields (env.check_endpoint == "none") _ _ (is_started refl) (
                  if-Yields env.done_in_pause _ _ (is_killed aborted refl)
                    (check_loop-Yields fuel 0)))))))

  -- Whatever doStart returns, after any number of rounds: either the command runs and has not been
  -- touched, or the result is an error with no command, no context and no handler, and then the
  -- command was never created (the proxy is missing, the command or the URL is bad), or it was
  -- killed, or its context was cancelled.
  pub do_start-IsClean :
      (fuel : ℕ) (p : StartResult × List ProcessEffect) → do_start fuel ≡ some p → IsClean p
  do_start-IsClean fuel p h = subst Yields h (do_start-Yields fuel)

  -- A round after the deadline ends the loop.
  late-check_round : (r : Round) → r.late ≡ true → Returns (check_round r) (λ _. Unit)
  unfolding check_round
  late-check_round r h = elim (Option-cases r.before) [
    | inl e ↦ rw e (rw h tt)
    | inr (i, e) ↦ rw e tt
  ]

  first-Returns :
      (x y : Option (StartResult × List ProcessEffect))
      → Returns x (λ _. Unit)
      → Returns (or_else x y) (λ _. Unit)
  first-Returns none y h = absurd h
  first-Returns (some p) y h = tt

  later-Returns :
      (x y : Option (StartResult × List ProcessEffect))
      → Returns y (λ _. Unit)
      → Returns (or_else x y) (λ _. Unit)
  later-Returns none y h = h
  later-Returns (some p) y h = tt

  late-at : {i j : ℕ} → i ≡ j → (env.rounds j).late ≡ true → (env.rounds i).late ≡ true
  late-at e h = rw e h

  check_loop-Returns :
      (k i : ℕ) → (env.rounds (i + k)).late ≡ true → Returns (check_loop (suc k) i) (λ _. Unit)
  unfolding check_loop
  check_loop-Returns zero i h =
      first-Returns _ _
        (late-check_round (env.rounds i) (late-at {i = i} {j = i + 0} (omega arith) h))
  check_loop-Returns (suc k) i h =
      later-Returns (check_round (env.rounds i)) _
        (check_loop-Returns k (suc i) (late-at {i = suc i + k} {j = i + suc k} (omega arith) h))

  if-Returns :
      (b : Bool) (x : StartResult × List ProcessEffect)
      (y : Option (StartResult × List ProcessEffect))
      → Returns y (λ _. Unit)
      → Returns (if b then some x else y) (λ _. Unit)
  if-Returns true x y h = tt
  if-Returns false x y h = h

  do_start-Returns : (k : ℕ) → (env.rounds k).late ≡ true → Returns (do_start (suc k)) (λ _. Unit)
  unfolding do_start
  do_start-Returns k h = if-Returns (env.proxy == "") _ _ (
      if-Returns (not env.command_ok) _ _ (
        if-Returns (not env.url_ok) _ _ (
          if-Returns (not env.starts) _ _ (
            if-Returns env.done_first _ _ (
              if-Returns (env.check_endpoint == "none") _ _ (
                if-Returns env.done_in_pause _ _
                  (check_loop-Returns k 0 (late-at {i = 0 + k} {j = k} (omega arith) h))))))))

  result_of :
      (o : Option (StartResult × List ProcessEffect))
      → Returns o (λ _. Unit)
      → (p : StartResult × List ProcessEffect) × (o ≡ some p)
  result_of none h = absurd h
  result_of (some p) h = (p, refl)

  -- When the deadline of the health check has passed at the start of round `k`, doStart returns
  -- within `k + 1` rounds, and it comes out clean: either the command runs and has not been touched,
  -- or the result is an error with no command, context or handler, and then the command was never
  -- created (the proxy is missing, the command or the URL is bad), or it was killed, or its context
  -- was cancelled.
  pub do_start_total :
      (k : ℕ)
      → (env.rounds k).late ≡ true
      → (p : StartResult × List ProcessEffect) × (do_start (suc k) ≡ some p) × IsClean p
  do_start_total k h =
      let r = result_of (do_start (suc k)) (do_start-Returns k h) in
      (r.0, r.1, do_start-IsClean (suc k) r.0 r.1)
