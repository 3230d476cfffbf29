-- ===== src/Process/Answers/Owed.antt =====
-- process_command.go: what the parts of the loop owe to a channel.
use llemon_swap.Base.{
  ℕ, ◌+◌, ◌≡◌, refl, Bool, true, false, Option, none, some, List, [], ◌∷◌, ◌++◌, arith, eqb,
  if◌then◌else◌,
}
use llemon_swap.Scheduler.State.{ProcessState}
use llemon_swap.Process.Types.{
  ProcessError, ProcessEffect, reply, kill_process, StartReq, StartResult,
}
use llemon_swap.Process.Loop.{
  ProcessLoop, emit, set_state, send_all, notify_waiters, respond_run, tear_down, clear_exited,
  latch, park_or_answer,
}

unfoldable pub count : ℕ → List ℕ → ℕ
count ch [] = 0
count ch (c ∷ cs) = (if eqb c ch then 1 else 0) + count ch cs

pub count-append : (ch : ℕ) (xs ys : List ℕ) → count ch (xs ++ ys) ≡ count ch xs + count ch ys
unfolding count
count-append ch [] ys = omega arith
count-append ch (x ∷ xs) ys = omega (arith, count-append ch xs ys)

abbrev replies_in : ℕ → ProcessEffect → ℕ
replies_in ch (reply c err) = if eqb c ch then 1 else 0
replies_in ch _ = 0

-- How many answers a channel was sent.
unfoldable pub replies : ℕ → List ProcessEffect → ℕ
replies ch [] = 0
replies ch (e ∷ es) = replies_in ch e + replies ch es

pub replies-append :
    (ch : ℕ) (es fs : List ProcessEffect) → replies ch (es ++ fs) ≡ replies ch es + replies ch fs
unfolding replies
replies-append ch [] fs = omega arith
replies-append ch (e ∷ es) fs = omega (arith, replies-append ch es fs)

abbrev parked_run : ℕ → Option ℕ → ℕ
parked_run ch none = 0
parked_run ch (some c) = if eqb c ch then 1 else 0

-- How often a channel is parked: as a WaitReady subscriber, or as the Run caller.
unfoldable pub parked : ℕ → ProcessLoop → ℕ
unfolding count
parked ch l = count ch l.ready_waiters + parked_run ch l.run_resp

-- The answers sent to a channel and those still due.
pub record Owes (ch n : ℕ) (l : ProcessLoop) : Type 0 where
  pub total : replies ch l.trace + parked ch l ≡ n

module _ (ch : ℕ) where
  pub kill_process-replies : (c d : Option ℕ) (b : Bool) → replies ch (kill_process c d b) ≡ 0
  unfolding kill_process replies
  kill_process-replies c none b = refl
  kill_process-replies none (some d) b = refl
  kill_process-replies (some c) (some d) true = refl
  kill_process-replies (some c) (some d) false = refl

  send_all-replies :
      (err : Option ProcessError) (ws : List ℕ) (trace : List ProcessEffect)
      → replies ch (send_all err ws trace) ≡ count ch ws + replies ch trace
  unfolding send_all replies count
  send_all-replies err [] trace = omega arith
  send_all-replies err (w ∷ ws) trace = omega (arith, send_all-replies err ws (reply w err ∷ trace))

pub as_much : (ch : ℕ) (l : ProcessLoop) {k n : ℕ} → Owes ch k l → k ≡ n → Owes ch n l
as_much ch l o e = omega arith

module _ (ch : ℕ) (l : ProcessLoop) {n : ℕ} (owes : Owes ch n l) where
  emit-Owes : (es : List ProcessEffect) → Owes ch (replies ch es + n) (emit es l)
  unfolding parked
  emit-Owes es = omega (arith, replies-append ch es l.trace)

  pub quiet-Owes : (es : List ProcessEffect) → replies ch es ≡ 0 → Owes ch n (emit es l)
  quiet-Owes es q = as_much ch (emit es l) (emit-Owes es) (omega arith)

  pub notify_waiters-Owes : (err : Option ProcessError) → Owes ch n (notify_waiters err l)
  unfolding notify_waiters parked
  notify_waiters-Owes err = omega (arith, send_all-replies ch err l.ready_waiters l.trace)

  pub respond_run-Owes : (err : Option ProcessError) → Owes ch n (respond_run err l)
  unfolding respond_run parked replies
  respond_run-Owes err = ground arith

  pub tear_down-Owes : (b : Bool) → Owes ch n (tear_down b l)
  unfolding parked
  tear_down-Owes b = omega (
    arith,
    replies-append ch (kill_process l.cmd l.cmd_cancel b) l.trace,
    kill_process-replies ch l.cmd l.cmd_cancel b,
  )

  pub set_state-Owes : (s : ProcessState) → Owes ch n (set_state s l)
  unfolding set_state parked replies
  set_state-Owes s = ground arith

  pub clear_exited-Owes : Owes ch n (clear_exited l)
  unfolding clear_exited parked replies
  clear_exited-Owes = ground arith

  pub return-Owes : Owes ch n (record l { ended = true })
  unfolding parked
  return-Owes = omega arith

  pub latch-Owes : (res : StartResult) → Owes ch n (latch res l)
  unfolding parked
  latch-Owes res = omega arith

  pub subscribe-Owes :
      (c : ℕ)
      → Owes ch (count ch (c ∷ []) + n) (record l { ready_waiters = l.ready_waiters ++ c ∷ [] })
  unfolding parked
  subscribe-Owes c = omega (arith, count-append ch l.ready_waiters (c ∷ []))

  pub park_or_answer-Owes :
      (req : StartReq)
      → l.run_resp ≡ none
      → Owes ch (count ch (req.respond ∷ []) + n) (park_or_answer req l)
  unfolding parked replies
  park_or_answer-Owes req h = ground arith

  pub answer-Owes :
      (c : ℕ) (err : Option ProcessError)
      → Owes ch (count ch (c ∷ []) + n) (emit (reply c err ∷ []) l)
  unfolding count replies parked
  answer-Owes c err = omega arith

pub if-Owes :
    (ch n : ℕ) (b : Bool) (l m : ProcessLoop)
    → Owes ch n l
    → Owes ch n m
    → Owes ch n (if b then l else m)
if-Owes ch n true l m h k = h
if-Owes ch n false l m h k = k

pub release-Owes :
    (ch n : ℕ) (l : ProcessLoop) (a b : Option ProcessError)
    → Owes ch n l
    → Owes ch n (respond_run b (notify_waiters a l))
release-Owes ch n l a b h = respond_run-Owes ch _ (notify_waiters-Owes ch l h a) b
