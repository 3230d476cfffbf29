-- ===== src/Scheduler/Ledger.antt =====
-- The invariant of the FIFO scheduler (fifo.go): who holds the reserved slots of a model, and which
-- swaps may be in flight together.
pub mod Parts
pub mod Grants
pub mod Steps
pub mod Order
pub mod Drain
pub mod Cancel
pub mod Events
pub mod Unload
pub mod Shutdown
pub mod Run
use llemon_swap.Base.{
  ℕ, suc, ◌+◌, ◌≤◌, String, ◌≡◌, ◌≢◌, Bool, true, false, none, some, List, [], ◌∷◌, ◌==◌, length,
  lookup, contains, All, Unique, if◌then◌else◌,
}
use llemon_swap.Scheduler.State.{HandlerReq, ActiveSwap, Config, Fifo, limit}
use llemon_swap.Scheduler.Collision.{overlap}

abbrev pub IsFor : String → HandlerReq → Type 0
IsFor m req = req.model ≡ m

-- How many of the requests ask for the model.
abbrev pub count : String → List HandlerReq → ℕ
count m [] = 0
count m (req ∷ reqs) = let rest = count m reqs in if req.model == m then suc rest else rest

-- How many callers wait on the swap towards the model.
abbrev pub waiting : String → List (String × ActiveSwap) → ℕ
waiting m active = elim (lookup m active) [ none ↦ 0 | some sw ↦ length sw.waiters ]

-- `held` are the requests that hold a slot and wait outside of `active`: between two events, those
-- of the queue.
pub record Inv (cfg : Config) (held : List HandlerReq) (active : List (String × ActiveSwap))
    (reserved in_flight : String → ℕ) : Type 0 where
  pub unique : Unique active
  -- every slot is held by a served, a queued or a waiting request
  pub books : (m : String) → reserved m ≡ in_flight m + count m held + waiting m active
  -- the concurrency limit
  pub within : (m : String) → reserved m ≤ limit cfg m
  -- a swap's waiters ask for its model
  pub owned :
      (id : String) (sw : ActiveSwap) → lookup id active ≡ some sw → All (IsFor id) sw.waiters
  -- no swap stops the target of another one, nor a model that another one stops
  pub apart :
      (i j : String) (a b : ActiveSwap)
      → lookup i active ≡ some a
      → lookup j active ≡ some b
      → i ≢ j
      → (contains a.evict j ≡ false) × (overlap a.evict b.evict ≡ false)
  -- no swap stops a model that serves a request
  pub idle :
      (i m : String) (a : ActiveSwap)
      → lookup i active ≡ some a
      → contains a.evict m ≡ true
      → in_flight m ≡ 0

-- The invariant of a state in which `held` wait outside of the swaps in flight.
abbrev pub Holds : Config → List HandlerReq → Fifo → Type 0
Holds cfg held s = Inv cfg held s.active s.reserved s.in_flight

-- The invariant between two events.
abbrev pub IsConsistent : Config → Fifo → Type 0
IsConsistent cfg s = Holds cfg s.queued s

-- What a step leaves: the invariant over `held`, and the swaps and the queue as they were.
pub record Step (cfg : Config) (held : List HandlerReq) (active : List (String × ActiveSwap))
    (s s' : Fifo) : Type 0 where
  pub inv : Inv cfg held active s'.reserved s'.in_flight
  pub same_active : s'.active ≡ s.active
  pub same_queue : s'.queued ≡ s.queued

-- What a step leaves that only reports: all that the invariant speaks of.
pub record Same (s s' : Fifo) : Type 0 where
  pub reserved : s'.reserved ≡ s.reserved
  pub in_flight : s'.in_flight ≡ s.in_flight
  pub active : s'.active ≡ s.active
  pub queued : s'.queued ≡ s.queued
