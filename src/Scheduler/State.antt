-- ===== src/Scheduler/State.antt =====
-- internal/router/scheduler/scheduler.go and the state of fifo.go: the requests and events that
-- the run loop hands over, the Effects and Swapper interfaces, and the fields of FIFO.
--
-- Each handler runs to its end on the run-loop goroutine, so a handler is a function from state to
-- state. What it does to the outside is appended to `trace`, newest first, and what the outside
-- answers is a function of the trace so far: the answers may change with every effect.
use llemon_swap.Base.{
  eqb, ℕ, String, Bool, true, false, Option, none, some, List, [], ◌∷◌, ◌++◌, ltb, lookup,
  if◌then◌else◌,
}

-- `negsuc n` is -(n + 1).
pub data ℤ : Type 0 where
  pos : ℕ → ℤ
  negsuc : ℕ → ℤ

abbrev pub ltb_ℤ : ℤ → ℤ → Bool
ltb_ℤ (pos a) (pos b) = ltb a b
ltb_ℤ (pos a) (negsuc b) = false
ltb_ℤ (negsuc a) (pos b) = true
ltb_ℤ (negsuc a) (negsuc b) = ltb b a

abbrev pub eqb_ℤ : ℤ → ℤ → Bool
eqb_ℤ (pos a) (pos b) = eqb a b
eqb_ℤ (negsuc a) (negsuc b) = eqb a b
eqb_ℤ _ _ = false

pub data ProcessState : Type 0 where
  stopped starting ready stopping shutdown : ProcessState

abbrev pub is_ready : ProcessState → Bool
is_ready ready = true
is_ready _ = false

-- `external` is an error that another component made (a failed swap).
pub data Error : Type 0 where
  model_not_found concurrency_limit model_unloaded shutting_down : Error
  external : ℕ → Error

-- A request. `respond` is the identity of its Respond channel, `has_admit` says that Admit is not
-- nil, and `queued_at` is `none` for the zero time. Ctx is what the interface below knows of it.
pub record HandlerReq : Type 0 where
  pub model : String
  pub respond : ℕ
  pub has_admit : Bool
  pub queued_at : Option ℕ

pub record SwapDone : Type 0 where
  pub model_id : String
  pub err : Option Error

-- What a handler does to the outside: a send on a channel, or a call of Effects or Swapper.
pub data Effect : Type 0 where
  admission : ℕ → Option Error → Effect
  grant_serve : ℕ → String → Bool → Effect
  grant_error : ℕ → Error → Effect
  swap_start : String → List String → Effect
  start_swap : String → List String → Effect
  stop_processes : List String → Effect
  queue_delta : String → ℤ → Effect
  queue_wait : String → ℕ → Effect
  resident_admission fairness_promotion : String → Effect
  position : ℕ → ℕ → Effect

-- The answers of the outside after a trace. `is_done` says that the context of the request is done,
-- `takes_admission` that its caller receives on Admit first, and `takes_grant` is the result of
-- GrantServe.
pub record Effects : Type 0 where
  pub model_state : List Effect → String → Option ProcessState
  pub running_models : List Effect → List String
  pub is_done : List Effect → HandlerReq → Bool
  pub takes_admission : List Effect → HandlerReq → Bool
  pub takes_grant : List Effect → HandlerReq → String → Bool
  pub now : List Effect → ℕ

-- The eviction policy. EvictionFor is a pure decision.
pub record Swapper : Type 0 where
  pub eviction_for : String → List String → List String

-- config.LifecyclePoolConfig: the fields that the scheduler reads. The two bounds are in force when
-- they are positive, so a negative one reads as 0.
pub record LifecyclePool : Type 0 where
  pub resident_first : Bool
  pub max_resident_burst : ℕ
  pub max_resident_wait : ℕ

-- config.ModelConfig: the fields that the scheduler reads. An unset limit is 0.
pub record ModelConfig : Type 0 where
  pub concurrency_limit : ℕ
  pub lifecycle_pool : String

pub record ActiveSwap : Type 0 where
  pub model_id : String
  pub evict : List String
  pub waiters : List HandlerReq

-- The fields of FIFO that never change.
pub record Config : Type 0 where
  pub priority : String → ℤ
  pub limits : List (String × ℕ)
  pub models : List (String × ModelConfig)
  pub pools : List (String × LifecyclePool)

-- The fields of FIFO that do. A count that is missing in a Go map is 0 here.
pub record Fifo : Type 0 where
  pub active : List (String × ActiveSwap)
  pub reserved : String → ℕ
  pub in_flight : String → ℕ
  pub queued : List HandlerReq
  pub resident_bursts : String → ℕ
  pub trace : List Effect

abbrev pub default_concurrency_limit : ℕ
default_concurrency_limit = 10

pub limits_of : List (String × ModelConfig) → List (String × ℕ)
limits_of [] = []
limits_of ((id, mc) ∷ models) =
    (id, (if ltb 0 mc.concurrency_limit then mc.concurrency_limit else default_concurrency_limit))
    ∷ limits_of models

unfoldable pub new_config :
    (String → ℤ) → List (String × ModelConfig) → List (String × LifecyclePool) → Config
unfolding limits_of
new_config priority models pools = record {
  priority = priority;
  limits = limits_of models;
  models = models;
  pools = pools;
}

unfoldable pub new_fifo : Fifo
new_fifo = record {
  active = [];
  reserved = λ m. 0;
  in_flight = λ m. 0;
  queued = [];
  resident_bursts = λ m. 0;
  trace = [];
}

-- The per-model concurrency cap.
unfoldable pub limit : Config → String → ℕ
unfolding lookup
limit cfg m = elim (lookup m cfg.limits) [ some l ↦ l | none ↦ default_concurrency_limit ]

abbrev pub emit : Effect → Fifo → Fifo
emit e s = record s { trace = e ∷ s.trace }

abbrev pub emit_all : List Effect → Fifo → Fifo
emit_all es s = record s { trace = es ++ s.trace }
