-- ===== src/Server/Selector.antt =====
-- internal/server/selector.go: the strategies that choose the target of a selector, and the counts of
-- the spillover strategy. The states of the running processes come from the router.
pub mod Least
pub mod Spill
pub mod Counts
pub mod Warm
pub mod Tests
use llemon_swap.Base.{
  ℕ, zero, suc, ◌+◌, ◌-◌, ◌%◌, ◌^◌, String, Bool, true, false, not, ◌&&◌, ◌||◌, Option, none, some,
  List, [], ◌∷◌, ◌++◌, ◌==◌, ltb, eqb, length, update, is_empty, if◌then◌else◌,
}
use llemon_swap.Scheduler.State.{ProcessState, stopped, starting, ready, stopping, shutdown}
use llemon_swap.Process.Loop.{same_state}

pub record SpilloverTarget : Type 0 where
  pub target : String
  pub model_id : String
  pub local : Bool

pub record SpilloverState : Type 0 where
  pub spillover : ℕ
  pub targets : List SpilloverTarget
  pub inflight : String → ℕ
  pub rr : ℕ

abbrev pub Running : Type 0
Running = String → Option ProcessState

-- The resolution of a target name: the model's name, and whether it is a local one. A peer's model is
-- known by its full name.
abbrev pub Resolve : Type 0
Resolve = String → String × Bool

unfoldable pub new_targets : Resolve → List String → List SpilloverTarget
new_targets resolve [] = []
new_targets resolve (t ∷ ts) =
    record { target = t; model_id = (resolve t).0; local = (resolve t).1 } ∷ new_targets resolve ts

unfoldable pub new_spillover : Resolve → ℕ → List String → SpilloverState
unfolding new_targets
new_spillover resolve spillover names = record {
  spillover = spillover;
  targets = new_targets resolve names;
  inflight = λ m. 0;
  rr = 0;
}

unfoldable pub reserve : SpilloverTarget → SpilloverState → String × SpilloverState
reserve t s =
    (t.target, record s { inflight = update s.inflight t.model_id (s.inflight t.model_id + 1) })

-- The smallest count of the targets: `none`, which stands for -1, where there is no target.
unfoldable pub minimum_from : (String → ℕ) → Option ℕ → List SpilloverTarget → Option ℕ
minimum_from inflight least [] = least
minimum_from inflight least (t ∷ ts) =
    let count = inflight t.model_id in
    minimum_from inflight
      (elim least [ none ↦ some count | some m ↦ if ltb count m then some count else some m ]) ts

unfoldable pub tied_with : (String → ℕ) → Option ℕ → List SpilloverTarget → List SpilloverTarget
tied_with inflight least [] = []
tied_with inflight least (t ∷ ts) =
    let others = tied_with inflight least ts in
    elim least [
      | none ↦ others
      | some m ↦ if eqb (inflight t.model_id) m then t ∷ others else others
    ]

abbrev pub get_elem? {ℓ} : {A : Type ℓ} → List A → ℕ → Option A
get_elem? [] i = none
get_elem? (x ∷ xs) zero = some x
get_elem? (x ∷ xs) (suc i) = get_elem? xs i

-- The turn of the round robin among the tied targets: `none` is the panic of an index out of range, or
-- of a remainder by zero.
unfoldable pub pick_tied : SpilloverState → Option ℕ → List SpilloverTarget → Option SpilloverTarget
unfolding tied_with
pick_tied s least targets =
    let tied = tied_with s.inflight least targets in get_elem? tied (s.rr % length tied)

abbrev pub reserve_picked :
    Option SpilloverTarget → SpilloverState → Option (String × SpilloverState)
reserve_picked none s = none
reserve_picked (some t) s = some (reserve t (record s { rr = (s.rr + 1) % 2 ^ 64 }))

unfoldable pub reserve_least_busy :
    List SpilloverTarget → SpilloverState → Option (String × SpilloverState)
unfolding reserve minimum_from pick_tied
reserve_least_busy targets s =
    reserve_picked (pick_tied s (minimum_from s.inflight none targets) targets) s

-- Whether a target takes requests now, could be started for them, or is out of use.
pub data Use : Type 0 where
  active cold unusable : Use

unfoldable pub use_of : Running → (String → ℕ) → SpilloverTarget → Use
use_of running inflight t =
    let busy = ltb 0 (inflight t.model_id) in
    if not t.local then (if busy then active else cold) else elim (running t.model_id) [
      | some stopping ↦ unusable
      | some shutdown ↦ unusable
      | some ready ↦ active
      | some starting ↦ active
      | some stopped ↦ if busy then active else cold
      | none ↦ if busy then active else cold
    ]

abbrev pub same_use : Use → Use → Bool
same_use active active = true
same_use cold cold = true
same_use unusable unusable = true
same_use _ _ = false

unfoldable pub with_use : Running → (String → ℕ) → Use → List SpilloverTarget → List SpilloverTarget
unfolding use_of
with_use running inflight u [] = []
with_use running inflight u (t ∷ ts) =
    let others = with_use running inflight u ts in
    if same_use (use_of running inflight t) u then t ∷ others else others

pub data Choice : Type 0 where
  unavailable panics : Choice
  chosen : String → SpilloverState → Choice

abbrev pub to_choice : Option (String × SpilloverState) → Choice
to_choice none = panics
to_choice (some (t, s)) = chosen t s

abbrev pub below : Option ℕ → ℕ → Bool
below none n = true
below (some m) n = ltb m n

unfoldable pub strategy_spillover : Running → SpilloverState → Choice
unfolding reserve_least_busy with_use
strategy_spillover running s =
    let actives = with_use running s.inflight active s.targets in
    let colds = with_use running s.inflight cold s.targets in
    let least_busy = to_choice (reserve_least_busy actives s) in
    if is_empty actives
    then elim colds [ [] ↦ unavailable | t ∷ ts ↦ to_choice (some (reserve t s)) ]
    else if below (minimum_from s.inflight none actives) s.spillover
    then least_busy
    else elim colds [ [] ↦ least_busy | t ∷ ts ↦ to_choice (some (reserve t s)) ]

unfoldable pub release_in : String → List SpilloverTarget → (String → ℕ) → String → ℕ
release_in target [] inflight = inflight
release_in target (c ∷ cs) inflight =
    let count = inflight c.model_id in
    if (c.target == target) && ltb 0 count
    then update inflight c.model_id (count - 1)
    else release_in target cs inflight

unfoldable pub release_target : String → SpilloverState → SpilloverState
unfolding release_in
release_target target s = record s { inflight = release_in target s.targets s.inflight }

abbrev pub in_state : ProcessState → Option ProcessState → Bool
in_state state none = false
in_state state (some s) = same_state s state

-- The first target in a state.
unfoldable pub first_in : Resolve → Running → ProcessState → List String → Option String
first_in resolve running state [] = none
first_in resolve running state (t ∷ ts) =
    let later = first_in resolve running state ts in
    if in_state state (running (resolve t).0) then some t else later

abbrev pub first_target : List String → Option String
first_target [] = none
first_target (t ∷ ts) = some t

unfoldable pub strategy_pin : List String → Option String
strategy_pin targets = first_target targets

abbrev pub or_next : Option String → Option String → Option String
or_next none next = next
or_next (some t) next = some t

unfoldable pub strategy_warm : Resolve → Running → List String → Option String
unfolding first_in
strategy_warm resolve running targets =
    or_next (first_in resolve running ready targets)
      (or_next (first_in resolve running starting targets) (first_target targets))
