-- ===== src/Scheduler/Collision.antt =====
-- fifo.go: the tests that decide whether a swap may run beside the swaps in flight.
use llemon_swap.Base.{
  ℕ, String, Bool, false, List, [], ◌∷◌, ◌||◌, ◌==◌, ltb, contains, if◌then◌else◌,
}
use llemon_swap.Scheduler.State.{ActiveSwap}

-- slicesOverlap
unfoldable pub overlap : List String → List String → Bool
unfolding contains
overlap [] ys = false
overlap (x ∷ xs) ys = contains ys x || overlap xs ys

-- The three tests of collidesWith against one swap of another target.
unfoldable pub collides_with_swap : String → List String → String → ActiveSwap → Bool
unfolding overlap contains
collides_with_swap target evict id sw =
    contains evict id || contains sw.evict target || overlap evict sw.evict

unfoldable pub collides_with : String → List String → List (String × ActiveSwap) → Bool
unfolding collides_with_swap
collides_with target evict [] = false
collides_with target evict ((id, sw) ∷ active) =
    let later = collides_with target evict active in
    if id == target then later else collides_with_swap target evict id sw || later

-- conflictsWithInFlight
unfoldable pub conflicts_with_in_flight : List String → (String → ℕ) → Bool
conflicts_with_in_flight [] in_flight = false
conflicts_with_in_flight (m ∷ evict) in_flight =
    ltb 0 (in_flight m) || conflicts_with_in_flight evict in_flight
