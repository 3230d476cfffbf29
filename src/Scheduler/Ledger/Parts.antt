-- ===== src/Scheduler/Ledger/Parts.antt =====
-- fifo.go: lemmas on the parts of the invariant, namely counts, waiter lists and collisions.
use llemon_swap.Base.{
  ℕ, ◌+◌, String, ◌≡◌, refl, ◌≢◌, true, false, some, List, [], ◌∷◌, ◌++◌, arith, ◌==◌, eq_iff,
  length, lookup, contains, All, if◌then◌else◌,
}
use llemon_swap.Scheduler.State.{HandlerReq, ActiveSwap}
use llemon_swap.Scheduler.Collision.{
  overlap, collides_with_swap, collides_with, conflicts_with_in_flight,
}
use llemon_swap.Scheduler.Ledger.{IsFor, count}

pub count-append :
    (m : String) (xs ys : List HandlerReq) → count m (xs ++ ys) ≡ count m xs + count m ys
count-append m [] ys = omega arith
count-append m (x ∷ xs) ys = ground (arith, count-append m xs ys)

pub count-swap_in :
    (m : String) (req : HandlerReq) (xs ys : List HandlerReq)
    → count m (req ∷ (xs ++ ys)) ≡ count m (xs ++ req ∷ ys)
count-swap_in m req xs ys = ground (arith, count-append m xs ys, count-append m xs (req ∷ ys))

-- Waiters of one model count for that model only.
pub count-IsFor :
    (id m : String) (ws : List HandlerReq)
    → All (IsFor id) ws
    → count m ws ≡ (if id == m then length ws else 0)
count-IsFor id m [] h = ground arith
count-IsFor id m (w ∷ ws) h = ground (arith, count-IsFor id m ws h.1, eq_iff w.model m, eq_iff id m)

overlap-contains_left :
    (x : String) (xs ys : List String)
    → overlap xs ys ≡ false
    → contains xs x ≡ true
    → contains ys x ≡ false
unfolding overlap contains
overlap-contains_left x [] ys h k = cc
overlap-contains_left x (y ∷ xs) ys h k = ground (arith, eq_iff y x, overlap-contains_left x xs ys)

overlap-nil : (xs : List String) → overlap xs [] ≡ false
unfolding overlap contains
overlap-nil [] = refl
overlap-nil (x ∷ xs) = overlap-nil xs

overlap-cons :
    (y : String) (xs ys : List String)
    → overlap xs ys ≡ false
    → contains xs y ≡ false
    → overlap xs (y ∷ ys) ≡ false
unfolding overlap contains
overlap-cons y [] ys h k = refl
overlap-cons y (x ∷ xs) ys h k = ground (arith, eq_iff x y, eq_iff y x, overlap-cons y xs ys)

pub overlap_comm : (xs ys : List String) → overlap xs ys ≡ false → overlap ys xs ≡ false
unfolding overlap contains
overlap_comm [] ys h = overlap-nil ys
overlap_comm (x ∷ xs) ys h = overlap-cons x ys xs (overlap_comm xs ys (ground arith)) (ground arith)

-- No collision is no collision with any swap that the map holds.
pub collides_with-lookup :
    (target id : String) (evict : List String) (sw : ActiveSwap)
    (active : List (String × ActiveSwap))
    → collides_with target evict active ≡ false
    → lookup id active ≡ some sw
    → id ≢ target
    → collides_with_swap target evict id sw ≡ false
unfolding collides_with lookup
collides_with-lookup target id evict sw [] h k ne = cc
collides_with-lookup target id evict sw ((j, x) ∷ active) h k ne =
    ground (arith, eq_iff j id, eq_iff j target, collides_with-lookup target id evict sw active)

-- No conflict is no request in flight on any model that is to be evicted.
pub conflicts-contains :
    (m : String) (evict : List String) (in_flight : String → ℕ)
    → conflicts_with_in_flight evict in_flight ≡ false
    → contains evict m ≡ true
    → in_flight m ≡ 0
unfolding conflicts_with_in_flight contains
conflicts-contains m [] in_flight h k = cc
conflicts-contains m (x ∷ evict) in_flight h k =
    ground (arith, eq_iff x m, conflicts-contains m evict in_flight)
