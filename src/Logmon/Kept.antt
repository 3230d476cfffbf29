-- ===== src/Logmon/Kept.antt =====
-- internal/logmon/logging.go: a buffer keeps the last bytes that were written.
use mathlib.Core.List.{append-nil, append_assoc}
use llemon_swap.Base.{
  ℕ, ◌+◌, ◌-◌, ◌≤◌, ◌<◌, ◌≡◌, refl, sym, ap, ◌∙◌, false, List, [], ◌++◌, length, is_empty,
  replicate, drop, last, leb, eqb, ltb, arith, length-append, length-drop, length-replicate,
  drop-append, last-append, drop-drop, Bool-cases, inl, inr,
}
use llemon_swap.Logmon.{
  CircularBuffer, new_circular_buffer, take, copy_at, grown, write_short, write, get_history,
}
use llemon_swap.Logmon.History.{
  at_head, history_at, same_count, take-drop, length-take, drop-beyond, drop-all,
}
use llemon_swap.Logmon.Shapes.{buffer, buffer_eq, copied_all, before_end, to_end, round_end}

-- The history after a short write, by what the ring holds.
last_of_ring :
    (ring w p : List ℕ) (cap s : ℕ)
    → length ring ≡ cap
    → s ≤ cap
    → length p < cap
    → last s ring ≡ last cap w
    → last (grown cap s (length p)) (drop (length p) (ring ++ p)) ≡ last cap (w ++ p)
last_of_ring ring w p cap s l k h e =
    let whole = ring ++ p in
    let counted = length-append ring p in
    drop-drop (length (drop (length p) whole) - grown cap s (length p)) (length p) whole
    ∙ same_count (λ k. drop k whole)
        {m = length p + (length (drop (length p) whole) - grown cap s (length p))}
        {n = (length ring - s) + (length (drop (length ring - s) ring ++ p) - cap)}
        (ground (
          arith,
          length-drop (length p) whole,
          counted,
          length-append (drop (length ring - s) ring) p,
          length-drop (length ring - s) ring,
        ))
    ∙ sym (drop-drop (length (drop (length ring - s) ring ++ p) - cap) (length ring - s) whole)
    ∙ ap (drop (length (drop (length ring - s) ring ++ p) - cap))
        (drop-append (length ring - s) ring p (omega arith))
    ∙ ap (λ l. last cap (l ++ p)) e
    ∙ last-append cap w p

-- The buffer keeps the last bytes of what was written.
pub record Kept (cap : ℕ) (w : List ℕ) (cb : CircularBuffer) : Type 0 where
  newer : List ℕ
  older : List ℕ
  size : ℕ
  shape : cb ≡ at_head newer older size
  room : 0 < length older
  whole : length older + length newer ≡ cap
  within : size ≤ cap
  held : last size (older ++ newer) ≡ last cap w

pub Kept-history :
    (cap : ℕ) (w : List ℕ) (cb : CircularBuffer) → Kept cap w cb → get_history cb ≡ last cap w
Kept-history cap w cb k =
    ap get_history k.shape ∙ history_at k.newer k.older k.size k.room (omega arith) ∙ k.held

-- What is left of the ring when the bytes of a write have come in.
ring_before :
    (older newer p : List ℕ)
    → length p ≤ length older
    → drop (length p) ((older ++ newer) ++ p) ≡ drop (length p) older ++ (newer ++ p)
ring_before older newer p h =
    ap (drop (length p)) (append_assoc older newer p) ∙ drop-append (length p) older (newer ++ p) h

ring_to :
    (older newer p : List ℕ)
    → length p ≡ length older
    → drop (length p) ((older ++ newer) ++ p) ≡ (newer ++ p) ++ []
ring_to older newer p h =
    ring_before older newer p (omega arith)
    ∙ ap (λ l. l ++ (newer ++ p)) (same_count (λ k. drop k older) h ∙ drop-all older)
    ∙ sym (append-nil (newer ++ p))

ring_round :
    (older newer p : List ℕ)
    → length older < length p
    → length p < length older + length newer
    → drop (length p) ((older ++ newer) ++ p)
      ≡ (drop (length p - length older) newer ++ take (length older) p) ++ drop (length older) p
ring_round older newer p h k =
    let over = length p - length older in
    ap (drop (length p)) (append_assoc older newer p)
    ∙ same_count (λ c. drop c (older ++ (newer ++ p))) {m = length p} {n = length older + over}
        (omega arith)
    ∙ drop-beyond over older (newer ++ p)
    ∙ drop-append over newer p (omega arith)
    ∙ ap (λ l. drop over newer ++ l) (take-drop (length older) p)
    ∙ sym (append_assoc (drop over newer) (take (length older) p) (drop (length older) p))

module _ (cap : ℕ) (w p : List ℕ) (cb : CircularBuffer) (k : Kept cap w cb)
    (short : length p < cap) where
  -- A short write, from the shape that it leaves.
  shaped :
      (newer older : List ℕ)
      → write_short p (at_head k.newer k.older k.size)
        ≡ at_head newer older (grown (length k.older + length k.newer) k.size (length p))
      → 0 < length older
      → length older + length newer ≡ cap
      → older ++ newer ≡ drop (length p) ((k.older ++ k.newer) ++ p)
      → Kept cap (w ++ p) (write_short p cb)
  shaped newer older e r l h = record {
    newer = newer;
    older = older;
    size = grown (length k.older + length k.newer) k.size (length p);
    shape = ap (write_short p) k.shape ∙ e;
    room = r;
    whole = l;
    within = ground arith;
    held =
        ap (last (grown (length k.older + length k.newer) k.size (length p))) h
        ∙ same_count
            (λ c. last (grown c k.size (length p)) (drop (length p) ((k.older ++ k.newer) ++ p)))
            k.whole
        ∙ last_of_ring (k.older ++ k.newer) w p cap k.size (length-append k.older k.newer ∙ k.whole)
            k.within short k.held;
  }

  write_short-Kept : Kept cap (w ++ p) (write_short p cb)
  write_short-Kept = elim (Bool-cases (ltb (length p) (length k.older))) [
    | inl e ↦
        shaped (k.newer ++ p) (drop (length p) k.older)
          (before_end k.newer k.older p k.size (ground arith))
          (ground (arith, length-drop (length p) k.older))
          (ground (arith, length-drop (length p) k.older, length-append k.newer p, k.whole))
          (sym (ring_before k.older k.newer p (ground arith)))
    | inr e ↦ elim (Bool-cases (eqb (length p) (length k.older))) [
      | inl f ↦
          shaped [] (k.newer ++ p) (to_end k.newer k.older p k.size (ground arith))
            (ground (arith, length-append k.newer p, k.room))
            (ground (arith, length-append k.newer p, k.whole))
            (sym (ring_to k.older k.newer p (ground arith)))
      | inr f ↦
          shaped (drop (length k.older) p)
            (drop (length p - length k.older) k.newer ++ take (length k.older) p)
            (round_end k.newer k.older p k.size (ground arith) (omega (arith, k.whole)))
            (ground (
              arith,
              k.room,
              k.whole,
              length-append (drop (length p - length k.older) k.newer) (take (length k.older) p),
              length-take (length k.older) p,
            ))
            (ground (
              arith,
              k.whole,
              length-append (drop (length p - length k.older) k.newer) (take (length k.older) p),
              length-take (length k.older) p,
              length-drop (length p - length k.older) k.newer,
              length-drop (length k.older) p,
            ))
            (sym (ring_round k.older k.newer p (ground arith) (omega (arith, k.whole))))
    ]
  ]

-- A long write replaces the whole buffer.
long-Kept :
    (cap : ℕ) (w p bytes : List ℕ)
    → length bytes ≡ cap
    → 0 < cap
    → cap ≤ length p
    → Kept cap
        (w ++ p)
        (buffer (copy_at bytes 0 (drop (length p - length bytes) p)) 0 (length bytes))
long-Kept cap w p bytes l c h =
    let end = drop (length p - length bytes) p in
    let full : length end ≡ length bytes = omega (arith, length-drop (length p - length bytes) p) in
    record {
      newer = [];
      older = end;
      size = length bytes;
      shape = buffer_eq (copied_all [] bytes end full) refl refl;
      room = omega arith;
      whole = omega arith;
      within = omega arith;
      held =
          same_count (λ k. drop k (end ++ [])) {m = length (end ++ []) - length bytes} {n = 0}
            (omega (arith, length-append end []))
          ∙ append-nil end
          ∙ sym (drop-beyond (length p - length bytes) w p)
          ∙ same_count (λ k. drop k (w ++ p)) {m = length w + (length p - length bytes)}
              {n = length (w ++ p) - cap} (omega (arith, length-append w p));
    }

Kept-length : (cap : ℕ) (w : List ℕ) (cb : CircularBuffer) → Kept cap w cb → length cb.bytes ≡ cap
Kept-length cap w cb k =
    ap (λ c. length c.bytes) k.shape ∙ length-append k.newer k.older ∙ omega (arith, k.whole)

pub write-Kept :
    (cap : ℕ) (w p : List ℕ) (cb : CircularBuffer)
    → 0 < cap
    → Kept cap w cb
    → is_empty p ≡ false
    → Kept cap (w ++ p) (write p cb)
unfolding write
write-Kept cap w p cb c k e = elim (Bool-cases (leb (length cb.bytes) (length p))) [
  | inl f ↦
      rw (e, f)
        (long-Kept cap w p cb.bytes (Kept-length cap w cb k) c
          (ground (arith, Kept-length cap w cb k)))
  | inr f ↦ rw (e, f) (write_short-Kept cap w p cb k (ground (arith, Kept-length cap w cb k)))
]

pub new-Kept : (cap : ℕ) → 0 < cap → Kept cap [] (new_circular_buffer cap)
unfolding new_circular_buffer
new-Kept cap c = record {
  newer = [];
  older = replicate cap 0;
  size = 0;
  shape = refl;
  room = omega (arith, length-replicate {A = ℕ} cap 0);
  whole = omega (arith, length-replicate {A = ℕ} cap 0);
  within = omega arith;
  held =
      same_count (λ k. drop k (replicate cap 0 ++ [])) {m = length (replicate cap 0 ++ []) - 0}
        {n = length (replicate cap 0 ++ [])} (omega arith)
      ∙ drop-all (replicate cap 0 ++ [])
      ∙ same_count (λ k. drop k []) {m = 0} {n = 0 - cap} (omega arith);
}
