-- ===== src/Logmon/Shapes.antt =====
-- internal/logmon/logging.go: the buffer that a short write leaves.
use native.Mathlib.Nat.{mod-eq_of_lt, mod_self}
use mathlib.Core.List.{append-nil, append_assoc}
use llemon_swap.Base.{
  ℕ, ◌+◌, ◌-◌, ◌%◌, ◌≤◌, ◌<◌, ◌≡◌, sym, ap, ◌∙◌, List, [], ◌++◌, length, drop, arith, length-append,
  length-drop, drop-append,
}
use llemon_swap.Logmon.{CircularBuffer, take, copy_at, grown, write_short}
use llemon_swap.Logmon.History.{
  at_head, same_count, length-take, copy_at-zero, copy_at-append, drop-all,
}

abbrev pub buffer : List ℕ → ℕ → ℕ → CircularBuffer
buffer bytes head size = record { bytes = bytes; head = head; size = size }

pub buffer_eq :
    {b b' : List ℕ} {h h' n n' : ℕ} → b ≡ b' → h ≡ h' → n ≡ n' → buffer b h n ≡ buffer b' h' n'
buffer_eq e f g = ground arith

write_short-fits :
    (p : List ℕ) (cb : CircularBuffer)
    → length p ≤ length cb.bytes - cb.head
    → write_short p cb
      ≡ buffer
          (copy_at cb.bytes cb.head p)
          ((cb.head + length p) % length cb.bytes)
          (grown (length cb.bytes) cb.size (length p))
unfolding write_short
write_short-fits p cb h = ground arith

write_short-wraps :
    (p : List ℕ) (cb : CircularBuffer)
    → length cb.bytes - cb.head < length p
    → write_short p cb
      ≡ buffer
          (copy_at
            (copy_at cb.bytes cb.head (take (length cb.bytes - cb.head) p))
            0
            (drop (length cb.bytes - cb.head) p))
          (length p - (length cb.bytes - cb.head))
          (grown (length cb.bytes) cb.size (length p))
unfolding write_short
write_short-wraps p cb h = ground arith

copied :
    (newer older p : List ℕ)
    → length p ≤ length older
    → copy_at (newer ++ older) (length newer) p ≡ newer ++ p ++ drop (length p) older
copied newer older p h =
    copy_at-append newer older p
    ∙ ap (λ l. newer ++ l) (copy_at-zero older p h)
    ∙ sym (append_assoc newer p (drop (length p) older))

pub copied_all :
    (newer older p : List ℕ)
    → length p ≡ length older
    → copy_at (newer ++ older) (length newer) p ≡ newer ++ p
copied_all newer older p h =
    copied newer older p (omega arith)
    ∙ ap (λ l. newer ++ p ++ l) (same_count (λ k. drop k older) h ∙ drop-all older)
    ∙ append-nil (newer ++ p)

module _ (newer older p : List ℕ) (s : ℕ) where
  abbrev grew : ℕ
  grew = grown (length older + length newer) s (length p)

  grew_same : grown (length (newer ++ older)) s (length p) ≡ grew
  grew_same =
      same_count (λ k. grown k s (length p)) {m = length (newer ++ older)}
        {n = length older + length newer} (omega (arith, length-append newer older))

  -- The write stays before the end.
  pub before_end :
      length p < length older
      → write_short p (at_head newer older s) ≡ at_head (newer ++ p) (drop (length p) older) grew
  before_end h =
      write_short-fits p (at_head newer older s) (omega (arith, length-append newer older))
      ∙ buffer_eq (copied newer older p (omega arith))
          (mod-eq_of_lt (omega (arith, length-append newer older)) ∙ sym (length-append newer p))
          grew_same

  pub to_end :
      length p ≡ length older → write_short p (at_head newer older s) ≡ at_head [] (newer ++ p) grew
  to_end h =
      write_short-fits p (at_head newer older s) (omega (arith, length-append newer older))
      ∙ buffer_eq (copied_all newer older p h)
          (same_count (λ k. k % length (newer ++ older)) {m = length newer + length p}
              {n = length (newer ++ older)} (omega (arith, length-append newer older))
            ∙ mod_self (length (newer ++ older)))
          grew_same

  abbrev p1 : List ℕ
  p1 = take (length older) p

  abbrev p2 : List ℕ
  p2 = drop (length older) p

  -- The bytes of a write round the end.
  round_bytes :
      {room : ℕ}
      → room ≡ length older
      → length older < length p
      → length p < length older + length newer
      → copy_at (copy_at (newer ++ older) (length newer) (take room p)) 0 (drop room p)
        ≡ drop (length older) p ++ (drop (length p - length older) newer ++ take (length older) p)
  round_bytes e h k =
      same_count (λ r. copy_at (copy_at (newer ++ older) (length newer) (take r p)) 0 (drop r p)) e
      ∙ ap (λ l. copy_at l 0 p2)
          (copied_all newer older p1 (length-take (length older) p (omega arith)))
      ∙ copy_at-zero (newer ++ p1) p2
          (omega (arith, length-drop (length older) p, length-append newer p1))
      ∙ ap (λ l. p2 ++ l)
          (same_count (λ k. drop k (newer ++ p1)) (length-drop (length older) p)
            ∙ drop-append (length p - length older) newer p1 (omega arith))

  pub round_end :
      length older < length p
      → length p < length older + length newer
      → write_short p (at_head newer older s)
        ≡ at_head
            (drop (length older) p)
            (drop (length p - length older) newer ++ take (length older) p)
            grew
  round_end h k =
      let room : length (newer ++ older) - length newer ≡ length older =
        omega (arith, length-append newer older) in
      write_short-wraps p (at_head newer older s) (omega arith)
      ∙ buffer_eq (round_bytes room h k)
          (same_count (λ k. length p - k) room ∙ sym (length-drop (length older) p)) grew_same
