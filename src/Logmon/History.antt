-- ===== src/Logmon/History.antt =====
-- internal/logmon/logging.go: the history is the last bytes written.
use mathlib.Core.List.{append-nil}
use llemon_swap.Base.{
  ℕ, zero, suc, ◌+◌, ◌-◌, ◌%◌, ◌≤◌, ◌<◌, ◌≡◌, refl, sym, ap, ◌∙◌, Bool, true, false, List, [], ◌∷◌,
  ◌++◌, length, drop, last, leb, eqb, if◌then◌else◌, arith, length-append, length-drop, drop-append,
  drop-drop, mod_wrap, Bool-cases, inl, inr,
}
use llemon_swap.Logmon.{CircularBuffer, take, copy_at, get_history, read_from}

module _ {ℓ} {A : Type ℓ} where
  pub take-drop : (n : ℕ) (xs : List A) → xs ≡ take n xs ++ drop n xs
  take-drop zero xs = refl
  take-drop (suc n) [] = refl
  take-drop (suc n) (x ∷ xs) = ap (λ t. x ∷ t) (take-drop n xs)

  pub length-take : (n : ℕ) (xs : List A) → n ≤ length xs → length (take n xs) ≡ n
  length-take zero xs h = refl
  length-take (suc n) [] h = absurd (omega arith)
  length-take (suc n) (x ∷ xs) h = omega (arith, length-take n xs)

  pub drop-length : (xs ys : List A) → drop (length xs) (xs ++ ys) ≡ ys
  drop-length [] ys = refl
  drop-length (x ∷ xs) ys = drop-length xs ys

  pub take-length : (xs ys : List A) → take (length xs) (xs ++ ys) ≡ xs
  take-length [] ys = refl
  take-length (x ∷ xs) ys = ap (λ t. x ∷ t) (take-length xs ys)

  pub copy_at-zero :
      (xs src : List A) → length src ≤ length xs → copy_at xs 0 src ≡ src ++ drop (length src) xs
  copy_at-zero [] [] h = refl
  copy_at-zero [] (s ∷ src) h = absurd (omega arith)
  copy_at-zero (x ∷ xs) [] h = refl
  copy_at-zero (x ∷ xs) (s ∷ src) h = ap (λ t. s ∷ t) (copy_at-zero xs src (omega arith))

  pub copy_at-append :
      (xs ys src : List A) → copy_at (xs ++ ys) (length xs) src ≡ xs ++ copy_at ys 0 src
  copy_at-append [] ys src = refl
  copy_at-append (x ∷ xs) ys src = ap (λ t. x ∷ t) (copy_at-append xs ys src)

  pub drop-beyond : (k : ℕ) (xs ys : List A) → drop (length xs + k) (xs ++ ys) ≡ drop k ys
  drop-beyond k xs ys = sym (drop-drop k (length xs) (xs ++ ys)) ∙ ap (drop k) (drop-length xs ys)

read_from-fits :
    (bytes : List ℕ) (start size : ℕ)
    → start + size ≤ length bytes
    → read_from bytes start size ≡ take size (drop start bytes)
unfolding read_from
read_from-fits bytes start size h = ground arith

read_from-wraps :
    (bytes : List ℕ) (start size : ℕ)
    → length bytes < start + size
    → read_from bytes start size ≡ drop start bytes ++ take (size - (length bytes - start)) bytes
unfolding read_from
read_from-wraps bytes start size h = ground arith

pub same_count : {A : Type 0} (f : ℕ → A) {m n : ℕ} → m ≡ n → f m ≡ f n
same_count f e = ap f e

-- What is read is the last bytes, counted from the head round to the head.
module _ (newer older : List ℕ) (s : ℕ) where
  read_before :
      s ≤ length newer → read_from (newer ++ older) (length newer - s) s ≡ last s (older ++ newer)
  read_before h =
      read_from-fits (newer ++ older) (length newer - s) s
        (omega (arith, length-append newer older))
      ∙ ap (take s) (drop-append (length newer - s) newer older (omega arith))
      ∙ same_count (λ k. take k (drop (length newer - s) newer ++ older)) {m = s}
          {n = length (drop (length newer - s) newer)}
          (omega (arith, length-drop (length newer - s) newer))
      ∙ take-length (drop (length newer - s) newer) older
      ∙ sym (drop-beyond (length newer - s) older newer)
      ∙ same_count (λ k. drop k (older ++ newer)) {m = length older + (length newer - s)}
          {n = length (older ++ newer) - s} (omega (arith, length-append older newer))

  read_round :
      length newer < s
      → 0 < length newer
      → s ≤ length older + length newer
      → read_from (newer ++ older) (length newer + (length older + length newer - s)) s
        ≡ last s (older ++ newer)
  read_round h p k =
      let gap = length older + length newer - s in
      read_from-wraps (newer ++ older) (length newer + gap) s
        (omega (arith, length-append newer older))
      ∙ ap (λ l. l ++ take (s - (length (newer ++ older) - (length newer + gap))) (newer ++ older))
          (drop-beyond gap newer older)
      ∙ same_count (λ k. drop gap older ++ take k (newer ++ older))
          {m = s - (length (newer ++ older) - (length newer + gap))} {n = length newer}
          (omega (arith, length-append newer older))
      ∙ ap (λ l. drop gap older ++ l) (take-length newer older)
      ∙ sym (drop-append gap older newer (omega arith))
      ∙ same_count (λ k. drop k (older ++ newer)) {m = gap} {n = length (older ++ newer) - s}
          (omega (arith, length-append older newer))

take-all : (xs : List ℕ) → take (length xs) xs ≡ xs
take-all [] = refl
take-all (x ∷ xs) = ap (λ t. x ∷ t) (take-all xs)

read_whole :
    (older : List ℕ) (s : ℕ)
    → s ≤ length older
    → read_from older (length older - s) s ≡ last s older
read_whole older s h =
    read_from-fits older (length older - s) s (omega arith)
    ∙ same_count (λ k. take k (drop (length older - s) older)) {m = s}
        {n = length (drop (length older - s) older)}
        (omega (arith, length-drop (length older - s) older))
    ∙ take-all (drop (length older - s) older)

-- The position of the oldest byte.
start_of : (h n s : ℕ) → h < n → s ≤ n → (h + n - s) % n ≡ (if leb s h then h - s else h + (n - s))
start_of h n s p q =
    same_count (λ k. k % n) {m = h + n - s} {n = h + (n - s)} (omega arith)
    ∙ mod_wrap h (n - s) n p (omega arith)
    ∙ ground arith

abbrev pub at_head : List ℕ → List ℕ → ℕ → CircularBuffer
at_head newer older s = record { bytes = newer ++ older; head = length newer; size = s }

pub drop-all : (xs : List ℕ) → drop (length xs) xs ≡ []
drop-all [] = refl
drop-all (x ∷ xs) = drop-all xs

-- The read of a buffer with room, by where the oldest byte is.
read_at :
    (newer older : List ℕ) (s : ℕ)
    → s ≤ length older + length newer
    → (below : Bool) → leb s (length newer) ≡ below
    → read_from
        (newer ++ older)
        (if below then length newer - s else length newer + (length (newer ++ older) - s))
        s
      ≡ last s (older ++ newer)
read_at newer older s q true e = read_before newer older s (ground arith)
read_at [] older s q false e =
    same_count (λ k. read_from older k s) {m = 0 + (length older - s)} {n = length older - s}
      (omega arith)
    ∙ read_whole older s (omega arith)
    ∙ ap (last s) (sym (append-nil older))
read_at (x ∷ newer) older s q false e =
    same_count (λ k. read_from (x ∷ newer ++ older) k s)
      {m = suc (length newer) + (suc (length (newer ++ older)) - s)}
      {n = suc (length newer) + (length older + suc (length newer) - s)}
      (omega (arith, length-append newer older))
    ∙ read_round (x ∷ newer) older s (ground arith) (omega arith) q

pub history_at :
    (newer older : List ℕ) (s : ℕ)
    → 0 < length older
    → s ≤ length older + length newer
    → get_history (at_head newer older s) ≡ last s (older ++ newer)
unfolding get_history
history_at newer older s p q = elim (Bool-cases (eqb s 0)) [
  | inl e ↦ rw e (
      sym (drop-all (older ++ newer))
      ∙ same_count (λ k. drop k (older ++ newer)) {m = length (older ++ newer)}
          {n = length (older ++ newer) - s} (ground arith))
  | inr e ↦ rw e (
      ap (λ st. read_from (newer ++ older) st s)
        (start_of (length newer) (length (newer ++ older)) s
          (omega (arith, length-append newer older)) (omega (arith, length-append newer older)))
      ∙ read_at newer older s q (leb s (length newer)) refl)
]
