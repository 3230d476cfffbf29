-- ===== src/Ring/Contents.antt =====
-- internal/ring/buffer.go: what a buffer holds after any pushes.
use native.Mathlib.Nat.{mod-lt, mod-add-mod}
use mathlib.Core.List.{append-nil, append_assoc}
use llemon_swap.Base.{
  mod_wrap, ℕ, zero, suc, ◌+◌, ◌-◌, ◌%◌, ◌≤◌, ◌<◌, ◌≡◌, ◌≢◌, refl, sym, ◌∙◌, ap, true, false, List,
  [], ◌∷◌, ◌++◌, arith, ltb, length, get_or, set, get_or-set, length-set, length-replicate,
  length-append, drop, drop-append, last, last-append, Bool-cases, inl, inr, if◌then◌else◌,
}
use llemon_swap.Ring.{Buffer, new_buffer, push, entries, slice, push_all}

module _ {ℓ} {A : Type ℓ} (blank : A) where
  pub record IsValid (r : Buffer A) : Type 0 where
    pub head_below : r.head < length r.buf
    pub size_within : r.size ≤ length r.buf

  new_buffer-IsValid : (capacity : ℕ) → IsValid (new_buffer blank capacity)
  unfolding new_buffer
  new_buffer-IsValid capacity = record {
    head_below = ground (arith, length-replicate (if ltb capacity 1 then 1 else capacity) blank);
    size_within = omega arith;
  }

  push-IsValid : (v : A) (r : Buffer A) → IsValid r → IsValid (push blank v r)
  unfolding push
  push-IsValid v r h = elim (Bool-cases (ltb r.size (length r.buf))) [
    | inl e ↦ rw e (record {
      head_below =
          omega (arith, h.head_below, length-set r.buf ((r.head + r.size) % length r.buf) v);
      size_within =
          ground (arith, h.size_within, length-set r.buf ((r.head + r.size) % length r.buf) v);
    })
    | inr e ↦ rw e (record {
      head_below = omega (
        arith,
        h.head_below,
        length-set r.buf r.head v,
        mod-lt (r.head + 1) {m = length r.buf} (omega (arith, h.head_below)),
      );
      size_within = omega (arith, h.size_within, length-set r.buf r.head v);
    })
  ]

  -- Slices of two buffers that agree where they are read.
  entries-same :
      (buf buf' : List A) (head i n : ℕ)
      → length buf' ≡ length buf
      → ((j : ℕ)
          → i ≤ j
          → j < i + n
          → get_or buf' ((head + j) % length buf) blank
            ≡ get_or buf ((head + j) % length buf) blank)
      → entries blank buf' head i n ≡ entries blank buf head i n
  unfolding entries
  entries-same buf buf' head i zero l h = refl
  entries-same buf buf' head i (suc n) l h = cc (
    ap (λ (t : ℕ). get_or buf' ((head + i) % t) blank) l,
    h i (omega arith) (omega arith),
    entries-same buf buf' head (suc i) n l (λ j p q. h j (omega arith) (omega arith)),
  )

  entries-snoc :
      (buf : List A) (head i n : ℕ)
      → entries blank buf head i (suc n)
        ≡ entries blank buf head i n ++ get_or buf ((head + (i + n)) % length buf) blank ∷ []
  unfolding entries
  entries-snoc buf head i zero =
      ap (λ (t : ℕ). get_or buf ((head + t) % length buf) blank ∷ []) (omega arith)
  entries-snoc buf head i (suc n) = cc (
    entries-snoc buf head (suc i) n,
    ap (λ (t : ℕ). get_or buf ((head + t) % length buf) blank) {x = suc i + n} {y = i + suc n}
        (omega arith),
  )

  entries-shift :
      (buf : List A) (head i n : ℕ)
      → entries blank buf ((head + 1) % length buf) i n ≡ entries blank buf head (suc i) n
  unfolding entries
  entries-shift buf head i zero = refl
  entries-shift buf head i (suc n) = cc (
    ap (λ (t : ℕ). get_or buf t blank) (mod-add-mod (head + 1) (length buf) i),
    ap (λ (t : ℕ). get_or buf (t % length buf) blank) {x = head + 1 + i} {y = head + suc i}
        (omega arith),
    entries-shift buf head (suc i) n,
  )

  -- A write outside the entries blank that are read.
  entries-set :
      (r : Buffer A) (v : A) (k i n : ℕ)
      → k < length r.buf
      → ((j : ℕ) → i ≤ j → j < i + n → (r.head + j) % length r.buf ≢ k)
      → entries blank (set r.buf k v) r.head i n ≡ entries blank r.buf r.head i n
  entries-set r v k i n h away =
      entries-same r.buf (set r.buf k v) r.head i n (length-set r.buf k v) (λ j p q.
        ground (arith, get_or-set r.buf k ((r.head + j) % length r.buf) v blank h, away j p q))

  -- A write that is read back.
  written :
      (r : Buffer A) (v : A) (k i : ℕ)
      → k < length r.buf
      → i % length r.buf ≡ k
      → get_or (set r.buf k v) (i % length (set r.buf k v)) blank ≡ v
  written r v k i h e =
      ap (λ (t : ℕ). get_or (set r.buf k v) (i % t) blank) (length-set r.buf k v)
      ∙ ap (λ (t : ℕ). get_or (set r.buf k v) t blank) e
      ∙ ground (arith, get_or-set r.buf k k v blank h)

  push-room :
      (v : A) (r : Buffer A)
      → IsValid r
      → r.size < length r.buf
      → slice blank (push blank v r) ≡ slice blank r ++ v ∷ []
  unfolding push slice
  push-room v r h e =
      let cap = length r.buf in
      let k = (r.head + r.size) % cap in
      let below : k < cap = mod-lt (r.head + r.size) (omega (arith, h.head_below)) in
      let away : (j : ℕ) → 0 ≤ j → j < 0 + r.size → (r.head + j) % cap ≢ k = λ j p q. ground (
        arith,
        mod_wrap r.head j cap h.head_below (omega arith),
        mod_wrap r.head r.size cap h.head_below (omega arith),
      ) in
      let test : ltb r.size cap ≡ true = ground arith in
      rw test (
        ap (entries blank (set r.buf k v) r.head 0) {x = r.size + 1} {y = suc r.size} (omega arith)
        ∙ entries-snoc (set r.buf k v) r.head 0 r.size
        ∙ cc (
          entries-set r v k 0 r.size below away,
          written r v k (r.head + (0 + r.size)) below (
              ap (λ (t : ℕ). t % cap) {x = r.head + (0 + r.size)} {y = r.head + r.size}
                (omega arith)),
        ))

  overwrite :
      (v : A) (r : Buffer A) (n : ℕ)
      → IsValid r
      → length r.buf ≡ suc n
      → entries blank (set r.buf r.head v) ((r.head + 1) % length r.buf) 0 (suc n)
        ≡ drop 1 (entries blank r.buf r.head 0 (suc n)) ++ v ∷ []
  unfolding entries
  overwrite v r n h e =
      let new = set r.buf r.head v in
      let away : (j : ℕ) → 1 ≤ j → j < 1 + n → (r.head + j) % length r.buf ≢ r.head = λ j p q.
        ground (arith, mod_wrap r.head j (length r.buf) h.head_below (omega arith), h.head_below) in
      ap (λ (t : ℕ). entries blank new ((r.head + 1) % t) 0 (suc n))
        (sym (length-set r.buf r.head v))
      ∙ entries-shift new r.head 0 (suc n)
      ∙ entries-snoc new r.head 1 n
      ∙ cc (
        entries-set r v r.head 1 n h.head_below away,
        written r v r.head (r.head + (1 + n)) h.head_below (
            ground (
              arith,
              mod_wrap r.head (1 + n) (length r.buf) h.head_below (omega arith),
              h.head_below,
            )),
      )

  push-full :
      (v : A) (r : Buffer A)
      → IsValid r
      → r.size ≡ length r.buf
      → slice blank (push blank v r) ≡ drop 1 (slice blank r) ++ v ∷ []
  unfolding push slice
  push-full v r h e =
      let test : ltb r.size (length r.buf) ≡ false = ground arith in
      let n = length r.buf - 1 in
      let s : length r.buf ≡ suc n = omega (arith, h.head_below) in
      let t : r.size ≡ suc n = omega arith in
      rw test (
        ap (entries blank (set r.buf r.head v) ((r.head + 1) % length r.buf) 0) t
        ∙ overwrite v r n h s
        ∙ ap (λ (c : ℕ). drop 1 (entries blank r.buf r.head 0 c) ++ v ∷ []) (sym t))

  length-entries : (buf : List A) (head i n : ℕ) → length (entries blank buf head i n) ≡ n
  unfolding entries
  length-entries buf head i zero = refl
  length-entries buf head i (suc n) = omega (arith, length-entries buf head (suc i) n)

  -- A push blank adds its value at the end, and keeps the last entries blank that the capacity allows.
  pub slice-push :
      (v : A) (r : Buffer A)
      → IsValid r
      → slice blank (push blank v r) ≡ last (length r.buf) (slice blank r ++ v ∷ [])
  unfolding slice
  slice-push v r h =
      let l : length (slice blank r ++ v ∷ []) ≡ r.size + 1 =
        omega
          (arith, length-append (slice blank r) (v ∷ []), length-entries r.buf r.head 0 r.size) in
      elim (Bool-cases (ltb r.size (length r.buf))) [
        | inl e ↦
            push-room v r h (ground arith)
            ∙ ap (λ (t : ℕ). drop t (slice blank r ++ v ∷ [])) {x = 0}
                {y = length (slice blank r ++ v ∷ []) - length r.buf} (ground arith)
        | inr e ↦
            push-full v r h (ground (arith, h.size_within))
            ∙ sym (
                drop-append 1 (slice blank r) (v ∷ [])
                  (ground (arith, length-entries r.buf r.head 0 r.size, h.head_below)))
            ∙ ap (λ (t : ℕ). drop t (slice blank r ++ v ∷ [])) {x = 1}
                {y = length (slice blank r ++ v ∷ []) - length r.buf}
                (ground (arith, h.size_within))
      ]

  length-push : (v : A) (r : Buffer A) → length (push blank v r).buf ≡ length r.buf
  unfolding push
  length-push v r = elim (Bool-cases (ltb r.size (length r.buf))) [
    | inl e ↦ rw e (length-set r.buf ((r.head + r.size) % length r.buf) v)
    | inr e ↦ rw e (length-set r.buf r.head v)
  ]

  slice-push_all :
      (vs : List A) (r : Buffer A)
      → IsValid r
      → slice blank (push_all blank vs r) ≡ last (length r.buf) (slice blank r ++ vs)
  unfolding push_all slice
  slice-push_all [] r h =
      ap (λ (t : ℕ). drop t (slice blank r)) {x = 0} {y = length (slice blank r) - length r.buf}
        (omega (arith, h.size_within, length-entries r.buf r.head 0 r.size))
      ∙ ap (last (length r.buf)) (sym (append-nil (slice blank r)))
  slice-push_all (v ∷ vs) r h =
      slice-push_all vs (push blank v r) (push-IsValid v r h)
      ∙ cc (length-push v r, slice-push v r h)
      ∙ last-append (length r.buf) (slice blank r ++ v ∷ []) vs
      ∙ ap (last (length r.buf)) (append_assoc (slice blank r) (v ∷ []) vs)

  -- A new buffer of a capacity that is not 0 holds, after any pushes, the last values that fit, in the
  -- order of the pushes.
  pub slice-new_buffer :
      (capacity : ℕ) (vs : List A)
      → 1 ≤ capacity
      → slice blank (push_all blank vs (new_buffer blank capacity)) ≡ last capacity vs
  unfolding new_buffer slice entries
  slice-new_buffer capacity vs h =
      let full : (if ltb capacity 1 then 1 else capacity) ≡ capacity = ground arith in
      slice-push_all vs (new_buffer blank capacity) (new_buffer-IsValid capacity)
      ∙ ap (λ (c : ℕ). last c vs)
          (length-replicate (if ltb capacity 1 then 1 else capacity) blank ∙ full)
