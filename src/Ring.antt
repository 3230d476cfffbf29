-- ===== src/Ring.antt =====
-- internal/ring/buffer.go: a bounded buffer that overwrites its oldest entry.
pub mod Contents
pub mod Tests
use llemon_swap.Base.{
  ℕ, zero, suc, ◌+◌, ◌-◌, ◌%◌, ◌≤◌, ◌<◌, ◌≡◌, ◌≢◌, refl, sym, ◌∙◌, ap, Bool, true, false, List, [],
  ◌∷◌, ◌++◌, arith, ltb, eqb, length, get_or, set, replicate, get_or-set, length-set,
  length-replicate, length-append, drop, drop-append, last, last-append, Bool-cases, ◌⊎◌, inl, inr,
  if◌then◌else◌,
}

pub record Buffer {ℓ} (A : Type ℓ) : Type ℓ where
  pub buf : List A
  pub head : ℕ
  pub size : ℕ

-- `blank` is the zero value of the type, which fills a new buffer.
module _ {ℓ} {A : Type ℓ} (blank : A) where
  -- A capacity below 1 counts as 1.
  unfoldable pub new_buffer : ℕ → Buffer A
  new_buffer capacity =
      let n = if ltb capacity 1 then 1 else capacity in
      record { buf = replicate n blank; head = 0; size = 0 }

  unfoldable pub push : A → Buffer A → Buffer A
  push v r =
      let cap = length r.buf in
      if ltb r.size cap
      then record r { buf = set r.buf ((r.head + r.size) % cap) v; size = r.size + 1 }
      else record r { buf = set r.buf r.head v; head = (r.head + 1) % cap }

  -- The loop of Slice, from entry `i` on.
  unfoldable pub entries : List A → ℕ → ℕ → ℕ → List A
  entries buf head i zero = []
  entries buf head i (suc n) =
      get_or buf ((head + i) % length buf) blank ∷ entries buf head (suc i) n

  unfoldable pub slice : Buffer A → List A
  unfolding entries
  slice r = entries r.buf r.head 0 r.size

  unfoldable pub push_all : List A → Buffer A → Buffer A
  unfolding push
  push_all [] r = r
  push_all (v ∷ vs) r = push_all vs (push v r)
