-- ===== src/Logmon.antt =====
-- internal/logmon/logging.go: the history of a log monitor, kept in a circular buffer of bytes.
pub mod History
pub mod Shapes
pub mod Kept
pub mod Runs
pub mod Tests
use llemon_swap.Base.{
  ℕ, zero, suc, ◌+◌, ◌-◌, ◌%◌, ◌*◌, Bool, true, false, Option, none, some, List, [], ◌∷◌, ◌++◌,
  length, is_empty, replicate, drop, leb, eqb, ltb, if◌then◌else◌,
}

pub record CircularBuffer : Type 0 where
  pub bytes : List ℕ
  pub head : ℕ
  pub size : ℕ

unfoldable pub new_circular_buffer : ℕ → CircularBuffer
new_circular_buffer capacity = record { bytes = replicate capacity 0; head = 0; size = 0 }

abbrev pub take {ℓ} : {A : Type ℓ} → ℕ → List A → List A
take zero xs = []
take (suc n) [] = []
take (suc n) (x ∷ xs) = x ∷ take n xs

-- `copy(xs[i:], src)`
abbrev pub copy_at {ℓ} : {A : Type ℓ} → List A → ℕ → List A → List A
copy_at [] i src = []
copy_at (x ∷ xs) zero [] = x ∷ xs
copy_at (x ∷ xs) zero (s ∷ src) = s ∷ copy_at xs zero src
copy_at (x ∷ xs) (suc i) src = x ∷ copy_at xs i src

-- What becomes of the size when `n` bytes come in.
abbrev pub grown : ℕ → ℕ → ℕ → ℕ
grown cap size n = if ltb cap (size + n) then cap else size + n

-- A write of bytes that are fewer than the buffer has room for in all.
unfoldable pub write_short : List ℕ → CircularBuffer → CircularBuffer
write_short p cb =
    let cap = length cb.bytes in
    let first_part = cap - cb.head in
    if leb (length p) first_part
    then record {
      bytes = copy_at cb.bytes cb.head p;
      head = (cb.head + length p) % cap;
      size = grown cap cb.size (length p);
    }
    else record {
      bytes = copy_at (copy_at cb.bytes cb.head (take first_part p)) 0 (drop first_part p);
      head = length p - first_part;
      size = grown cap cb.size (length p);
    }

unfoldable pub write : List ℕ → CircularBuffer → CircularBuffer
unfolding write_short
write p cb =
    if is_empty p
    then cb
    else if leb (length cb.bytes) (length p)
    then record {
      bytes = copy_at cb.bytes 0 (drop (length p - length cb.bytes) p);
      head = 0;
      size = length cb.bytes;
    }
    else write_short p cb

-- The bytes from a position on, round the end.
unfoldable pub read_from : List ℕ → ℕ → ℕ → List ℕ
read_from bytes start size =
    if leb (start + size) (length bytes)
    then take size (drop start bytes)
    else drop start bytes ++ take (size - (length bytes - start)) bytes

-- `head - size + cap` is not negative, since the size is within the capacity.
unfoldable pub get_history : CircularBuffer → List ℕ
unfolding read_from
get_history cb =
    let cap = length cb.bytes in
    if eqb cb.size 0 then [] else read_from cb.bytes ((cb.head + cap - cb.size) % cap) cb.size

-- The buffer of a monitor: made on the first write, and released by Clear.
pub data LogCall : Type 0 where
  put : List ℕ → LogCall
  clear_log : LogCall

abbrev pub buffer_size : ℕ
buffer_size = 100 * 1024

abbrev pub buffer_of : ℕ → Option CircularBuffer → CircularBuffer
buffer_of capacity none = new_circular_buffer capacity
buffer_of capacity (some cb) = cb

-- The part of Monitor.Write after the output has taken the bytes.
unfoldable pub log_step : ℕ → LogCall → Option CircularBuffer → Option CircularBuffer
unfolding write new_circular_buffer
log_step capacity clear_log buffer = none
log_step capacity (put p) buffer =
    if is_empty p then buffer else some (write p (buffer_of capacity buffer))

unfoldable pub log_history : Option CircularBuffer → List ℕ
unfolding get_history
log_history none = []
log_history (some cb) = get_history cb

unfoldable pub log_run : ℕ → List LogCall → Option CircularBuffer → Option CircularBuffer
unfolding log_step
log_run capacity [] buffer = buffer
log_run capacity (call ∷ calls) buffer = log_run capacity calls (log_step capacity call buffer)
