-- ===== src/Queue.antt =====
-- `MPMCQueue<T, N>`: include/chronos/utils/mpmc_queue.hpp. Here each call runs alone; the calls of
-- many threads, an access at a time, are in the child `Threads`. `size_t` wraps at 2 ^ 64. The slots
-- are functions of their index; `data` is `none` where nothing was written.
pub mod Slots
pub mod Threads
pub mod Inv
pub mod Frame
pub mod Moves
pub mod Safety
pub mod Order
pub mod Fifo
mod Tests
use libchronos.Base.{
  ℕ, ◌+◌, ◌%◌, ◌^◌, Bool, true, false, Option, none, some, if◌then◌else◌, ltb, ◌==◌,
}
use libchronos.Base.Int.{ℤ, pos, sub_ℕ, ◌-ℤ◌, ltb_ℤ, eqb_ℤ}
use libchronos.Base.Words.{inc64, sub64}

pub record MpmcQueue (A : Type 0) : Type 0 where
  pub seq : ℕ → ℕ
  pub data_at : ℕ → Option A
  pub head : ℕ
  pub tail : ℕ

-- `f[i] = v`
abbrev pub update : {B : Type 0} → (ℕ → B) → ℕ → B → ℕ → B
update f i v j = if j == i then v else f j

-- `static_cast<int64_t>`
unfoldable pub to_int64 : ℕ → ℤ
to_int64 n = if ltb n (2 ^ 63) then pos n else sub_ℕ n (2 ^ 64)

-- `diff` of the two sequence numbers
unfoldable pub diff : ℕ → ℕ → ℤ
unfolding to_int64
diff seq at = to_int64 seq -ℤ to_int64 at

abbrev pub is_zero : ℤ → Bool
is_zero d = eqb_ℤ d (pos 0)

abbrev pub is_negative : ℤ → Bool
is_negative d = ltb_ℤ d (pos 0)

-- The constructor.
abbrev pub new : {A : Type 0} → MpmcQueue A
new = record { seq = λ i. i; data_at = λ i. none; head = 0; tail = 0 }

-- `capacity` is `N`, a power of 2, so that `pos & (N - 1)` is `pos % N`.
module _ {A : Type 0} (capacity : ℕ) where
  -- What the winner of the compare-exchange stores.
  abbrev pub store_push : MpmcQueue A → A → ℕ → MpmcQueue A
  store_push q val spot = record {
    seq = update q.seq (spot % capacity) (inc64 spot);
    data_at = update q.data_at (spot % capacity) (some val);
    head = inc64 spot;
    tail = q.tail;
  }

  abbrev pub store_pop : MpmcQueue A → ℕ → MpmcQueue A
  store_pop q spot = record q {
    seq = update q.seq (spot % capacity) ((spot + capacity) % 2 ^ 64);
    tail = inc64 spot;
  }

  -- `try_push`: whether it was pushed. Where `diff > 0` the loop would load the same head again and
  -- not end: `none`.
  unfoldable pub try_push : MpmcQueue A → A → Option (Bool × MpmcQueue A)
  unfolding diff
  try_push q val =
      let d = diff (q.seq (q.head % capacity)) q.head in
      if is_zero d
      then some (true, store_push q val q.head)
      else if is_negative d
      then some (false, q)
      else none

  -- `try_pop`: the value, or nothing where it returns false.
  unfoldable pub try_pop : MpmcQueue A → Option (Option A × MpmcQueue A)
  unfolding diff
  try_pop q =
      let d = diff (q.seq (q.tail % capacity)) (inc64 q.tail) in
      if is_zero d
      then some (q.data_at (q.tail % capacity), store_pop q q.tail)
      else if is_negative d
      then some (none, q)
      else none

unfoldable pub size : {A : Type 0} → MpmcQueue A → ℕ
size q = sub64 q.head q.tail

unfoldable pub is_empty : {A : Type 0} → MpmcQueue A → Bool
unfolding size
is_empty q = size q == 0
