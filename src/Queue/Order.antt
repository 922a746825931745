-- ===== src/Queue/Order.antt =====
-- The queue under its threads is a bounded FIFO queue: what the winners of the compare-exchanges do
-- to the values between tail and head.
use libchronos.Base.{
  ℕ, zero, suc, ◌+◌, ◌-◌, ◌^◌, ◌≤◌, ◌<◌, ◌≡◌, refl, sym, ap, ap₂, ◌∙◌, true, Option, some, List, [],
  ◌∷◌, ◌++◌, length, arith, subst,
}
use libchronos.Base.Words.{inc64}
use libchronos.Queue.{MpmcQueue, update, is_zero, diff}
use libchronos.Queue.Threads.{
  Pc, pop_copied, System, seq_of, Move, push, push_load, push_win, push_lose, push_full, push_late,
  push_copy, push_done, pop, pop_load, pop_win, pop_lose, pop_empty, pop_late, pop_copy, pop_done,
  Step, pick, Reach,
}
use libchronos.Queue.Inv.{IsQueue, Fits, push_win-free, pop_win-full}
use libchronos.Queue.Safety.{Reach-IsSystem}

module _ {A : Type 0} where
  -- The values of `n` tickets from `from` on.
  unfoldable pub slice : (ℕ → Option A) → ℕ → ℕ → List (Option A)
  slice log from zero = []
  slice log from (suc n) = log from ∷ slice log (suc from) n

  pub length-slice : (log : ℕ → Option A) (from n : ℕ) → length (slice log from n) ≡ n
  unfolding slice
  length-slice log from zero = refl
  length-slice log from (suc n) = ap suc (length-slice log (suc from) n)

  pub slice-suc :
      (log : ℕ → Option A) (from n : ℕ)
      → slice log from (suc n) ≡ slice log from n ++ (log (from + n) ∷ [])
  unfolding slice
  slice-suc log from zero = ap (λ k. log k ∷ []) (omega arith)
  slice-suc log from (suc n) =
      ap (λ l. log from ∷ l)
        (slice-suc log (suc from) n
          ∙ ap (λ k. slice log (suc from) n ++ (log k ∷ [])) (omega arith))

  slice-update :
      (log : ℕ → Option A) (from n k : ℕ) (a : Option A)
      → from + n ≤ k
      → slice (update log k a) from n ≡ slice log from n
  unfolding slice
  slice-update log from zero k a h = refl
  slice-update log from (suc n) k a h = ground (arith, slice-update log (suc from) n k a)

  -- What is in the queue, oldest first.
  unfoldable pub contents : System A → List (Option A)
  contents s = slice s.log s.mem.tail (s.mem.head - s.mem.tail)

-- One step of a bounded FIFO queue, from one list to the next: nothing, one value in at the end where
-- there is room, or the first value out.
pub data FifoStep {A : Type 0} (capacity : ℕ) (xs ys : List A) : Type 0 where
  stay : xs ≡ ys → FifoStep capacity xs ys
  enter : (a : A) → length xs < capacity → ys ≡ xs ++ (a ∷ []) → FifoStep capacity xs ys
  leave : (a : A) → xs ≡ a ∷ ys → FifoStep capacity xs ys

module _ {A : Type 0} (capacity : ℕ) (two : 2 ≤ capacity) where
  push_win-FifoStep :
      (m : MpmcQueue A) (log : ℕ → Option A) (val : A) (seen : ℕ)
      → IsQueue capacity m log
      → m.head + capacity < 2 ^ 63
      → seen ≤ seq_of capacity m m.head
      → is_zero (diff seen m.head) ≡ true
      → FifoStep capacity
          (slice log m.tail (m.head - m.tail))
          (slice (update log m.head (some val)) m.tail (inc64 m.head - m.tail))
  push_win-FifoStep m log val seen v small le z =
      enter (some val) (omega (arith, length-slice log m.tail (m.head - m.tail), space)) (
        ap (slice log' m.tail) (omega (arith, v.ordered))
        ∙ slice-suc log' m.tail (m.head - m.tail)
        ∙ ap₂ (λ xs a. xs ++ (a ∷ []))
            (slice-update log m.tail (m.head - m.tail) m.head (some val) (omega (arith, v.ordered)))
            last)
    where
      log' : ℕ → Option A
      log' = update log m.head (some val)

      space : m.head < m.tail + capacity
      space = (push_win-free capacity two m log seen v small le z).1

      last : log' (m.tail + (m.head - m.tail)) ≡ some val
      last = ground (arith, v.ordered)

  pop_win-FifoStep :
      (m : MpmcQueue A) (log : ℕ → Option A) (seen : ℕ)
      → IsQueue capacity m log
      → m.head + capacity < 2 ^ 63
      → seen ≤ seq_of capacity m m.tail
      → is_zero (diff seen (inc64 m.tail)) ≡ true
      → FifoStep capacity
          (slice log m.tail (m.head - m.tail))
          (slice log (inc64 m.tail) (m.head - inc64 m.tail))
  unfolding slice
  pop_win-FifoStep m log seen v small le z = leave (log m.tail) (
      ap (slice log m.tail) {x = m.head - m.tail} {y = suc (m.head - inc64 m.tail)}
        (omega (arith, below))
      ∙ ap (λ k. log m.tail ∷ slice log k (m.head - inc64 m.tail)) (omega (arith, below)))
    where
      below : m.tail < m.head
      below = (pop_win-full capacity two m log seen v small le z).1

  Move-FifoStep :
      {m m' : MpmcQueue A} {log log' : ℕ → Option A} {p p' : Pc A}
      → Move capacity m log p m' log' p'
      → IsQueue capacity m log
      → m.head + capacity < 2 ^ 63
      → Fits capacity m log p
      → FifoStep capacity
          (slice log m.tail (m.head - m.tail))
          (slice log' m'.tail (m'.head - m'.tail))
  Move-FifoStep {m} {log = log} (push_win {val} {spot} {seen} z e) v small f =
      subst
        (λ (s : ℕ).
          FifoStep capacity (slice log m.tail (m.head - m.tail))
            (slice (update log s (some val)) m.tail (inc64 s - m.tail)))
        e
        (push_win-FifoStep m log val seen v small
          (subst (λ (s : ℕ). seen ≤ seq_of capacity m s) (sym e) f.1)
          (subst (λ (s : ℕ). is_zero (diff seen s) ≡ true) (sym e) z))
  Move-FifoStep {m} {log = log} (pop_win {spot} {seen} z e) v small f =
      subst
        (λ (s : ℕ).
          FifoStep capacity (slice log m.tail (m.head - m.tail))
            (slice log (inc64 s) (m.head - inc64 s)))
        e
        (pop_win-FifoStep m log seen v small
          (subst (λ (s : ℕ). seen ≤ seq_of capacity m s) (sym e) f.1)
          (subst (λ (s : ℕ). is_zero (diff seen (inc64 s)) ≡ true) (sym e) z))
  Move-FifoStep (push val) v small f = stay refl
  Move-FifoStep push_load v small f = stay refl
  Move-FifoStep (push_lose z) v small f = stay refl
  Move-FifoStep (push_full z) v small f = stay refl
  Move-FifoStep (push_late z n) v small f = stay refl
  Move-FifoStep push_copy v small f = stay refl
  Move-FifoStep push_done v small f = stay refl
  Move-FifoStep pop v small f = stay refl
  Move-FifoStep pop_load v small f = stay refl
  Move-FifoStep (pop_lose z) v small f = stay refl
  Move-FifoStep (pop_empty z) v small f = stay refl
  Move-FifoStep (pop_late z n) v small f = stay refl
  Move-FifoStep pop_copy v small f = stay refl
  Move-FifoStep pop_done v small f = stay refl

  -- Each step of each thread, in any state that fewer than 2 ^ 63 - capacity steps lead to, is a step
  -- of a bounded FIFO queue on the values between tail and head; capacity is at least 2.
  pub Step-FifoStep :
      (n : ℕ) (s t : System A)
      → Reach capacity n s
      → n + capacity < 2 ^ 63
      → Step capacity s t
      → FifoStep capacity (contents s) (contents t)
  unfolding contents
  Step-FifoStep n s _ r small (pick i mv) =
      let (v, le) = Reach-IsSystem capacity two n s r small in
      Move-FifoStep mv v.queue (omega arith) (v.fits i)

  -- In such a state, a thread that has copied its value in try_pop holds the value that entered the
  -- queue with its ticket.
  pub popped-eq-log :
      (n : ℕ) (s : System A) (i ticket : ℕ) (val : Option A)
      → Reach capacity n s
      → n + capacity < 2 ^ 63
      → s.pc i ≡ pop_copied ticket val
      → (val ≡ s.log ticket) × (ticket < s.mem.tail)
  popped-eq-log n s i ticket val r small e =
      let (v, le) = Reach-IsSystem capacity two n s r small in
      let f : Fits capacity s.mem s.log (pop_copied ticket val) =
        subst (Fits capacity s.mem s.log) e (v.fits i) in
      (f.4, f.0)
