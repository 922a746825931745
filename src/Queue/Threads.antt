-- ===== src/Queue/Threads.antt =====
-- Any number of threads in `try_push` and `try_pop`, a shared access at a time and interleaved in
-- any order. `log` is a ghost: the value that the winner of each ticket is about to write.
use libchronos.Base.{ℕ, suc, ◌+◌, ◌%◌, ◌^◌, ◌≡◌, true, false, Option, none, some}
use libchronos.Base.Words.{inc64}
use libchronos.Queue.{MpmcQueue, update, diff, is_zero, is_negative, new}

-- Where a thread stands, with the local variables that are live there.
pub data Pc (A : Type 0) : Type 0 where
  idle : Pc A
  push_at : (val : A) (spot : ℕ) → Pc A  -- the head is loaded
  push_seen : (val : A) (spot seen : ℕ) → Pc A  -- the sequence number is loaded
  push_won : (val : A) (ticket : ℕ) → Pc A  -- the compare-exchange has succeeded
  push_copied : (val : A) (ticket : ℕ) → Pc A  -- before the store of the sequence number
  pop_at : (spot : ℕ) → Pc A
  pop_seen : (spot seen : ℕ) → Pc A
  pop_won : (ticket : ℕ) → Pc A
  pop_copied : (ticket : ℕ) (val : Option A) → Pc A

pub record System (A : Type 0) : Type 0 where
  pub mem : MpmcQueue A
  pub log : ℕ → Option A
  pub pc : ℕ → Pc A

module _ {A : Type 0} (capacity : ℕ) where
  abbrev pub seq_of : MpmcQueue A → ℕ → ℕ
  seq_of m spot = m.seq (spot % capacity)

  -- One step of one thread. A weak compare-exchange may fail where the head has not moved.
  pub data Move (m : MpmcQueue A) (log : ℕ → Option A)
      : Pc A → MpmcQueue A → (ℕ → Option A) → Pc A → Type 0 where
    push : (val : A) → Move m log idle m log (push_at val m.head)
    push_load :
        {val : A} {spot : ℕ}
        → Move m log (push_at val spot) m log (push_seen val spot (seq_of m spot))
    push_win :
        {val : A} {spot seen : ℕ}
        → is_zero (diff seen spot) ≡ true
        → m.head ≡ spot
        → Move m log
            (push_seen val spot seen)
            (record m { head = inc64 spot })
            (update log spot (some val))
            (push_won val spot)
    push_lose :
        {val : A} {spot seen : ℕ}
        → is_zero (diff seen spot) ≡ true
        → Move m log (push_seen val spot seen) m log (push_at val m.head)
    push_full :
        {val : A} {spot seen : ℕ}
        → is_negative (diff seen spot) ≡ true
        → Move m log (push_seen val spot seen) m log idle
    push_late :
        {val : A} {spot seen : ℕ}
        → is_zero (diff seen spot) ≡ false
        → is_negative (diff seen spot) ≡ false
        → Move m log (push_seen val spot seen) m log (push_at val m.head)
    push_copy :
        {val : A} {ticket : ℕ}
        → Move m log
            (push_won val ticket)
            (record m { data_at = update m.data_at (ticket % capacity) (some val) })
            log
            (push_copied val ticket)
    push_done :
        {val : A} {ticket : ℕ}
        → Move m log
            (push_copied val ticket)
            (record m { seq = update m.seq (ticket % capacity) (inc64 ticket) })
            log
            idle
    pop : Move m log idle m log (pop_at m.tail)
    pop_load : {spot : ℕ} → Move m log (pop_at spot) m log (pop_seen spot (seq_of m spot))
    pop_win :
        {spot seen : ℕ}
        → is_zero (diff seen (inc64 spot)) ≡ true
        → m.tail ≡ spot
        → Move m log (pop_seen spot seen) (record m { tail = inc64 spot }) log (pop_won spot)
    pop_lose :
        {spot seen : ℕ}
        → is_zero (diff seen (inc64 spot)) ≡ true
        → Move m log (pop_seen spot seen) m log (pop_at m.tail)
    pop_empty :
        {spot seen : ℕ}
        → is_negative (diff seen (inc64 spot)) ≡ true
        → Move m log (pop_seen spot seen) m log idle
    pop_late :
        {spot seen : ℕ}
        → is_zero (diff seen (inc64 spot)) ≡ false
        → is_negative (diff seen (inc64 spot)) ≡ false
        → Move m log (pop_seen spot seen) m log (pop_at m.tail)
    pop_copy :
        {ticket : ℕ}
        → Move m log (pop_won ticket) m log (pop_copied ticket (m.data_at (ticket % capacity)))
    pop_done :
        {ticket : ℕ} {val : Option A}
        → Move m log
            (pop_copied ticket val)
            (record m { seq = update m.seq (ticket % capacity) ((ticket + capacity) % 2 ^ 64) })
            log
            idle

  pub data Step (s : System A) : System A → Type 0 where
    pick :
        (i : ℕ) {m : MpmcQueue A} {log : ℕ → Option A} {p : Pc A}
        → Move s.mem s.log (s.pc i) m log p
        → Step s (record { mem = m; log = log; pc = update s.pc i p })

  abbrev pub init : System A
  init = record { mem = new; log = λ k. none; pc = λ k. idle }

  -- What `n` steps lead to.
  pub data Reach : ℕ → System A → Type 0 where
    start : Reach 0 init
    later : {n : ℕ} {s t : System A} → Reach n s → Step s t → Reach (suc n) t
