-- ===== src/Queue/Inv.antt =====
-- The invariant of the queue under its threads: who may touch which slot.
use libchronos.Base.{
  dec_lt, ℕ, ◌+◌, ◌-◌, ◌%◌, ◌^◌, ◌≤◌, ◌<◌, ◌≡◌, ap, true, Option, none, some, arith, ◌⊎◌, inl,
}
use libchronos.Base.Words.{inc64}
use libchronos.Queue.{MpmcQueue, update, diff, is_zero}
use libchronos.Queue.Slots.{slot-add, slot-inj, is_zero-diff}
use libchronos.Queue.Threads.{
  Pc, idle, push_at, push_seen, push_won, push_copied, pop_at, pop_seen, pop_won, pop_copied,
  seq_of,
}

module _ {A : Type 0} (capacity : ℕ) where
  -- The tickets that have been drawn and not been taken are written or being written; those that
  -- have been taken, and not been drawn again, are read or being read.
  pub record IsQueue (m : MpmcQueue A) (log : ℕ → Option A) : Type 0 where
    pub ordered : m.tail ≤ m.head
    pub room : m.head ≤ m.tail + capacity
    pub live :
        (p : ℕ)
        → m.tail ≤ p
        → p < m.head
        → (seq_of capacity m p ≡ p)
          ⊎ ((seq_of capacity m p ≡ p + 1) × (m.data_at (p % capacity) ≡ log p))
    pub taken :
        (p : ℕ)
        → p < m.tail
        → m.head ≤ p + capacity
        → ((seq_of capacity m p ≡ p + 1) × (m.data_at (p % capacity) ≡ log p))
          ⊎ (seq_of capacity m p ≡ p + capacity)
    pub fresh : (p : ℕ) → m.head ≤ p → p < capacity → seq_of capacity m p ≡ p

  -- What the local variables of a thread say about the queue.
  abbrev pub Fits : MpmcQueue A → (ℕ → Option A) → Pc A → Type 0
  Fits m log idle = Unit
  Fits m log (push_at val spot) = spot ≤ m.head
  Fits m log (push_seen val spot seen) = (spot ≤ m.head) × (seen ≤ seq_of capacity m spot)
  Fits m log (push_won val ticket) =
      (m.tail ≤ ticket)
      × (ticket < m.head)
      × (seq_of capacity m ticket ≡ ticket)
      × (log ticket ≡ some val)
  Fits m log (push_copied val ticket) =
      (m.tail ≤ ticket)
      × (ticket < m.head)
      × (seq_of capacity m ticket ≡ ticket)
      × (log ticket ≡ some val)
      × (m.data_at (ticket % capacity) ≡ some val)
  Fits m log (pop_at spot) = spot ≤ m.tail
  Fits m log (pop_seen spot seen) = (spot ≤ m.tail) × (seen ≤ seq_of capacity m spot)
  Fits m log (pop_won ticket) =
      (ticket < m.tail)
      × (m.head ≤ ticket + capacity)
      × (seq_of capacity m ticket ≡ ticket + 1)
      × (m.data_at (ticket % capacity) ≡ log ticket)
  Fits m log (pop_copied ticket val) =
      (ticket < m.tail)
      × (m.head ≤ ticket + capacity)
      × (seq_of capacity m ticket ≡ ticket + 1)
      × (m.data_at (ticket % capacity) ≡ log ticket)
      × (val ≡ log ticket)

-- The ticket whose slot a thread writes, and the one whose slot it reads.
abbrev pub writes : {A : Type 0} → Pc A → Option ℕ
writes (push_won val ticket) = some ticket
writes (push_copied val ticket) = some ticket
writes _ = none

abbrev pub reads : {A : Type 0} → Pc A → Option ℕ
reads (pop_won ticket) = some ticket
reads (pop_copied ticket val) = some ticket
reads _ = none

module _ {A : Type 0} (capacity : ℕ) (two : 2 ≤ capacity) where
  -- The slot of the next ticket to write, and of the next one to read.
  head-seq :
      (m : MpmcQueue A) (log : ℕ → Option A)
      → IsQueue capacity m log
      → ((seq_of capacity m m.head ≡ m.head) × (m.head < m.tail + capacity))
        ⊎ ((capacity ≤ m.head) × (seq_of capacity m m.head ≤ m.head + 1 - capacity))
  head-seq m log v = elim (dec_lt m.head capacity) [
    | yes lt ↦ inl (v.fresh m.head (omega arith) lt, omega arith)
    | no ge ↦ ground (
      arith,
      v.live (m.head - capacity),
      v.taken (m.head - capacity),
      slot-add capacity (m.head - capacity),
      sub_back,
      v.ordered,
      v.room,
    )
  ]
    where
      sub_back : capacity ≤ m.head → (m.head - capacity + capacity) % capacity ≡ m.head % capacity
      sub_back le = ap (λ k. k % capacity) (omega arith)

  tail-seq :
      (m : MpmcQueue A) (log : ℕ → Option A)
      → IsQueue capacity m log
      → seq_of capacity m m.tail ≤ m.tail + 1
  tail-seq m log v = ground (arith, v.live m.tail, v.ordered, head-seq m log v, same)
    where
      same : m.head ≡ m.tail → seq_of capacity m m.head ≡ seq_of capacity m m.tail
      same e = ap (λ k. seq_of capacity m k) e

  -- A thread that wins the compare-exchange finds the slot free, however late it comes.
  pub push_win-free :
      (m : MpmcQueue A) (log : ℕ → Option A) (seen : ℕ)
      → IsQueue capacity m log
      → m.head + capacity < 2 ^ 63
      → seen ≤ seq_of capacity m m.head
      → is_zero (diff seen m.head) ≡ true
      → (seq_of capacity m m.head ≡ m.head) × (m.head < m.tail + capacity)
  push_win-free m log seen v small le z = ground (arith, head-seq m log v, is_zero-diff seen m.head)

  pub pop_win-full :
      (m : MpmcQueue A) (log : ℕ → Option A) (seen : ℕ)
      → IsQueue capacity m log
      → m.head + capacity < 2 ^ 63
      → seen ≤ seq_of capacity m m.tail
      → is_zero (diff seen (inc64 m.tail)) ≡ true
      → (seq_of capacity m m.tail ≡ m.tail + 1)
        × (m.tail < m.head)
        × (m.data_at (m.tail % capacity) ≡ log m.tail)
  pop_win-full m log seen v small le z = ground (
    arith,
    tail-seq m log v,
    head-seq m log v,
    v.ordered,
    v.live m.tail,
    same,
    is_zero-diff seen (inc64 m.tail),
  )
    where
      same : m.head ≡ m.tail → seq_of capacity m m.head ≡ seq_of capacity m m.tail
      same e = ap (λ k. seq_of capacity m k) e

  pub push_win-IsQueue :
      (m : MpmcQueue A) (log : ℕ → Option A) (val : A)
      → IsQueue capacity m log
      → m.head + capacity < 2 ^ 63
      → seq_of capacity m m.head ≡ m.head
      → m.head < m.tail + capacity
      → IsQueue capacity (record m { head = inc64 m.head }) (update log m.head (some val))
  push_win-IsQueue m log val v small free space = record {
    ordered = omega (arith, v.ordered);
    room = omega (arith, v.room);
    live = λ p a b. ground (arith, v.live p, ap (λ k. seq_of capacity m k));
    taken = λ p a b. ground (arith, v.taken p, v.ordered);
    fresh = λ p a b. ground (arith, v.fresh p);
  }

  pub push_copy-IsQueue :
      (m : MpmcQueue A) (log : ℕ → Option A) (val : A) (ticket : ℕ)
      → IsQueue capacity m log
      → m.head + capacity < 2 ^ 63
      → Fits capacity m log (push_won val ticket)
      → IsQueue capacity
          (record m { data_at = update m.data_at (ticket % capacity) (some val) })
          log
  push_copy-IsQueue m log val ticket v small f = record {
    ordered = v.ordered;
    room = v.room;
    live = λ p a b. ground (
      arith,
      v.live p a b,
      f,
      slot-inj capacity p ticket,
      slot-inj capacity ticket p,
      v.room,
      clash p,
    );
    taken = λ p a b. ground (arith, v.taken p a b, f, slot-inj capacity p ticket, v.room, clash p);
    fresh = v.fresh;
  }
    where
      clash :
          (p : ℕ)
          → p % capacity ≡ ticket % capacity
          → seq_of capacity m p ≡ seq_of capacity m ticket
      clash p e = ap m.seq e

  pub push_done-IsQueue :
      (m : MpmcQueue A) (log : ℕ → Option A) (val : A) (ticket : ℕ)
      → IsQueue capacity m log
      → m.head + capacity < 2 ^ 63
      → Fits capacity m log (push_copied val ticket)
      → IsQueue capacity (record m { seq = update m.seq (ticket % capacity) (inc64 ticket) }) log
  push_done-IsQueue m log val ticket v small f = record {
    ordered = v.ordered;
    room = v.room;
    live = λ p a b.
        ground
          (arith, v.live p a b, f, slot-inj capacity p ticket, slot-inj capacity ticket p, v.room);
    taken = λ p a b. ground (arith, v.taken p a b, f, slot-inj capacity p ticket, v.room);
    fresh = λ p a b. ground (arith, v.fresh p a b, f, slot-inj capacity ticket p);
  }

  pub pop_win-IsQueue :
      (m : MpmcQueue A) (log : ℕ → Option A)
      → IsQueue capacity m log
      → m.head + capacity < 2 ^ 63
      → seq_of capacity m m.tail ≡ m.tail + 1
      → m.tail < m.head
      → m.data_at (m.tail % capacity) ≡ log m.tail
      → IsQueue capacity (record m { tail = inc64 m.tail }) log
  pop_win-IsQueue m log v small full some_left value = record {
    ordered = omega (arith, v.ordered);
    room = omega (arith, v.room);
    live = λ p a b. ground (arith, v.live p);
    taken = λ p a b. ground (
      arith,
      v.taken p,
      ap (λ k. seq_of capacity m k),
      ap (λ k. m.data_at (k % capacity)),
      ap log,
    );
    fresh = v.fresh;
  }

  pub pop_done-IsQueue :
      (m : MpmcQueue A) (log : ℕ → Option A) (ticket : ℕ) (val : Option A)
      → IsQueue capacity m log
      → m.head + capacity < 2 ^ 63
      → Fits capacity m log (pop_copied ticket val)
      → IsQueue capacity
          (record m { seq = update m.seq (ticket % capacity) ((ticket + capacity) % 2 ^ 64) })
          log
  pop_done-IsQueue m log ticket val v small f = record {
    ordered = v.ordered;
    room = v.room;
    live = λ p a b. ground (arith, v.live p a b, f, slot-inj capacity ticket p);
    taken = λ p a b. ground (
      arith,
      v.taken p a b,
      f,
      slot-inj capacity p ticket,
      slot-inj capacity ticket p,
      v.ordered,
    );
    fresh = λ p a b. ground (arith, v.fresh p a b, f, slot-inj capacity ticket p);
  }
