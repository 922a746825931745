-- ===== src/Queue/Frame.antt =====
-- What one step leaves true of the other threads.
use libchronos.Base.{ℕ, ◌+◌, ◌%◌, ◌^◌, ◌≤◌, ◌<◌, ◌≡◌, refl, ap, ◌∙◌, Option, some, arith}
use libchronos.Base.Words.{inc64}
use libchronos.Queue.{MpmcQueue, update}
use libchronos.Queue.Slots.{slot-add, slot-inj}
use libchronos.Queue.Threads.{
  Pc, idle, push_at, push_seen, push_won, push_copied, pop_at, pop_seen, pop_won, pop_copied,
  seq_of,
}
use libchronos.Queue.Inv.{IsQueue, Fits, writes, reads}

-- Two threads that do not hold the same ticket.
pub record Apart {A : Type 0} (p q : Pc A) : Type 0 where
  pub no_writes : (t : ℕ) → writes p ≡ some t → ¬ (writes q ≡ some t)
  pub no_reads : (t : ℕ) → reads p ≡ some t → ¬ (reads q ≡ some t)

module _ {A : Type 0} (capacity : ℕ) (two : 2 ≤ capacity) where
  next_round :
      (m : MpmcQueue A) (t : ℕ)
      → m.head ≡ t + capacity
      → seq_of capacity m m.head ≡ seq_of capacity m t
  next_round m t e = ap m.seq (ap (λ k. k % capacity) e ∙ slot-add capacity t)

  slot-seq :
      (m : MpmcQueue A) (t u : ℕ)
      → t % capacity ≡ u % capacity
      → seq_of capacity m t ≡ seq_of capacity m u
  slot-seq m t u e = ap m.seq e

  ticket-seq :
      (m : MpmcQueue A) (t : ℕ) → m.tail ≡ t → seq_of capacity m m.tail ≡ seq_of capacity m t
  ticket-seq m t e = ap (λ k. seq_of capacity m k) e

  pub push_win-Fits :
      (m : MpmcQueue A) (log : ℕ → Option A) (val : A) (q : Pc A)
      → m.head + capacity < 2 ^ 63
      → IsQueue capacity m log
      → seq_of capacity m m.head ≡ m.head
      → Fits capacity m log q
      → Fits capacity (record m { head = inc64 m.head }) (update log m.head (some val)) q
  push_win-Fits m log val idle small v free f = tt
  push_win-Fits m log val (push_at a s) small v free f = omega (arith, f)
  push_win-Fits m log val (push_seen a s n) small v free f = ground (arith, f)
  push_win-Fits m log val (push_won a t) small v free f = ground (arith, f)
  push_win-Fits m log val (push_copied a t) small v free f = ground (arith, f)
  push_win-Fits m log val (pop_at s) small v free f = f
  push_win-Fits m log val (pop_seen s n) small v free f = f
  push_win-Fits m log val (pop_won t) small v free f = ground (arith, f, v.ordered, next_round m t)
  push_win-Fits m log val (pop_copied t a) small v free f =
      ground (arith, f, v.ordered, next_round m t)

  pub push_copy-Fits :
      (m : MpmcQueue A) (log : ℕ → Option A) (val : A) (ticket : ℕ) (q : Pc A)
      → IsQueue capacity m log
      → Fits capacity m log (push_won val ticket)
      → Apart (push_won val ticket) q
      → Fits capacity m log q
      → Fits capacity (record m { data_at = update m.data_at (ticket % capacity) (some val) }) log q
  push_copy-Fits m log val ticket idle v own apart f = tt
  push_copy-Fits m log val ticket (push_at a s) v own apart f = f
  push_copy-Fits m log val ticket (push_seen a s n) v own apart f = f
  push_copy-Fits m log val ticket (push_won a t) v own apart f = f
  push_copy-Fits m log val ticket (push_copied a t) v own apart f = ground (
    arith,
    f,
    own,
    v.room,
    slot-inj capacity t ticket,
    slot-inj capacity ticket t,
    apart.no_writes ticket refl,
  )
  push_copy-Fits m log val ticket (pop_at s) v own apart f = f
  push_copy-Fits m log val ticket (pop_seen s n) v own apart f = f
  push_copy-Fits m log val ticket (pop_won t) v own apart f =
      ground (arith, f, own, v.room, slot-inj capacity t ticket)
  push_copy-Fits m log val ticket (pop_copied t a) v own apart f =
      ground (arith, f, own, v.room, slot-inj capacity t ticket)

  pub push_done-Fits :
      (m : MpmcQueue A) (log : ℕ → Option A) (val : A) (ticket : ℕ) (q : Pc A)
      → m.head + capacity < 2 ^ 63
      → IsQueue capacity m log
      → Fits capacity m log (push_copied val ticket)
      → Apart (push_copied val ticket) q
      → Fits capacity m log q
      → Fits capacity (record m { seq = update m.seq (ticket % capacity) (inc64 ticket) }) log q
  push_done-Fits m log val ticket idle small v own apart f = tt
  push_done-Fits m log val ticket (push_at a s) small v own apart f = f
  push_done-Fits m log val ticket (push_seen a s n) small v own apart f =
      ground (arith, f, own, slot-seq m s ticket)
  push_done-Fits m log val ticket (push_won a t) small v own apart f = ground (
    arith,
    f,
    own,
    v.room,
    slot-inj capacity t ticket,
    slot-inj capacity ticket t,
    apart.no_writes ticket refl,
  )
  push_done-Fits m log val ticket (push_copied a t) small v own apart f = ground (
    arith,
    f,
    own,
    v.room,
    slot-inj capacity t ticket,
    slot-inj capacity ticket t,
    apart.no_writes ticket refl,
  )
  push_done-Fits m log val ticket (pop_at s) small v own apart f = f
  push_done-Fits m log val ticket (pop_seen s n) small v own apart f =
      ground (arith, f, own, slot-seq m s ticket)
  push_done-Fits m log val ticket (pop_won t) small v own apart f =
      ground (arith, f, own, v.room, slot-inj capacity t ticket)
  push_done-Fits m log val ticket (pop_copied t a) small v own apart f =
      ground (arith, f, own, v.room, slot-inj capacity t ticket)

  pub pop_win-Fits :
      (m : MpmcQueue A) (log : ℕ → Option A) (q : Pc A)
      → m.head + capacity < 2 ^ 63
      → IsQueue capacity m log
      → seq_of capacity m m.tail ≡ m.tail + 1
      → m.tail < m.head
      → Fits capacity m log q
      → Fits capacity (record m { tail = inc64 m.tail }) log q
  pop_win-Fits m log idle small v full below f = tt
  pop_win-Fits m log (push_at a s) small v full below f = f
  pop_win-Fits m log (push_seen a s n) small v full below f = f
  pop_win-Fits m log (push_won a t) small v full below f = ground (arith, f, ticket-seq m t)
  pop_win-Fits m log (push_copied a t) small v full below f = ground (arith, f, ticket-seq m t)
  pop_win-Fits m log (pop_at s) small v full below f = ground (arith, f, v.ordered)
  pop_win-Fits m log (pop_seen s n) small v full below f = ground (arith, f, v.ordered)
  pop_win-Fits m log (pop_won t) small v full below f = ground (arith, f, v.ordered)
  pop_win-Fits m log (pop_copied t a) small v full below f = ground (arith, f, v.ordered)

  pub pop_done-Fits :
      (m : MpmcQueue A) (log : ℕ → Option A) (ticket : ℕ) (val : Option A) (q : Pc A)
      → m.head + capacity < 2 ^ 63
      → IsQueue capacity m log
      → Fits capacity m log (pop_copied ticket val)
      → Apart (pop_copied ticket val) q
      → Fits capacity m log q
      → Fits capacity
          (record m { seq = update m.seq (ticket % capacity) ((ticket + capacity) % 2 ^ 64) })
          log
          q
  pop_done-Fits m log ticket val idle small v own apart f = tt
  pop_done-Fits m log ticket val (push_at a s) small v own apart f = f
  pop_done-Fits m log ticket val (push_seen a s n) small v own apart f =
      ground (arith, f, own, v.ordered, slot-seq m s ticket)
  pop_done-Fits m log ticket val (push_won a t) small v own apart f =
      ground (arith, f, own, slot-inj capacity ticket t)
  pop_done-Fits m log ticket val (push_copied a t) small v own apart f =
      ground (arith, f, own, slot-inj capacity ticket t)
  pop_done-Fits m log ticket val (pop_at s) small v own apart f = f
  pop_done-Fits m log ticket val (pop_seen s n) small v own apart f =
      ground (arith, f, own, v.ordered, slot-seq m s ticket)
  pop_done-Fits m log ticket val (pop_won t) small v own apart f = ground (
    arith,
    f,
    own,
    v.ordered,
    slot-inj capacity t ticket,
    slot-inj capacity ticket t,
    apart.no_reads ticket refl,
  )
  pop_done-Fits m log ticket val (pop_copied t a) small v own apart f = ground (
    arith,
    f,
    own,
    v.ordered,
    slot-inj capacity t ticket,
    slot-inj capacity ticket t,
    apart.no_reads ticket refl,
  )
