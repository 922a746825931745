-- ===== src/Queue/Safety.antt =====
-- What holds of the queue in every state that its threads can reach.
use native.Mathlib.Nat.{mod-eq_of_lt}
use libchronos.Base.{
  ℕ, ◌+◌, ◌%◌, ◌^◌, ◌≤◌, ◌<◌, ◌≡◌, ap, false, Option, some, ◌==◌, arith, ◌⊎◌, inl, inr, Bool-cases,
}
use libchronos.Queue.{MpmcQueue, update}
use libchronos.Queue.Slots.{slot-inj}
use libchronos.Queue.Threads.{Pc, System, seq_of, Step, pick, init, Reach, start, later}
use libchronos.Queue.Inv.{IsQueue, Fits, writes, reads}
use libchronos.Queue.Frame.{Apart}
use libchronos.Queue.Moves.{Kept, Move-Kept}

pub record IsSystem {A : Type 0} (capacity : ℕ) (s : System A) : Type 0 where
  pub queue : IsQueue capacity s.mem s.log
  pub fits : (i : ℕ) → Fits capacity s.mem s.log (s.pc i)
  pub one_writer : (i j t : ℕ) → writes (s.pc i) ≡ some t → writes (s.pc j) ≡ some t → i ≡ j
  pub one_reader : (i j t : ℕ) → reads (s.pc i) ≡ some t → reads (s.pc j) ≡ some t → i ≡ j

module _ {A : Type 0} (capacity : ℕ) (two : 2 ≤ capacity) where
  writes-below :
      (m : MpmcQueue A) (log : ℕ → Option A) (p : Pc A) (t : ℕ)
      → Fits capacity m log p
      → writes p ≡ some t
      → (m.tail ≤ t) × (t < m.head) × (seq_of capacity m t ≡ t)
  writes-below m log p t f e = ground (arith, f, e)

  reads-below :
      (m : MpmcQueue A) (log : ℕ → Option A) (p : Pc A) (t : ℕ)
      → Fits capacity m log p
      → reads p ≡ some t
      → (t < m.tail) × (m.head ≤ t + capacity) × (seq_of capacity m t ≡ t + 1)
  reads-below m log p t f e = ground (arith, f, e)

  init-IsSystem : IsSystem capacity (init {A = A} capacity)
  init-IsSystem = record {
    queue = record {
      ordered = omega arith;
      room = omega arith;
      live = λ p a b. absurd (omega arith);
      taken = λ p a b. absurd (omega arith);
      fresh = λ p a b. mod-eq_of_lt b;
    };
    fits = λ i. tt;
    one_writer = λ i j t a b. cc;
    one_reader = λ i j t a b. cc;
  }

  Step-IsSystem :
      (s t : System A)
      → Step capacity s t
      → IsSystem capacity s
      → s.mem.head + capacity < 2 ^ 63
      → IsSystem capacity t × (t.mem.head ≤ s.mem.head + 1)
  Step-IsSystem s _ (pick i {m} {log} {p} mv) v small = (
    record {
      queue = k.queue;
      fits = λ j. elim (Bool-cases (j == i)) [
        | inl e ↦ rw e k.own
        | inr e ↦ rw e (k.others (s.pc j) (apart j e) (v.fits j))
      ];
      one_writer = λ j l t a b.
          ground (arith, writer j t a, writer l t b, v.one_writer j l t, below j t, below l t);
      one_reader = λ j l t a b.
          ground (arith, reader j t a, reader l t b, v.one_reader j l t, taken j t, taken l t);
    },
    k.slow,
  )
    where
      k : Kept capacity s.mem s.log (s.pc i) m log p
      k = Move-Kept capacity two mv v.queue small (v.fits i)

      apart : (j : ℕ) → (j == i) ≡ false → Apart (s.pc i) (s.pc j)
      apart j e = record {
        no_writes = λ t a b. ground (arith, e, v.one_writer i j t a b);
        no_reads = λ t a b. ground (arith, e, v.one_reader i j t a b);
      }

      same : (j : ℕ) → i ≡ j → writes (s.pc i) ≡ writes (s.pc j)
      same j e = ap (λ x. writes (s.pc x)) e

      same_reads : (j : ℕ) → i ≡ j → reads (s.pc i) ≡ reads (s.pc j)
      same_reads j e = ap (λ x. reads (s.pc x)) e

      writer :
          (j t : ℕ)
          → writes (update s.pc i p j) ≡ some t
          → (writes (s.pc j) ≡ some t) ⊎ ((j ≡ i) × (t ≡ s.mem.head))
      writer j t = elim (Bool-cases (j == i)) [
        | inl e ↦ rw e (λ a. ground (arith, e, k.writer t a, same j))
        | inr e ↦ rw e (λ a. inl a)
      ]

      reader :
          (j t : ℕ)
          → reads (update s.pc i p j) ≡ some t
          → (reads (s.pc j) ≡ some t) ⊎ ((j ≡ i) × (t ≡ s.mem.tail))
      reader j t = elim (Bool-cases (j == i)) [
        | inl e ↦ rw e (λ a. ground (arith, e, k.reader t a, same_reads j))
        | inr e ↦ rw e (λ a. inl a)
      ]

      below : (j t : ℕ) → writes (s.pc j) ≡ some t → t < s.mem.head
      below j t e = (writes-below s.mem s.log (s.pc j) t (v.fits j) e).1

      taken : (j t : ℕ) → reads (s.pc j) ≡ some t → t < s.mem.tail
      taken j t e = (reads-below s.mem s.log (s.pc j) t (v.fits j) e).0

  pub Reach-IsSystem :
      (n : ℕ) (s : System A)
      → Reach capacity n s
      → n + capacity < 2 ^ 63
      → IsSystem capacity s × (s.mem.head ≤ n)
  Reach-IsSystem _ _ start small = (init-IsSystem, omega arith)
  Reach-IsSystem _ _ (later {n} {s} {t} r st) small =
      let (v, le) = Reach-IsSystem n s r (omega arith) in
      let (v', le') = Step-IsSystem s t st v (omega arith) in (v', omega arith)

  -- The ticket whose slot a thread writes or reads.
  abbrev pub IsAccess : Pc A → ℕ → Type 0
  IsAccess p t = (writes p ≡ some t) ⊎ (reads p ≡ some t)

  -- Two threads never access the data of the same slot at the same time, in any run of fewer than
  -- 2 ^ 63 - capacity steps of a queue with at least two slots.
  pub slot_exclusive :
      (n : ℕ) (s : System A) (i j t u : ℕ)
      → Reach capacity n s
      → n + capacity < 2 ^ 63
      → IsAccess (s.pc i) t
      → IsAccess (s.pc j) u
      → t % capacity ≡ u % capacity
      → i ≡ j
  slot_exclusive n s i j t u r small a b e =
      let (v, le) = Reach-IsSystem n s r small in
      ground (
        arith,
        writes-below s.mem s.log (s.pc i) t (v.fits i),
        writes-below s.mem s.log (s.pc j) u (v.fits j),
        reads-below s.mem s.log (s.pc i) t (v.fits i),
        reads-below s.mem s.log (s.pc j) u (v.fits j),
        v.queue.room,
        slot-inj capacity t u,
        slot-inj capacity u t,
        v.one_writer i j t,
        v.one_reader i j t,
        ap s.mem.seq e,
      )
