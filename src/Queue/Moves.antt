-- ===== src/Queue/Moves.antt =====
-- Every step of every thread keeps the invariant.
use libchronos.Base.{
  ℕ, ◌+◌, ◌^◌, ◌≤◌, ◌<◌, ◌≡◌, sym, true, Option, some, arith, ◌⊎◌, inl, inr, subst,
}
use libchronos.Base.Words.{inc64}
use libchronos.Queue.{MpmcQueue, update, diff, is_zero}
use libchronos.Queue.Threads.{
  Pc, push_seen, push_won, pop_seen, pop_won, seq_of, Move, push, push_load, push_win, push_lose,
  push_full, push_late, push_copy, push_done, pop, pop_load, pop_win, pop_lose, pop_empty, pop_late,
  pop_copy, pop_done,
}
use libchronos.Queue.Inv.{
  IsQueue, Fits, writes, reads, push_win-free, pop_win-full, push_win-IsQueue, push_copy-IsQueue,
  push_done-IsQueue, pop_win-IsQueue, pop_done-IsQueue,
}
use libchronos.Queue.Frame.{
  Apart, push_win-Fits, push_copy-Fits, push_done-Fits, pop_win-Fits, pop_done-Fits,
}

-- What a step of one thread leaves.
pub record Kept {A : Type 0} (capacity : ℕ) (m : MpmcQueue A) (log : ℕ → Option A) (p : Pc A)
    (m' : MpmcQueue A) (log' : ℕ → Option A) (p' : Pc A) : Type 0 where
  pub queue : IsQueue capacity m' log'
  pub own : Fits capacity m' log' p'
  pub others : (q : Pc A) → Apart p q → Fits capacity m log q → Fits capacity m' log' q
  pub writer : (t : ℕ) → writes p' ≡ some t → (writes p ≡ some t) ⊎ (t ≡ m.head)
  pub reader : (t : ℕ) → reads p' ≡ some t → (reads p ≡ some t) ⊎ (t ≡ m.tail)
  pub slow : m'.head ≤ m.head + 1

module _ {A : Type 0} (capacity : ℕ) (two : 2 ≤ capacity) where
  -- A step that changes no memory.
  quiet :
      {m : MpmcQueue A} {log : ℕ → Option A} {p p' : Pc A}
      → IsQueue capacity m log
      → Fits capacity m log p'
      → ((t : ℕ) → writes p' ≡ some t → (writes p ≡ some t) ⊎ (t ≡ m.head))
      → ((t : ℕ) → reads p' ≡ some t → (reads p ≡ some t) ⊎ (t ≡ m.tail))
      → Kept capacity m log p m log p'
  quiet v f w r = record {
    queue = v;
    own = f;
    others = λ q a g. g;
    writer = w;
    reader = r;
    slow = omega arith;
  }

  push_win-Kept :
      {m : MpmcQueue A} {log : ℕ → Option A} (val : A) (seen : ℕ)
      → IsQueue capacity m log
      → m.head + capacity < 2 ^ 63
      → seen ≤ seq_of capacity m m.head
      → is_zero (diff seen m.head) ≡ true
      → Kept capacity m log
          (push_seen val m.head seen)
          (record m { head = inc64 m.head })
          (update log m.head (some val))
          (push_won val m.head)
  push_win-Kept {m} {log} val seen v small le z =
      let (free, space) = push_win-free capacity two m log seen v small le z in
      record {
        queue = push_win-IsQueue capacity two m log val v small free space;
        own = ground (arith, v.ordered, free);
        others = λ q a g. push_win-Fits capacity two m log val q small v free g;
        writer = λ t e. inr (ground (arith, e));
        reader = λ t e. cc;
        slow = omega arith;
      }

  pop_win-Kept :
      {m : MpmcQueue A} {log : ℕ → Option A} (seen : ℕ)
      → IsQueue capacity m log
      → m.head + capacity < 2 ^ 63
      → seen ≤ seq_of capacity m m.tail
      → is_zero (diff seen (inc64 m.tail)) ≡ true
      → Kept capacity m log
          (pop_seen m.tail seen)
          (record m { tail = inc64 m.tail })
          log
          (pop_won m.tail)
  pop_win-Kept {m} {log} seen v small le z =
      let (full, below, value) = pop_win-full capacity two m log seen v small le z in
      record {
        queue = pop_win-IsQueue capacity two m log v small full below value;
        own = ground (arith, v.room, v.ordered, full, below, value);
        others = λ q a g. pop_win-Fits capacity two m log q small v full below g;
        writer = λ t e. cc;
        reader = λ t e. inr (ground (arith, e));
        slow = omega arith;
      }

  pub Move-Kept :
      {m m' : MpmcQueue A} {log log' : ℕ → Option A} {p p' : Pc A}
      → Move capacity m log p m' log' p'
      → IsQueue capacity m log
      → m.head + capacity < 2 ^ 63
      → Fits capacity m log p
      → Kept capacity m log p m' log' p'
  Move-Kept (push val) v small f = quiet v (omega arith) (λ t e. cc) (λ t e. cc)
  Move-Kept push_load v small f = quiet v (f, omega arith) (λ t e. cc) (λ t e. cc)
  Move-Kept {m} {log = log} (push_win {val} {spot} {seen} z e) v small f =
      subst
        (λ (s : ℕ).
          Kept capacity m log (push_seen val s seen) (record m { head = inc64 s })
            (update log s (some val)) (push_won val s))
        e
        (push_win-Kept val seen v small (subst (λ (s : ℕ). seen ≤ seq_of capacity m s) (sym e) f.1)
          (subst (λ (s : ℕ). is_zero (diff seen s) ≡ true) (sym e) z))
  Move-Kept (push_lose z) v small f = quiet v (omega arith) (λ t e. cc) (λ t e. cc)
  Move-Kept (push_full z) v small f = quiet v tt (λ t e. cc) (λ t e. cc)
  Move-Kept (push_late z n) v small f = quiet v (omega arith) (λ t e. cc) (λ t e. cc)
  Move-Kept {m} {log = log} (push_copy {val} {ticket}) v small f = record {
    queue = push_copy-IsQueue capacity two m log val ticket v small f;
    own = ground (arith, f);
    others = λ q a g. push_copy-Fits capacity two m log val ticket q v f a g;
    writer = λ t e. inl e;
    reader = λ t e. cc;
    slow = omega arith;
  }
  Move-Kept {m} {log = log} (push_done {val} {ticket}) v small f = record {
    queue = push_done-IsQueue capacity two m log val ticket v small f;
    own = tt;
    others = λ q a g. push_done-Fits capacity two m log val ticket q small v f a g;
    writer = λ t e. cc;
    reader = λ t e. cc;
    slow = omega arith;
  }
  Move-Kept pop v small f = quiet v (omega arith) (λ t e. cc) (λ t e. cc)
  Move-Kept pop_load v small f = quiet v (f, omega arith) (λ t e. cc) (λ t e. cc)
  Move-Kept {m} {log = log} (pop_win {spot} {seen} z e) v small f =
      subst
        (λ (s : ℕ).
          Kept capacity m log (pop_seen s seen) (record m { tail = inc64 s }) log (pop_won s))
        e
        (pop_win-Kept seen v small (subst (λ (s : ℕ). seen ≤ seq_of capacity m s) (sym e) f.1)
          (subst (λ (s : ℕ). is_zero (diff seen (inc64 s)) ≡ true) (sym e) z))
  Move-Kept (pop_lose z) v small f = quiet v (omega arith) (λ t e. cc) (λ t e. cc)
  Move-Kept (pop_empty z) v small f = quiet v tt (λ t e. cc) (λ t e. cc)
  Move-Kept (pop_late z n) v small f = quiet v (omega arith) (λ t e. cc) (λ t e. cc)
  Move-Kept pop_copy v small f = quiet v (ground (arith, f)) (λ t e. cc) (λ t e. inl e)
  Move-Kept {m} {log = log} (pop_done {ticket} {val}) v small f = record {
    queue = pop_done-IsQueue capacity two m log ticket val v small f;
    own = tt;
    others = λ q a g. pop_done-Fits capacity two m log ticket val q small v f a g;
    writer = λ t e. cc;
    reader = λ t e. cc;
    slow = omega arith;
  }
