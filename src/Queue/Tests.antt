-- ===== src/Queue/Tests.antt =====
-- The theorems of the queue at runs of two slots: a thread pushes 5, and pops it again.
use libchronos.Base.{ℕ, ◌<◌, ◌≡◌, refl, true, none, some, arith, inl}
use libchronos.Base.Int.{◌-ℤ◌}
use libchronos.Queue.{update, diff, new, try_push, try_pop, store_push, size, is_empty}
use libchronos.Queue.Threads.{
  idle, push_at, push_seen, push_won, push_copied, pop_at, pop_seen, pop_won, pop_copied, System,
  push, push_load, push_win, push_copy, push_done, pop, pop_load, pop_win, pop_copy, pick, Reach,
  start, later,
}
use libchronos.Queue.Safety.{slot_exclusive}
use libchronos.Queue.Order.{contents, FifoStep, Step-FifoStep, popped-eq-log}
use libchronos.Queue.Fifo.{IsCalm, Pushed, Popped, try_push-Pushed, try_pop-Popped}

abbrev loaded : System ℕ
loaded = record {
  mem = new;
  log = λ k. none;
  pc = update (update (λ k. idle) 0 (push_at 5 0)) 0 (push_seen 5 0 0);
}

abbrev won : System ℕ
won = record {
  mem = record loaded.mem { head = 1 };
  log = update loaded.log 0 (some 5);
  pc = update loaded.pc 0 (push_won 5 0);
}

abbrev pushed : System ℕ
pushed = record {
  mem = store_push 2 new 5 0;
  log = won.log;
  pc = update (update won.pc 0 (push_copied 5 0)) 0 idle;
}

abbrev popped : System ℕ
popped = record {
  mem = record pushed.mem { tail = 1 };
  log = won.log;
  pc =
      update (update (update (update pushed.pc 1 (pop_at 0)) 1 (pop_seen 0 1)) 1 (pop_won 0)) 1
        (pop_copied 0 (some 5));
}

reach_loaded : Reach 2 2 loaded
reach_loaded = later (later start (pick 0 (push 5))) (pick 0 push_load)

reach_won : Reach 2 3 won
unfolding diff ◌-ℤ◌
reach_won = later reach_loaded (pick 0 (push_win {spot = 0} {seen = 0} refl refl))

reach_pushed : Reach 2 5 pushed
reach_pushed = later (later reach_won (pick 0 push_copy)) (pick 0 push_done)

reach_popped : Reach 2 9 popped
unfolding diff ◌-ℤ◌
reach_popped =
    later
      (later (later (later reach_pushed (pick 1 pop)) (pick 1 pop_load))
        (pick 1 (pop_win {spot = 0} {seen = 1} refl refl)))
      (pick 1 pop_copy)

slot_exclusive_example : ◌≡◌ {A = ℕ} 0 0
slot_exclusive_example =
    slot_exclusive 2 (omega arith) 3 won 0 0 0 0 reach_won (omega arith) (inl refl) (inl refl) refl

Step-FifoStep_example : FifoStep 2 (contents loaded) (contents won)
unfolding diff ◌-ℤ◌
Step-FifoStep_example =
    Step-FifoStep 2 (omega arith) 2 loaded won reach_loaded (omega arith)
      (pick 0 (push_win {spot = 0} {seen = 0} refl refl))

popped-eq-log_example : (some 5 ≡ won.log 0) × (0 < 1)
popped-eq-log_example =
    popped-eq-log 2 (omega arith) 9 popped 1 0 (some 5) reach_popped (omega arith) refl

new-IsCalm : IsCalm 2 (new {A = ℕ})
new-IsCalm = record {
  ordered = omega arith;
  room = omega arith;
  live = λ p a b. ground arith;
  taken = λ p a b. ground arith;
  fresh = λ p a b. omega arith;
}

try_push-Pushed_example : Pushed {A = ℕ} 2 new 5
try_push-Pushed_example = try_push-Pushed 2 (omega arith) new 5 new-IsCalm (omega arith)

try_pop-Popped_example : Popped 2 (new {A = ℕ})
try_pop-Popped_example = try_pop-Popped 2 (omega arith) new new-IsCalm (omega arith)

-- With one slot a push into the full queue succeeds, and a pop then never ends.
overwrites :
    try_push 1 (store_push 1 (new {A = ℕ}) 5 0) 6
    ≡ some (true, store_push 1 (store_push 1 new 5 0) 6 1)
unfolding try_push ◌-ℤ◌
overwrites = refl

spins : try_pop 1 (store_push 1 (store_push 1 (new {A = ℕ}) 5 0) 6 1) ≡ none
unfolding try_pop ◌-ℤ◌
spins = refl

sizes : (size (store_push 2 (new {A = ℕ}) 5 0) ≡ 1) × (is_empty (new {A = ℕ}) ≡ true)
unfolding size is_empty
sizes = (refl, refl)
