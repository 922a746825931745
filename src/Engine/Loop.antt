-- ===== src/Engine/Loop.antt =====
-- The turns of the loop `run`, one after the other.
use libchronos.Base.{
  ℕ, suc, ◌+◌, ◌*◌, refl, sym, subst, ◌∙◌, Bool, true, false, Option, some, List, [], ◌∷◌, length,
  arith, Bool-cases, Option-cases, inl, inr, ◌>>=◌,
}
use libchronos.Decimal.{Fixed}
use libchronos.Queue.Fifo.{Popped, try_pop-Popped}
use libchronos.Engine.{queue_capacity}
use libchronos.Engine.Program.{Strategy}
use libchronos.Engine.Dispatch.{StrategyEngine, Readings, run_idle, turn_fill, turn}
use libchronos.Engine.Live.{suc-times, IsLive, Lives, relive, call_all-Lives}
use libchronos.Engine.Events.{process_tick-Lives, process_fill-Lives}

-- The most requests of a turn: `n` calls in each callback of `count` strategies.
abbrev pub per_turn : ℕ → ℕ → ℕ
per_turn n count = count * n + (count * n + (count * n + n))

-- `run` for a number of turns.
module _ {S F D : Type 0} ⦃fx : Fixed D⦄ {n : ℕ} (code : Strategy S D n) where
  unfoldable pub run : StrategyEngine S F D → List Readings → Option (StrategyEngine S F D)
  unfolding turn
  run e [] = some e
  run e (now ∷ later) = do e' ← turn code e now; run e' later

module _ {S F D : Type 0} ⦃fx : Fixed D⦄ {n : ℕ} (code : Strategy S D n) where
  idle-Lives :
      (e : StrategyEngine S F D) (now : Readings) (rest : ℕ)
      → IsLive e (length e.strategies * n + rest)
      → Lives e (run_idle code e now) rest
  unfolding run_idle
  idle-Lives e now rest v = elim (Option-cases now.idle_us) [
    | inl early ↦ record {
      after = e;
      returns = rw (run_idle, early) refl;
      live = relive e (length e.strategies * n + rest) rest (omega arith) v;
      same = refl;
    }
    | inr (now_us, due) ↦
        let l = call_all-Lives (λ entry. true) (code.on_timer now_us) now.idle_clock e rest v in
        record {
          after = l.after;
          returns = rw (run_idle, due) l.returns;
          live = l.live;
          same = l.same;
        }
  ]

  turn_fill-Lives :
      (e : StrategyEngine S F D) (did_work : Bool) (now : Readings) (rest : ℕ)
      → IsLive e (length e.strategies * n + (n + rest))
      → Lives e (turn_fill code e did_work now) rest
  unfolding turn_fill
  turn_fill-Lives e did_work now rest v =
      let p : Popped queue_capacity e.fill_queue =
        try_pop-Popped queue_capacity (omega arith) e.fill_queue v.fills v.fills_small in
      let e1 : StrategyEngine S F D = record e { fill_queue = p.after } in
      let v1 : IsLive e1 (length e.strategies * n + (n + rest)) = record {
        ready = v.ready;
        ticks = v.ticks;
        ticks_small = v.ticks_small;
        fills = p.calm;
        fills_small = omega (arith, p.head_kept, v.fills_small);
      } in
      elim (Option-cases p.value) [
        | inr (fill, got) ↦
            let l =
              process_fill-Lives code e1 fill now.fill_clock rest
                (relive e1 (length e.strategies * n + (n + rest)) (n + rest) (omega arith) v1) in
            record {
              after = l.after;
              returns = rw (turn_fill, p.returns, got) l.returns;
              live = l.live;
              same = l.same;
            }
        | inl empty ↦ elim (Bool-cases did_work) [
          | inl worked ↦ record {
            after = e1;
            returns = rw (turn_fill, p.returns, empty, worked) refl;
            live = relive e1 (length e.strategies * n + (n + rest)) rest (omega arith) v1;
            same = refl;
          }
          | inr idle ↦
              let l = idle-Lives e1 now rest (
                relive e1 (length e.strategies * n + (n + rest)) (length e.strategies * n + rest)
                  (omega arith) v1) in
              record {
                after = l.after;
                returns = rw (turn_fill, p.returns, empty, idle) l.returns;
                live = l.live;
                same = l.same;
              }
        ]
      ]

  turn-Lives :
      (e : StrategyEngine S F D) (now : Readings) (rest : ℕ)
      → IsLive e (per_turn n (length e.strategies) + rest)
      → Lives e (turn code e now) rest
  unfolding turn
  turn-Lives e now rest v =
      let all = length e.strategies * n in
      let p : Popped queue_capacity e.tick_queue =
        try_pop-Popped queue_capacity (omega arith) e.tick_queue v.ticks v.ticks_small in
      let e1 : StrategyEngine S F D = record e { tick_queue = p.after } in
      let v1 : IsLive e1 (per_turn n (length e.strategies) + rest) = record {
        ready = v.ready;
        ticks = p.calm;
        ticks_small = omega (arith, p.head_kept, v.ticks_small);
        fills = v.fills;
        fills_small = v.fills_small;
      } in
      elim (Option-cases p.value) [
        | inl empty ↦
            let l = turn_fill-Lives e1 false now rest (
              relive e1 (per_turn n (length e.strategies) + rest) (all + (n + rest)) (omega arith)
                v1) in
            record {
              after = l.after;
              returns = rw (turn, p.returns, empty) l.returns;
              live = l.live;
              same = l.same;
            }
        | inr (tick, got) ↦
            let t =
              process_tick-Lives code e1 tick now.tick_clock now.timer_clock (all + (n + rest)) (
                relive e1 (per_turn n (length e.strategies) + rest)
                  (all + (all + (all + (n + rest)))) (omega arith) v1) in
            let l =
              turn_fill-Lives t.after true now rest
                (subst (λ (k : ℕ). IsLive t.after (k * n + (n + rest))) (sym t.same) t.live) in
            record {
              after = l.after;
              returns = rw (turn, p.returns, got, t.returns) l.returns;
              live = l.live;
              same = l.same ∙ t.same;
            }
      ]

  -- Where the three queues are at rest, no book has a write under way, each callback of a strategy
  -- calls the context at most n times, and fewer than 2 ^ 63 requests and messages go through the
  -- queues, the loop of the engine returns from every one of its turns, whatever the strategies, the
  -- ticks, the fills and the clocks are; and then the same holds again for the turns to come.
  pub run-Lives :
      (e : StrategyEngine S F D) (readings : List Readings) (rest : ℕ)
      → IsLive e (length readings * per_turn n (length e.strategies) + rest)
      → Lives e (run code e readings) rest
  unfolding run
  run-Lives e [] rest v = record {
    after = e;
    returns = refl;
    live = relive e (0 * per_turn n (length e.strategies) + rest) rest (omega arith) v;
    same = refl;
  }
  run-Lives e (now ∷ later) rest v =
      let t = turn-Lives e now (length later * per_turn n (length e.strategies) + rest) (
        relive e (suc (length later) * per_turn n (length e.strategies) + rest)
          (per_turn n (length e.strategies)
            + (length later * per_turn n (length e.strategies) + rest))
          (omega (arith, suc-times (length later) (per_turn n (length e.strategies)))) v) in
      let l = run-Lives t.after later rest (
        subst (λ (k : ℕ). IsLive t.after (length later * per_turn n k + rest)) (sym t.same)
          t.live) in
      record {
        after = l.after;
        returns = rw t.returns l.returns;
        live = l.live;
        same = l.same ∙ t.same;
      }
