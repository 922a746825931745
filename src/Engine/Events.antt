-- ===== src/Engine/Events.antt =====
-- A tick and a fill return: `process_tick` and `process_fill`.
use libchronos.Base.{
  ℕ, ◌+◌, ◌*◌, refl, sym, subst, ◌∙◌, true, length, length-set, get_elem?, set, ltb, arith,
  Bool-cases, Option-cases, inl, inr, lookup,
}
use libchronos.Base.Words.{inc64, sub64}
use libchronos.Decimal.{Fixed}
use libchronos.Types.{Tick, Fill}
use libchronos.Positions.{update_position}
use libchronos.Risk.Check.{Clock}
use libchronos.Engine.{StrategyContext}
use libchronos.Engine.Program.{Strategy}
use libchronos.Engine.Dispatch.{
  StrategyEngine, subscribes, timer_interval_us, update_book, process_tick, process_fill,
}
use libchronos.Engine.Returns.{IsReady, exec-Done}
use libchronos.Engine.Live.{IsLive, Lives, relive, call_all-Lives, update_book-IsReady}

module _ {S F D : Type 0} ⦃fx : Fixed D⦄ {n : ℕ} (code : Strategy S D n) where
  pub process_tick-Lives :
      (e : StrategyEngine S F D) (tick : Tick D) (clock timer_clock : ℕ → ℕ → Clock) (rest : ℕ)
      → IsLive e (length e.strategies * n + (length e.strategies * n + rest))
      → Lives e (process_tick code e tick clock timer_clock) rest
  unfolding process_tick
  process_tick-Lives e tick clock timer_clock rest v =
      let budget = length e.strategies * n + (length e.strategies * n + rest) in
      let e1 : StrategyEngine S F D = record e {
        ticks_processed = inc64 e.ticks_processed;
        ctx = update_book (record e.ctx { timestamp_us = tick.receive_timestamp_us }) tick;
      } in
      let v1 : IsLive e1 budget = record {
        ready =
            update_book-IsReady (record e.ctx { timestamp_us = tick.receive_timestamp_us }) tick
              budget (record { calm = v.ready.calm; small = v.ready.small; even = v.ready.even });
        ticks = v.ticks;
        ticks_small = v.ticks_small;
        fills = v.fills;
        fills_small = v.fills_small;
      } in
      let l =
        call_all-Lives (subscribes tick.symbol_id) (code.on_tick tick) clock e1
          (length e.strategies * n + rest) v1 in
      elim (Bool-cases
        (ltb timer_interval_us (sub64 tick.receive_timestamp_us l.after.last_timer_us))) [
          | inl due ↦
              let e2 : StrategyEngine S F D = record l.after {
                last_timer_us = tick.receive_timestamp_us;
              } in
              let t =
                call_all-Lives (λ entry. true) (code.on_timer tick.receive_timestamp_us) timer_clock
                  e2 rest
                  (record {
                    ready =
                        subst (λ (k : ℕ). IsReady l.after.ctx (k * n + rest)) (sym l.same)
                          l.live.ready;
                    ticks = l.live.ticks;
                    ticks_small = l.live.ticks_small;
                    fills = l.live.fills;
                    fills_small = l.live.fills_small;
                  }) in
              record {
                after = t.after;
                returns = rw (l.returns, due) t.returns;
                live = t.live;
                same = t.same ∙ l.same;
              }
          | inr early ↦ record {
            after = l.after;
            returns = rw (l.returns, early) refl;
            live = relive l.after (length e.strategies * n + rest) rest (omega arith) l.live;
            same = l.same;
          }
        ]

  pub process_fill-Lives :
      (e : StrategyEngine S F D) (fill : Fill D) (clock : ℕ → Clock) (rest : ℕ)
      → IsLive e (n + rest)
      → Lives e (process_fill code e fill clock) rest
  unfolding process_fill
  process_fill-Lives e fill clock rest v =
      elim (Option-cases (lookup fill.strategy_id e.strategy_by_id)) [
        | inl nobody ↦ record {
          after = e1;
          returns = rw (process_fill, nobody) refl;
          live = relive e1 (n + rest) rest (omega arith) v1;
          same = refl;
        }
        | inr (place, owned) ↦ elim (Option-cases (get_elem? e.strategies place)) [
          | inl gone ↦ record {
            after = e1;
            returns = rw (process_fill, owned, gone) refl;
            live = relive e1 (n + rest) rest (omega arith) v1;
            same = refl;
          }
          | inr (entry, there) ↦
              let own : StrategyContext F D = record e1.ctx {
                current_strategy_id = fill.strategy_id;
              } in
              let d =
                exec-Done clock own (code.on_fill fill entry.strategy) rest
                  (record { calm = v.ready.calm; small = v.ready.small; even = v.ready.even }) in
              record {
                after = record e1 {
                  ctx = d.after;
                  strategies = set e.strategies place (record entry { strategy = d.value });
                };
                returns = rw (process_fill, owned, there, d.returns) refl;
                live = record {
                  ready = d.ready;
                  ticks = v.ticks;
                  ticks_small = v.ticks_small;
                  fills = v.fills;
                  fills_small = v.fills_small;
                };
                same = length-set e.strategies place (record entry { strategy = d.value });
              }
        ]
      ]
    where
      e1 : StrategyEngine S F D
      e1 = record e {
        fills_processed = inc64 e.fills_processed;
        ctx = record e.ctx {
          timestamp_us = fill.receive_timestamp_us;
          position_manager = (update_position e.ctx.position_manager fill).1;
        };
      }

      v1 : IsLive e1 (n + rest)
      v1 = record {
        ready = record { calm = v.ready.calm; small = v.ready.small; even = v.ready.even };
        ticks = v.ticks;
        ticks_small = v.ticks_small;
        fills = v.fills;
        fills_small = v.fills_small;
      }
