-- ===== src/Engine/Live.antt =====
-- What a callback, and a round of callbacks, leave of the engine.
use libchronos.Base.{
  ℕ, suc, ◌+◌, ◌*◌, ◌%◌, ◌^◌, ◌≤◌, ◌<◌, ◌≡◌, refl, sym, ap, ◌∙◌, Bool, Option, none, some, List, [],
  ◌∷◌, length, arith, Bool-cases, inl, inr, lookup, lookup-put,
}
use libchronos.Decimal.{Fixed}
use libchronos.Types.{Tick}
use libchronos.Book.V2.{OrderBookV2}
use libchronos.Book.V2 as V2
use libchronos.Queue.Fifo.{IsCalm}
use libchronos.Risk.Check.{Clock}
use libchronos.Engine.{StrategyContext, queue_capacity}
use libchronos.Engine.Program.{Program}
use libchronos.Engine.Dispatch.{
  StrategyEntry, StrategyEngine, call_entry, for_each, call_all, update_book,
}
use libchronos.Engine.Returns.{IsReady, Done, exec-Done, update-even, weaken}

pub suc-times : (k n : ℕ) → suc k * n ≡ n + k * n
suc-times k n = omega arith

module _ {D : Type 0} ⦃fx : Fixed D⦄ where
  abbrev emplaced : Option (OrderBookV2 D) → OrderBookV2 D
  emplaced o = elim o [ none ↦ V2.new | some b ↦ b ]

  emplaced-even :
      (o : Option (OrderBookV2 D))
      → ((b : OrderBookV2 D) → o ≡ some b → b.hot_data.version % 2 ≡ 0)
      → (emplaced o).hot_data.version % 2 ≡ 0
  unfolding V2.new
  emplaced-even none even = refl
  emplaced-even (some b) even = even b refl

module _ {F D : Type 0} ⦃fx : Fixed D⦄ where
  book_even :
      (ctx : StrategyContext F D) (tick : Tick D) (symbol_id : ℕ) (b : OrderBookV2 D)
      → ((k : ℕ) (b' : OrderBookV2 D)
          → lookup k ctx.order_books ≡ some b'
          → b'.hot_data.version % 2 ≡ 0)
      → lookup symbol_id (update_book ctx tick).order_books ≡ some b
      → b.hot_data.version % 2 ≡ 0
  unfolding update_book
  book_even ctx tick symbol_id b even e = ground (
    arith,
    sym (lookup-put tick.symbol_id symbol_id (V2.update (emplaced found) tick) ctx.order_books) ∙ e,
    update-even (emplaced found) tick (emplaced-even found (even tick.symbol_id)),
    even symbol_id b,
    fields,
  )
    where
      found : Option (OrderBookV2 D)
      found = lookup tick.symbol_id ctx.order_books

      fields :
          V2.update (emplaced found) tick ≡ b
          → (V2.update (emplaced found) tick).hot_data.version ≡ b.hot_data.version
      fields e' = ap (λ b'. b'.hot_data.version) e'

  pub update_book-IsReady :
      (ctx : StrategyContext F D) (tick : Tick D) (k : ℕ)
      → IsReady ctx k
      → IsReady (update_book ctx tick) k
  unfolding update_book
  update_book-IsReady ctx tick k v = record {
    calm = v.calm;
    small = v.small;
    even = λ k b e. book_even ctx tick k b v.even e;
  }

module _ {S F D : Type 0} ⦃fx : Fixed D⦄ {n : ℕ} where
  for_each-Done :
      (picks : StrategyEntry S → Bool) (callback : S → Program S D n) (clock : ℕ → ℕ → Clock)
      (ctx : StrategyContext F D) (entries : List (StrategyEntry S)) (rest : ℕ)
      → IsReady ctx (length entries * n + rest)
      → (d : Done (for_each picks callback clock ctx entries) rest) × (length d.value
          ≡ length entries)
  unfolding for_each call_entry
  for_each-Done picks callback clock ctx [] rest v = (
    record {
      value = [];
      after = ctx;
      returns = refl;
      ready = weaken ctx (0 * n + rest) rest (omega arith) v;
    },
    refl,
  )
  for_each-Done picks callback clock ctx (entry ∷ entries) rest v =
      elim (Bool-cases (picks entry)) [
        | inl picked ↦
            let own : StrategyContext F D = record ctx { current_strategy_id = entry.id } in
            let one =
              exec-Done (clock entry.id) own (callback entry.strategy) (length entries * n + rest)
                (record {
                  calm = v.calm;
                  small = omega (arith, v.small, suc-times (length entries) n);
                  even = v.even;
                }) in
            let (more, same) =
              for_each-Done picks callback clock one.after entries rest one.ready in
            (
              record {
                value = record entry { strategy = one.value } ∷ more.value;
                after = more.after;
                returns = rw (picked, one.returns, more.returns) refl;
                ready = more.ready;
              },
              ap suc same,
            )
        | inr passed ↦
            let (more, same) = for_each-Done picks callback clock ctx entries rest (
              weaken ctx (suc (length entries) * n + rest) (length entries * n + rest)
                (omega (arith, suc-times (length entries) n)) v) in
            (
              record {
                value = entry ∷ more.value;
                after = more.after;
                returns = rw (passed, more.returns) refl;
                ready = more.ready;
              },
              ap suc same,
            )
      ]

module _ {S F D : Type 0} ⦃fx : Fixed D⦄ where
  -- The queues are at rest, and the output queue has room for `budget` more requests to be counted.
  pub record IsLive (e : StrategyEngine S F D) (budget : ℕ) : Type 0 where
    pub ready : IsReady e.ctx budget
    pub ticks : IsCalm queue_capacity e.tick_queue
    pub ticks_small : e.tick_queue.head + queue_capacity < 2 ^ 63
    pub fills : IsCalm queue_capacity e.fill_queue
    pub fills_small : e.fill_queue.head + queue_capacity < 2 ^ 63

  -- It ends, with the same number of strategies and room for `budget` requests.
  pub record Lives (e : StrategyEngine S F D) (o : Option (StrategyEngine S F D)) (budget : ℕ)
      : Type 0 where
    pub after : StrategyEngine S F D
    pub returns : o ≡ some after
    pub live : IsLive after budget
    pub same : length after.strategies ≡ length e.strategies

  pub relive : (e : StrategyEngine S F D) (j k : ℕ) → k ≤ j → IsLive e j → IsLive e k
  relive e j k le v = record {
    ready = weaken e.ctx j k le v.ready;
    ticks = v.ticks;
    ticks_small = v.ticks_small;
    fills = v.fills;
    fills_small = v.fills_small;
  }

module _ {S F D : Type 0} ⦃fx : Fixed D⦄ {n : ℕ} where
  pub call_all-Lives :
      (picks : StrategyEntry S → Bool) (callback : S → Program S D n) (clock : ℕ → ℕ → Clock)
      (e : StrategyEngine S F D) (rest : ℕ)
      → IsLive e (length e.strategies * n + rest)
      → Lives e (call_all picks callback clock e) rest
  unfolding call_all
  call_all-Lives picks callback clock e rest v =
      let (d, same) = for_each-Done picks callback clock e.ctx e.strategies rest v.ready in
      record {
        after = record e { ctx = d.after; strategies = d.value };
        returns = rw d.returns refl;
        live = record {
          ready = d.ready;
          ticks = v.ticks;
          ticks_small = v.ticks_small;
          fills = v.fills;
          fills_small = v.fills_small;
        };
        same = same;
      }
