-- ===== src/Engine/Returns.antt =====
-- The loop of the engine does not hang: each turn returns, whatever the strategies do, as long as
-- fewer than 2 ^ 63 requests have gone through the output queue.
use libchronos.Base.{
  ℕ, suc, ◌+◌, ◌%◌, ◌^◌, ◌≤◌, ◌<◌, ◌≡◌, refl, sym, ap, ◌∙◌, Option, none, some, arith, Option-cases,
  replicate, inl, inr, lookup, ◌>>=◌,
}
use libchronos.Decimal.{Fixed}
use libchronos.Types.{OrderRequest, Tick}
use libchronos.Positions.{get_position}
use libchronos.Book.Levels.{empty_level}
use libchronos.Book.V2.{OrderBookV2}
use libchronos.Book.V2 as V2
use libchronos.Book.V2.Read.{
  get_best_bid, get_best_ask, get_mid_price, get_top5_bids, get_top5_asks, read_hot_data_optimistic,
  best_bid_of, best_ask_of, mid_price_of, top5_bids_of, top5_asks_of,
}
use libchronos.Queue.Fifo.{IsCalm, Pushed, try_push-Pushed}
use libchronos.Engine.{
  StrategyContext, queue_capacity, submit_order, cancel_order, best_bid, best_ask, mid_price,
  top5_bids, top5_asks, cancel_request, of_book,
}
use libchronos.Engine.Submit.{Submitted, submit_order-Submitted}
use libchronos.Engine.Program.{
  Program, finish, submit, cancel, read_bid, read_ask, read_mid, read_bids, read_asks,
  read_position, read_capital, read_time, exec,
}
use libchronos.Risk.Check.{Clock, get_available_capital}

module _ {D : Type 0} ⦃fx : Fixed D⦄ where
  pub update-even :
      (b : OrderBookV2 D) (t : Tick D)
      → b.hot_data.version % 2 ≡ 0
      → (V2.update b t).hot_data.version % 2 ≡ 0
  unfolding V2.update V2.rebuild_hot_data V2.swap_cold_buffers V2.update_levels V2.write_bids
      V2.write_asks V2.copy_hot
  update-even b t even = ground arith

  readers_end :
      {R : Type 0} (b : OrderBookV2 D) (func : V2.HotData D → R)
      → b.hot_data.version % 2 ≡ 0
      → read_hot_data_optimistic b func ≡ some (func b.hot_data)
  unfolding read_hot_data_optimistic
  readers_end b func even = ground (arith, even)

module _ {F D : Type 0} ⦃fx : Fixed D⦄ where
  -- Room for `budget` more requests, and no book with a write under way.
  pub record IsReady (ctx : StrategyContext F D) (budget : ℕ) : Type 0 where
    pub calm : IsCalm queue_capacity ctx.order_output
    pub small : ctx.order_output.head + budget + queue_capacity < 2 ^ 63
    pub even :
        (symbol_id : ℕ) (b : OrderBookV2 D)
        → lookup symbol_id ctx.order_books ≡ some b
        → b.hot_data.version % 2 ≡ 0

  -- It ends, with room for `budget` requests.
  pub record Done {X : Type 0} (o : Option (X × StrategyContext F D)) (budget : ℕ) : Type 0 where
    pub value : X
    pub after : StrategyContext F D
    pub returns : o ≡ some (value, after)
    pub ready : IsReady after budget

  submit-Done :
      (ctx : StrategyContext F D) (order : OrderRequest D) (c : Clock) (k : ℕ)
      → IsReady ctx (suc k)
      → Done (submit_order ctx order c) k
  submit-Done ctx order c k v =
      let s : Submitted ctx order c =
        submit_order-Submitted ctx order c
          (record { calm = v.calm; small = omega (arith, v.small) }) in
      record {
        value = s.id;
        after = s.after;
        returns = s.returns;
        ready = record {
          calm = s.calm;
          small = omega (arith, v.small, s.drawn);
          even = λ k b e. v.even k b (ap (lookup k) (sym s.books) ∙ e);
        };
      }

  cancel-Done :
      (ctx : StrategyContext F D) (order_id : ℕ) (k : ℕ)
      → IsReady ctx (suc k)
      → Done (cancel_order ctx order_id) k
  unfolding cancel_order
  cancel-Done ctx order_id k v =
      let request : OrderRequest D = cancel_request order_id ctx.timestamp_us in
      let p : Pushed queue_capacity ctx.order_output request =
        try_push-Pushed queue_capacity (omega arith) ctx.order_output request v.calm
          (omega (arith, v.small)) in
      record {
        value = p.done;
        after = record ctx { order_output = p.after };
        returns = rw p.returns refl;
        ready = record {
          calm = p.calm;
          small = omega (arith, v.small, p.drawn);
          even = λ k b e. v.even k b e;
        };
      }

  pub weaken : (ctx : StrategyContext F D) (j k : ℕ) → k ≤ j → IsReady ctx j → IsReady ctx k
  weaken ctx j k le v = record {
    calm = v.calm;
    small = omega (arith, v.small);
    even = λ k b e. v.even k b e;
  }

  of_book-ends :
      {R : Type 0} (ctx : StrategyContext F D) (symbol_id k : ℕ) (absent : R)
      (func : V2.HotData D → R)
      → IsReady ctx k
      → (r : R) × (of_book ctx symbol_id absent (λ b. read_hot_data_optimistic b func) ≡ some r)
  of_book-ends ctx symbol_id k absent func v =
      elim (Option-cases (lookup symbol_id ctx.order_books)) [
        | inl e ↦ (absent, rw (of_book, e) refl)
        | inr (b, e) ↦
            (func b.hot_data, rw (of_book, e) (readers_end b func (v.even symbol_id b e)))
      ]

  pub then-Done :
      {R X : Type 0} (o : Option R) (k : R → Option (X × StrategyContext F D)) (budget : ℕ) (r : R)
      → o ≡ some r
      → Done (k r) budget
      → Done (o >>= k) budget
  then-Done o k budget r e d = record {
    value = d.value;
    after = d.after;
    returns = ap (λ o'. o' >>= k) e ∙ d.returns;
    ready = d.ready;
  }

module _ {S F D : Type 0} ⦃fx : Fixed D⦄ where
  pub exec-Done :
      {n : ℕ} (clock : ℕ → Clock) (ctx : StrategyContext F D) (p : Program S D n) (rest : ℕ)
      → IsReady ctx (n + rest)
      → Done (exec clock ctx p) rest
  unfolding exec best_bid best_ask mid_price top5_bids top5_asks get_best_bid get_best_ask
      get_mid_price get_top5_bids get_top5_asks get_position get_available_capital
  exec-Done {n} clock ctx (finish s) rest v = record {
    value = s;
    after = ctx;
    returns = refl;
    ready = weaken ctx (n + rest) rest (omega arith) v;
  }
  exec-Done clock ctx (submit {n} order next) rest v =
      let d =
        submit-Done ctx order (clock n) (n + rest)
          (weaken ctx (suc n + rest) (suc (n + rest)) (omega arith) v) in
      then-Done (submit_order ctx order (clock n)) (λ r. exec clock r.1 (next r.0)) rest
        (d.value, d.after) d.returns (exec-Done clock d.after (next d.value) rest d.ready)
  exec-Done clock ctx (cancel {n} order_id next) rest v =
      let d =
        cancel-Done ctx order_id (n + rest)
          (weaken ctx (suc n + rest) (suc (n + rest)) (omega arith) v) in
      then-Done (cancel_order ctx order_id) (λ r. exec clock r.1 (next r.0)) rest (d.value, d.after)
        d.returns (exec-Done clock d.after (next d.value) rest d.ready)
  exec-Done clock ctx (read_bid {n} symbol_id next) rest v =
      let (p, e) = of_book-ends ctx symbol_id (suc n + rest) none best_bid_of v in
      then-Done (best_bid ctx symbol_id) (λ r. exec clock ctx (next r)) rest p e
        (exec-Done clock ctx (next p) rest (weaken ctx (suc n + rest) (n + rest) (omega arith) v))
  exec-Done clock ctx (read_ask {n} symbol_id next) rest v =
      let (p, e) = of_book-ends ctx symbol_id (suc n + rest) none best_ask_of v in
      then-Done (best_ask ctx symbol_id) (λ r. exec clock ctx (next r)) rest p e
        (exec-Done clock ctx (next p) rest (weaken ctx (suc n + rest) (n + rest) (omega arith) v))
  exec-Done clock ctx (read_mid {n} symbol_id next) rest v =
      let (p, e) = of_book-ends ctx symbol_id (suc n + rest) none mid_price_of v in
      then-Done (mid_price ctx symbol_id) (λ r. exec clock ctx (next r)) rest p e
        (exec-Done clock ctx (next p) rest (weaken ctx (suc n + rest) (n + rest) (omega arith) v))
  exec-Done clock ctx (read_bids {n} symbol_id next) rest v =
      let (p, e) =
        of_book-ends ctx symbol_id (suc n + rest) (replicate 5 empty_level) top5_bids_of v in
      then-Done (top5_bids ctx symbol_id) (λ r. exec clock ctx (next r)) rest p e
        (exec-Done clock ctx (next p) rest (weaken ctx (suc n + rest) (n + rest) (omega arith) v))
  exec-Done clock ctx (read_asks {n} symbol_id next) rest v =
      let (p, e) =
        of_book-ends ctx symbol_id (suc n + rest) (replicate 5 empty_level) top5_asks_of v in
      then-Done (top5_asks ctx symbol_id) (λ r. exec clock ctx (next r)) rest p e
        (exec-Done clock ctx (next p) rest (weaken ctx (suc n + rest) (n + rest) (omega arith) v))
  exec-Done clock ctx (read_position {n} symbol_id next) rest v =
      exec-Done clock ctx (next (get_position ctx.position_manager symbol_id)) rest
        (weaken ctx (suc n + rest) (n + rest) (omega arith) v)
  exec-Done clock ctx (read_capital {n} next) rest v =
      exec-Done clock ctx (next (get_available_capital ctx.risk_engine)) rest
        (weaken ctx (suc n + rest) (n + rest) (omega arith) v)
  exec-Done clock ctx (read_time {n} next) rest v =
      exec-Done clock ctx (next ctx.timestamp_us) rest
        (weaken ctx (suc n + rest) (n + rest) (omega arith) v)
