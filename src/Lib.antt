-- ===== src/Lib.antt =====
-- The order books, the position manager, the risk engine, the order gateway, the strategy engine
-- with its queues, the error handler, the log reader and the replayer of libchronos, a trading
-- library in C++.
--
-- An adapter of an exchange turns messages into ticks, and an order book (OrderBook or
-- OrderBookV2) applies them to two ladders of price levels. The StrategyEngine takes ticks and
-- fills from its queues (MPMCQueue), keeps the books and the positions, and calls the strategies.
-- A strategy submits orders; RiskEngine::checkOrder tests each against five limits, with the
-- positions that PositionManager keeps from the fills; an OrderGateway per exchange sends the
-- orders, tracks the pending ones and hands the fills back.
--
-- Base is the shared vocabulary: lists and maps over native numbers, signed integers, machine
-- words.
-- Decimal (include/chronos/core/types.hpp) is the parameter that stands for the fixed-point class
-- of the third-party library fpm, with the laws that the program relies on: comparisons compare
-- the raw int64 values, and sums, differences and negations are those of the raw values where
-- these fit. Products and quotients have no laws. Decimal.Sample is an instance, for tests.
--
-- Types: the records of include/chronos/core/types.hpp that the components exchange.
-- Book.Levels, Book.V2, Book.V2.Read: include/chronos/market_data/orderbook_v2.hpp and
-- src/market_data/orderbook_v2.cpp. Levels has the insertion into and the removal from a sorted
-- array of 20 levels (insertBidLevel, removeBidLevel and their ask twins, which differ in the
-- comparison, a parameter); V2 the two cold buffers, the hot copy of the first five levels and the
-- writers (update, updateLevels, rebuildHotData, swapColdBuffers, clear); Read the readers.
-- Book.V1, Book.V1.Read: include/chronos/market_data/orderbook.hpp and
-- src/market_data/orderbook.cpp, the same book over two std::map.
-- Book.Spec: what both promise, ladders kept as maps that are cut off at MAX_DEPTH levels.
-- Positions: include/chronos/trading/position_manager.hpp and src/trading/position_manager.cpp.
-- Positions.Ledger is its specification, a signed quantity per symbol.
-- Risk, Risk.Check: include/chronos/risk/risk_engine.hpp and src/risk/risk_engine.cpp.
-- Gateway, Gateway.Inject, Gateway.Process, Gateway.Lifecycle:
-- include/chronos/execution/order_gateway.hpp and src/execution/order_gateway.cpp. Lifecycle has a
-- turn of the loop run, and stop with the end of run, in which the I/O thread empties the queue;
-- during these no other thread pushes an order.
-- Queue: include/chronos/utils/mpmc_queue.hpp. Queue has the calls as functions, for one thread at
-- a time; Queue.Threads the same code for any number of threads, as a step relation between the
-- accesses of shared memory, with a ghost that logs the value of each ticket.
-- Engine, Engine.Program, Engine.Dispatch, Engine.Loop: include/chronos/trading/strategy.hpp,
-- include/chronos/trading/order_id_generator.hpp, include/chronos/trading/strategy_engine.hpp and
-- src/trading/strategy_engine.cpp. Engine is the context (submitOrder, cancelOrder, the readers);
-- Program is what a strategy does with it, a parameter; Dispatch is the engine and a turn of the
-- loop run. Engine.Cancel goes on to the gateway that pops the request.
-- Error: include/chronos/core/error.hpp and src/core/error.cpp.
-- Logs: include/chronos/logging/log_reader.hpp and src/logging/log_reader.cpp, over the bytes of
-- the mapped file. FileAnswer is what the operating system makes of the file.
-- Replay: include/chronos/backtest/time_replayer.hpp and src/backtest/time_replayer.cpp.
-- std::priority_queue is a parameter with the laws of Replay.Heap; a list with these laws is an
-- instance, for tests.
-- The modules named Tests hold concrete runs.
--
-- Each method is one step. Most run so, under the mutex that they take or in the one thread that
-- calls them; OrderGateway::processOrder takes the mutex several times, and events of the user
-- stream between these are not modelled. The queue is modelled with interleavings too, on
-- sequentially consistent memory.
-- Interleavings of the lock-free readers of the books and of the risk parameters with a writer are
-- not modelled. Clocks are arguments. The loops over arrays and maps are structural recursion. The
-- binary searches take the number of levels as fuel, and the lemmas about them show that this is
-- enough; the trimming of a map takes the size of the map, and the optimistic readers of OrderBook
-- and RiskEngine the 100 attempts of the code. The one of OrderBookV2 has no bound; where it would
-- not end, the model returns none. The loops of try_push and try_pop cannot make progress alone
-- where they go round; there the model returns none, and lemmas show that this does not happen on
-- a queue at rest. A callback of a strategy makes at most a given number of calls, the parameter n
-- of Program. The binary search of the log reader takes the number of records as fuel, and the loop
-- that empties the queue of a gateway one more than its capacity. The tickets of a queue stay below 2 ^ 63 - capacity, since the code compares them as signed 64-bit numbers.
-- Counters wrap as the machine words do. Doubles of the parameters of the risk engine and
-- toDecimal are parameters, as are the HTTP client and the JSON parser of the gateway. The texts
-- of the rejections are the constructors of a data type, with a table of the words that they
-- contain.
--
-- Not modelled: the adapters and gateways of market data, transports, protocols and security, the
-- HTTP client and the user stream (I/O); conversions to text; the grid strategy, the backtest (but
-- for the replayer), the configuration, the log writer and the execution handler.
pub mod Base
pub mod Decimal
pub mod Types
pub mod Book
pub mod Logs
pub mod Positions
pub mod Replay
pub mod Risk
pub mod Engine
pub mod Error
pub mod Gateway
pub mod Queue
