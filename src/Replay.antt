-- ===== src/Replay.antt =====
-- `TimeReplayer`: include/chronos/backtest/time_replayer.hpp, src/backtest/time_replayer.cpp. The
-- `std::priority_queue` is the list of its entries and the parameter `pop` that takes out the top.
-- `delivered` are the records handed to the callbacks, the latest first.
pub mod Heap
pub mod Ordered
mod Tests
use libchronos.Base.{
  ℕ, zero, suc, ◌+◌, ◌%◌, ◌^◌, Bool, true, false, ◌&&◌, ◌||◌, Option, none, some, List, [], ◌∷◌,
  ◌++◌, length, get_elem?, set, if◌then◌else◌, ltb, leb, ◌==◌, ◌>>=◌,
}
use libchronos.Base.Words.{inc64}
use libchronos.Logs.{LogReader, timestamp_at, typed_at}

-- `struct StreamPos`
pub record StreamPos : Type 0 where
  pub reader : LogReader
  pub at : ℕ

-- `struct HeapEntry`
pub record HeapEntry : Type 0 where
  pub timestamp : ℕ
  pub stream_idx : ℕ

pub record Delivery : Type 0 where
  pub stream : ℕ
  pub index : ℕ
  pub timestamp : ℕ

pub record TimeReplayer : Type 0 where
  pub streams : List StreamPos
  pub heap : List HeapEntry
  pub has_callback : ℕ → Bool
  pub current_time : ℕ
  pub events_processed : ℕ
  pub total_events : ℕ
  pub paused : Bool
  pub delivered : List Delivery

abbrev pub is_exhausted : TimeReplayer → Bool
is_exhausted t = leb t.total_events t.events_processed

unfoldable pub add_stream : TimeReplayer → LogReader → TimeReplayer
unfolding timestamp_at
add_stream t reader = if reader.record_count == 0 then t else record t {
  streams = t.streams ++ (record { reader = reader; at = 0 } ∷ []);
  total_events = (t.total_events + reader.record_count) % 2 ^ 64;
  heap = record { timestamp = timestamp_at reader 0; stream_idx = length t.streams } ∷ t.heap;
}

-- The `switch` that hands the record to the callback of its type.
unfoldable pub deliver : TimeReplayer → ℕ → StreamPos → List Delivery
unfolding typed_at timestamp_at
deliver t idx sp =
    let type = sp.reader.header.log_type in
    if ltb type 3 && t.has_callback type
    then elim (typed_at type sp.reader sp.at) [
      | none ↦ t.delivered
      | some place ↦
          record { stream = idx; index = sp.at; timestamp = timestamp_at sp.reader sp.at }
          ∷ t.delivered
    ]
    else t.delivered

-- The rest of `advanceToNextEvent`, for the entry and the stream that it found.
unfoldable pub moved : TimeReplayer → HeapEntry → List HeapEntry → StreamPos → TimeReplayer
unfolding deliver timestamp_at
moved t entry rest sp =
    let next : StreamPos = record sp { at = sp.at + 1 } in
    record t {
      delivered = deliver t entry.stream_idx sp;
      current_time = entry.timestamp;
      events_processed = inc64 t.events_processed;
      streams = set t.streams entry.stream_idx next;
      heap =
          if ltb next.at sp.reader.record_count
          then record { timestamp = timestamp_at sp.reader next.at; stream_idx = entry.stream_idx }
            ∷ rest
          else rest;
    }

module _ (pop : List HeapEntry → Option (HeapEntry × List HeapEntry)) where
  -- `advanceToNextEvent`. `none`: the top of an empty heap, or a stream that does not exist.
  unfoldable pub advance_to_next_event : TimeReplayer → Option (Bool × TimeReplayer)
  unfolding moved
  advance_to_next_event t = if t.paused || is_exhausted t then some (false, t) else (do
    top ← pop t.heap
    sp ← get_elem? t.streams top.0.stream_idx
    some (true, moved t top.0 top.1 sp))

  -- `advanceToNextEvent`, called again and again.
  unfoldable pub advances : ℕ → TimeReplayer → Option TimeReplayer
  unfolding advance_to_next_event
  advances zero t = some t
  advances (suc k) t = advance_to_next_event t >>= λ r. advances k r.1
