-- ===== src/Replay/Tests.antt =====
-- The order of the replay of one log of two ticks.
use libchronos.Base.{
  ℕ, zero, suc, ◌≡◌, refl, sym, ap, subst, true, false, none, some, List, [], ◌∷◌, get_elem?, arith,
}
use libchronos.Logs.{timestamp_at, typed_at, record_at, read_word}
use libchronos.Logs.Seek.{IsOrdered}
use libchronos.Logs.Tests.{reader, first_at, reader-IsOrdered}
use libchronos.Replay.{
  StreamPos, TimeReplayer, add_stream, advance_to_next_event, moved, deliver, advances,
}
use libchronos.Replay.Heap.{pop_min, pop_min-IsHeap}
use libchronos.Replay.Ordered.{IsMerging, advances-IsMerging}

abbrev replayer : ℕ → List StreamPos → TimeReplayer
replayer total streams = record {
  streams = streams;
  heap = [];
  has_callback = λ type. true;
  current_time = 0;
  events_processed = 0;
  total_events = total;
  paused = false;
  delivered = [];
}

abbrev loaded : TimeReplayer
loaded = record (replayer 2 (record { reader = reader; at = 0 } ∷ [])) {
  heap = record { timestamp = 3; stream_idx = 0 } ∷ [];
}

loads : add_stream (replayer 0 []) reader ≡ loaded
unfolding add_stream timestamp_at record_at read_word
loads = refl

abbrev done : TimeReplayer
done = record loaded {
  streams = record { reader = reader; at = 2 } ∷ [];
  heap = [];
  current_time = 5;
  events_processed = 2;
  delivered =
      record { stream = 0; index = 1; timestamp = 5 }
      ∷ record { stream = 0; index = 0; timestamp = 3 }
      ∷ [];
}

replays : advances pop_min 2 loaded ≡ some done
unfolding advances advance_to_next_event moved deliver typed_at timestamp_at record_at read_word
replays = refl

loaded-IsMerging : IsMerging loaded
loaded-IsMerging = record {
  entries =
      ((record { reader = reader; at = 0 }, refl, sym first_at, omega arith, omega arith), tt);
  distinct = (tt, tt);
  ordered = λ i sp e. streams-IsOrdered i sp e;
  latest = tt;
}
  where
    streams-IsOrdered :
        (i : ℕ) (sp : StreamPos) → get_elem? loaded.streams i ≡ some sp → IsOrdered sp.reader
    streams-IsOrdered zero sp e =
        subst IsOrdered (ap (λ o. elim o [ none ↦ reader | some s ↦ s.reader ]) e) reader-IsOrdered
    streams-IsOrdered (suc i) sp e = absurd (ground (arith, e))

advances-IsMerging_example : IsMerging done
advances-IsMerging_example =
    advances-IsMerging pop_min pop_min-IsHeap 2 loaded done loaded-IsMerging replays
