-- ===== src/Replay/Ordered.antt =====
-- The records are delivered in the order of their timestamps.
use libchronos.Base.{
  ℕ, zero, suc, ◌+◌, ◌≤◌, ◌<◌, ◌≡◌, ◌≢◌, refl, sym, ap, subst, ◌∙◌, Bool, true, false, ◌&&◌, ◌||◌,
  Option, none, some, List, [], ◌∷◌, get_elem?, set, All, ltb, ltb→lt, arith, Bool-cases,
  Option-cases, ℕ_discrete, inl, inr, ◌>>=◌,
}
use libchronos.Logs.{LogReader, timestamp_at, typed_at}
use libchronos.Logs.Seek.{IsOrdered}
use libchronos.Replay.{
  advances, StreamPos, HeapEntry, Delivery, TimeReplayer, is_exhausted, deliver, moved,
  advance_to_next_event,
}
use libchronos.Replay.Heap.{Pairwise, IsHeap}

module _ {A : Type 0} where
  set-same :
      (xs : List A) (i : ℕ) (x v : A) → get_elem? xs i ≡ some x → get_elem? (set xs i v) i ≡ some v
  set-same [] i x v e = ground (arith, e)
  set-same (y ∷ xs) zero x v e = refl
  set-same (y ∷ xs) (suc i) x v e = set-same xs i x v e

  set-other : (xs : List A) (i j : ℕ) (v : A) → i ≢ j → get_elem? (set xs i v) j ≡ get_elem? xs j
  set-other [] i j v h = refl
  set-other (y ∷ xs) zero zero v h = absurd (h refl)
  set-other (y ∷ xs) zero (suc j) v h = refl
  set-other (y ∷ xs) (suc i) zero v h = refl
  set-other (y ∷ xs) (suc i) (suc j) v h = set-other xs i j v (λ e. h (ap suc e))

  All-zip₃ :
      {P Q R S : A → Type 0}
      → ((x : A) → P x → Q x → R x → S x)
      → (xs : List A) → All P xs
      → All Q xs
      → All R xs
      → All S xs
  All-zip₃ f [] p q r = p
  All-zip₃ f (x ∷ xs) p q r = (f x p.0 q.0 r.0, All-zip₃ f xs p.1 q.1 r.1)

-- The latest first, none after `bound`.
abbrev pub IsLatestFirst : ℕ → List Delivery → Type 0
IsLatestFirst bound [] = Unit
IsLatestFirst bound (d ∷ ds) = (d.timestamp ≤ bound) × IsLatestFirst d.timestamp ds

raise :
    (low high : ℕ) (ds : List Delivery) → low ≤ high → IsLatestFirst low ds → IsLatestFirst high ds
raise low high [] le v = v
raise low high (d ∷ ds) le v = (omega (arith, le, v.0), v.1)

-- The entry stands for the next record of its stream.
abbrev IsEntry : List StreamPos → ℕ → HeapEntry → Type 0
IsEntry streams now e =
    (sp : StreamPos) × (get_elem? streams e.stream_idx ≡ some sp)
    × (e.timestamp ≡ timestamp_at sp.reader sp.at)
    × (sp.at < sp.reader.record_count)
    × (now ≤ e.timestamp)

abbrev IsOther : HeapEntry → HeapEntry → Type 0
IsOther x y = x.stream_idx ≢ y.stream_idx

pub record IsMerging (t : TimeReplayer) : Type 0 where
  pub entries : All (IsEntry t.streams t.current_time) t.heap
  pub distinct : Pairwise IsOther t.heap
  pub ordered : (i : ℕ) (sp : StreamPos) → get_elem? t.streams i ≡ some sp → IsOrdered sp.reader
  pub latest : IsLatestFirst t.current_time t.delivered

deliver-IsLatestFirst :
    (t : TimeReplayer) (e : HeapEntry) (sp : StreamPos)
    → IsMerging t
    → e.timestamp ≡ timestamp_at sp.reader sp.at
    → t.current_time ≤ e.timestamp
    → IsLatestFirst e.timestamp (deliver t e.stream_idx sp)
unfolding deliver
deliver-IsLatestFirst t e sp v stamped later =
    elim (Bool-cases
      (ltb sp.reader.header.log_type 3 && t.has_callback sp.reader.header.log_type)) [
        | inr unheard ↦
            rw (deliver, unheard) (raise t.current_time e.timestamp t.delivered later v.latest)
        | inl heard ↦ elim (Option-cases (typed_at sp.reader.header.log_type sp.reader sp.at)) [
          | inl absent ↦
              rw (deliver, heard, absent)
                (raise t.current_time e.timestamp t.delivered later v.latest)
          | inr (place, present) ↦
              rw (deliver, heard, present)
                (
                  omega (arith, stamped),
                  raise t.current_time (timestamp_at sp.reader sp.at) t.delivered
                      (omega (arith, stamped, later)) v.latest,
                )
        ]
      ]

abbrev or_else : TimeReplayer → Option TimeReplayer → TimeReplayer
or_else d none = d
or_else d (some t) = t

module _ (pop : List HeapEntry → Option (HeapEntry × List HeapEntry)) (heap : IsHeap pop) where
  moved-IsMerging :
      (t : TimeReplayer) (e : HeapEntry) (rest : List HeapEntry) (sp : StreamPos)
      → IsMerging t
      → pop t.heap ≡ some (e, rest)
      → get_elem? t.streams e.stream_idx ≡ some sp
      → IsMerging (moved t e rest sp)
  unfolding moved
  moved-IsMerging t e rest sp v top here =
      let (mine, others) =
        heap.parts (IsEntry t.streams t.current_time) t.heap e rest top v.entries in
      let (apart, distinct) =
        heap.pairs IsOther (λ x y h eq. h (sym eq)) t.heap e rest top v.distinct in
      let (sp', there, stamped, open_yet, later) = mine in
      let stamp : e.timestamp ≡ timestamp_at sp.reader sp.at =
        stamped ∙ ap (stamp_of sp) (sym there ∙ here) in
      let next : StreamPos = record sp { at = sp.at + 1 } in
      let kept : All (IsEntry (set t.streams e.stream_idx next) e.timestamp) rest =
        All-zip₃
          (λ y p q r.
            (p.0, set-other t.streams e.stream_idx y.stream_idx next q ∙ p.1, p.2, p.3, r))
          rest others apart (heap.least t.heap e rest top) in
      elim (Bool-cases (ltb (sp.at + 1) sp.reader.record_count)) [
        | inr done ↦
            rw (moved, done)
              record {
                entries = kept;
                distinct = distinct;
                ordered = ordered_after;
                latest = deliver-IsLatestFirst t e sp v stamp later;
              }
        | inl more ↦
            rw (moved, more)
              record {
                entries = (
                  (
                    next,
                    set-same t.streams e.stream_idx sp next here,
                    refl,
                    ltb→lt (sp.at + 1) sp.reader.record_count more,
                    ground (arith, stamp, v.ordered e.stream_idx sp here sp.at (sp.at + 1), more),
                  ),
                  kept,
                );
                distinct = (apart, distinct);
                ordered = ordered_after;
                latest = deliver-IsLatestFirst t e sp v stamp later;
              }
      ]
    where
      stamp_of : StreamPos → Option StreamPos → ℕ
      stamp_of d none = 0
      stamp_of d (some s) = timestamp_at s.reader s.at

      reader_of : Option StreamPos → LogReader
      reader_of none = sp.reader
      reader_of (some s) = s.reader

      next : StreamPos
      next = record sp { at = sp.at + 1 }

      ordered_after :
          (i : ℕ) (s : StreamPos)
          → get_elem? (set t.streams e.stream_idx next) i ≡ some s
          → IsOrdered s.reader
      ordered_after i s h = elim (ℕ_discrete e.stream_idx i) [
        | yes eq ↦
            let hit : some next ≡ some s =
              sym (set-same t.streams e.stream_idx sp next here)
              ∙ ap (get_elem? (set t.streams e.stream_idx next)) eq
              ∙ h in
            subst IsOrdered (ap reader_of hit) (v.ordered e.stream_idx sp here)
        | no other ↦ v.ordered i s (sym (set-other t.streams e.stream_idx i next other) ∙ h)
      ]

  advance-IsMerging :
      (t t' : TimeReplayer) (r : Bool)
      → IsMerging t
      → advance_to_next_event pop t ≡ some (r, t')
      → IsMerging t'
  unfolding advance_to_next_event
  advance-IsMerging t t' r v step = elim (Bool-cases (t.paused || is_exhausted t)) [
    | inl idle ↦
        let did : advance_to_next_event pop t ≡ some (false, t) =
          rw (advance_to_next_event, idle) refl in
        subst IsMerging (ap (state_of t) (sym did ∙ step)) v
    | inr busy ↦ elim (Option-cases (pop t.heap)) [
      | inl empty ↦
          let did : advance_to_next_event pop t ≡ none =
            rw (advance_to_next_event, busy, empty) refl in
          absurd (ground (arith, did, step))
      | inr ((e, rest), top) ↦ elim (Option-cases (get_elem? t.streams e.stream_idx)) [
        | inl missing ↦
            let did : advance_to_next_event pop t ≡ none =
              rw (advance_to_next_event, busy, top, missing) refl in
            absurd (ground (arith, did, step))
        | inr (sp, here) ↦
            let did : advance_to_next_event pop t ≡ some (true, moved t e rest sp) =
              rw (advance_to_next_event, busy, top, here) refl in
            subst IsMerging (ap (state_of t) (sym did ∙ step))
              (moved-IsMerging t e rest sp v top here)
      ]
    ]
  ]
    where
      state_of : TimeReplayer → Option (Bool × TimeReplayer) → TimeReplayer
      state_of d none = d
      state_of d (some p) = p.1

  -- On streams whose timestamps do not decrease, merged by a min-heap with an entry for the next record
  -- of each stream: after any number of calls of advanceToNextEvent that return, the records handed
  -- to the callbacks stand in the order of their timestamps, none is later than the current time, and
  -- the heap again has such entries, at most one for each stream.
  pub advances-IsMerging :
      (k : ℕ) (t t' : TimeReplayer) → IsMerging t → advances pop k t ≡ some t' → IsMerging t'
  unfolding advances
  advances-IsMerging zero t t' v e = subst IsMerging (ap (λ o. or_else t o) e) v
  advances-IsMerging (suc k) t t' v e = elim (Option-cases (advance_to_next_event pop t)) [
    | inl broken ↦ absurd (ground (arith, broken, e))
    | inr ((r, m), step) ↦
        advances-IsMerging k m t' (advance-IsMerging t m r v step)
          (ap (λ o. o >>= λ p. advances pop k p.1) (sym step) ∙ e)
  ]
