-- ===== src/Logs/Seek.antt =====
-- `seekToTimestamp` on a log in the order of its timestamps.
use libchronos.Base.{ℕ, zero, suc, ◌+◌, ◌-◌, ◌/◌, ◌≤◌, ◌<◌, ltb, ◌==◌, arith, Bool-cases, inl, inr}
use libchronos.Logs.{LogReader, timestamp_at, seek_loop, seek_to_timestamp}

-- The timestamps do not decrease.
abbrev pub IsOrdered : LogReader → Type 0
IsOrdered r = (i j : ℕ) → i ≤ j → j < r.record_count → timestamp_at r i ≤ timestamp_at r j

-- The first record that is not before the time; the number of records where there is none.
pub record IsFirst (r : LogReader) (timestamp_us found : ℕ) : Type 0 where
  pub within : found ≤ r.record_count
  pub before : (i : ℕ) → i < found → timestamp_at r i < timestamp_us
  pub not_before : (i : ℕ) → found ≤ i → i < r.record_count → timestamp_us ≤ timestamp_at r i

loop-IsFirst :
    (r : LogReader) (timestamp_us : ℕ)
    → IsOrdered r
    → (fuel lo hi : ℕ) → lo ≤ hi
    → hi ≤ r.record_count
    → hi - lo ≤ fuel
    → ((i : ℕ) → i < lo → timestamp_at r i < timestamp_us)
    → ((i : ℕ) → hi ≤ i → i < r.record_count → timestamp_us ≤ timestamp_at r i)
    → IsFirst r timestamp_us (seek_loop r timestamp_us fuel lo hi)
unfolding seek_loop
loop-IsFirst r t v zero lo hi le within enough low high = record {
  within = omega arith;
  before = low;
  not_before = λ i a b. high i (omega arith) b;
}
loop-IsFirst r t v (suc fuel) lo hi le within enough low high =
    let mid = lo + (hi - lo) / 2 in
    elim (Bool-cases (ltb lo hi)) [
      | inr done ↦
          rw (seek_loop, done)
            record {
              within = omega arith;
              before = low;
              not_before = λ i a b. high i (ground arith) b;
            }
      | inl more ↦ elim (Bool-cases (ltb (timestamp_at r mid) t)) [
        | inl early ↦
            rw (seek_loop, more, early)
              (loop-IsFirst r t v fuel (mid + 1) hi (ground arith) within (ground arith)
                (λ i a. ground (arith, v i mid)) high)
        | inr late ↦
            rw (seek_loop, more, late)
              (loop-IsFirst r t v fuel lo mid (ground arith) (ground arith) (ground arith) low
                (λ i a b. ground (arith, v mid i)))
      ]
    ]

-- On a log whose timestamps do not decrease, seekToTimestamp gives the first record whose timestamp is
-- not below the given one, or the number of records where there is none.
pub seek_to_timestamp-IsFirst :
    (r : LogReader) (timestamp_us : ℕ)
    → IsOrdered r
    → IsFirst r timestamp_us (seek_to_timestamp r timestamp_us)
unfolding seek_to_timestamp
seek_to_timestamp-IsFirst r t v = elim (Bool-cases (r.record_count == 0)) [
  | inl empty ↦
      rw (seek_to_timestamp, empty)
        record {
          within = omega arith;
          before = λ i a. absurd (omega arith);
          not_before = λ i a b. absurd (ground arith);
        }
  | inr some_records ↦ elim (Bool-cases (ltb (timestamp_at r (r.record_count - 1)) t)) [
    | inl all_early ↦
        rw (seek_to_timestamp, some_records, all_early)
          record {
            within = omega arith;
            before = λ i a. ground (arith, v i (r.record_count - 1));
            not_before = λ i a b. absurd (omega arith);
          }
    | inr late ↦
        rw (seek_to_timestamp, some_records, late)
          (loop-IsFirst r t v r.record_count 0 r.record_count (omega arith) (omega arith)
            (omega arith) (λ i a. absurd (omega arith)) (λ i a b. absurd (omega arith)))
  ]
]
