-- ===== src/Logs/Bounds.antt =====
-- The records that a reader gives lie in the file.
use native.Mathlib.Nat.{le-div_iff_mul-le, lt-div-mul-add}
use libchronos.Base.{
  ℕ, suc, ◌+◌, ◌-◌, ◌*◌, ◌/◌, ◌≤◌, ◌<◌, ◌≡◌, ◌≢◌, refl, true, false, none, some, List, length, ltb,
  ◌==◌, arith, Bool-cases, inl, inr, ◌⊎◌,
}
use libchronos.Logs.{
  FileAnswer, absent, unmapped, mapped, measured, typed_at, timestamp_at, seek_to_timestamp,
  log_magic, LogReader, open_log, record_at, record_size_for, timestamp_offset_for, read_header,
  header_size, bytes_of,
}

-- The bytes that the accessors of a reader touch are bytes of the file.
pub record IsInFile (r : LogReader) : Type 0 where
  pub record_inside :
      (index place : ℕ)
      → record_at r index ≡ some place
      → place + r.record_size ≤ length (bytes_of r)
  pub timestamp_inside :
      (index : ℕ) → index < r.record_count → r.timestamp_offset + 8 ≤ r.record_size
  pub all_counted :
      length (bytes_of r) < header_size + r.record_count * r.record_size + r.record_size

sizes : (t : ℕ) → record_size_for t ≢ 0 → timestamp_offset_for t + 8 ≤ record_size_for t
unfolding record_size_for timestamp_offset_for
sizes t h = ground (arith, h)

fits : (n s k : ℕ) → s ≢ 0 → k < n / s → k * s + s ≤ n
fits n s k h lt =
    omega
      (arith, (le-div_iff_mul-le {k = s} {x = suc k} {y = n} (omega (arith, h))).0 (omega arith))

rest : (n s : ℕ) → s ≢ 0 → n < (n / s) * s + s
rest n s h = lt-div-mul-add (omega (arith, h))

unknown_type : (t : ℕ) → (record_size_for t == 0) ≡ true → t ≤ 2 → ⊥
unfolding record_size_for
unknown_type t h le = ground (arith, h)

known_type : (t : ℕ) → (record_size_for t == 0) ≡ false → t ≤ 2
unfolding record_size_for
known_type t h = ground (arith, h)

-- What `open_log` makes of a file that passes its tests.
abbrev opened : List ℕ → LogReader
opened bytes = record {
  mapped_data = some bytes;
  file_size = length bytes;
  record_size = record_size_for (read_header bytes).log_type;
  record_count = (length bytes - header_size) / record_size_for (read_header bytes).log_type;
  timestamp_offset = timestamp_offset_for (read_header bytes).log_type;
  header = read_header bytes;
}

opened-IsInFile :
    (bytes : List ℕ)
    → header_size ≤ length bytes
    → record_size_for (read_header bytes).log_type ≢ 0
    → IsInFile (opened bytes)
unfolding record_at
opened-IsInFile bytes enough known =
    let size : ℕ = record_size_for (read_header bytes).log_type in
    record {
      record_inside =
          λ index place e. ground (arith, e, fits (length bytes - header_size) size index known);
      timestamp_inside = λ index lt. sizes (read_header bytes).log_type known;
      all_counted = omega (arith, rest (length bytes - header_size) size known);
    }

-- Nothing is mapped, and the accessors give nothing.
pub record IsShut (r : LogReader) : Type 0 where
  pub unmapped_data : r.mapped_data ≡ none
  pub no_record : (index : ℕ) → record_at r index ≡ none
  pub no_typed : (log_type index : ℕ) → typed_at log_type r index ≡ none
  pub no_timestamp : (index : ℕ) → timestamp_at r index ≡ 0
  pub no_place : (timestamp_us : ℕ) → seek_to_timestamp r timestamp_us ≡ 0

measured-IsShut : (size : ℕ) → IsShut (measured size)
unfolding typed_at record_at timestamp_at seek_to_timestamp
measured-IsShut size = record {
  unmapped_data = refl;
  no_record = λ index. ground arith;
  no_typed = λ log_type index. ground arith;
  no_timestamp = λ index.
      let e : record_at (measured size) index ≡ none = ground arith in rw (timestamp_at, e) refl;
  no_place = λ timestamp_us. refl;
}

-- What the file must be for `open` to succeed.
abbrev pub IsLog : FileAnswer → Type 0
IsLog absent = ⊥
IsLog (unmapped size) = ⊥
IsLog (mapped bytes) =
    (header_size ≤ length bytes)
    × ((read_header bytes).magic ≡ log_magic)
    × ((read_header bytes).log_type ≤ 2)

-- Whatever the operating system answers and whatever bytes the file has: open returns true exactly for
-- a file that is mapped, holds the 64 bytes of a header, and names there the magic number and one of
-- the three log types. Then each record below the number of records lies in the file, as do the 8
-- bytes of its timestamp, and less than one record is left over. Where it returns false, nothing is
-- mapped, the accessors give no record and no timestamp, and the search gives 0.
pub open_log-IsInFile :
    (answer : FileAnswer)
    → (((open_log answer).0 ≡ true) × IsLog answer × IsInFile (open_log answer).1)
      ⊎ (((open_log answer).0 ≡ false) × ¬ IsLog answer × IsShut (open_log answer).1)
unfolding open_log
open_log-IsInFile absent = inr (refl, λ h. h, measured-IsShut 0)
open_log-IsInFile (unmapped size) = inr (refl, λ h. h, measured-IsShut size)
open_log-IsInFile (mapped bytes) = elim (Bool-cases (ltb (length bytes) header_size)) [
  | inl short ↦
      rw short
        (inr (refl, λ h. absurd (ground (arith, short, h.0)), measured-IsShut (length bytes)))
  | inr enough ↦ elim (Bool-cases ((read_header bytes).magic == log_magic)) [
    | inr other ↦
        rw (enough, other) (inr (refl, λ h. absurd (ground (arith, other, h.1)), measured-IsShut 0))
    | inl same ↦ elim (Bool-cases (record_size_for (read_header bytes).log_type == 0)) [
      | inl unknown ↦
          rw (enough, same, unknown)
            (inr (
              refl,
              λ h. absurd (unknown_type (read_header bytes).log_type unknown h.2),
              measured-IsShut 0,
            ))
      | inr known ↦
          rw (enough, same, known)
            (inl (
              refl,
              (ground arith, ground (arith, same), known_type (read_header bytes).log_type known),
              opened-IsInFile bytes (ground arith) (ground arith),
            ))
    ]
  ]
]
