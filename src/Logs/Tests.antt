-- ===== src/Logs/Tests.antt =====
-- The theorems of the log reader at a small log of ticks.
use libchronos.Base.{
  ℕ, ◌≡◌, refl, ap, true, false, some, List, [], ◌∷◌, ◌++◌, replicate, arith, ◌⊎◌,
}
use libchronos.Logs.{
  LogReader, open_log, mapped, measured, timestamp_at, seek_to_timestamp, record_size_for,
  timestamp_offset_for, read_header, read_word, record_at,
}
use libchronos.Logs.Bounds.{IsLog, IsInFile, IsShut, open_log-IsInFile}
use libchronos.Logs.Seek.{IsOrdered, IsFirst, seek_to_timestamp-IsFirst}

-- A tick at the time `t`, with nothing else in it.
abbrev tick_bytes : ℕ → List ℕ
tick_bytes t = t ∷ replicate 63 0

-- The header of a log of ticks.
abbrev file : List ℕ
file =
    (0x43 ∷ 0x48 ∷ 0x52 ∷ 0x4F ∷ 0x4E ∷ 0x30 ∷ 1 ∷ 0 ∷ [])
    ++ ((1 ∷ replicate 55 0) ++ (tick_bytes 3 ++ (tick_bytes 5 ++ (7 ∷ []))))

open_log-IsInFile_example :
    (((open_log (mapped file)).0 ≡ true)
      × IsLog (mapped file)
      × IsInFile (open_log (mapped file)).1)
    ⊎ (((open_log (mapped file)).0 ≡ false)
        × ¬ IsLog (mapped file)
        × IsShut (open_log (mapped file)).1)
open_log-IsInFile_example = open_log-IsInFile (mapped file)

opens : (open_log (mapped file)).0 ≡ true
unfolding open_log read_header read_word record_size_for
opens = refl

-- A short file leaves its size behind.
short_file : open_log (mapped (1 ∷ 2 ∷ [])) ≡ (false, measured 2)
unfolding open_log
short_file = refl

counts : (open_log (mapped file)).1.record_count ≡ 2
unfolding open_log read_header read_word record_size_for
counts = refl

abbrev pub reader : LogReader
reader = record {
  mapped_data = some file;
  file_size = 193;
  record_size = 64;
  record_count = 2;
  timestamp_offset = 0;
  header = record { magic = 0x01304E4F524843; version = 1; log_type = 0; created_timestamp_us = 0 };
}

opens_reader : (open_log (mapped file)).1 ≡ reader
unfolding open_log read_header read_word record_size_for timestamp_offset_for
opens_reader = refl

pub first_at : timestamp_at reader 0 ≡ 3
unfolding timestamp_at record_at read_word
first_at = refl

second_at : timestamp_at reader 1 ≡ 5
unfolding timestamp_at record_at read_word
second_at = refl

pub reader-IsOrdered : IsOrdered reader
reader-IsOrdered i j le lt = ground (arith, at_i, at_j, at_last, first_at, second_at)
  where
    at_i : i ≡ 0 → timestamp_at reader i ≡ timestamp_at reader 0
    at_i e = ap (timestamp_at reader) e

    at_j : j ≡ 0 → timestamp_at reader j ≡ timestamp_at reader 0
    at_j e = ap (timestamp_at reader) e

    at_last : j ≡ 1 → timestamp_at reader j ≡ timestamp_at reader 1
    at_last e = ap (timestamp_at reader) e

seek_to_timestamp-IsFirst_example : IsFirst reader 4 (seek_to_timestamp reader 4)
seek_to_timestamp-IsFirst_example = seek_to_timestamp-IsFirst reader 4 reader-IsOrdered
