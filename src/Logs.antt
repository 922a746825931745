-- ===== src/Logs.antt =====
-- `LogReader`: include/chronos/logging/log_reader.hpp, src/logging/log_reader.cpp. The mapped file is
-- the list of its bytes; what the operating system answers is the argument of `open_log`. The
-- descriptor and the name of the file are left out.
pub mod Bounds
pub mod Seek
pub mod Tests
use libchronos.Base.{
  ℕ, zero, suc, ◌+◌, ◌-◌, ◌*◌, ◌/◌, Bool, true, false, not, Option, none, some, List, [], length,
  get_or, if◌then◌else◌, ltb, ◌==◌,
}

abbrev pub header_size : ℕ
header_size = 64

-- `LOG_MAGIC`
abbrev pub log_magic : ℕ
log_magic = 0x01304E4F524843

-- `recordSizeForType`
unfoldable pub record_size_for : ℕ → ℕ
record_size_for log_type =
    if log_type == 0 then 64 else if log_type == 1 then 128 else if log_type == 2 then 128 else 0

-- `timestampOffsetForType`
unfoldable pub timestamp_offset_for : ℕ → ℕ
timestamp_offset_for log_type = if log_type == 1 then 8 else if log_type == 2 then 24 else 0

-- `struct LogFileHeader`
pub record LogFileHeader : Type 0 where
  pub magic : ℕ
  pub version : ℕ
  pub log_type : ℕ
  pub created_timestamp_us : ℕ

-- `mapped_data` are the bytes at `mapped_data_`, where a file is open.
pub record LogReader : Type 0 where
  pub mapped_data : Option (List ℕ)
  pub file_size : ℕ
  pub record_size : ℕ
  pub record_count : ℕ
  pub timestamp_offset : ℕ
  pub header : LogFileHeader

-- `reset`, which `close` ends with.
abbrev pub closed : LogReader
closed = record {
  mapped_data = none;
  file_size = 0;
  record_size = 0;
  record_count = 0;
  timestamp_offset = 0;
  header = record { magic = 0; version = 0; log_type = 0; created_timestamp_us = 0 };
}

-- `memcpy` of `n` bytes from `at` into an integer: the lowest byte stands first.
unfoldable pub read_word : ℕ → List ℕ → ℕ → ℕ
read_word zero bytes at = 0
read_word (suc n) bytes at = get_or bytes at 0 + 256 * read_word n bytes (suc at)

unfoldable pub read_header : List ℕ → LogFileHeader
unfolding read_word
read_header bytes = record {
  magic = read_word 8 bytes 0;
  version = read_word 4 bytes 8;
  log_type = read_word 4 bytes 12;
  created_timestamp_us = read_word 8 bytes 16;
}

-- What the operating system answers: no file, or one that cannot be measured; a file of some size that
-- cannot be mapped; or the bytes of the file.
pub data FileAnswer : Type 0 where
  absent : FileAnswer
  unmapped : (size : ℕ) → FileAnswer
  mapped : (bytes : List ℕ) → FileAnswer

-- A short file, and one that cannot be mapped, leave `file_size_` as `open` has set it: these two returns
-- do not go through `close`.
abbrev pub measured : ℕ → LogReader
measured size = record closed { file_size = size }

-- `open`, once `close` has reset the reader: what it returns, and the reader.
unfoldable pub open_log : FileAnswer → Bool × LogReader
unfolding read_header record_size_for timestamp_offset_for
open_log absent = (false, closed)
open_log (unmapped size) = (false, measured size)
open_log (mapped bytes) =
    let file_size = length bytes in
    let header = read_header bytes in
    let record_size = record_size_for header.log_type in
    if ltb file_size header_size
    then (false, measured file_size)
    else if not (header.magic == log_magic)
    then (false, closed)
    else if record_size == 0
    then (false, closed)
    else (
      true,
      record {
        mapped_data = some bytes;
        file_size = file_size;
        record_size = record_size;
        record_count = (file_size - header_size) / record_size;
        timestamp_offset = timestamp_offset_for header.log_type;
        header = header;
      },
    )

-- `recordAt`: the place of the record in the file.
unfoldable pub record_at : LogReader → ℕ → Option ℕ
record_at r index =
    if ltb index r.record_count then some (header_size + index * r.record_size) else none

-- `tickAt`, `orderAt` and `fillAt`: the record, where the log has its type.
unfoldable pub typed_at : ℕ → LogReader → ℕ → Option ℕ
unfolding record_at
typed_at log_type r index = if r.header.log_type == log_type then record_at r index else none

abbrev pub bytes_of : LogReader → List ℕ
bytes_of r = elim r.mapped_data [ none ↦ [] | some bytes ↦ bytes ]

unfoldable pub timestamp_at : LogReader → ℕ → ℕ
unfolding record_at read_word
timestamp_at r index = elim (record_at r index) [
  | none ↦ 0
  | some place ↦ read_word 8 (bytes_of r) (place + r.timestamp_offset)
]

-- The loop of `seekToTimestamp`, on fuel.
unfoldable pub seek_loop : LogReader → ℕ → ℕ → ℕ → ℕ → ℕ
unfolding timestamp_at
seek_loop r timestamp_us zero lo hi = lo
seek_loop r timestamp_us (suc fuel) lo hi =
    let mid = lo + (hi - lo) / 2 in
    elim (ltb lo hi) [
      | false ↦ lo
      | true ↦ elim (ltb (timestamp_at r mid) timestamp_us) [
        | true ↦ seek_loop r timestamp_us fuel (mid + 1) hi
        | false ↦ seek_loop r timestamp_us fuel lo mid
      ]
    ]

unfoldable pub seek_to_timestamp : LogReader → ℕ → ℕ
unfolding seek_loop timestamp_at
seek_to_timestamp r timestamp_us =
    if r.record_count == 0
    then 0
    else if ltb (timestamp_at r (r.record_count - 1)) timestamp_us
    then r.record_count
    else seek_loop r timestamp_us r.record_count 0 r.record_count
