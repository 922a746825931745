-- ===== src/Error.antt =====
-- The errors that components report: include/chronos/core/error.hpp and src/core/error.cpp. Each
-- method is one step, under the mutex. Texts are a parameter. A callback is an element of `C`; what it
-- does is not seen, and an exception of it is caught, so that only the calls are kept.
pub mod Recent
pub mod History
pub mod Counts
pub mod Ids
pub mod Callbacks
mod Tests
use libchronos.Base.{
  ℕ, zero, suc, ◌+◌, ◌-◌, ◌%◌, Bool, true, false, Option, none, some, List, [], ◌∷◌, ◌++◌, length,
  get_elem?, get_or, set, take, replicate, map, if◌then◌else◌, ltb, min, lookup, put, remove, ◌>>=◌,
}
use libchronos.Base.Int.{ℤ}
use libchronos.Base.Words.{inc64}

-- `enum class ErrorSeverity`
pub data ErrorSeverity : Type 0 where
  debug info warning error critical : ErrorSeverity

-- `enum class ErrorCategory`
pub data ErrorCategory : Type 0 where
  network market_data order_execution risk_management configuration persistence system strategy
        unknown :
      ErrorCategory

-- `enum class RecoveryAction`
pub data RecoveryAction : Type 0 where
  nothing retry reconnect reload_config restart_component shutdown alert_operator : RecoveryAction

-- `static_cast<int>`
abbrev pub severity_index : ErrorSeverity → ℕ
severity_index debug = 0
severity_index info = 1
severity_index warning = 2
severity_index error = 3
severity_index critical = 4

abbrev pub category_index : ErrorCategory → ℕ
category_index network = 0
category_index market_data = 1
category_index order_execution = 2
category_index risk_management = 3
category_index configuration = 4
category_index persistence = 5
category_index system = 6
category_index strategy = 7
category_index unknown = 8

-- `struct Error`
pub record Error (Text : Type 0) : Type 0 where
  pub severity : ErrorSeverity
  pub category : ErrorCategory
  pub component : Text
  pub message : Text
  pub context : Text
  pub timestamp_us : ℕ
  pub stack_trace : List Text
  pub recovery_action : RecoveryAction
  pub error_code : ℤ

-- `struct ErrorStatistics`
pub record ErrorStatistics : Type 0 where
  pub total_errors : ℕ
  pub errors_by_severity : List ℕ
  pub errors_by_category : List ℕ
  pub last_error_timestamp_us : ℕ

abbrev pub no_errors : ErrorStatistics
no_errors = record {
  total_errors = 0;
  errors_by_severity = replicate 5 0;
  errors_by_category = replicate 9 0;
  last_error_timestamp_us = 0;
}

-- `if (i >= 0 && i < n) ++a[i]`
abbrev pub count_at : ℕ → ℕ → List ℕ → List ℕ
count_at n i a = if ltb i n then set a i (inc64 (get_or a i 0)) else a

module _ {Text : Type 0} where
  -- The constructor of an error, at the time `now_us`.
  abbrev pub new_error :
      ErrorSeverity → ErrorCategory → Text → Text → Text → RecoveryAction → ℤ → ℕ → Error Text
  new_error sev cat comp msg ctx recovery code now_us = record {
    severity = sev;
    category = cat;
    component = comp;
    message = msg;
    context = ctx;
    timestamp_us = now_us;
    stack_trace = [];
    recovery_action = recovery;
    error_code = code;
  }

  abbrev pub is_critical : Error Text → Bool
  is_critical e = elim e.severity [ critical ↦ true | _ ↦ false ]

  abbrev pub record_error : ErrorStatistics → Error Text → ErrorStatistics
  record_error s e = record {
    total_errors = inc64 s.total_errors;
    errors_by_severity = count_at 5 (severity_index e.severity) s.errors_by_severity;
    errors_by_category = count_at 9 (category_index e.category) s.errors_by_category;
    last_error_timestamp_us = e.timestamp_us;
  }

-- `class ErrorHandler`. `printed` and `called` are what went to the console and to the callbacks.
pub record ErrorHandler (Text C : Type 0) : Type 0 where
  pub callbacks : List (ℕ × C)
  pub category_callbacks : List (ℕ × List (ℕ × C))
  pub statistics : ErrorStatistics
  pub error_history : List (Error Text)
  pub history_write_index : ℕ
  pub max_history_size : ℕ
  pub next_callback_id : ℕ
  pub console_logging_enabled : Bool
  pub minimum_severity : ErrorSeverity
  pub printed : List (Error Text)
  pub called : List (C × Error Text)

module _ {Text C : Type 0} where
  abbrev pub new : ErrorHandler Text C
  new = record {
    callbacks = [];
    category_callbacks = [];
    statistics = no_errors;
    error_history = [];
    history_write_index = 0;
    max_history_size = 1000;
    next_callback_id = 1;
    console_logging_enabled = true;
    minimum_severity = debug;
    printed = [];
    called = [];
  }

  -- `none`: the write is out of bounds.
  unfoldable pub add_to_history : ErrorHandler Text C → Error Text → Option (ErrorHandler Text C)
  add_to_history h e =
      if ltb (length h.error_history) h.max_history_size
      then some (record h {
        error_history = h.error_history ++ (e ∷ []);
        history_write_index = length h.error_history + 1;
      })
      else if ltb h.history_write_index (length h.error_history)
      then some (record h {
        error_history = set h.error_history h.history_write_index e;
        history_write_index = (h.history_write_index + 1) % h.max_history_size;
      })
      else none

  abbrev pub in_category : ErrorHandler Text C → ErrorCategory → List (ℕ × C)
  in_category h category = elim (lookup (category_index category) h.category_callbacks) [
    | none ↦ []
    | some m ↦ m
  ]

  -- The calls, in the order of the maps.
  abbrev pub invoke_callbacks : ErrorHandler Text C → Error Text → List (C × Error Text)
  invoke_callbacks h e =
      map (λ p. (p.1, e)) h.callbacks ++ map (λ p. (p.1, e)) (in_category h e.category)

  abbrev pub print_error : ErrorHandler Text C → Error Text → List (Error Text)
  print_error h e = if h.console_logging_enabled then h.printed ++ (e ∷ []) else h.printed

  unfoldable pub report_error : ErrorHandler Text C → Error Text → Option (ErrorHandler Text C)
  unfolding add_to_history
  report_error h e =
      if ltb (severity_index e.severity) (severity_index h.minimum_severity) then some h else do
        h' ← add_to_history (record h { statistics = record_error h.statistics e }) e
        some (record h' { printed = print_error h' e; called = h'.called ++ invoke_callbacks h' e })

  unfoldable pub register_callback : ErrorHandler Text C → C → ℕ × ErrorHandler Text C
  register_callback h callback = (
    h.next_callback_id,
    record h {
      callbacks = put h.next_callback_id callback h.callbacks;
      next_callback_id = inc64 h.next_callback_id;
    },
  )

  unfoldable pub unregister_callback : ErrorHandler Text C → ℕ → ErrorHandler Text C
  unregister_callback h callback_id = record h { callbacks = remove callback_id h.callbacks }

  unfoldable pub register_category_callback :
      ErrorHandler Text C → ErrorCategory → C → ℕ × ErrorHandler Text C
  register_category_callback h category callback = (
    h.next_callback_id,
    record h {
      category_callbacks =
          put (category_index category) (put h.next_callback_id callback (in_category h category))
            h.category_callbacks;
      next_callback_id = inc64 h.next_callback_id;
    },
  )

  unfoldable pub unregister_category_callback :
      ErrorHandler Text C → ErrorCategory → ℕ → ErrorHandler Text C
  unregister_category_callback h category callback_id =
      elim (lookup (category_index category) h.category_callbacks) [
        | none ↦ h
        | some m ↦ record h {
          category_callbacks =
              put (category_index category) (remove callback_id m) h.category_callbacks;
        }
      ]

  abbrev pub reset_statistics : ErrorHandler Text C → ErrorHandler Text C
  reset_statistics h = record h { statistics = no_errors }

  -- The loop from `i` on, with `n` turns left.
  unfoldable pub read_back : ErrorHandler Text C → ℕ → ℕ → List (Error Text)
  read_back h i zero = []
  read_back h i (suc n) =
      let rest = read_back h (suc i) n in
      let size = length h.error_history in
      elim (get_elem? h.error_history ((h.history_write_index + size - 1 - i) % size)) [
        | none ↦ rest
        | some e ↦ e ∷ rest
      ]

  unfoldable pub get_recent_errors : ErrorHandler Text C → ℕ → List (Error Text)
  unfolding read_back
  get_recent_errors h max_count = read_back h 0 (min max_count (length h.error_history))

  unfoldable pub clear_history : ErrorHandler Text C → ErrorHandler Text C
  clear_history h = record h { error_history = []; history_write_index = 0 }

  unfoldable pub set_max_history_size : ErrorHandler Text C → ℕ → ErrorHandler Text C
  set_max_history_size h size =
      if ltb size (length h.error_history)
      then record h {
        max_history_size = size;
        error_history = take size h.error_history;
        history_write_index = 0;
      }
      else record h { max_history_size = size }

  abbrev pub set_console_logging : ErrorHandler Text C → Bool → ErrorHandler Text C
  set_console_logging h enabled = record h { console_logging_enabled = enabled }

  abbrev pub set_minimum_severity : ErrorHandler Text C → ErrorSeverity → ErrorHandler Text C
  set_minimum_severity h severity = record h { minimum_severity = severity }

-- A caller's errors, one after the other.
module _ {Text C : Type 0} where
  unfoldable pub report_all : ErrorHandler Text C → List (Error Text) → Option (ErrorHandler Text C)
  unfolding report_error
  report_all h [] = some h
  report_all h (e ∷ es) = do h' ← report_error h e; report_all h' es
