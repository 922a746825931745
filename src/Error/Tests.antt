-- ===== src/Error/Tests.antt =====
-- The theorems of the error handler at a handler with a history of two errors.
use mathlib.Core.List.{reverse}
use libchronos.Base.{lookup, ℕ, ◌≡◌, refl, none, some, List, [], ◌∷◌, ◌++◌, take, arith}
use libchronos.Base.Int.{pos}
use libchronos.Error.{
  Error, ErrorHandler, ErrorSeverity, ErrorCategory, RecoveryAction, no_errors, new_error, new,
  set_max_history_size, report_all, get_recent_errors,
}
use libchronos.Error.Recent.{IsAppending}
use libchronos.Error.History.{accepted, report_all-overflows, report_all-recent}
use libchronos.Error.Counts.{IsTallied, Tallied, report_all-Tallied}
use libchronos.Error.Ids.{Operation, register, unregister, register_in}

abbrev failure : ℕ → Error ℕ
failure now_us =
    new_error ErrorSeverity.error ErrorCategory.network 0 0 0 RecoveryAction.reconnect (pos 0)
      now_us

abbrev handler : ErrorHandler ℕ ℕ
handler = record new { max_history_size = 2; minimum_severity = ErrorSeverity.warning }

abbrev two : List (Error ℕ)
two = failure 1 ∷ record (failure 2) { severity = ErrorSeverity.info } ∷ failure 3 ∷ []

resized : set_max_history_size (record new { minimum_severity = ErrorSeverity.warning }) 2 ≡ handler
unfolding set_max_history_size
resized = refl

handler-IsAppending : IsAppending handler
handler-IsAppending = record { at_end = refl; fits = omega arith }

report_all-overflows_example : report_all handler (failure 0 ∷ two) ≡ none
report_all-overflows_example =
    report_all-overflows handler (failure 0 ∷ two) handler-IsAppending (omega arith)

report_all-recent_example :
    (h' : ErrorHandler ℕ ℕ) × (report_all handler two ≡ some h')
    × IsAppending h'
    × (get_recent_errors h' 5 ≡ take 5 (reverse ([] ++ accepted ErrorSeverity.warning two)))
report_all-recent_example = report_all-recent handler two 5 handler-IsAppending (omega arith)

no_errors-IsTallied : IsTallied no_errors
no_errors-IsTallied = record {
  severities = refl;
  categories = refl;
  small_total = omega arith;
  small_severity = λ k. ground arith;
  small_category = λ c. ground arith;
}

abbrev reported : ErrorHandler ℕ ℕ
reported = record handler {
  statistics = record {
    total_errors = 1;
    errors_by_severity = 0 ∷ 0 ∷ 0 ∷ 1 ∷ 0 ∷ [];
    errors_by_category = 1 ∷ 0 ∷ 0 ∷ 0 ∷ 0 ∷ 0 ∷ 0 ∷ 0 ∷ 0 ∷ [];
    last_error_timestamp_us = 1;
  };
  error_history = failure 1 ∷ [];
  history_write_index = 1;
  printed = failure 1 ∷ [];
}

reports : report_all handler (failure 1 ∷ []) ≡ some reported
unfolding report_all lookup
reports = refl

report_all-Tallied_example :
    Tallied no_errors reported.statistics (accepted ErrorSeverity.warning (failure 1 ∷ []))
report_all-Tallied_example =
    report_all-Tallied handler reported (failure 1 ∷ []) no_errors-IsTallied reports

abbrev operations : List (Operation ℕ)
operations = register 7 ∷ register_in ErrorCategory.network 8 ∷ unregister 1 ∷ []
