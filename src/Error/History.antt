-- ===== src/Error/History.antt =====
-- The history of the errors: where it is full, the next error is written behind its end.
use mathlib.Core.List.{reverse, append_assoc, append-nil}
use libchronos.Base.{
  ℕ, ◌+◌, ◌≤◌, ◌<◌, ◌≡◌, refl, sym, ap, ◌∙◌, true, false, none, some, List, [], ◌∷◌, ◌++◌, length,
  length-append, take, if◌then◌else◌, ltb, arith, Bool-cases, dec_lt, lt→ltb, le→ltb, inl, inr,
}
use libchronos.Error.{
  Error, ErrorHandler, ErrorSeverity, severity_index, report_error, report_all, record_error,
  print_error, invoke_callbacks, get_recent_errors,
}
use libchronos.Error.Recent.{IsAppending, recent-take}

module _ {Text : Type 0} where
  -- The errors that the minimum severity lets through.
  abbrev pub accepted : ErrorSeverity → List (Error Text) → List (Error Text)
  accepted least [] = []
  accepted least (e ∷ es) =
      let rest = accepted least es in
      if ltb (severity_index e.severity) (severity_index least) then rest else e ∷ rest

module _ {Text C : Type 0} where
  -- What reporting within the capacity gives.
  pub record Kept (h : ErrorHandler Text C) (es : List (Error Text)) : Type 0 where
    pub after : ErrorHandler Text C
    pub returns : report_all h es ≡ some after
    pub appending : IsAppending after
    pub history : after.error_history ≡ h.error_history ++ accepted h.minimum_severity es

  -- What `report_error` stores where there is room.
  abbrev noted : ErrorHandler Text C → Error Text → ErrorHandler Text C
  noted h e = record h {
    statistics = record_error h.statistics e;
    error_history = h.error_history ++ (e ∷ []);
    history_write_index = length h.error_history + 1;
    printed = print_error h e;
    called = h.called ++ invoke_callbacks h e;
  }

  report-skips :
      (h : ErrorHandler Text C) (e : Error Text)
      → ltb (severity_index e.severity) (severity_index h.minimum_severity) ≡ true
      → report_error h e ≡ some h
  unfolding report_error
  report-skips h e low = rw low refl

  report-notes :
      (h : ErrorHandler Text C) (e : Error Text)
      → ltb (severity_index e.severity) (severity_index h.minimum_severity) ≡ false
      → length h.error_history < h.max_history_size
      → report_error h e ≡ some (noted h e)
  unfolding report_error
  report-notes h e high room =
      rw (high, lt→ltb (length h.error_history) h.max_history_size room) refl

  report-breaks :
      (h : ErrorHandler Text C) (e : Error Text)
      → IsAppending h
      → ltb (severity_index e.severity) (severity_index h.minimum_severity) ≡ false
      → h.max_history_size ≤ length h.error_history
      → report_error h e ≡ none
  unfolding report_error
  report-breaks h e v high full =
      rw
        (
          high,
          le→ltb (length h.error_history) h.max_history_size full,
          le→ltb h.history_write_index (length h.error_history) (omega (arith, v.at_end)),
        )
        refl

  noted-IsAppending :
      (h : ErrorHandler Text C) (e : Error Text)
      → length h.error_history < h.max_history_size
      → IsAppending (noted h e)
  noted-IsAppending h e room = record {
    at_end = omega (arith, length-append h.error_history (e ∷ []));
    fits = omega (arith, length-append h.error_history (e ∷ []));
  }

  report_all-Kept :
      (h : ErrorHandler Text C) (es : List (Error Text))
      → IsAppending h
      → length h.error_history + length (accepted h.minimum_severity es) ≤ h.max_history_size
      → Kept h es
  unfolding report_all
  report_all-Kept h [] v le = record {
    after = h;
    returns = refl;
    appending = v;
    history = sym (append-nil h.error_history);
  }
  report_all-Kept h (e ∷ es) v le =
      elim (Bool-cases (ltb (severity_index e.severity) (severity_index h.minimum_severity))) [
        | inl low ↦
            let k : Kept h es = report_all-Kept h es v (ground (arith, low, le)) in
            record {
              after = k.after;
              returns = rw (report-skips h e low) k.returns;
              appending = k.appending;
              history = rw low k.history;
            }
        | inr high ↦
            let room : length h.error_history < h.max_history_size = ground (arith, high, le) in
            let k : Kept (noted h e) es =
              report_all-Kept (noted h e) es (noted-IsAppending h e room)
                (ground (arith, length-append h.error_history (e ∷ []), high, le)) in
            record {
              after = k.after;
              returns = rw (report-notes h e high room) k.returns;
              appending = k.appending;
              history = rw high (
                  k.history
                  ∙ append_assoc h.error_history (e ∷ []) (accepted h.minimum_severity es));
            }
      ]

  -- A handler that appends, and is given more errors that its minimum severity lets through than
  -- there is room for in its history, writes out of bounds.
  pub report_all-overflows :
      (h : ErrorHandler Text C) (es : List (Error Text))
      → IsAppending h
      → h.max_history_size < length h.error_history + length (accepted h.minimum_severity es)
      → report_all h es ≡ none
  unfolding report_all
  report_all-overflows h [] v lt = absurd (omega (arith, v.fits))
  report_all-overflows h (e ∷ es) v lt =
      elim (Bool-cases (ltb (severity_index e.severity) (severity_index h.minimum_severity))) [
        | inl low ↦
            rw (report-skips h e low) (report_all-overflows h es v (ground (arith, low, lt)))
        | inr high ↦ elim (dec_lt (length h.error_history) h.max_history_size) [
          | yes room ↦ rw (report-notes h e high room) (
              report_all-overflows (noted h e) es (noted-IsAppending h e room)
                (ground (arith, length-append h.error_history (e ∷ []), high, lt)))
          | no full ↦ rw (report-breaks h e v high (omega arith)) refl
        ]
      ]

  -- A handler that appends, and has room in its history for the errors that its minimum severity lets
  -- through, returns from reporting them, appends again, and getRecentErrors then gives the last
  -- `max_count` of all errors kept, the newest first.
  pub report_all-recent :
      (h : ErrorHandler Text C) (es : List (Error Text)) (max_count : ℕ)
      → IsAppending h
      → length h.error_history + length (accepted h.minimum_severity es) ≤ h.max_history_size
      → (h' : ErrorHandler Text C) × (report_all h es ≡ some h')
        × IsAppending h'
        × (get_recent_errors h' max_count
            ≡ take max_count (reverse (h.error_history ++ accepted h.minimum_severity es)))
  report_all-recent h es max_count v le =
      let k : Kept h es = report_all-Kept h es v le in
      (
        k.after,
        k.returns,
        k.appending,
        recent-take k.after max_count k.appending ∙ ap (λ l. take max_count (reverse l)) k.history,
      )
