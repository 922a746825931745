-- ===== src/Error/Counts.antt =====
-- The statistics of the errors that were reported.
use libchronos.Base.{
  ℕ, zero, suc, ◌+◌, ◌%◌, ◌^◌, ◌<◌, ◌≡◌, refl, sym, ap, ap₂, subst, ◌∙◌, Bool, some, List, [], ◌∷◌,
  length, length-set, get_or, set, if◌then◌else◌, ltb, ◌==◌, arith, Bool-cases, Option-cases, inl,
  inr,
}
use libchronos.Base.Words.{inc64}
use libchronos.Error.{
  Error, ErrorHandler, ErrorSeverity, ErrorCategory, ErrorStatistics, severity_index,
  category_index, count_at, record_error, add_to_history, report_error, report_all,
}
use libchronos.Error.History.{accepted}

get_or-set :
    (xs : List ℕ) (i j v d : ℕ)
    → i < length xs
    → get_or (set xs i v) j d ≡ (if i == j then v else get_or xs j d)
get_or-set [] i j v d h = absurd (omega arith)
get_or-set (x ∷ xs) zero zero v d h = refl
get_or-set (x ∷ xs) zero (suc j) v d h = ground arith
get_or-set (x ∷ xs) (suc i) zero v d h = ground arith
get_or-set (x ∷ xs) (suc i) (suc j) v d h = ground (arith, get_or-set xs i j v d)

-- How many elements pass a test.
abbrev pub count : {A : Type 0} → (A → Bool) → List A → ℕ
count p [] = 0
count p (x ∷ xs) = let rest = count p xs in if p x then suc rest else rest

count_at-get :
    (n i j : ℕ) (a : List ℕ)
    → length a ≡ n
    → i < n
    → get_or (count_at n i a) j 0 ≡ (if i == j then inc64 (get_or a j 0) else get_or a j 0)
count_at-get n i j a e h = ground (arith, get_or-set a i j (inc64 (get_or a i 0)) 0)

count_at-length : (n i : ℕ) (a : List ℕ) → length (count_at n i a) ≡ length a
count_at-length n i a = ground (arith, length-set a i (inc64 (get_or a i 0)))

-- The arrays have their lengths and the counters fit their words.
pub record IsTallied (s : ErrorStatistics) : Type 0 where
  pub severities : length s.errors_by_severity ≡ 5
  pub categories : length s.errors_by_category ≡ 9
  pub small_total : s.total_errors < 2 ^ 64
  pub small_severity :
      (k : ErrorSeverity) → get_or s.errors_by_severity (severity_index k) 0 < 2 ^ 64
  pub small_category :
      (c : ErrorCategory) → get_or s.errors_by_category (category_index c) 0 < 2 ^ 64

module _ {Text : Type 0} where
  abbrev record_all : ErrorStatistics → List (Error Text) → ErrorStatistics
  record_all s [] = s
  record_all s (e ∷ es) = record_all (record_error s e) es

  abbrev pub has_severity : ErrorSeverity → Error Text → Bool
  has_severity s e = severity_index e.severity == severity_index s

  abbrev pub has_category : ErrorCategory → Error Text → Bool
  has_category c e = category_index e.category == category_index c

  -- The counters of one kind: `index` is the position in the array that an error counts at.
  recount :
      (n : ℕ) (index : Error Text → ℕ) (field : ErrorStatistics → List ℕ)
      → ((e : Error Text) → index e < n)
      → ((s : ErrorStatistics) (e : Error Text)
          → field (record_error s e) ≡ count_at n (index e) (field s))
      → (j : ℕ) (s : ErrorStatistics) (es : List (Error Text)) → length (field s) ≡ n
      → get_or (field s) j 0 < 2 ^ 64
      → get_or (field (record_all s es)) j 0
        ≡ (get_or (field s) j 0 + count (λ e. index e == j) es) % 2 ^ 64
  recount n index field small step j s [] len lt = omega arith
  recount n index field small step j s (e ∷ es) len lt =
      let at : get_or (field (record_error s e)) j 0
          ≡ (if index e == j then inc64 (get_or (field s) j 0) else get_or (field s) j 0) =
        ap (λ a. get_or a j 0) (step s e) ∙ count_at-get n (index e) j (field s) len (small e) in
      let len' : length (field (record_error s e)) ≡ n =
        ap length (step s e) ∙ count_at-length n (index e) (field s) ∙ len in
      let rest =
        recount n index field small step j (record_error s e) es len' (ground (arith, at)) in
      ground (arith, at, rest)

  split :
      (s : ErrorStatistics) (least : ErrorSeverity) (e : Error Text) (es : List (Error Text))
      → record_all
          (if ltb (severity_index e.severity) (severity_index least) then s else record_error s e)
          (accepted least es)
        ≡ record_all s (accepted least (e ∷ es))
  split s least e es = elim (Bool-cases (ltb (severity_index e.severity) (severity_index least))) [
    | inl low ↦ rw low refl
    | inr high ↦ rw high refl
  ]

module _ {Text C : Type 0} where
  add-statistics :
      (h h' : ErrorHandler Text C) (e : Error Text)
      → add_to_history h e ≡ some h'
      → (h'.statistics ≡ h.statistics) × (h'.minimum_severity ≡ h.minimum_severity)
  unfolding add_to_history
  add-statistics h h' e r = ground arith

  report-statistics :
      (h h' : ErrorHandler Text C) (e : Error Text)
      → report_error h e ≡ some h'
      → (h'.minimum_severity ≡ h.minimum_severity)
        × (h'.statistics ≡ (
            if ltb (severity_index e.severity) (severity_index h.minimum_severity)
            then h.statistics
            else record_error h.statistics e))
  unfolding report_error
  report-statistics h h' e r =
      elim (Bool-cases (ltb (severity_index e.severity) (severity_index h.minimum_severity))) [
        | inl low ↦ ground (arith, low, r)
        | inr high ↦ ground (
          arith,
          high,
          r,
          Option-cases (add_to_history (record h { statistics = record_error h.statistics e }) e),
          added,
        )
      ]
    where
      added :
          (m : ErrorHandler Text C)
          → add_to_history (record h { statistics = record_error h.statistics e }) e ≡ some m
          → (m.statistics ≡ record_error h.statistics e) × (m.minimum_severity ≡ h.minimum_severity)
      added m a = add-statistics (record h { statistics = record_error h.statistics e }) m e a

  report_all-statistics :
      (h h' : ErrorHandler Text C) (es : List (Error Text))
      → report_all h es ≡ some h'
      → h'.statistics ≡ record_all h.statistics (accepted h.minimum_severity es)
  unfolding report_all
  report_all-statistics h h' [] r = ground arith
  report_all-statistics h h' (e ∷ es) r = elim (Option-cases (report_error h e)) [
    | inl broken ↦ absurd (ground (arith, r, broken))
    | inr (m, one) ↦
        let rest = report_all-statistics m h' es (ground (arith, r, one)) in
        let (same, stats) = report-statistics h m e one in
        rest
        ∙ ap₂ (λ s l. record_all s (accepted l es)) stats same
        ∙ split h.statistics h.minimum_severity e es
  ]

module _ {Text : Type 0} where
  total-count :
      (s : ErrorStatistics) (es : List (Error Text))
      → s.total_errors < 2 ^ 64
      → (record_all s es).total_errors ≡ (s.total_errors + length es) % 2 ^ 64
  total-count s [] lt = omega arith
  total-count s (e ∷ es) lt = omega (arith, total-count (record_error s e) es (omega arith))

  -- What the counters are after the errors `es`, counted from `s`.
  pub record Tallied (s s' : ErrorStatistics) (es : List (Error Text)) : Type 0 where
    pub total : s'.total_errors ≡ (s.total_errors + length es) % 2 ^ 64
    pub by_severity :
        (k : ErrorSeverity)
        → get_or s'.errors_by_severity (severity_index k) 0
          ≡ (get_or s.errors_by_severity (severity_index k) 0 + count (has_severity k) es) % 2 ^ 64
    pub by_category :
        (c : ErrorCategory)
        → get_or s'.errors_by_category (category_index c) 0
          ≡ (get_or s.errors_by_category (category_index c) 0 + count (has_category c) es) % 2 ^ 64

severity-small : (k : ErrorSeverity) → severity_index k < 5
severity-small k = ground arith

category-small : (c : ErrorCategory) → category_index c < 9
category-small c = ground arith

module _ {Text C : Type 0} where
  -- Where reporting the errors `es` returns, the total and the counter of each severity and of each
  -- category have grown by the numbers of such errors that the minimum severity lets through, modulo
  -- 2 ^ 64; the arrays have 5 and 9 counters, which fit 64 bits.
  pub report_all-Tallied :
      (h h' : ErrorHandler Text C) (es : List (Error Text))
      → IsTallied h.statistics
      → report_all h es ≡ some h'
      → Tallied h.statistics h'.statistics (accepted h.minimum_severity es)
  report_all-Tallied h h' es v r =
      subst (λ (s : ErrorStatistics). Tallied h.statistics s (accepted h.minimum_severity es))
        (sym (report_all-statistics h h' es r))
        record {
          total = total-count h.statistics (accepted h.minimum_severity es) v.small_total;
          by_severity = λ k.
              recount 5 (λ e. severity_index e.severity) (λ s. s.errors_by_severity)
                (λ e. severity-small e.severity) (λ s e. refl) (severity_index k) h.statistics
                (accepted h.minimum_severity es) v.severities (v.small_severity k);
          by_category = λ c.
              recount 9 (λ e. category_index e.category) (λ s. s.errors_by_category)
                (λ e. category-small e.category) (λ s e. refl) (category_index c) h.statistics
                (accepted h.minimum_severity es) v.categories (v.small_category c);
        }
