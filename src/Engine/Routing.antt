-- ===== src/Engine/Routing.antt =====
-- The ids of the strategies: a fill goes to the strategy whose order it fills.
use libchronos.Base.{
  ℕ, zero, suc, ◌+◌, ◌%◌, ◌^◌, ◌<◌, ◌≡◌, refl, sym, ap, ◌∙◌, none, some, List, [], ◌∷◌, ◌++◌,
  length, length-append, get_elem?, set, if◌then◌else◌, ◌==◌, ltb, arith, ◌⊎◌, inl, inr, lookup,
  lookup-put, ◌>>=◌,
}
use libchronos.Base.Words.{inc64, inc32}
use libchronos.Decimal.{Fixed}
use libchronos.Types.{Fill}
use libchronos.Positions.{update_position}
use libchronos.Risk.Check.{Clock}
use libchronos.Engine.Program.{Strategy, exec}
use libchronos.Engine.Dispatch.{StrategyEntry, StrategyEngine, register_strategy, process_fill}

get_elem?-snoc :
    {A : Type 0} (xs : List A) (x y : A) (i : ℕ)
    → get_elem? (xs ++ (x ∷ [])) i ≡ some y
    → (get_elem? xs i ≡ some y) ⊎ ((i ≡ length xs) × (x ≡ y))
get_elem?-snoc [] x y zero e = ground (arith, e)
get_elem?-snoc [] x y (suc i) e = ground (arith, e)
get_elem?-snoc (w ∷ xs) x y zero e = inl e
get_elem?-snoc (w ∷ xs) x y (suc i) e = ground (arith, get_elem?-snoc xs x y i e)

get_elem?-below :
    {A : Type 0} (xs : List A) (y : A) (i : ℕ) → get_elem? xs i ≡ some y → i < length xs
get_elem?-below [] y i e = ground (arith, e)
get_elem?-below (x ∷ xs) y zero e = omega arith
get_elem?-below (x ∷ xs) y (suc i) e = omega (arith, get_elem?-below xs y i e)

module _ {S F D : Type 0} where
  -- The strategy at place `i` has the id `i + 1`, and no other id is known.
  pub record IsRouted (e : StrategyEngine S F D) : Type 0 where
    pub id_of :
        (i : ℕ) (entry : StrategyEntry S) → get_elem? e.strategies i ≡ some entry → entry.id ≡ suc i
    pub place_of :
        (i : ℕ)
        → lookup (suc i) e.strategy_by_id ≡ (if ltb i (length e.strategies) then some i else none)
    pub nobody : lookup 0 e.strategy_by_id ≡ none

module _ {S F D : Type 0} ⦃fx : Fixed D⦄ {n : ℕ} (code : Strategy S D n) where
  abbrev pub register_all : StrategyEngine S F D → List S → StrategyEngine S F D
  register_all e [] = e
  register_all e (s ∷ ss) = register_all (register_strategy code e s) ss

  abbrev entered : StrategyEngine S F D → S → StrategyEntry S
  entered e s = record {
    id = inc32 (length e.strategies % 2 ^ 32);
    strategy = s;
    symbols = code.symbols s;
    is_wildcard = length (code.symbols s) == 0;
  }

  grown :
      (e : StrategyEngine S F D) (s : S)
      → length (register_strategy code e s).strategies ≡ length e.strategies + 1
  unfolding register_strategy
  grown e s = length-append e.strategies (entered e s ∷ [])

  register-IsRouted :
      (e : StrategyEngine S F D) (s : S)
      → IsRouted e
      → length e.strategies + 1 < 2 ^ 32
      → IsRouted (register_strategy code e s)
  unfolding register_strategy
  register-IsRouted e s v small = record {
    id_of = λ i entry h. elim (get_elem?-snoc e.strategies (entered e s) entry i h) [
      | inl old ↦ v.id_of i entry old
      | inr (last, same) ↦ ap (λ x. x.id) (sym same) ∙ omega (arith, last)
    ];
    place_of = λ i.
        lookup-put new_id (suc i) (length e.strategies) e.strategy_by_id
        ∙ ground (
          arith,
          v.place_of i,
          length-append e.strategies (entered e s ∷ []),
          fits,
          some_place (length e.strategies) i,
        );
    nobody =
        lookup-put new_id 0 (length e.strategies) e.strategy_by_id ∙ ground (arith, v.nobody, fits);
  }
    where
      new_id : ℕ
      new_id = inc32 (length e.strategies % 2 ^ 32)

      fits : new_id ≡ length e.strategies + 1
      fits = omega (arith, small)

      some_place : (j k : ℕ) → j ≡ k → some j ≡ some k
      some_place j k h = ap some h

  register_all-IsRouted :
      (e : StrategyEngine S F D) (ss : List S)
      → IsRouted e
      → length e.strategies + length ss < 2 ^ 32
      → IsRouted (register_all e ss)
  register_all-IsRouted e [] v small = v
  register_all-IsRouted e (s ∷ ss) v small =
      register_all-IsRouted (register_strategy code e s) ss (register-IsRouted e s v (omega arith))
        (omega (arith, grown e s))

  -- The engine once the position and the counters know of a fill.
  abbrev pub booked : StrategyEngine S F D → Fill D → StrategyEngine S F D
  booked e fill = record e {
    fills_processed = inc64 e.fills_processed;
    ctx = record e.ctx {
      timestamp_us = fill.receive_timestamp_us;
      position_manager = (update_position e.ctx.position_manager fill).1;
    };
  }

  -- What becomes of a fill.
  pub record Delivered (e : StrategyEngine S F D) (fill : Fill D) (clock : ℕ → Clock) : Type 0 where
    pub owner :
        (i : ℕ) (entry : StrategyEntry S)
        → get_elem? e.strategies i ≡ some entry
        → fill.strategy_id ≡ entry.id
        → process_fill code e fill clock ≡ (
            exec clock
              (record (booked e fill).ctx { current_strategy_id = entry.id })
              (code.on_fill fill entry.strategy)
            >>= λ r. some (record (booked e fill) {
              ctx = r.1;
              strategies = set e.strategies i (record entry { strategy = r.0 });
            }))
    pub stranger :
        (fill.strategy_id ≡ 0) ⊎ (length e.strategies < fill.strategy_id)
        → process_fill code e fill clock ≡ some (booked e fill)

  unknown :
      (e : StrategyEngine S F D)
      → IsRouted e
      → (k : ℕ) → (k ≡ 0) ⊎ (length e.strategies < k)
      → lookup k e.strategy_by_id ≡ none
  unknown e v zero h = v.nobody
  unknown e v (suc i) h = v.place_of i ∙ ground (arith, h)

  routed-Delivered :
      (e : StrategyEngine S F D) (fill : Fill D) (clock : ℕ → Clock)
      → IsRouted e
      → Delivered e fill clock
  unfolding process_fill
  routed-Delivered e fill clock v = record {
    owner = λ i entry h to.
        let id : fill.strategy_id ≡ suc i = to ∙ v.id_of i entry h in
        let found : lookup fill.strategy_id e.strategy_by_id ≡ some i =
          ap (λ k. lookup k e.strategy_by_id) id
          ∙ v.place_of i
          ∙ ground (arith, get_elem?-below e.strategies entry i h) in
        rw (process_fill, found, h, to) refl;
    stranger = λ h.
        let found : lookup fill.strategy_id e.strategy_by_id ≡ none =
          unknown e v fill.strategy_id h in
        rw (process_fill, found) refl;
  }

  -- After fewer than 2 ^ 32 strategies have been registered with an engine that has none, a fill that
  -- carries the id of one of them is booked to the position and then handed to the onFill of that
  -- strategy, which runs under its own id, and no other strategy changes; a fill whose id is 0 or above
  -- their number is only booked.
  pub register_all-Delivered :
      (e : StrategyEngine S F D) (ss : List S) (fill : Fill D) (clock : ℕ → Clock)
      → e.strategies ≡ []
      → e.strategy_by_id ≡ []
      → length ss < 2 ^ 32
      → Delivered (register_all e ss) fill clock
  unfolding lookup
  register_all-Delivered e ss fill clock none_yet none_known small =
      routed-Delivered (register_all e ss) fill clock
        (register_all-IsRouted e ss (fresh none_yet none_known) (omega (arith, ap length none_yet)))
    where
      fresh : e.strategies ≡ [] → e.strategy_by_id ≡ [] → IsRouted e
      fresh a b = record {
        id_of = λ i entry h.
            absurd (ground (arith, get_elem?-below e.strategies entry i h, ap length a));
        place_of = λ i. ap (lookup (suc i)) b ∙ ground (arith, ap length a);
        nobody = ap (lookup 0) b;
      }
