-- ===== src/Decimal/Order.antt =====
-- The two orders in which price levels are kept, ascending and descending, as one interface.
use libchronos.Base.{◌≡◌, sym, ap, ◌∙◌, ◌↔◌, Bool, true, false, arith}
use libchronos.Base.Int.{ltb_ℤ, eq_of_parts}
use libchronos.Decimal.Defs.{Fixed, IsFixed}

-- `before` and `after` are strict total orders that are each other's converse, and `same` is
-- equality.
pub record IsLine {D : Type 0} (before after same : D → D → Bool) : Type 0 where
  pub before_irrefl : (a : D) → before a a ≡ false
  pub before_trans : (a b c : D) → before a b ≡ true → before b c ≡ true → before a c ≡ true
  pub before_asym : (a b : D) → before a b ≡ true → before b a ≡ false
  pub before_connex : (a b : D) → before a b ≡ false → before b a ≡ false → a ≡ b
  pub after_eq : (a b : D) → after a b ≡ before b a
  pub same_iff : (a b : D) → (same a b ≡ true) ↔ (a ≡ b)

module _ {D : Type 0} ⦃fx : Fixed D⦄ (laws : IsFixed D) where
  open laws use {from_raw-raw, lt_raw, gt_raw, eq_raw}

  pub eq_of_raw : (a b : D) → fx.raw_value a ≡ fx.raw_value b → a ≡ b
  eq_of_raw a b h = sym (from_raw-raw a) ∙ ap fx.from_raw_value h ∙ from_raw-raw b

  eq_of_not_lt :
      (a b : D)
      → ltb_ℤ (fx.raw_value a) (fx.raw_value b) ≡ false
      → ltb_ℤ (fx.raw_value b) (fx.raw_value a) ≡ false
      → a ≡ b
  eq_of_not_lt a b p q =
      eq_of_raw a b (eq_of_parts (fx.raw_value a) (fx.raw_value b) (ground arith))

  eq_iff : (a b : D) → (fx.eq a b ≡ true) ↔ (a ≡ b)
  eq_iff a b = (
    λ h. eq_of_raw a b (eq_of_parts (fx.raw_value a) (fx.raw_value b) (ground (arith, eq_raw a b))),
    λ e. ground (arith, eq_raw a b),
  )

  -- The order of the asks.
  pub ascending : IsLine fx.lt fx.gt fx.eq
  ascending = record {
    before_irrefl = λ a. ground (arith, lt_raw a a);
    before_trans = λ a b c p q. ground (arith, lt_raw a b, lt_raw b c, lt_raw a c);
    before_asym = λ a b p. ground (arith, lt_raw a b, lt_raw b a);
    before_connex =
        λ a b p q. eq_of_not_lt a b (ground (arith, lt_raw a b)) (ground (arith, lt_raw b a));
    after_eq = λ a b. ground (arith, gt_raw a b, lt_raw b a);
    same_iff = eq_iff;
  }

  -- The order of the bids.
  pub descending : IsLine fx.gt fx.lt fx.eq
  descending = record {
    before_irrefl = λ a. ground (arith, gt_raw a a);
    before_trans = λ a b c p q. ground (arith, gt_raw a b, gt_raw b c, gt_raw a c);
    before_asym = λ a b p. ground (arith, gt_raw a b, gt_raw b a);
    before_connex =
        λ a b p q. eq_of_not_lt a b (ground (arith, gt_raw b a)) (ground (arith, gt_raw a b));
    after_eq = λ a b. ground (arith, lt_raw a b, gt_raw b a);
    same_iff = eq_iff;
  }
