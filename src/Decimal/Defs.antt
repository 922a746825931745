-- ===== src/Decimal/Defs.antt =====
-- include/chronos/core/types.hpp: `Decimal`, the class `fpm::fixed<int64_t, __int128, 32>` of the
-- third-party library fpm. Its values and operations are a parameter; `IsFixed` states what fpm
-- documents: a value is its raw int64, comparisons compare the raw values, and sums, differences
-- and negations are those of the raw values as long as these fit.
use libchronos.Base.{ℕ, ◌≡◌, Bool, not}
use libchronos.Base.Int.{ℤ, pos, ◌+ℤ◌, ◌-ℤ◌, -ℤ◌, ltb_ℤ, eqb_ℤ, IsInt64}

pub record Fixed (D : Type 0) : Type 0 where
  pub raw_value : D → ℤ
  pub from_raw_value : ℤ → D
  -- the constructor from an int literal
  pub of_int : ℕ → D
  pub lt : D → D → Bool
  pub gt : D → D → Bool
  pub le : D → D → Bool
  pub ge : D → D → Bool
  pub eq : D → D → Bool
  pub add : D → D → D
  pub sub : D → D → D
  pub mul : D → D → D
  pub div : D → D → D
  pub neg : D → D

pub record IsFixed (D : Type 0) ⦃fx : Fixed D⦄ : Type 0 where
  pub from_raw-raw : (a : D) → fx.from_raw_value (fx.raw_value a) ≡ a
  pub raw-from_raw : (r : ℤ) → IsInt64 r → fx.raw_value (fx.from_raw_value r) ≡ r
  pub raw-zero : fx.raw_value (fx.of_int 0) ≡ pos 0
  pub lt_raw : (a b : D) → fx.lt a b ≡ ltb_ℤ (fx.raw_value a) (fx.raw_value b)
  pub gt_raw : (a b : D) → fx.gt a b ≡ ltb_ℤ (fx.raw_value b) (fx.raw_value a)
  pub le_raw : (a b : D) → fx.le a b ≡ not (ltb_ℤ (fx.raw_value b) (fx.raw_value a))
  pub ge_raw : (a b : D) → fx.ge a b ≡ not (ltb_ℤ (fx.raw_value a) (fx.raw_value b))
  pub eq_raw : (a b : D) → fx.eq a b ≡ eqb_ℤ (fx.raw_value a) (fx.raw_value b)
  pub raw-add :
      (a b : D)
      → IsInt64 (fx.raw_value a +ℤ fx.raw_value b)
      → fx.raw_value (fx.add a b) ≡ fx.raw_value a +ℤ fx.raw_value b
  pub raw-sub :
      (a b : D)
      → IsInt64 (fx.raw_value a -ℤ fx.raw_value b)
      → fx.raw_value (fx.sub a b) ≡ fx.raw_value a -ℤ fx.raw_value b
  pub raw-neg :
      (a : D) → IsInt64 (-ℤ◌ (fx.raw_value a)) → fx.raw_value (fx.neg a) ≡ -ℤ◌ (fx.raw_value a)
