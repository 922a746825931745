-- ===== src/Decimal/Sample.antt =====
-- An instance of the parameter `Decimal`, for tests: raw values themselves, with products and
-- quotients cut to the 32 fractional bits.
use libchronos.Base.{ℕ, suc, ◌*◌, ◌/◌, ◌^◌, refl, not}
use libchronos.Base.Int.{
  ℤ, pos, negsuc, pos_part, neg_part, sub_ℕ, ◌+ℤ◌, ◌-ℤ◌, ◌*ℤ◌, -ℤ◌, ltb_ℤ, eqb_ℤ,
}
use libchronos.Decimal.Defs.{Fixed, IsFixed}

abbrev pub scale_down : ℤ → ℕ → ℤ
scale_down a d = sub_ℕ (pos_part a / d) (neg_part a / d)

abbrev pub div_raw : ℤ → ℤ → ℤ
div_raw a (pos n) = scale_down (a *ℤ pos (2 ^ 32)) n
div_raw a (negsuc n) = scale_down ((-ℤ◌ a) *ℤ pos (2 ^ 32)) (suc n)

instance abbrev pub raw_fixed : Fixed ℤ
raw_fixed = record {
  raw_value = λ a. a;
  from_raw_value = λ a. a;
  of_int = λ n. pos (n * 2 ^ 32);
  lt = ltb_ℤ;
  gt = λ a b. ltb_ℤ b a;
  le = λ a b. not (ltb_ℤ b a);
  ge = λ a b. not (ltb_ℤ a b);
  eq = eqb_ℤ;
  add = ◌+ℤ◌;
  sub = ◌-ℤ◌;
  mul = λ a b. scale_down (a *ℤ b) (2 ^ 32);
  div = div_raw;
  neg = -ℤ◌;
}

pub raw_IsFixed : IsFixed ℤ
raw_IsFixed = record {
  from_raw-raw = λ a. refl;
  raw-from_raw = λ r h. refl;
  raw-zero = refl;
  lt_raw = λ a b. refl;
  gt_raw = λ a b. refl;
  le_raw = λ a b. refl;
  ge_raw = λ a b. refl;
  eq_raw = λ a b. refl;
  raw-add = λ a b h. refl;
  raw-sub = λ a b h. refl;
  raw-neg = λ a h. refl;
}

-- `Decimal(n)`
abbrev pub whole : ℕ → ℤ
whole n = pos (n * 2 ^ 32)
