-- ===== src/Api/RateLimiter/Fixed.antt =====
-- An arithmetic of whole thousandths, without negative numbers, that keeps the laws of floats.
use native.Mathlib.Nat.{
  le-div_iff_mul-le, div-mul-le_self, mul-le-mul_left, mul-le-mul_right, le_of_mul-le-mul_right,
}
use fansly_scraper.Common.{
  ℕ, zero, suc, ◌+◌, ◌-◌, ◌*◌, ◌/◌, ◌≤◌, ◌<◌, ◌≡◌, ◌⊎◌, refl, true, Option, none, some, arith, leb,
}
use fansly_scraper.Helpers.Floating.{Floating}

abbrev pub divided : ℕ → ℕ → Option ℕ
divided a zero = none
divided a (suc b) = some (a * 1000 / suc b)

abbrev pub powers : ℕ → ℕ → ℕ
powers a zero = 1000
powers a (suc n) = powers a n * a / 1000

abbrev pub thousandths : ℕ → ℕ → ℕ
thousandths a b = a * 1000 / b

pub thousandths_mono :
    (a b c d : ℕ) → 0 < b → 0 < d → a * d ≤ c * b → thousandths a b ≤ thousandths c d
thousandths_mono a b c d hb hd h =
    let q = a * 1000 / b in
    let below : q * b ≤ a * 1000 = div-mul-le_self (a * 1000) b in
    let scaled : q * b * d ≤ a * 1000 * d = mul-le-mul_right d below in
    let crossed : a * d * 1000 ≤ c * b * 1000 = mul-le-mul_right 1000 h in
    (le-div_iff_mul-le hd).1 (le_of_mul-le-mul_right (omega (arith, scaled, crossed)) hb)

-- A product by at most one, and a quotient by at least one, do not grow.
pub scaled_shrinks : (a k : ℕ) → k ≤ 1000 → a * k / 1000 ≤ a
scaled_shrinks a k h =
    let below : a * k / 1000 * 1000 ≤ a * k = div-mul-le_self (a * k) 1000 in
    let above : a * k ≤ a * 1000 = mul-le-mul_left a h in omega (arith, below, above)

pub scaled_zero : (a b : ℕ) → a ≤ 0 → a * b / 1000 ≤ 0
scaled_zero zero b h = omega arith
scaled_zero (suc a) b h = ground arith

pub quotient_shrinks : (a b : ℕ) → 1000 ≤ suc b → a * 1000 / suc b ≤ a
quotient_shrinks a b h =
    let q = a * 1000 / suc b in
    let below : q * suc b ≤ a * 1000 = div-mul-le_self (a * 1000) (suc b) in
    let above : q * 1000 ≤ q * suc b = mul-le-mul_left q h in omega (arith, below, above)

pub divided_shrinks :
    (a b q : ℕ) → leb 0 a ≡ true → leb 1000 b ≡ true → divided a b ≡ some q → leb q a ≡ true
divided_shrinks a zero q h k e = cc
divided_shrinks a (suc b) q h k e = ground (arith, quotient_shrinks a b)

pub fixed_leq_refl : (a : ℕ) → leb a a ≡ true
fixed_leq_refl a = ground arith

pub fixed_leq_trans : (a b c : ℕ) → leb a b ≡ true → leb b c ≡ true → leb a c ≡ true
fixed_leq_trans a b c h k = ground arith

pub fixed_leq_total : (a b : ℕ) → (leb a b ≡ true) ⊎ (leb b a ≡ true)
fixed_leq_total a b = ground arith

pub fixed_ratio_mono :
    (a b c d : ℕ) → 0 < b → 0 < d → a * d ≤ c * b → leb (thousandths a b) (thousandths c d) ≡ true
fixed_ratio_mono a b c d hb hd h = ground (arith, thousandths_mono a b c d hb hd h)

pub fixed_plus_mono : (a b c d : ℕ) → leb a b ≡ true → leb c d ≡ true → leb (a + c) (b + d) ≡ true
fixed_plus_mono a b c d h k = ground arith

pub fixed_plus_zero : (a : ℕ) → leb a (a + 0) ≡ true
fixed_plus_zero a = ground arith

pub fixed_minus_pos : (a b : ℕ) → leb a b ≡ true → leb (a - b) 0 ≡ true
fixed_minus_pos a b h = ground arith

pub fixed_times_shrinks :
    (a k : ℕ) → leb 0 a ≡ true → leb k 1000 ≡ true → leb (a * k / 1000) a ≡ true
fixed_times_shrinks a k h l = ground (arith, scaled_shrinks a k)

pub fixed_times_nonneg : (a b : ℕ) → leb 0 a ≡ true → leb 0 b ≡ true → leb 0 (a * b / 1000) ≡ true
fixed_times_nonneg a b h k = ground arith

pub fixed_minus_shrinks : (a b : ℕ) → leb 0 b ≡ true → leb (a - b) a ≡ true
fixed_minus_shrinks a b h = ground arith

pub fixed_minus_nonneg : (a b : ℕ) → leb b a ≡ true → leb 0 (a - b) ≡ true
fixed_minus_nonneg a b h = ground arith

pub fixed_over_nonneg :
    (a b q : ℕ) → leb 0 a ≡ true → leb 0 b ≡ true → divided a b ≡ some q → leb 0 q ≡ true
fixed_over_nonneg a b q h k e = ground arith

pub fixed_zero_plus : (a : ℕ) → leb a (0 + a) ≡ true
fixed_zero_plus a = ground arith

pub fixed_times_nonpos : (a b : ℕ) → leb a 0 ≡ true → leb 0 b ≡ true → leb (a * b / 1000) 0 ≡ true
fixed_times_nonpos a b h k = ground (arith, scaled_zero a b)

instance abbrev pub fixed : Floating ℕ
fixed = record {
  leq = leb;
  ratio = thousandths;
  plus = λ a b. a + b;
  minus = λ a b. a - b;
  times = λ a b. a * b / 1000;
  over = divided;
  power = λ a n. some (powers a n);
  leq_refl = fixed_leq_refl;
  leq_trans = fixed_leq_trans;
  leq_total = fixed_leq_total;
  ratio_mono = fixed_ratio_mono;
  plus_mono = fixed_plus_mono;
  plus_zero = fixed_plus_zero;
  minus_pos = fixed_minus_pos;
  times_shrinks = fixed_times_shrinks;
  times_nonneg = fixed_times_nonneg;
  minus_shrinks = fixed_minus_shrinks;
  minus_nonneg = fixed_minus_nonneg;
  over_nonneg = fixed_over_nonneg;
  half_pos = refl;
  one_pos = refl;
  zero_plus = fixed_zero_plus;
  times_nonpos = fixed_times_nonpos;
  over_shrinks = divided_shrinks;
}
