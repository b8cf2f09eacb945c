-- ===== src/Helpers/Floating.antt =====
-- The arithmetic of Python's floats, other than NaN, as an interface: the operations that the
-- program uses, and what rounding to the nearest double keeps of their laws.
use fansly_scraper.Common.{
  ℕ, ◌*◌, ◌≤◌, ◌<◌, ◌≡◌, ◌⊎◌, Bool, true, false, not, Option, some, arith, if◌then◌else◌,
}

-- `over` is none where Python raises ZeroDivisionError, `power` where it raises OverflowError;
-- `ratio a b` is the double of the quotient of two integers.
pub record Floating (F : Type 0) : Type 0 where
  pub leq : F → F → Bool
  pub ratio : ℕ → ℕ → F
  pub plus : F → F → F
  pub minus : F → F → F
  pub times : F → F → F
  pub over : F → F → Option F
  pub power : F → ℕ → Option F
  pub leq_refl : (a : F) → leq a a ≡ true
  pub leq_trans : (a b c : F) → leq a b ≡ true → leq b c ≡ true → leq a c ≡ true
  pub leq_total : (a b : F) → (leq a b ≡ true) ⊎ (leq b a ≡ true)
  pub ratio_mono :
      (a b c d : ℕ) → 0 < b → 0 < d → a * d ≤ c * b → leq (ratio a b) (ratio c d) ≡ true
  pub plus_mono : (a b c d : F) → leq a b ≡ true → leq c d ≡ true → leq (plus a c) (plus b d) ≡ true
  pub plus_zero : (a : F) → leq a (plus a (ratio 0 1)) ≡ true
  pub minus_pos : (a b : F) → leq a b ≡ true → leq (minus a b) (ratio 0 1) ≡ true
  pub times_shrinks :
      (a k : F) → leq (ratio 0 1) a ≡ true → leq k (ratio 1 1) ≡ true → leq (times a k) a ≡ true
  pub times_nonneg :
      (a b : F)
      → leq (ratio 0 1) a ≡ true
      → leq (ratio 0 1) b ≡ true
      → leq (ratio 0 1) (times a b) ≡ true
  pub minus_shrinks : (a b : F) → leq (ratio 0 1) b ≡ true → leq (minus a b) a ≡ true
  pub minus_nonneg : (a b : F) → leq b a ≡ true → leq (ratio 0 1) (minus a b) ≡ true
  pub over_nonneg :
      (a b q : F)
      → leq (ratio 0 1) a ≡ true
      → leq (ratio 0 1) b ≡ true
      → over a b ≡ some q
      → leq (ratio 0 1) q ≡ true
  pub half_pos : leq (ratio 1 2) (ratio 0 1) ≡ false
  pub one_pos : leq (ratio 1 1) (ratio 0 1) ≡ false
  pub zero_plus : (a : F) → leq a (plus (ratio 0 1) a) ≡ true
  pub times_nonpos :
      (a b : F)
      → leq a (ratio 0 1) ≡ true
      → leq (ratio 0 1) b ≡ true
      → leq (times a b) (ratio 0 1) ≡ true
  pub over_shrinks :
      (a b q : F)
      → leq (ratio 0 1) a ≡ true
      → leq (ratio 1 1) b ≡ true
      → over a b ≡ some q
      → leq q a ≡ true

module _ {F : Type 0} ⦃N : Floating F⦄ where
  -- a <= b, a < b and a literal n / d
  abbrev pub lte : F → F → Bool
  lte a b = N.leq a b

  abbrev pub lt : F → F → Bool
  lt a b = not (N.leq b a)

  abbrev pub lit : ℕ → ℕ → F
  lit n d = N.ratio n d

  abbrev pub nil : F
  nil = N.ratio 0 1

  -- Python's `min(a, b)` and `max(a, b)`, which keep the first of two equal values
  abbrev pub fmin : F → F → F
  fmin a b = if lt b a then b else a

  abbrev pub fmax : F → F → F
  fmax a b = if lt a b then b else a

  pub fmin-left : (a b : F) → lte (fmin a b) a ≡ true
  fmin-left a b = ground (arith, N.leq_refl a, N.leq_total a b)

  pub fmin-right : (a b : F) → lte (fmin a b) b ≡ true
  fmin-right a b = ground (arith, N.leq_refl b, N.leq_total a b)

  pub fmax-left : (a b : F) → lte a (fmax a b) ≡ true
  fmax-left a b = ground (arith, N.leq_refl a, N.leq_total a b)

  pub fmax-right : (a b : F) → lte b (fmax a b) ≡ true
  fmax-right a b = ground (arith, N.leq_refl b, N.leq_total a b)

  pub fmin-glb : (a b c : F) → lte c a ≡ true → lte c b ≡ true → lte c (fmin a b) ≡ true
  fmin-glb a b c h k = ground arith

  pub fmax-lub : (a b c : F) → lte a c ≡ true → lte b c ≡ true → lte (fmax a b) c ≡ true
  fmax-lub a b c h k = ground arith

  pub plus_grows : (a b : F) → lte nil b ≡ true → lte a (N.plus a b) ≡ true
  plus_grows a b h =
      N.leq_trans a (N.plus a nil) (N.plus a b) (N.plus_zero a)
        (N.plus_mono a a nil b (N.leq_refl a) h)
