-- ===== src/Common/Classes.antt =====
-- Decidable equality as an interface, with its instances for the key types of the program.
use Prim.Native.Nat.{ℕ}
use Prim.Native.String.{String}
use mathlib.Core.Path.{◌≡◌}
use mathlib.Core.Logic.{◌↔◌}
use mathlib.Core.Bool.{Bool, true, false, ◌&&◌}
use mathlib.Core.List.{List, [], ◌∷◌}
use native.Mathlib.Omega.{arith}
use text.Mathlib.Text.{◌==◌ as str_eq}
use text.Mathlib.TextEquality.{eq_iff}
use fansly_scraper.Common.Tests.{nat_beq, nat_beq_iff}
use fansly_scraper.Common.Int.{ℤ, int_beq, int_beq_iff}

-- A type whose values serve as dictionary keys: a test that decides equality.
pub record Keyed {ℓ} (K : Type ℓ) : Type ℓ where
  pub same : K → K → Bool
  pub same_iff : (j k : K) → (same j k ≡ true) ↔ (j ≡ k)

-- The code points of two texts, compared one by one.
abbrev pub codes_beq : List ℕ → List ℕ → Bool
codes_beq [] [] = true
codes_beq (c ∷ cs) (d ∷ ds) = nat_beq c d && codes_beq cs ds
codes_beq _ _ = false

pub codes_beq_iff : (s t : List ℕ) → (codes_beq s t ≡ true) ↔ (s ≡ t)
codes_beq_iff [] [] = ground arith
codes_beq_iff [] (d ∷ ds) = ground arith
codes_beq_iff (c ∷ cs) [] = ground arith
codes_beq_iff (c ∷ cs) (d ∷ ds) = ground (arith, codes_beq_iff cs ds)

instance abbrev pub int_keyed : Keyed ℤ
int_keyed = record { same = int_beq; same_iff = int_beq_iff }

instance abbrev pub codes_keyed : Keyed (List ℕ)
codes_keyed = record { same = codes_beq; same_iff = codes_beq_iff }

instance abbrev pub string_keyed : Keyed String
string_keyed = record { same = str_eq; same_iff = eq_iff }

instance abbrev pub nat_keyed : Keyed ℕ
nat_keyed = record { same = nat_beq; same_iff = nat_beq_iff }

infix 50 ◌==◌
abbrev pub ◌==◌ {κ} : {K : Type κ} ⦃keyed : Keyed K⦄ → K → K → Bool
◌==◌ ⦃keyed⦄ j k = keyed.same j k

-- Pairs compare by their parts.
abbrev pub pair_beq {κ μ} :
    {K : Type κ} {L : Type μ} ⦃k : Keyed K⦄ ⦃l : Keyed L⦄ → K × L → K × L → Bool
pair_beq (a, b) (c, d) = a == c && b == d

pub pair_beq_iff {κ μ} :
    {K : Type κ} {L : Type μ} ⦃k : Keyed K⦄ ⦃l : Keyed L⦄ (p q : K × L)
    → (pair_beq p q ≡ true) ↔ (p ≡ q)
pair_beq_iff ⦃k⦄ ⦃l⦄ (a, b) (c, d) = ground (arith, k.same_iff a c, l.same_iff b d)

instance abbrev pub pair_keyed {κ μ} :
    {K : Type κ} {L : Type μ} ⦃k : Keyed K⦄ ⦃l : Keyed L⦄ → Keyed (K × L)
pair_keyed = record { same = pair_beq; same_iff = pair_beq_iff }
