-- ===== src/Common/Dict.antt =====
-- Python's `dict`, in insertion order: a write to a present key keeps its place.
use mathlib.Core.Path.{◌≡◌, refl, subst₂}
use mathlib.Core.Logic.{inl, inr}
use mathlib.Core.Bool.{Bool, false, ◌||◌}
use mathlib.Core.Option.{Option, none, some}
use mathlib.Core.List.{List, [], ◌∷◌}
use native.Mathlib.Omega.{arith}
use fansly_scraper.Common.Tests.{Bool-cases, if◌then◌else◌}
use fansly_scraper.Common.Lists.{All}
use fansly_scraper.Common.Classes.{Keyed, ◌==◌}

abbrev pub Dict {ℓ κ} : Type ℓ → Type κ → Type (ℓ ⊔ κ)
Dict K V = List (K × V)

module _ {ℓ κ} {K : Type ℓ} {V : Type κ} ⦃e : Keyed K⦄ where
  -- d.get(k)
  unfoldable pub get : Dict K V → K → Option V
  get [] k = none
  get ((j, v) ∷ d) k = if j == k then some v else get d k

  -- d[k] = v
  unfoldable pub put : Dict K V → K → V → Dict K V
  put [] k v = (k, v) ∷ []
  put ((j, w) ∷ d) k v = if j == k then (j, v) ∷ d else (j, w) ∷ put d k v

  -- d.pop(k, None)
  unfoldable pub pop : Dict K V → K → Dict K V
  pop [] k = []
  pop ((j, w) ∷ d) k = let rest = pop d k in if j == k then rest else (j, w) ∷ rest

  -- k in d
  unfoldable pub has_key : Dict K V → K → Bool
  has_key [] k = false
  has_key ((j, w) ∷ d) k = j == k || has_key d k

  pub get-put :
      (d : Dict K V) (k j : K) (v : V) → get (put d k v) j ≡ (if k == j then some v else get d j)
  unfolding get put
  get-put [] k j v = refl
  get-put ((i, w) ∷ d) k j v =
      ground (arith, get-put d k j v, e.same_iff i k, e.same_iff i j, e.same_iff k j)

  pub get-pop : (d : Dict K V) (k j : K) → get (pop d k) j ≡ (if k == j then none else get d j)
  unfolding get pop
  get-pop [] k j = ground arith
  get-pop ((i, w) ∷ d) k j =
      ground (arith, get-pop d k j, e.same_iff i k, e.same_iff i j, e.same_iff k j)

-- What holds of every entry holds of an entry that is found.
pub get-All {ℓ κ μ} :
    {K : Type ℓ} {V : Type κ} ⦃e : Keyed K⦄ (P : K × V → Type μ) (d : Dict K V) (k : K) (v : V)
    → All P d
    → get d k ≡ some v
    → P (k, v)
unfolding get
get-All P [] k v h f = cc
get-All ⦃e⦄ P ((j, w) ∷ d) k v h f = elim (Bool-cases (j == k)) [
  | inl same ↦
      let found : w ≡ v = ground arith in
      subst₂ (λ a b. P (a, b)) ((e.same_iff j k).0 same) found h.0
  | inr other ↦ get-All P d k v h.1 (rw other at f)
]

pub ruleset dict_laws = (get-put, get-pop)
