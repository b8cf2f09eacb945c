-- ===== src/Common/Sets.antt =====
-- Python's `set`, as a list that is read by membership.
use mathlib.Core.Path.{◌≡◌}
use mathlib.Core.Logic.{inl, inr}
use mathlib.Core.Bool.{Bool, true, false, not, ◌&&◌, ◌||◌}
use mathlib.Core.List.{List, [], ◌∷◌, ◌++◌}
use native.Mathlib.Omega.{arith}
use fansly_scraper.Common.Tests.{Bool-cases, if◌then◌else◌}
use fansly_scraper.Common.Classes.{Keyed, ◌==◌}

module _ {ℓ} {K : Type ℓ} ⦃e : Keyed K⦄ where
  -- k in s
  unfoldable pub member : K → List K → Bool
  member k [] = false
  member k (j ∷ s) = j == k || member k s

  -- s.add(k)
  unfoldable pub add : K → List K → List K
  add k s = if member k s then s else k ∷ s

  -- s.discard(k)
  unfoldable pub discard : K → List K → List K
  discard k [] = []
  discard k (j ∷ s) = let rest = discard k s in if j == k then rest else j ∷ rest

  -- each element once
  unfoldable pub are_distinct : List K → Bool
  are_distinct [] = true
  are_distinct (k ∷ s) = not (member k s) && are_distinct s

  pub member-append : (j k : K) (s : List K) → member j (s ++ k ∷ []) ≡ (member j s || k == j)
  unfolding member
  member-append j k [] = ground arith
  member-append j k (i ∷ s) = ground (arith, member-append j k s)

  pub are_distinct-append :
      (k : K) (s : List K) → are_distinct (s ++ k ∷ []) ≡ (are_distinct s && not (member k s))
  unfolding member are_distinct
  are_distinct-append k [] = ground arith
  are_distinct-append k (i ∷ s) =
      ground (arith, are_distinct-append k s, member-append i k s, e.same_iff i k, e.same_iff k i)

  pub member-add : (j k : K) (s : List K) → member j (add k s) ≡ (k == j || member j s)
  unfolding member add
  member-add j k s = elim (Bool-cases (member k s)) [
    | inl old ↦ elim (Bool-cases (k == j)) [
      | inl same ↦ ground (arith, e.same_iff k j)
      | inr other ↦ ground arith
    ]
    | inr new ↦ ground arith
  ]

  pub member-discard :
      (j k : K) (s : List K) → member j (discard k s) ≡ (not (k == j) && member j s)
  unfolding member discard
  member-discard j k [] = ground arith
  member-discard j k (i ∷ s) =
      ground (arith, member-discard j k s, e.same_iff i k, e.same_iff i j, e.same_iff k j)

pub ruleset set_laws = (member-add, member-discard)
