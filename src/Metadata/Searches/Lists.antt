-- ===== src/Metadata/Searches/Lists.antt =====
-- Lists of results: sorted, selected and cut into batches.
use fansly_scraper.Common.{
  ℕ, ◌≤◌, zero, suc, Bool, false, ◌&&◌, ◌||◌, Option, none, some, List, [], ◌∷◌, ◌++◌, length, drop,
  any, ◌≡◌, refl, ap, arith, inl, inr, Option-cases,
}
use fansly_scraper.Common.Classes.{nat_keyed, pair_keyed}
use fansly_scraper.Metadata.Searches.{select_matches, first_match, head?, take, batches}
use fansly_scraper.Metadata.Sorting.{insert_sorted, stable_sort}

abbrev pub is_passed : Option Bool → Bool
is_passed none = false
is_passed (some b) = b

module _ {ℓ} {T : Type ℓ} where
  any-insert_sorted :
      (p : T → Bool) (le : T → T → Bool) (x : T) (xs : List T)
      → any p (insert_sorted le x xs) ≡ (p x || any p xs)
  unfolding insert_sorted
  any-insert_sorted p le x [] = refl
  any-insert_sorted p le x (y ∷ ys) = ground (arith, any-insert_sorted p le x ys)

  pub any-stable_sort :
      (p : T → Bool) (le : T → T → Bool) (xs : List T) → any p (stable_sort le xs) ≡ any p xs
  unfolding stable_sort
  any-stable_sort p le [] = refl
  any-stable_sort p le (x ∷ xs) =
      ground (arith, any-stable_sort p le xs, any-insert_sorted p le x (stable_sort le xs))

  length-insert_sorted :
      (le : T → T → Bool) (x : T) (xs : List T) → length (insert_sorted le x xs) ≡ suc (length xs)
  unfolding insert_sorted
  length-insert_sorted le x [] = refl
  length-insert_sorted le x (y ∷ ys) = ground (arith, length-insert_sorted le x ys)

  pub length-stable_sort :
      (le : T → T → Bool) (xs : List T) → length (stable_sort le xs) ≡ length xs
  unfolding stable_sort
  length-stable_sort le [] = refl
  length-stable_sort le (x ∷ xs) =
      ground (arith, length-stable_sort le xs, length-insert_sorted le x (stable_sort le xs))

  pub first_match-head :
      (test : T → Option Bool) (os found : List T)
      → select_matches test os ≡ some found
      → first_match test os ≡ some (head? found)
  unfolding select_matches first_match
  first_match-head test [] found h = ground arith
  first_match-head test (o ∷ os) found h = elim (Option-cases (select_matches test os)) [
    | inl raises ↦ elim (Option-cases (test o)) [
      | inl fails ↦ ground arith
      | inr (b, passed) ↦ ground arith
    ]
    | inr (rest, more) ↦ elim (Option-cases (test o)) [
      | inl fails ↦ ground arith
      | inr (b, passed) ↦ ground (arith, first_match-head test os rest more)
    ]
  ]

  abbrev pub concat : List (List T) → List T
  concat [] = []
  concat (xs ∷ xss) = xs ++ concat xss

  take-drop : (n : ℕ) (xs : List T) → take n xs ++ drop n xs ≡ xs
  take-drop zero xs = refl
  take-drop (suc n) [] = refl
  take-drop (suc n) (x ∷ xs) = ap (◌∷◌ x) (take-drop n xs)

  length-drop : (n : ℕ) (xs : List T) → length (drop n xs) ≤ length xs
  length-drop zero xs = omega arith
  length-drop (suc n) [] = omega arith
  length-drop (suc n) (x ∷ xs) = omega (arith, length-drop n xs)

  pub concat-batches :
      (fuel size : ℕ) (os : List T) → length os ≤ fuel → concat (batches fuel (suc size) os) ≡ os
  unfolding batches
  concat-batches zero size [] h = refl
  concat-batches zero size (o ∷ os) h = ground arith
  concat-batches (suc fuel) size [] h = refl
  concat-batches (suc fuel) size (o ∷ os) h =
      let enough : length (drop size os) ≤ fuel = omega (arith, h, length-drop size os) in
      ground (arith, concat-batches fuel size (drop size os) enough, take-drop size os)

  pub any-select :
      (test : T → Option Bool) (p : T → Bool) (os found : List T)
      → select_matches test os ≡ some found
      → any p found ≡ any (λ o. p o && is_passed (test o)) os
  unfolding select_matches
  any-select test p [] found h = ground arith
  any-select test p (o ∷ os) found h = elim (Option-cases (select_matches test os)) [
    | inl raises ↦ elim (Option-cases (test o)) [
      | inl fails ↦ ground arith
      | inr (b, passed) ↦ ground arith
    ]
    | inr (rest, more) ↦ elim (Option-cases (test o)) [
      | inl fails ↦ ground arith
      | inr (b, passed) ↦ ground (arith, any-select test p os rest more)
    ]
  ]
