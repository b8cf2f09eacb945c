-- ===== src/Metadata/Sorting/Stable.antt =====
-- The order of cached results: lexicographic by the columns, stable, and a rearrangement.
use mathlib.Core.List.{Perm}
use mathlib.Core.List.Perm
use fansly_scraper.Common.{
  Bool, true, Option, none, some, List, [], ◌∷◌, String, All, ◌≡◌, ◌⊎◌, refl, arith, inl, inr,
  Bool-cases,
}
use fansly_scraper.Metadata.Sorting.{
  Ranked, SortDirection, asc, desc, OrderBySpec, key_leq, insert_sorted, stable_sort, column_leq,
  sort_by_columns, sort_results,
}

-- Each element of the list stands in the relation to those after it.
abbrev pub Ordered {ℓ κ} : {T : Type ℓ} → (T → T → Type κ) → List T → Type κ
Ordered R [] = Unit
Ordered R (x ∷ xs) = All (R x) xs × Ordered R xs

module _ {ℓ} {T : Type ℓ} where
  All-zip {κ μ ν} :
      {P : T → Type κ} {Q : T → Type μ} {R : T → Type ν} (xs : List T)
      → ((x : T) → P x → Q x → R x)
      → All P xs
      → All Q xs
      → All R xs
  All-zip [] f h k = tt
  All-zip (x ∷ xs) f h k = (f x h.0 k.0, All-zip xs f h.1 k.1)

  insert_sorted-All {κ} :
      (P : T → Type κ) (le : T → T → Bool) (x : T) (xs : List T)
      → P x
      → All P xs
      → All P (insert_sorted le x xs)
  unfolding insert_sorted
  insert_sorted-All P le x [] p h = (p, tt)
  insert_sorted-All P le x (y ∷ ys) p h = elim (Bool-cases (le x y)) [
    | inl before ↦ rw (before) (p, h)
    | inr after ↦ rw (after) (h.0, insert_sorted-All P le x ys p h.1)
  ]

  pub stable_sort-All {κ} :
      (P : T → Type κ) (le : T → T → Bool) (xs : List T) → All P xs → All P (stable_sort le xs)
  unfolding stable_sort
  stable_sort-All P le [] h = tt
  stable_sort-All P le (x ∷ xs) h =
      insert_sorted-All P le x (stable_sort le xs) h.0 (stable_sort-All P le xs h.1)

  insert_sorted-perm :
      (le : T → T → Bool) (x : T) (xs : List T) → Perm (insert_sorted le x xs) (x ∷ xs)
  unfolding insert_sorted
  insert_sorted-perm le x [] = Perm.rfl
  insert_sorted-perm le x (y ∷ ys) = elim (Bool-cases (le x y)) [
    | inl before ↦ rw (before) Perm.rfl
    | inr after ↦
        rw (after) (Perm.trans (Perm.cons y (insert_sorted-perm le x ys)) (Perm.swap x y ys))
  ]

  stable_sort-perm : (le : T → T → Bool) (xs : List T) → Perm (stable_sort le xs) xs
  unfolding stable_sort
  stable_sort-perm le [] = Perm.rfl
  stable_sort-perm le (x ∷ xs) =
      Perm.trans (insert_sorted-perm le x (stable_sort le xs))
        (Perm.cons x (stable_sort-perm le xs))

  -- first by the test, and where it ties by the relation
  abbrev pub Then {κ} : (T → T → Bool) → (T → T → Type κ) → T → T → Type κ
  Then le R x y = (le x y ≡ true) × (le y x ≡ true → R x y)

  module _ (le : T → T → Bool) (total : (x y : T) → (le x y ≡ true) ⊎ (le y x ≡ true))
      (trans : (x y z : T) → le x y ≡ true → le y z ≡ true → le x z ≡ true) where
    insert_sorted-Ordered {κ} :
        (R : T → T → Type κ) (x : T) (xs : List T)
        → All (R x) xs
        → Ordered (Then le R) xs
        → Ordered (Then le R) (insert_sorted le x xs)
    unfolding insert_sorted
    insert_sorted-Ordered R x [] below h = (tt, tt)
    insert_sorted-Ordered R x (y ∷ ys) below h = elim (Bool-cases (le x y)) [
      | inl before ↦ rw (before) (
        (
          (before, λ t. below.0),
          All-zip ys (λ z r k. (trans x y z before k.0, λ t. r)) below.1 h.0,
        ),
        h,
      )
      | inr after ↦ rw (after) (
        insert_sorted-All (Then le R y) le x ys (ground (arith, total x y), λ t. ground arith) h.0,
        insert_sorted-Ordered R x ys below.1 h.1,
      )
    ]

    stable_sort-Ordered {κ} :
        (R : T → T → Type κ) (xs : List T) → Ordered R xs → Ordered (Then le R) (stable_sort le xs)
    unfolding stable_sort
    stable_sort-Ordered R [] h = tt
    stable_sort-Ordered R (x ∷ xs) h =
        insert_sorted-Ordered R x (stable_sort le xs) (stable_sort-All (R x) le xs h.0)
          (stable_sort-Ordered R xs h.1)

module _ {T V : Type 0} ⦃v : Ranked V⦄ (read : T → String → Option V) where
  key_leq_total : (a b : Option V) → (key_leq a b ≡ true) ⊎ (key_leq b a ≡ true)
  key_leq_total none none = inl refl
  key_leq_total none (some b) = inr refl
  key_leq_total (some a) none = inl refl
  key_leq_total (some a) (some b) = v.leq_total a b

  key_leq_trans : (a b c : Option V) → key_leq a b ≡ true → key_leq b c ≡ true → key_leq a c ≡ true
  key_leq_trans none none none h k = refl
  key_leq_trans none none (some c) h k = k
  key_leq_trans none (some b) c h k = cc
  key_leq_trans (some a) b none h k = refl
  key_leq_trans (some a) none (some c) h k = cc
  key_leq_trans (some a) (some b) (some c) h k = v.leq_trans a b c h k

  column_leq_total :
      (c : String × SortDirection) (x y : T)
      → (column_leq read c x y ≡ true) ⊎ (column_leq read c y x ≡ true)
  column_leq_total (c, asc) x y = key_leq_total (read x c) (read y c)
  column_leq_total (c, desc) x y = key_leq_total (read y c) (read x c)

  column_leq_trans :
      (c : String × SortDirection) (x y z : T)
      → column_leq read c x y ≡ true
      → column_leq read c y z ≡ true
      → column_leq read c x z ≡ true
  column_leq_trans (c, asc) x y z h k = key_leq_trans (read x c) (read y c) (read z c) h k
  column_leq_trans (c, desc) x y z h k = key_leq_trans (read z c) (read y c) (read x c) k h

  -- The order of the columns: by the first, ties by the second, and so on; ties in every column by
  -- the order of before.
  abbrev pub Lexicographic : OrderBySpec → (T → T → Type 0) → T → T → Type 0
  Lexicographic [] R = R
  Lexicographic (c ∷ spec) R = Then (column_leq read c) (Lexicographic spec R)

  sort_by_columns-Ordered :
      (R : T → T → Type 0) (spec : OrderBySpec) (results : List T)
      → Ordered R results
      → Ordered (Lexicographic spec R) (sort_by_columns read spec results)
  unfolding sort_by_columns
  sort_by_columns-Ordered R [] results h = h
  sort_by_columns-Ordered R (c ∷ spec) results h =
      stable_sort-Ordered (column_leq read c) (column_leq_total c) (column_leq_trans c)
        (Lexicographic spec R) (sort_by_columns read spec results)
        (sort_by_columns-Ordered R spec results h)

  sort_by_columns-perm :
      (spec : OrderBySpec) (results : List T) → Perm (sort_by_columns read spec results) results
  unfolding sort_by_columns
  sort_by_columns-perm [] results = Perm.rfl
  sort_by_columns-perm (c ∷ spec) results =
      Perm.trans (stable_sort-perm (column_leq read c) (sort_by_columns read spec results))
        (sort_by_columns-perm spec results)

  -- Sorted results are a rearrangement of the results, ordered by the first column, ties by the
  -- second and so on; whatever relation the results stood in before holds between those that tie in
  -- every column, so they keep their order.
  pub sort_results_lem :
      (R : T → T → Type 0) (spec : OrderBySpec) (results : List T)
      → Ordered R results
      → Ordered (Lexicographic spec R) (sort_results read spec results)
        × Perm (sort_results read spec results) results
  unfolding sort_results
  sort_results_lem R spec [] h = (tt, Perm.rfl)
  sort_results_lem R spec (r ∷ rs) h =
      (sort_by_columns-Ordered R spec (r ∷ rs) h, sort_by_columns-perm spec (r ∷ rs))
