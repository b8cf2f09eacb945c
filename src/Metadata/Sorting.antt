-- ===== src/Metadata/Sorting.antt =====
-- metadata/entity_store.py: the order of cached results. T is the type of the entities, V that of
-- the values of their columns.
pub mod Stable
use fansly_scraper.Common.{
  Bool, true, false, not, ◌&&◌, ◌||◌, Option, none, some, List, [], ◌∷◌, ◌++◌, String, all,
  if◌then◌else◌, ◌≡◌, ◌⊎◌, refl, arith,
}
use fansly_scraper.Common.Classes.{string_keyed}
use fansly_scraper.Common.Sets.{member}

-- Values that Python compares: a total preorder.
pub record Ranked (V : Type 0) : Type 0 where
  pub leq : V → V → Bool
  pub leq_total : (a b : V) → (leq a b ≡ true) ⊎ (leq b a ≡ true)
  pub leq_trans : (a b c : V) → leq a b ≡ true → leq b c ≡ true → leq a c ≡ true

pub data SortDirection : Type 0 where
  asc : SortDirection
  desc : SortDirection

abbrev pub OrderBySpec : Type 0
OrderBySpec = List (String × SortDirection)

-- the forms of the argument `order_by`
pub data OrderBy : Type 0 where
  unordered : OrderBy
  column : String → OrderBy
  directed : String → SortDirection → OrderBy
  columns : OrderBySpec → OrderBy
  malformed : OrderBy

-- `none` is the ValueError
unfoldable pub normalize_order_by : OrderBy → Option OrderBySpec
normalize_order_by unordered = some []
normalize_order_by (column c) = some ((c, asc) ∷ [])
normalize_order_by (directed c d) = some ((c, d) ∷ [])
normalize_order_by (columns spec) = some spec
normalize_order_by malformed = none

-- `_validate_order_by`: false where it raises
unfoldable pub validate_order_by : List String → OrderBySpec → Bool
validate_order_by table_columns spec = all (λ c. member c.0 ("id" ∷ table_columns)) spec

module _ {V : Type 0} ⦃v : Ranked V⦄ where
  -- ≤ on the keys `(0, value)` and `(1, None)`
  abbrev pub key_leq : Option V → Option V → Bool
  key_leq none none = true
  key_leq none (some b) = false
  key_leq (some a) none = true
  key_leq (some a) (some b) = v.leq a b

  abbrev pub may_precede : SortDirection → Option V → Option V → Bool
  may_precede asc a b = key_leq a b
  may_precede desc a b = key_leq b a

-- `sorted`, which is stable: an element passes those that it may not precede
unfoldable pub insert_sorted {ℓ} : {T : Type ℓ} → (T → T → Bool) → T → List T → List T
insert_sorted le x [] = x ∷ []
insert_sorted le x (y ∷ ys) =
    let rest = insert_sorted le x ys in if le x y then x ∷ y ∷ ys else y ∷ rest

unfoldable pub stable_sort {ℓ} : {T : Type ℓ} → (T → T → Bool) → List T → List T
unfolding insert_sorted
stable_sort le [] = []
stable_sort le (x ∷ xs) = insert_sorted le x (stable_sort le xs)

module _ {T V : Type 0} ⦃v : Ranked V⦄ where
  abbrev pub column_leq : (T → String → Option V) → String × SortDirection → T → T → Bool
  column_leq read (c, d) x y = may_precede d (read x c) (read y c)

  -- the loop over the columns from the last to the first
  unfoldable pub sort_by_columns : (T → String → Option V) → OrderBySpec → List T → List T
  unfolding stable_sort
  sort_by_columns read [] results = results
  sort_by_columns read (c ∷ spec) results =
      stable_sort (column_leq read c) (sort_by_columns read spec results)

  -- `_sort_results`
  unfoldable pub sort_results : (T → String → Option V) → OrderBySpec → List T → List T
  unfolding sort_by_columns
  sort_results read spec [] = []
  sort_results read spec (r ∷ rs) = sort_by_columns read spec (r ∷ rs)
