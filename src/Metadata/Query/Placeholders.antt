-- ===== src/Metadata/Query/Placeholders.antt =====
-- The placeholders of the SQL conditions and their parameters.
use fansly_scraper.Common.{
  ℕ, ◌+◌, zero, suc, Bool, true, false, some, List, [], ◌∷◌, ◌++◌, ◌≡◌, refl, ap, arith, inl, inr,
  Option-cases, length, length-append,
}
use fansly_scraper.Helpers.Text.{Text}
use fansly_scraper.Metadata.Query.{
  Lookup, exact, contains, icontains, iexact, gt, gte, lt, lte, ne, isin, isnull, between, Argument,
  one, many, Comparable, Filter, Condition, is_null, is_not_null, ilike, lower_equals, equals_any,
  in_range, compared, Param, null_condition, is_true, clause, build_where_clauses,
}

-- the placeholders of a condition, from the left
abbrev pub placeholders : Condition → List ℕ
placeholders (is_null field) = []
placeholders (is_not_null field) = []
placeholders (ilike field i) = i ∷ []
placeholders (lower_equals field i) = i ∷ []
placeholders (equals_any field i) = i ∷ []
placeholders (in_range field i j) = i ∷ j ∷ []
placeholders (compared field op i) = i ∷ []

unfoldable pub all_placeholders : List Condition → List ℕ
all_placeholders [] = []
all_placeholders (c ∷ cs) = placeholders c ++ all_placeholders cs

-- n numbers from i on
unfoldable pub numbers : ℕ → ℕ → List ℕ
numbers i zero = []
numbers i (suc n) = i ∷ numbers (i + 1) n

numbers-add : (i m n : ℕ) → numbers i (m + n) ≡ numbers i m ++ numbers (i + m) n
unfolding numbers
numbers-add i zero n = ground arith
numbers-add i (suc m) n =
    let longer : suc m + n ≡ suc (m + n) = omega arith in
    let later : i + suc m ≡ i + 1 + m = omega arith in
    rw (longer, later) (ap (◌∷◌ i) (numbers-add (i + 1) m n))

null-placeholders : (field : Text) (b : Bool) → placeholders (null_condition field b) ≡ []
null-placeholders field true = refl
null-placeholders field false = refl

module _ {V : Type 0} ⦃c : Comparable V⦄ where
  clause-placeholders :
      (idx : ℕ) (field : Text) (l : Lookup) (v : Argument V) (condition : Condition)
      (params : List (Param V))
      → clause idx field l v ≡ some (condition, params)
      → placeholders condition ≡ numbers idx (length params)
  unfolding numbers
  clause-placeholders idx field isnull v condition params h =
      ground (arith, null-placeholders field (is_true v))
  clause-placeholders idx field contains v condition params h = ground arith
  clause-placeholders idx field icontains v condition params h = ground arith
  clause-placeholders idx field iexact v condition params h = ground arith
  clause-placeholders idx field isin (one v) condition params h = cc
  clause-placeholders idx field isin (many vs) condition params h = ground arith
  clause-placeholders idx field between (one v) condition params h = cc
  clause-placeholders idx field between (many []) condition params h = cc
  clause-placeholders idx field between (many (a ∷ [])) condition params h = cc
  clause-placeholders idx field between (many (a ∷ b ∷ vs)) condition params h = ground arith
  clause-placeholders idx field exact v condition params h = ground arith
  clause-placeholders idx field gt v condition params h = ground arith
  clause-placeholders idx field gte v condition params h = ground arith
  clause-placeholders idx field lt v condition params h = ground arith
  clause-placeholders idx field lte v condition params h = ground arith
  clause-placeholders idx field ne v condition params h = ground arith

  -- The placeholders of the conditions that are built from a number on are the numbers from it on,
  -- one for each parameter, in the order of the parameters, and the next placeholder follows them.
  pub build-placeholders :
      (fs : List (Filter V)) (idx : ℕ) (conditions : List Condition) (params : List (Param V))
      (next : ℕ)
      → build_where_clauses fs idx ≡ some (conditions, params, next)
      → (all_placeholders conditions ≡ numbers idx (length params)) × (next ≡ idx + length params)
  unfolding build_where_clauses all_placeholders numbers
  build-placeholders [] idx conditions params next h = ground arith
  build-placeholders (f ∷ fs) idx conditions params next h =
      elim (Option-cases (clause idx f.field f.lookup f.value)) [
        | inl raised ↦ ground arith
        | inr ((condition, own), made) ↦
            elim (Option-cases (build_where_clauses fs (idx + length own))) [
              | inl raised ↦ ground arith
              | inr ((rest, others, last), built) ↦
                  let more = build-placeholders fs (idx + length own) rest others last built in
                  let first = clause-placeholders idx f.field f.lookup f.value condition own made in
                  let parts = numbers-add idx (length own) (length others) in
                  let sizes = length-append own others in ground (arith, more, first, parts, sizes)
            ]
      ]
