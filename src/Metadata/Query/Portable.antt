-- ===== src/Metadata/Query/Portable.antt =====
-- Filters that select the same entities in the cache and in the database.
use mathlib.Core.List.{append_assoc}
use fansly_scraper.Common.{
  ℕ, ◌+◌, zero, suc, Bool, true, false, not, ◌&&◌, Option, none, some, is_some, List, [], ◌∷◌, ◌++◌,
  ◌≡◌, refl, subst, arith, inl, inr, Bool-cases, Option-cases, length, length-append, any, all,
}
use fansly_scraper.Helpers.Text.{Text}
use fansly_scraper.Metadata.Query.{
  Lookup, exact, gt, gte, lt, lte, ne, isin, isnull, between, Argument, one, many, Comparable,
  Filter, Operator, op_eq, op_gt, op_gte, op_lt, op_lte, op_ne, Condition, is_null, is_not_null,
  ilike, lower_equals, equals_any, in_range, compared, Param, object, values, is_true, clause,
  build_where_clauses, scalar, compare, matches_one, matches_filters,
}

module _ {V : Type 0} where
  -- the parameter that $n stands for: the n-th, from 1
  abbrev pub positional : List (Param V) → ℕ → Option (Param V)
  positional [] n = none
  positional (x ∷ xs) zero = none
  positional (x ∷ xs) (suc zero) = some x
  positional (x ∷ xs) (suc (suc n)) = positional xs (suc n)

  -- The placeholders from i on stand for the parameters.
  abbrev pub Binds : (ℕ → Option (Param V)) → ℕ → List (Param V) → Type 0
  Binds p i [] = Unit
  Binds p i (x ∷ xs) = (p i ≡ some x) × Binds p (i + 1) xs

  Binds-append :
      (p : ℕ → Option (Param V)) (i : ℕ) (xs ys : List (Param V))
      → Binds p i (xs ++ ys)
      → Binds p i xs × Binds p (i + length xs) ys
  Binds-append p i [] ys h = let same : i + 0 ≡ i = omega arith in (tt, rw (same) h)
  Binds-append p i (x ∷ xs) ys h =
      let rest = Binds-append p (i + 1) xs ys h.1 in
      let later : i + suc (length xs) ≡ i + 1 + length xs = omega arith in
      ((h.0, rest.0), rw (later) rest.1)

  positional-append :
      (front : List (Param V)) (x : Param V) (xs : List (Param V))
      → positional (front ++ x ∷ xs) (suc (length front)) ≡ some x
  positional-append [] x xs = refl
  positional-append (y ∷ front) x xs = positional-append front x xs

  Binds-positional :
      (front xs : List (Param V)) → Binds (positional (front ++ xs)) (suc (length front)) xs
  Binds-positional front [] = tt
  Binds-positional front (x ∷ xs) =
      let longer : suc (length (front ++ x ∷ [])) ≡ suc (length front) + 1 =
        omega (arith, length-append front (x ∷ [])) in
      let all : (front ++ x ∷ []) ++ xs ≡ front ++ x ∷ xs = append_assoc front (x ∷ []) xs in
      let rest = Binds-positional (front ++ x ∷ []) xs in
      (
        positional-append front x xs,
        subst (λ i. Binds (positional (front ++ x ∷ xs)) i xs) longer
            (subst (λ l. Binds (positional l) (suc (length (front ++ x ∷ []))) xs) all rest),
      )

module _ {V : Type 0} ⦃c : Comparable V⦄ where
  abbrev pub operates : Operator → V → V → Bool
  operates op_eq w v = c.keyed.same w v
  operates op_gt w v = c.less v w
  operates op_gte w v = c.leq v w
  operates op_lt w v = c.less w v
  operates op_lte w v = c.leq w v
  operates op_ne w v = not (c.keyed.same w v)

  -- SQL: a comparison with NULL, or of NULL, does not hold
  abbrev pub sql_compares : Operator → Option V → Option (Param V) → Bool
  sql_compares op (some w) (some (object (one (some v)))) = operates op w v
  sql_compares op _ _ = false

  abbrev pub sql_any : Option V → Option (Param V) → Bool
  sql_any (some w) (some (values vs)) = any (c.keyed.same w) vs
  sql_any _ _ = false

  abbrev pub sql_between : Option V → Option (Param V) → Option (Param V) → Bool
  sql_between (some w) (some (object (one (some a)))) (some (object (one (some b)))) =
      c.leq a w && c.leq w b
  sql_between _ _ _ = false

  -- What PostgreSQL makes of a condition on a row, with the parameters for its placeholders; its
  -- text search is an argument.
  abbrev pub holds :
      (Condition → Option V → Bool) → (Text → Option V) → (ℕ → Option (Param V)) → Condition → Bool
  holds text_search row p (is_null field) = not (is_some (row field))
  holds text_search row p (is_not_null field) = is_some (row field)
  holds text_search row p (ilike field i) = text_search (ilike field i) (row field)
  holds text_search row p (lower_equals field i) = text_search (lower_equals field i) (row field)
  holds text_search row p (equals_any field i) = sql_any (row field) (p i)
  holds text_search row p (in_range field i j) = sql_between (row field) (p i) (p j)
  holds text_search row p (compared field op i) = sql_compares op (row field) (p i)

  -- A filter that means the same to both: a comparison with a present value but for `ne`, a
  -- list for `in` or of two values for `between`, or `null`.
  pub data IsPortable : Lookup → Argument V → Type 0 where
    by_exact : (v : V) → IsPortable exact (one (some v))
    by_gt : (v : V) → IsPortable gt (one (some v))
    by_gte : (v : V) → IsPortable gte (one (some v))
    by_lt : (v : V) → IsPortable lt (one (some v))
    by_lte : (v : V) → IsPortable lte (one (some v))
    by_in : (vs : List V) → IsPortable isin (many vs)
    by_between : (v w : V) → IsPortable between (many (v ∷ w ∷ []))
    by_null : (v : Argument V) → IsPortable isnull v

  clause-compare :
      (text_search : Condition → Option V → Bool) (row : Text → Option V) (p : ℕ → Option (Param V))
      (idx : ℕ) (field : Text) {l : Lookup} {v : Argument V} (condition : Condition)
      (params : List (Param V))
      → IsPortable l v
      → clause idx field l v ≡ some (condition, params)
      → Binds p idx params
      → compare l (row field) v ≡ some (holds text_search row p condition)
  unfolding compare
  clause-compare text_search row p idx field condition params (by_null v) made b =
      elim (Bool-cases (is_true v)) [
        | inl wants_null ↦ ground arith
        | inr wants_value ↦ ground arith
      ]
  clause-compare text_search row p idx field condition params (by_exact v) made b =
      ground (arith, b)
  clause-compare text_search row p idx field condition params (by_gt v) made b = ground (arith, b)
  clause-compare text_search row p idx field condition params (by_gte v) made b = ground (arith, b)
  clause-compare text_search row p idx field condition params (by_lt v) made b = ground (arith, b)
  clause-compare text_search row p idx field condition params (by_lte v) made b = ground (arith, b)
  clause-compare text_search row p idx field condition params (by_in vs) made b = ground (arith, b)
  clause-compare text_search row p idx field condition params (by_between v w) made b =
      ground (arith, b)

  -- Each filter of the list is portable.
  abbrev pub ArePortable : List (Filter V) → Type 0
  ArePortable [] = Unit
  ArePortable (f ∷ fs) = IsPortable f.lookup f.value × ArePortable fs

  conditions-matches :
      (text_search : Condition → Option V → Bool) (row : Text → Option V) (p : ℕ → Option (Param V))
      (fs : List (Filter V)) (idx : ℕ) (conditions : List Condition) (params : List (Param V))
      (next : ℕ)
      → ArePortable fs
      → build_where_clauses fs idx ≡ some (conditions, params, next)
      → Binds p idx params
      → matches_filters (λ f. scalar (row f)) fs ≡ some (all (holds text_search row p) conditions)
  unfolding build_where_clauses matches_filters matches_one
  conditions-matches text_search row p [] idx conditions params next h built b = ground arith
  conditions-matches text_search row p (f ∷ fs) idx conditions params next h built b =
      elim (Option-cases (clause idx f.field f.lookup f.value)) [
        | inl raised ↦ ground arith
        | inr ((first, own), made) ↦
            elim (Option-cases (build_where_clauses fs (idx + length own))) [
              | inl raised ↦ ground arith
              | inr ((rest, others, last), more) ↦
                  let both : params ≡ own ++ others = ground arith in
                  let split = Binds-append p idx own others (subst (Binds p idx) both b) in
                  let one_agrees =
                    clause-compare text_search row p idx f.field first own h.0 made split.0 in
                  let others_agree =
                    conditions-matches text_search row p fs (idx + length own) rest others last h.1
                      more split.1 in
                  ground (arith, one_agrees, others_agree)
            ]
      ]

  -- For portable filters on the columns of a row, with the parameters of the query bound to its
  -- placeholders by position: the filters hold of the cached entity exactly if all conditions of the
  -- query hold of the row.
  pub matches-where :
      (text_search : Condition → Option V → Bool) (row : Text → Option V) (fs : List (Filter V))
      (conditions : List Condition) (params : List (Param V)) (next : ℕ)
      → ArePortable fs
      → build_where_clauses fs 1 ≡ some (conditions, params, next)
      → matches_filters (λ f. scalar (row f)) fs
        ≡ some (all (holds text_search row (positional params)) conditions)
  matches-where text_search row fs conditions params next h built =
      conditions-matches text_search row (positional params) fs 1 conditions params next h built
        (Binds-positional [] params)

  portable-clause :
      (idx : ℕ) (field : Text) {l : Lookup} {v : Argument V}
      → IsPortable l v
      → is_some (clause idx field l v) ≡ true
  portable-clause idx field (by_exact v) = refl
  portable-clause idx field (by_gt v) = refl
  portable-clause idx field (by_gte v) = refl
  portable-clause idx field (by_lt v) = refl
  portable-clause idx field (by_lte v) = refl
  portable-clause idx field (by_in vs) = refl
  portable-clause idx field (by_between v w) = refl
  portable-clause idx field (by_null v) = refl

  -- Portable filters always give a query.
  pub portable-build :
      (fs : List (Filter V)) (idx : ℕ)
      → ArePortable fs
      → is_some (build_where_clauses fs idx) ≡ true
  unfolding build_where_clauses
  portable-build [] idx h = refl
  portable-build (f ∷ fs) idx h = elim (Option-cases (clause idx f.field f.lookup f.value)) [
    | inl raised ↦ ground (arith, portable-clause idx f.field h.0)
    | inr ((first, own), made) ↦ ground (arith, portable-build fs (idx + length own) h.1)
  ]

  -- For portable filters: the query is built, and with its parameters bound to its placeholders by
  -- position all its conditions hold of a row exactly if the filters match the cached entity that has
  -- the values of the row.
  pub cache-agrees :
      (text_search : Condition → Option V → Bool) (row : Text → Option V) (fs : List (Filter V))
      → ArePortable fs
      → (query : List Condition × List (Param V) × ℕ) × (build_where_clauses fs 1 ≡ some query)
        × (matches_filters (λ f. scalar (row f)) fs
            ≡ some (all (holds text_search row (positional query.1)) query.0))
  cache-agrees text_search row fs h = elim (Option-cases (build_where_clauses fs 1)) [
    | inl raised ↦ ground (arith, portable-build fs 1 h)
    | inr ((conditions, params, next), built) ↦ (
      (conditions, params, next),
      built,
      matches-where text_search row fs conditions params next h built,
    )
  ]

  -- A column without a value: `ne` with a value and `exact` with None match the cached entity, and
  -- the conditions that they become hold of no such row.
  pub null-differs :
      (text_search : Condition → Option V → Bool) (row : Text → Option V) (p : ℕ → Option (Param V))
      (field : Text) (v : V)
      → row field ≡ none
      → (compare ne (row field) (one (some v)) ≡ some true)
        × (holds text_search row p (compared field op_ne 1) ≡ false)
        × (compare exact (row field) (one none) ≡ some true)
        × (holds text_search row p (compared field op_eq 1) ≡ false)
  unfolding compare
  null-differs text_search row p field v h = ground arith
