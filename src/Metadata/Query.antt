-- ===== src/Metadata/Query.antt =====
-- metadata/entity_store.py: the filters of a search, over cached entities and as SQL conditions.
-- V is the type of the values of a column; `none` is None.
pub mod Lookups
pub mod Placeholders
pub mod Portable
use fansly_scraper.Common.{
  ℕ, ◌+◌, Bool, true, false, not, ◌&&◌, ◌||◌, Option, none, some, List, [], ◌∷◌, ◌++◌, String, any,
  length, nat_beq, is_some, if◌then◌else◌,
}
use fansly_scraper.Common.Classes.{Keyed, ◌==◌, codes_keyed}
use fansly_scraper.Helpers.Text.{Text, codes, lower}

pub data Lookup : Type 0 where
  exact : Lookup
  contains : Lookup
  icontains : Lookup
  iexact : Lookup
  gt : Lookup
  gte : Lookup
  lt : Lookup
  lte : Lookup
  ne : Lookup
  isin : Lookup
  isnull : Lookup
  between : Lookup

-- the keys of `_CACHE_OPS`
abbrev pub lookup_name : Lookup → Text
lookup_name exact = codes "exact"
lookup_name contains = codes "contains"
lookup_name icontains = codes "icontains"
lookup_name iexact = codes "iexact"
lookup_name gt = codes "gt"
lookup_name gte = codes "gte"
lookup_name lt = codes "lt"
lookup_name lte = codes "lte"
lookup_name ne = codes "ne"
lookup_name isin = codes "in"
lookup_name isnull = codes "null"
lookup_name between = codes "between"

abbrev pub lookups : List Lookup
lookups =
    exact ∷ contains ∷ icontains ∷ iexact ∷ gt ∷ gte ∷ lt ∷ lte ∷ ne ∷ isin ∷ isnull ∷ between ∷ []

-- the lookup with this name, if the dictionary has it
unfoldable pub find_lookup : List Lookup → Text → Option Lookup
find_lookup [] name = none
find_lookup (l ∷ ls) name = if lookup_name l == name then some l else find_lookup ls name

-- what stands after a first underscore, if that is an underscore
abbrev pub second_underscore : ℕ → Text → Option (Text × Text)
second_underscore c [] = none
second_underscore c (d ∷ ds) = if nat_beq c b'_' && nat_beq d b'_' then some ([], ds) else none

abbrev pub after_char : ℕ → Text → Option (Text × Text) → Option (Text × Text)
after_char c cs none = second_underscore c cs
after_char c cs (some (field, lookup)) = some (c ∷ field, lookup)

-- key.rsplit("__", 1), `none` if there is no "__"
unfoldable pub rsplit : Text → Option (Text × Text)
rsplit [] = none
rsplit (c ∷ cs) = after_char c cs (rsplit cs)

abbrev pub or_exact : Text → Text → Option Lookup → Text × Lookup
or_exact key field none = (key, exact)
or_exact key field (some l) = (field, l)

unfoldable pub parse_split : Text → Option (Text × Text) → Text × Lookup
unfolding find_lookup
parse_split key none = (key, exact)
parse_split key (some (field, lookup)) = or_exact key field (find_lookup lookups lookup)

-- `_parse_lookup`
unfoldable pub parse_lookup : Text → Text × Lookup
unfolding rsplit parse_split
parse_lookup key = parse_split key (rsplit key)

-- the argument of a filter: one object or a list of them
pub data Argument (V : Type 0) : Type 0 where
  one : Option V → Argument V
  many : List V → Argument V

-- What Python does with values of a column: comparisons, truth, `v in str(fv)` with and without
-- folding of case (`none` where it raises, as for a number v), and `str(v).lower()`, of lists too.
pub record Comparable (V : Type 0) : Type 0 where
  pub keyed : Keyed V
  pub less : V → V → Bool
  pub leq : V → V → Bool
  pub is_truthy : V → Bool
  pub is_within : V → V → Option Bool
  pub is_within_folded : V → V → Option Bool
  pub folded : V → Text
  pub folded_list : List V → Text

pub record Filter (V : Type 0) : Type 0 where
  pub field : Text
  pub lookup : Lookup
  pub value : Argument V

-- what `_resolve_field_value` gives: a list where the path leads through a list relationship
pub data Resolved (V : Type 0) : Type 0 where
  scalar : Option V → Resolved V
  several : List (Option V) → Resolved V

module _ {V : Type 0} ⦃c : Comparable V⦄ where
  abbrev pub equals : Option V → Argument V → Bool
  equals none (one none) = true
  equals none (one (some v)) = false
  equals (some w) (one none) = false
  equals (some w) (one (some v)) = c.keyed.same w v
  equals fv (many vs) = false

  -- a comparison of present values; `none` is the TypeError for an argument that does not compare
  abbrev pub compares_with : (V → V → Bool) → Option V → Argument V → Option Bool
  compares_with test none value = some false
  compares_with test (some w) (one none) = none
  compares_with test (some w) (one (some v)) = some (test w v)
  compares_with test (some w) (many vs) = none

  abbrev pub searches_with : (V → V → Option Bool) → Option V → Argument V → Option Bool
  searches_with test none value = some false
  searches_with test (some w) (one none) = none
  searches_with test (some w) (one (some v)) = test v w
  searches_with test (some w) (many vs) = none

  abbrev pub folded_argument : Argument V → Text
  folded_argument (one none) = codes "none"
  folded_argument (one (some v)) = c.folded v
  folded_argument (many vs) = c.folded_list vs

  abbrev pub is_same_folded : Option V → Argument V → Bool
  is_same_folded none value = false
  is_same_folded (some w) value = c.folded w == folded_argument value

  abbrev pub is_among : Option V → Argument V → Bool
  is_among fv (one v) = false
  is_among none (many vs) = false
  is_among (some w) (many vs) = any (c.keyed.same w) vs

  abbrev pub is_true : Argument V → Bool
  is_true (one none) = false
  is_true (one (some v)) = c.is_truthy v
  is_true (many []) = false
  is_true (many (v ∷ vs)) = true

  abbrev pub is_between : Option V → Argument V → Bool
  is_between none value = false
  is_between (some w) (many (a ∷ b ∷ [])) = c.leq a w && c.leq w b
  is_between (some w) (many _) = false
  is_between (some w) (one v) = false

  -- `_CACHE_OPS[lookup](fv, v)`
  unfoldable pub compare : Lookup → Option V → Argument V → Option Bool
  compare exact fv value = some (equals fv value)
  compare contains fv value = searches_with c.is_within fv value
  compare icontains fv value = searches_with c.is_within_folded fv value
  compare iexact fv value = some (is_same_folded fv value)
  compare gt fv value = compares_with (λ w v. c.less v w) fv value
  compare gte fv value = compares_with (λ w v. c.leq v w) fv value
  compare lt fv value = compares_with c.less fv value
  compare lte fv value = compares_with c.leq fv value
  compare ne fv value = some (not (equals fv value))
  compare isin fv value = some (is_among fv value)
  compare isnull fv value = some (if is_true value then not (is_some fv) else is_some fv)
  compare between fv value = some (is_between fv value)

  -- any(comparator(item, value) for item in field_val)
  unfoldable pub any_matches : Lookup → List (Option V) → Argument V → Option Bool
  unfolding compare
  any_matches l [] value = some false
  any_matches l (w ∷ ws) value =
      let rest = any_matches l ws value in
      elim (compare l w value) [ none ↦ none | some true ↦ some true | some false ↦ rest ]

  unfoldable pub matches_one : Resolved V → Lookup → Argument V → Option Bool
  unfolding compare any_matches
  matches_one (scalar w) l value = compare l w value
  matches_one (several ws) l value = any_matches l ws value

  -- `_matches_filters` of an object, by what its field paths resolve to; `none` where it raises
  unfoldable pub matches_filters : (Text → Resolved V) → List (Filter V) → Option Bool
  unfolding matches_one
  matches_filters resolve [] = some true
  matches_filters resolve (f ∷ fs) =
      let rest = matches_filters resolve fs in
      elim (matches_one (resolve f.field) f.lookup f.value) [
        | none ↦ none
        | some false ↦ some false
        | some true ↦ rest
      ]

-- the operators of `_SQL_OPS` that stand between a column and a placeholder
pub data Operator : Type 0 where
  op_eq : Operator
  op_gt : Operator
  op_gte : Operator
  op_lt : Operator
  op_lte : Operator
  op_ne : Operator

-- a condition of a WHERE clause; the numbers are those of its placeholders
pub data Condition : Type 0 where
  is_null : Text → Condition
  is_not_null : Text → Condition
  ilike : Text → ℕ → Condition
  lower_equals : Text → ℕ → Condition
  equals_any : Text → ℕ → Condition
  in_range : Text → ℕ → ℕ → Condition
  compared : Text → Operator → ℕ → Condition

-- a parameter of a query: an object, a list of values, or the pattern `%…%` around an object
pub data Param (V : Type 0) : Type 0 where
  object : Argument V → Param V
  values : List V → Param V
  pattern : Argument V → Param V

abbrev pub null_condition : Text → Bool → Condition
null_condition field true = is_null field
null_condition field false = is_not_null field

module _ {V : Type 0} ⦃c : Comparable V⦄ where
  -- `list(value)`, for a value that is a list
  abbrev pub any_clause : Text → ℕ → Argument V → Option (Condition × List (Param V))
  any_clause field idx (one v) = none
  any_clause field idx (many vs) = some (equals_any field idx, values vs ∷ [])

  -- `value[0]` and `value[1]`
  abbrev pub range_clause : Text → ℕ → Argument V → Option (Condition × List (Param V))
  range_clause field idx (many (a ∷ b ∷ vs)) =
      some (in_range field idx (idx + 1), object (one (some a)) ∷ object (one (some b)) ∷ [])
  range_clause field idx (many _) = none
  range_clause field idx (one v) = none

  -- one round of the loop of `_build_where_clauses`
  abbrev pub clause : ℕ → Text → Lookup → Argument V → Option (Condition × List (Param V))
  clause idx field isnull value = some (null_condition field (is_true value), [])
  clause idx field contains value = some (ilike field idx, pattern value ∷ [])
  clause idx field icontains value = some (ilike field idx, pattern value ∷ [])
  clause idx field iexact value = some (lower_equals field idx, object value ∷ [])
  clause idx field isin value = any_clause field idx value
  clause idx field between value = range_clause field idx value
  clause idx field exact value = some (compared field op_eq idx, object value ∷ [])
  clause idx field gt value = some (compared field op_gt idx, object value ∷ [])
  clause idx field gte value = some (compared field op_gte idx, object value ∷ [])
  clause idx field lt value = some (compared field op_lt idx, object value ∷ [])
  clause idx field lte value = some (compared field op_lte idx, object value ∷ [])
  clause idx field ne value = some (compared field op_ne idx, object value ∷ [])

  abbrev pub push_clause :
      Condition × List (Param V)
      → Option (List Condition × List (Param V) × ℕ)
      → Option (List Condition × List (Param V) × ℕ)
  push_clause first none = none
  push_clause (condition, params) (some (conditions, others, next)) =
      some (condition ∷ conditions, params ++ others, next)

  -- `_build_where_clauses` from the placeholder idx on: the conditions, the parameters and the next
  -- placeholder; `none` where it raises
  unfoldable pub build_where_clauses :
      List (Filter V) → ℕ → Option (List Condition × List (Param V) × ℕ)
  build_where_clauses [] idx = some ([], [], idx)
  build_where_clauses (f ∷ fs) idx = elim (clause idx f.field f.lookup f.value) [
    | none ↦ none
    | some first ↦ push_clause first (build_where_clauses fs (idx + length first.1))
  ]
