-- ===== src/Metadata/Searches.antt =====
-- metadata/entity_store.py: find, find_one, count and find_iter. A class that is fully loaded is
-- searched in the cache, another one by a query, whose rows are loaded. The database is an argument;
-- V is the type of the values that a filter reads from an entity.
pub mod Lists
pub mod Cached
pub mod Exact
use fansly_scraper.Common.{
  ℕ, ◌+◌, ◌-◌, zero, suc, Bool, true, false, not, ◌&&◌, ◌||◌, Option, none, some, is_some, List, [],
  ◌∷◌, ◌++◌, String, length, drop, ltb, if◌then◌else◌,
}
use fansly_scraper.Common.Classes.{Keyed, ◌==◌, nat_keyed, pair_keyed, string_keyed}
use fansly_scraper.Common.Dict.{Dict, get}
use fansly_scraper.Helpers.Text.{Text}
use fansly_scraper.Metadata.Identity.{Entity, Store, indexed_ids, matching, is_fully_loaded}
use fansly_scraper.Metadata.Objects.{Value, Object, Model}
use fansly_scraper.Metadata.Query.{
  Filter, Resolved, Comparable, Condition, Param, matches_filters, build_where_clauses,
}
use fansly_scraper.Metadata.Session.{
  Schema, Session, Outcome, raised, returned, found_one, load, load_all,
}
use fansly_scraper.Metadata.Sorting.{Ranked, OrderBySpec, sort_results, validate_order_by}

-- how an entity's attributes are read, by filters and by columns of an order
pub record Reading (K A V : Type 0) : Type 0 where
  pub attribute : Entity K (Object A) → Text → Resolved V
  pub column : Entity K (Object A) → String → Option V

-- the database: the rows of a SELECT with its conditions, parameters, order, limit and offset, and
-- the number that SELECT COUNT gives
pub record Database (K A V : Type 0) : Type 0 where
  pub select :
      Dict (K × ℕ) (Dict String (Value A))
      → K
      → List Condition
      → List (Param V)
      → OrderBySpec
      → Option ℕ
      → ℕ
      → List (ℕ × Dict String (Value A))
  pub count : Dict (K × ℕ) (Dict String (Value A)) → K → List Condition → List (Param V) → ℕ

abbrev pub push_match {ℓ} : {T : Type ℓ} → T → Option Bool → Option (List T) → Option (List T)
push_match o none rest = none
push_match o (some b) none = none
push_match o (some true) (some os) = some (o ∷ os)
push_match o (some false) (some os) = some os

-- the comprehension over the candidates; `none` where a comparison raises
unfoldable pub select_matches {ℓ} : {T : Type ℓ} → (T → Option Bool) → List T → Option (List T)
select_matches test [] = some []
select_matches test (o ∷ os) = push_match o (test o) (select_matches test os)

-- the loop that returns the first match
unfoldable pub first_match {ℓ} : {T : Type ℓ} → (T → Option Bool) → List T → Option (Option T)
first_match test [] = some none
first_match test (o ∷ os) =
    let rest = first_match test os in
    elim (test o) [ none ↦ none | some true ↦ some (some o) | some false ↦ rest ]

abbrev pub head? {ℓ} : {T : Type ℓ} → List T → Option T
head? [] = none
head? (o ∷ os) = some o

abbrev pub take {ℓ} : {T : Type ℓ} → ℕ → List T → List T
take zero os = []
take (suc n) [] = []
take (suc n) (o ∷ os) = o ∷ take n os

-- matched[i : i + batch_size] for i in range(0, len(matched), batch_size), on fuel
unfoldable pub batches {ℓ} : {T : Type ℓ} → ℕ → ℕ → List T → List (List T)
batches zero size os = []
batches (suc fuel) size [] = []
batches (suc fuel) size (o ∷ os) = take size (o ∷ os) ∷ batches fuel size (drop size (o ∷ os))

abbrev pub outcome_of : {T : Type 0} → Option T → Outcome T
outcome_of none = raised
outcome_of (some x) = returned x

module _ {K A : Type 0} ⦃e : Keyed K⦄ where
  -- the cached entities of a class
  unfoldable pub candidates : K → Session K A → List (Entity K (Object A))
  unfolding matching
  candidates kind s = matching (λ o. true) kind (indexed_ids s.store kind) s.store

module _ {K A : Type 0} where
  abbrev pub head_of : Option (List (Entity K (Object A))) → Option (Option (Entity K (Object A)))
  head_of none = none
  head_of (some os) = some (head? os)

  abbrev pub length_of : Option (List (Entity K (Object A))) → Option ℕ
  length_of none = none
  length_of (some os) = some (length os)

module _ {K A V : Type 0} ⦃e : Keyed K⦄ ⦃a : Keyed A⦄ ⦃c : Comparable V⦄ ⦃r : Ranked V⦄
    (reading : Reading K A V) where
  unfoldable pub passes : List (Filter V) → Entity K (Object A) → Option Bool
  unfolding matches_filters
  passes filters o = matches_filters (reading.attribute o) filters

  unfoldable pub sorted_results :
      OrderBySpec → Option (List (Entity K (Object A))) → Option (List (Entity K (Object A)))
  unfolding sort_results
  sorted_results spec none = none
  sorted_results spec (some os) = some (sort_results reading.column spec os)

  unfoldable pub search_cache :
      K → List (Filter V) → OrderBySpec → Session K A → Option (List (Entity K (Object A)))
  unfolding candidates passes select_matches sorted_results
  search_cache kind filters spec s =
      sorted_results spec (select_matches (passes filters) (candidates kind s))

  -- `find_one` in the cache: the first of the sorted matches, or without an order the first match
  unfoldable pub search_one :
      K → List (Filter V) → OrderBySpec → Session K A → Option (Option (Entity K (Object A)))
  unfolding candidates passes search_cache first_match
  search_one kind filters [] s = first_match (passes filters) (candidates kind s)
  search_one kind filters (o ∷ spec) s = head_of (search_cache kind filters (o ∷ spec) s)

  module _ (schema : Schema K A) (database : Database K A V) where
    unfoldable pub valid_order : K → OrderBySpec → Bool
    unfolding validate_order_by
    valid_order kind spec = validate_order_by (schema.model kind).columns spec

    abbrev pub query_rows :
        K
        → OrderBySpec
        → Option ℕ
        → ℕ
        → Session K A
        → Option (List Condition × List (Param V) × ℕ)
        → Option (List (ℕ × Dict String (Value A)))
    query_rows kind spec limit offset s none = none
    query_rows kind spec limit offset s (some (conditions, params, next)) =
        some (database.select s.rows kind conditions params spec limit offset)

    -- `_query_with_filters`
    unfoldable pub query_with_filters :
        K
        → List (Filter V)
        → Option ℕ
        → ℕ
        → OrderBySpec
        → Session K A
        → Option (List (ℕ × Dict String (Value A)))
    unfolding build_where_clauses
    query_with_filters kind filters limit offset spec s =
        query_rows kind spec limit offset s (build_where_clauses filters 1)

    unfoldable pub load_rows :
        ℕ
        → K
        → Session K A
        → Option (List (ℕ × Dict String (Value A)))
        → Session K A × Outcome (List (Entity K (Object A)))
    unfolding load_all
    load_rows now kind s none = (s, raised)
    load_rows now kind s (some rows) = load_all schema now kind rows s

    unfoldable pub find :
        ℕ
        → K
        → List (Filter V)
        → OrderBySpec
        → Session K A
        → Session K A × Outcome (List (Entity K (Object A)))
    unfolding valid_order is_fully_loaded search_cache query_with_filters load_rows
    find now kind filters spec s =
        let queried = load_rows now kind s (query_with_filters kind filters none 0 spec s) in
        if not (valid_order kind spec)
        then (s, raised)
        else if is_fully_loaded kind s.store
        then (s, outcome_of (search_cache kind filters spec s))
        else queried

    unfoldable pub load_first :
        ℕ
        → K
        → Session K A
        → Option (List (ℕ × Dict String (Value A)))
        → Session K A × Outcome (Option (Entity K (Object A)))
    unfolding load
    load_first now kind s none = (s, raised)
    load_first now kind s (some []) = (s, returned none)
    load_first now kind s (some ((id, row) ∷ rows)) = found_one (load schema now kind id row s)

    unfoldable pub find_one :
        ℕ
        → K
        → List (Filter V)
        → OrderBySpec
        → Session K A
        → Session K A × Outcome (Option (Entity K (Object A)))
    unfolding valid_order is_fully_loaded search_one query_with_filters load_first
    find_one now kind filters spec s =
        let queried = load_first now kind s (query_with_filters kind filters (some 1) 0 spec s) in
        if not (valid_order kind spec)
        then (s, raised)
        else if is_fully_loaded kind s.store
        then (s, outcome_of (search_one kind filters spec s))
        else queried

    abbrev pub counted : K → Session K A → Option (List Condition × List (Param V) × ℕ) → Outcome ℕ
    counted kind s none = raised
    counted kind s (some (conditions, params, next)) =
        returned (database.count s.rows kind conditions params)

    unfoldable pub count : K → List (Filter V) → Session K A → Outcome ℕ
    unfolding is_fully_loaded search_cache build_where_clauses
    count kind filters s =
        if is_fully_loaded kind s.store
        then outcome_of (length_of (search_cache kind filters [] s))
        else counted kind s (build_where_clauses filters 1)

    abbrev pub then_page :
        List (Entity K (Object A))
        → Session K A × Outcome (List (List (Entity K (Object A))))
        → Session K A × Outcome (List (List (Entity K (Object A))))
    then_page os (s, raised) = (s, raised)
    then_page os (s, returned pages) = (s, returned (os ∷ pages))

    -- a batch that was loaded, and what follows it unless it is shorter than asked for
    abbrev pub after_page :
        Bool
        → Session K A × Outcome (List (Entity K (Object A)))
        → Session K A × Outcome (List (List (Entity K (Object A))))
        → Session K A × Outcome (List (List (Entity K (Object A))))
    after_page is_short (t, raised) rest = (t, raised)
    after_page true (t, returned os) rest = (t, returned (os ∷ []))
    after_page false (t, returned os) rest = then_page os rest

    -- the loop of `find_iter` over the pages of a query, on fuel
    unfoldable pub query_pages :
        ℕ
        → ℕ
        → K
        → List (Filter V)
        → OrderBySpec
        → ℕ
        → ℕ
        → Session K A
        → Session K A × Outcome (List (List (Entity K (Object A))))
    unfolding query_with_filters load_all
    query_pages zero now kind filters spec size offset s = (s, returned [])
    query_pages (suc fuel) now kind filters spec size offset s =
        elim (query_with_filters kind filters (some size) offset spec s) [
          | none ↦ (s, raised)
          | some [] ↦ (s, returned [])
          | some (row ∷ rows) ↦
              let page = load_all schema now kind (row ∷ rows) s in
              after_page (ltb (length (row ∷ rows)) size) page
                (query_pages fuel now kind filters spec size (offset + size) page.0)
        ]

    -- `range` refuses a step of zero
    unfoldable pub batched :
        ℕ → Option (List (Entity K (Object A))) → Outcome (List (List (Entity K (Object A))))
    unfolding batches
    batched size none = raised
    batched zero (some os) = raised
    batched (suc size) (some os) = returned (batches (length os) (suc size) os)

    -- `find_iter`, run to its end: the batches that it yields
    unfoldable pub find_iter :
        ℕ
        → ℕ
        → K
        → List (Filter V)
        → OrderBySpec
        → ℕ
        → Session K A
        → Session K A × Outcome (List (List (Entity K (Object A))))
    unfolding valid_order is_fully_loaded search_cache batched query_pages
    find_iter fuel now kind filters spec size s =
        let queried = query_pages fuel now kind filters spec size 0 s in
        if not (valid_order kind spec)
        then (s, raised)
        else if is_fully_loaded kind s.store
        then (s, batched size (search_cache kind filters spec s))
        else queried
