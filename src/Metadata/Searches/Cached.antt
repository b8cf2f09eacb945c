-- ===== src/Metadata/Searches/Cached.antt =====
-- Searches of a class that is fully loaded.
use fansly_scraper.Common.{
  ℕ, Bool, true, false, ◌&&◌, Option, none, some, List, [], ◌∷◌, length, any, ◌≡◌, refl, arith, inl,
  inr, Bool-cases, Option-cases,
}
use fansly_scraper.Common.Classes.{Keyed, ◌==◌, nat_keyed, pair_keyed}
use fansly_scraper.Common.Dict.{get}
use fansly_scraper.Common.Sets.{member}
use fansly_scraper.Metadata.Identity.{Entity, indexed_ids, matching}
use fansly_scraper.Metadata.Identity.Invariant.{IsConsistent}
use fansly_scraper.Metadata.Objects.{Object}
use fansly_scraper.Metadata.Query.{Filter, Comparable}
use fansly_scraper.Metadata.Session.{Session}
use fansly_scraper.Metadata.Searches.{
  Reading, select_matches, head?, candidates, passes, sorted_results, search_cache, search_one,
  length_of,
}
use fansly_scraper.Metadata.Sorting.{Ranked, OrderBySpec, column_leq, sort_by_columns, sort_results}
use fansly_scraper.Metadata.Searches.Lists.{
  any-stable_sort, length-stable_sort, any-select, is_passed, first_match-head,
}

module _ {K A : Type 0} ⦃e : Keyed K⦄ where
  -- an entity of this id
  abbrev pub has_id : ℕ → Entity K (Object A) → Bool
  has_id i o = elim o.id [ none ↦ false | some j ↦ j == i ]

  -- a test of an entity that there may be
  abbrev pub is_there : (Entity K (Object A) → Bool) → Option (Entity K (Object A)) → Bool
  is_there q none = false
  is_there q (some o) = q o

  any-candidates :
      (q : Entity K (Object A) → Bool) (kind : K) (i : ℕ) (ids : List ℕ) (s : Session K A)
      → IsConsistent s.store
      → any (λ o. has_id i o && q o) (matching (λ o. true) kind ids s.store)
        ≡ (member i ids && is_there q (get s.store.cache (kind, i)))
  unfolding matching member
  any-candidates q kind i [] s h = refl
  any-candidates q kind i (j ∷ ids) s h = elim (Option-cases (get s.store.cache (kind, j))) [
    | inl absent ↦ elim (Bool-cases (j == i)) [
      | inl same ↦
          let gone : get s.store.cache (kind, i) ≡ none = ground arith in
          ground (arith, absent, gone, any-candidates q kind i ids s h)
      | inr other ↦ ground (arith, absent, any-candidates q kind i ids s h)
    ]
    | inr (o, found) ↦ elim (Bool-cases (j == i)) [
      | inl same ↦
          let here : get s.store.cache (kind, i) ≡ some o = ground arith in
          ground (arith, found, here, (h.own kind j o found).1, any-candidates q kind i ids s h)
      | inr other ↦ ground (arith, found, (h.own kind j o found).1, any-candidates q kind i ids s h)
    ]
  ]

module _ {K A V : Type 0} ⦃e : Keyed K⦄ ⦃a : Keyed A⦄ ⦃c : Comparable V⦄ ⦃r : Ranked V⦄
    (reading : Reading K A V) where
  any-sort_by_columns :
      (p : Entity K (Object A) → Bool) (spec : OrderBySpec) (os : List (Entity K (Object A)))
      → any p (sort_by_columns reading.column spec os) ≡ any p os
  unfolding sort_by_columns
  any-sort_by_columns p [] os = refl
  any-sort_by_columns p (col ∷ spec) os = ground (
    arith,
    any-stable_sort p (column_leq reading.column col) (sort_by_columns reading.column spec os),
    any-sort_by_columns p spec os,
  )

  any-sort_results :
      (p : Entity K (Object A) → Bool) (spec : OrderBySpec) (os : List (Entity K (Object A)))
      → any p (sort_results reading.column spec os) ≡ any p os
  unfolding sort_results
  any-sort_results p spec [] = refl
  any-sort_results p spec (o ∷ os) = any-sort_by_columns p spec (o ∷ os)

  length-sort_by_columns :
      (spec : OrderBySpec) (os : List (Entity K (Object A)))
      → length (sort_by_columns reading.column spec os) ≡ length os
  unfolding sort_by_columns
  length-sort_by_columns [] os = refl
  length-sort_by_columns (col ∷ spec) os = ground (
    arith,
    length-stable_sort (column_leq reading.column col) (sort_by_columns reading.column spec os),
    length-sort_by_columns spec os,
  )

  length-sort_results :
      (spec : OrderBySpec) (os : List (Entity K (Object A)))
      → length (sort_results reading.column spec os) ≡ length os
  unfolding sort_results
  length-sort_results spec [] = refl
  length-sort_results spec (o ∷ os) = length-sort_by_columns spec (o ∷ os)

  -- the matches that a search of the cache sorts
  search_cache-select :
      (kind : K) (filters : List (Filter V)) (spec : OrderBySpec) (s : Session K A)
      (os : List (Entity K (Object A)))
      → search_cache reading kind filters spec s ≡ some os
      → (picked : List (Entity K (Object A))) × (select_matches
            (passes reading filters)
            (candidates kind s)
          ≡ some picked)
        × (sort_results reading.column spec picked ≡ os)
  unfolding search_cache sorted_results
  search_cache-select kind filters spec s os found =
      elim (Option-cases (select_matches (passes reading filters) (candidates kind s))) [
        | inl raises ↦ ground arith
        | inr (picked, chosen) ↦ (picked, chosen, ground arith)
      ]

  sort_results-none : (os : List (Entity K (Object A))) → sort_results reading.column [] os ≡ os
  unfolding sort_results sort_by_columns
  sort_results-none [] = refl
  sort_results-none (o ∷ os) = refl

  pub search_one-search_cache :
      (kind : K) (filters : List (Filter V)) (spec : OrderBySpec) (s : Session K A)
      (os : List (Entity K (Object A)))
      → search_cache reading kind filters spec s ≡ some os
      → search_one reading kind filters spec s ≡ some (head? os)
  unfolding search_one
  search_one-search_cache kind filters [] s os found =
      let (picked, chosen, sorted) = search_cache-select kind filters [] s os found in
      let same : picked ≡ os = ground (arith, sorted, sort_results-none picked) in
      ground
        (arith, same, first_match-head (passes reading filters) (candidates kind s) picked chosen)
  search_one-search_cache kind filters (o ∷ spec) s os found = ground (arith, found)

  pub length_of-search_cache :
      (kind : K) (filters : List (Filter V)) (spec : OrderBySpec) (s : Session K A)
      (os : List (Entity K (Object A)))
      → search_cache reading kind filters spec s ≡ some os
      → length_of (search_cache reading kind filters [] s) ≡ some (length os)
  unfolding search_cache sorted_results
  length_of-search_cache kind filters spec s os found =
      let (picked, chosen, sorted) = search_cache-select kind filters spec s os found in
      ground (arith, chosen, sorted, length-sort_results spec picked, length-sort_results [] picked)

  pub search_cache-any :
      (kind : K) (filters : List (Filter V)) (spec : OrderBySpec) (s : Session K A) (i : ℕ)
      (os : List (Entity K (Object A)))
      → IsConsistent s.store
      → search_cache reading kind filters spec s ≡ some os
      → any (has_id i) os
        ≡ is_there (λ o. is_passed (passes reading filters o)) (get s.store.cache (kind, i))
  unfolding search_cache sorted_results candidates
  search_cache-any kind filters spec s i os h found =
      let ids = indexed_ids s.store kind in
      let test = passes reading filters in
      let (picked, chosen, same) = search_cache-select kind filters spec s os found in
      ground (
        arith,
        any-sort_results (has_id i) spec picked,
        any-select test (has_id i) (candidates kind s) picked chosen,
        any-candidates (λ o. is_passed (test o)) kind i ids s h,
        same,
        h.indexed kind i,
      )
