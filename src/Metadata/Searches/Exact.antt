-- ===== src/Metadata/Searches/Exact.antt =====
-- find, find_one, count and find_iter of a class that is fully loaded.
use fansly_scraper.Common.{
  ℕ, suc, true, false, Option, none, some, is_some, List, [], length, any, ◌≡◌, arith, inl, inr,
  Bool-cases,
}
use fansly_scraper.Common.Classes.{Keyed, nat_keyed, pair_keyed}
use fansly_scraper.Common.Dict.{get}
use fansly_scraper.Common.Sets.{member}
use fansly_scraper.Metadata.Identity.{Entity, is_fully_loaded, is_expired, get_from_cache}
use fansly_scraper.Metadata.Identity.Invariant.{
  IsConsistent, get_from_cache-IsConsistent, get_from_cache-evicts,
}
use fansly_scraper.Metadata.Objects.{Object}
use fansly_scraper.Metadata.Query.{Filter, Comparable, matches_filters}
use fansly_scraper.Metadata.Session.{Schema, Session, returned, with_store}
use fansly_scraper.Metadata.Searches.{
  Reading, Database, head?, batches, outcome_of, passes, search_cache, valid_order, find, find_one,
  count, find_iter,
}
use fansly_scraper.Metadata.Sorting.{Ranked, OrderBySpec}
use fansly_scraper.Metadata.Searches.Lists.{is_passed, concat, concat-batches}
use fansly_scraper.Metadata.Searches.Cached.{
  has_id, is_there, search_cache-any, search_one-search_cache, length_of-search_cache,
}
use fansly_scraper.Metadata.Session.Preload.{ArePreloaded}

module _ {K A V : Type 0} ⦃e : Keyed K⦄ ⦃a : Keyed A⦄ ⦃c : Comparable V⦄ ⦃r : Ranked V⦄
    (reading : Reading K A V) where
  outcome_of-returned : {T : Type 0} (x : Option T) (y : T) → outcome_of x ≡ returned y → x ≡ some y
  outcome_of-returned none y h = cc
  outcome_of-returned (some x) y h = ground arith

  module _ (schema : Schema K A) (database : Database K A V) where
    -- the outcome of a search that returns is that of the search of the cache
    find-cached :
        (now : ℕ) (kind : K) (filters : List (Filter V)) (spec : OrderBySpec) (s : Session K A)
        (os : List (Entity K (Object A)))
        → is_fully_loaded kind s.store ≡ true
        → (find reading schema database now kind filters spec s).1 ≡ returned os
        → (valid_order reading schema database kind spec ≡ true)
          × (search_cache reading kind filters spec s ≡ some os)
    unfolding find
    find-cached now kind filters spec s os loaded h =
        let found = search_cache reading kind filters spec s in
        elim (Bool-cases (valid_order reading schema database kind spec)) [
          | inl valid ↦ (valid, outcome_of-returned found os (ground arith))
          | inr invalid ↦ ground arith
        ]

    -- A search of a fully loaded class that returns: it leaves the session as it is, and has an
    -- entity of an id exactly if one is cached under the class and the id and passes the filters.
    pub find_exact :
        (now : ℕ) (kind : K) (filters : List (Filter V)) (spec : OrderBySpec) (s : Session K A)
        (os : List (Entity K (Object A)))
        → IsConsistent s.store
        → is_fully_loaded kind s.store ≡ true
        → (find reading schema database now kind filters spec s).1 ≡ returned os
        → ((find reading schema database now kind filters spec s).0 ≡ s)
          × ((i : ℕ)
              → any (has_id i) os
                ≡ is_there
                    (λ o. is_passed (passes reading filters o))
                    (get s.store.cache (kind, i)))
    unfolding find
    find_exact now kind filters spec s os consistent loaded h =
        let found = find-cached now kind filters spec s os loaded h in
        (
          ground (arith, found.0),
          λ i. search_cache-any reading kind filters spec s i os consistent found.1,
        )

    -- For a fully loaded class and a search that returns: `find_one` returns the first of the results,
    -- `count` their number, and `find_iter` with batches of one or more cuts them into its batches.
    pub find_variants :
        (fuel now : ℕ) (kind : K) (filters : List (Filter V)) (spec : OrderBySpec) (size : ℕ)
        (s : Session K A) (os : List (Entity K (Object A)))
        → is_fully_loaded kind s.store ≡ true
        → (find reading schema database now kind filters spec s).1 ≡ returned os
        → ((find_one reading schema database now kind filters spec s).1 ≡ returned (head? os))
          × (count reading schema database kind filters s ≡ returned (length os))
          × ((pages : List (List (Entity K (Object A)))) × ((find_iter reading schema database fuel
                  now kind filters spec
                  (suc size)
                  s).1
                ≡ returned pages)
              × (concat pages ≡ os))
    unfolding find_one count find_iter
    find_variants fuel now kind filters spec size s os loaded h =
        let (valid, found) = find-cached now kind filters spec s os loaded h in
        (
          ground (arith, valid, search_one-search_cache reading kind filters spec s os found),
          ground (arith, length_of-search_cache reading kind filters spec s os found),
          (
            batches (length os) (suc size) os,
            ground (arith, valid, found),
            concat-batches (length os) size os (omega arith),
          ),
        )

    -- A search without filters of a class that was preloaded, after the preload, returns an entity for
    -- each row of the class.
    pub find-preloaded :
        (now : ℕ) (kinds : List K) (kind : K) (spec : OrderBySpec) (s t : Session K A)
        (os : List (Entity K (Object A))) (i : ℕ)
        → ArePreloaded kinds s t
        → member kind kinds ≡ true
        → (find reading schema database now kind [] spec t).1 ≡ returned os
        → is_some (get s.rows (kind, i)) ≡ true
        → any (has_id i) os ≡ true
    unfolding matches_filters passes
    find-preloaded now kinds kind spec s t os i p known h row =
        let exact = find_exact now kind [] spec t os p.consistent (p.loaded kind known) h in
        ground (arith, exact.1 i, p.complete kind i known row)

    -- A read from the cache of an entity that has expired evicts it and leaves its class fully loaded:
    -- a search without filters that returns does not return it, whether the database has its row or not.
    pub expired-hidden :
        (now later : ℕ) (kind : K) (id : ℕ) (spec : OrderBySpec) (s : Session K A)
        (os : List (Entity K (Object A)))
        → IsConsistent s.store
        → is_fully_loaded kind s.store ≡ true
        → is_expired now kind id s.store ≡ true
        → (find reading schema database later kind [] spec
            (with_store s (get_from_cache now kind id s.store).0)).1
          ≡ returned os
        → any (has_id id) os ≡ false
    unfolding is_fully_loaded
    expired-hidden now later kind id spec s os consistent loaded expired h =
        let t = with_store s (get_from_cache now kind id s.store).0 in
        let kept = get_from_cache-IsConsistent now kind id s.store consistent in
        let evicted = get_from_cache-evicts now kind id s.store in
        let still : is_fully_loaded kind t.store ≡ true = ground (arith, evicted.0, loaded) in
        let exact = find_exact later kind [] spec t os kept still h in
        ground (arith, exact.1 id, evicted.1 expired)
