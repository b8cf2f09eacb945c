-- ===== src/Metadata/Session/Reads.antt =====
-- `get` and the deletions, through the cache.
use fansly_scraper.Common.{
  ℕ, true, false, ◌&&◌, Option, none, some, List, [], ◌∷◌, String, length, ◌≡◌, refl, if◌then◌else◌,
  arith, inl, inr, Option-cases,
}
use fansly_scraper.Common.Classes.{Keyed, ◌==◌, nat_keyed, pair_keyed, string_keyed}
use fansly_scraper.Common.Dict.{Dict, get, get-pop}
use fansly_scraper.Common.Sets.{member}
use fansly_scraper.Metadata.Identity.{Entity, invalidate}
use fansly_scraper.Metadata.Identity.Invariant.{IsConsistent}
use fansly_scraper.Metadata.Objects.{Value, Object}
use fansly_scraper.Metadata.Session.{
  Schema, Session, Outcome, raised, returned, load, found_one, fetch, get_cached, get_entity,
  delete_id, delete_all, delete_many,
}
use fansly_scraper.Metadata.Session.Loads.{cached_at, IsLoaded, load_found-IsLoaded}

module _ {K A : Type 0} ⦃e : Keyed K⦄ ⦃a : Keyed A⦄ where
  -- What a read of an id leaves: the entity that it returns is cached under the id, and it returns
  -- none exactly if neither the cache nor the database had one.
  pub record IsRead (kind : K) (id : ℕ) (s t : Session K A)
      (outcome : Outcome (Option (Entity K (Object A)))) : Type 0 where
    pub consistent : IsConsistent t.store
    pub same_rows : t.rows ≡ s.rows
    pub others :
        (k : K) (i : ℕ) → (kind == k && id == i) ≡ false → cached_at t k i ≡ cached_at s k i
    pub present :
        (o : Entity K (Object A)) → outcome ≡ returned (some o) → cached_at t kind id ≡ some o
    pub missing :
        outcome ≡ returned none → (cached_at s kind id ≡ none) × (get s.rows (kind, id) ≡ none)

  found_one-IsRead :
      (kind : K) (id : ℕ) (row : Dict String (Value A)) (s : Session K A)
      (result : Session K A × Outcome (Entity K (Object A)))
      → IsLoaded kind id s result.0 result.1
      → IsRead kind id s (found_one result).0 (found_one result).1
  found_one-IsRead kind id row s (t, raised) l = record {
    consistent = l.consistent;
    same_rows = l.same_rows;
    others = l.others;
    present = λ o f. cc;
    missing = λ f. cc;
  }
  found_one-IsRead kind id row s (t, returned p) l = record {
    consistent = l.consistent;
    same_rows = l.same_rows;
    others = l.others;
    present = λ o f. l.present o (ground arith);
    missing = λ f. ground arith;
  }

  -- A read of an id through a consistent identity map: the map stays consistent, the rows and the
  -- entities of other ids are untouched, the entity that it returns is the cached one from then on,
  -- and it returns none only if neither the cache nor the database has one.
  pub get_entity-IsRead :
      (schema : Schema K A) (now : ℕ) (kind : K) (id : ℕ) (s : Session K A)
      → IsConsistent s.store
      → IsRead kind id s (get_entity schema now kind id s).0 (get_entity schema now kind id s).1
  unfolding get_entity get_cached fetch
  get_entity-IsRead schema now kind id s h = elim (Option-cases (get s.store.cache (kind, id))) [
    | inr (o, found) ↦ rw (found) (record {
      consistent = h;
      same_rows = refl;
      others = λ k i other. refl;
      present = λ p f. ground (arith, found);
      missing = λ f. ground arith;
    })
    | inl absent ↦ elim (Option-cases (get s.rows (kind, id))) [
      | inl rowless ↦
          rw (absent, rowless)
            (record {
              consistent = h;
              same_rows = refl;
              others = λ k i other. refl;
              present = λ p f. ground arith;
              missing = λ f. (absent, rowless);
            })
      | inr (row, found) ↦
          rw (absent, found)
            (found_one-IsRead kind id row s (load schema now kind id row s)
              (load_found-IsLoaded schema now kind id row s h))
    ]
  ]

  -- A deletion of an id: no entity and no row is left under it, those of other ids are untouched.
  pub delete_id_lem :
      (kind : K) (id : ℕ) (s : Session K A) (k : K) (i : ℕ)
      → (cached_at (delete_id kind (some id) s) k i
          ≡ (if kind == k && id == i then none else cached_at s k i))
        × (get (delete_id kind (some id) s).rows (k, i)
            ≡ (if kind == k && id == i then none else get s.rows (k, i)))
  unfolding delete_id invalidate
  delete_id_lem kind id s k i =
      (get-pop s.store.cache (kind, id) (k, i), get-pop s.rows (kind, id) (k, i))

  -- After `delete_many` of some ids: no entity and no row of the class is left under one of them,
  -- those of other ids and classes are untouched, and it returns the number of the ids.
  pub delete_many_lem :
      (kind : K) (ids : List ℕ) (s : Session K A) (k : K) (i : ℕ)
      → (cached_at (delete_many kind ids s).0 k i
          ≡ (if kind == k && member i ids then none else cached_at s k i))
        × (get (delete_many kind ids s).0.rows (k, i)
            ≡ (if kind == k && member i ids then none else get s.rows (k, i)))
        × ((delete_many kind ids s).1 ≡ length ids)
  unfolding delete_many delete_all member
  delete_many_lem kind [] s k i = ground arith
  delete_many_lem kind (id ∷ ids) s k i =
      let first = delete_id_lem kind id s k i in
      let rest = delete_many_lem kind ids (delete_id kind (some id) s) k i in
      ground (arith, first.0, first.1, rest.0, rest.1)

  -- A `get` of an id right after its deletion returns none and leaves the session as it is.
  pub get_entity-delete_id :
      (schema : Schema K A) (now : ℕ) (kind : K) (id : ℕ) (s : Session K A)
      → get_entity schema now kind id (delete_id kind (some id) s)
        ≡ (delete_id kind (some id) s, returned none)
  unfolding get_entity get_cached fetch
  get_entity-delete_id schema now kind id s =
      let gone = delete_id_lem kind id s kind id in
      let own : (kind == kind) ≡ true = (e.same_iff kind kind).1 refl in
      ground (arith, gone.0, gone.1, own)
