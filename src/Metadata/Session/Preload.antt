-- ===== src/Metadata/Session/Preload.antt =====
-- A preload of whole classes, after which searches need no query.
use fansly_scraper.Common.{
  ℕ, true, is_some, List, [], ◌∷◌, String, ◌≡◌, refl, arith, inl, inr, Bool-cases,
}
use fansly_scraper.Common.Classes.{Keyed, ◌==◌, nat_keyed, pair_keyed, string_keyed}
use fansly_scraper.Common.Dict.{Dict, get, has_key}
use fansly_scraper.Common.Sets.{member, member-add}
use fansly_scraper.Metadata.Identity.{Entity, is_fully_loaded}
use fansly_scraper.Metadata.Identity.Invariant.{IsConsistent}
use fansly_scraper.Metadata.Objects.{Value, Object}
use fansly_scraper.Metadata.Session.{
  Schema, Session, Outcome, raised, returned, after_class, load_all, rows_of, mark_loaded,
  preload_one, preload,
}
use fansly_scraper.Metadata.Session.Loads.{cached_at, AreLoaded, load_all-AreLoaded}

module _ {K A : Type 0} ⦃e : Keyed K⦄ ⦃a : Keyed A⦄ where
  has_key-rows_of :
      (kind : K) (id : ℕ) (rows : Dict (K × ℕ) (Dict String (Value A)))
      → has_key (rows_of kind rows) id ≡ is_some (get rows (kind, id))
  unfolding has_key rows_of get
  has_key-rows_of kind id [] = refl
  has_key-rows_of kind id (((k, i), row) ∷ rows) = ground (arith, has_key-rows_of kind id rows)

  -- After a preload of a class that returns: the class is fully loaded, each of its rows is cached,
  -- and what was cached still is.
  pub record IsPreloaded (kind : K) (s t : Session K A) : Type 0 where
    pub consistent : IsConsistent t.store
    pub same_rows : t.rows ≡ s.rows
    pub loaded : is_fully_loaded kind t.store ≡ true
    pub still_loaded : (k : K) → is_fully_loaded k s.store ≡ true → is_fully_loaded k t.store ≡ true
    pub complete :
        (i : ℕ) → is_some (get s.rows (kind, i)) ≡ true → is_some (cached_at t kind i) ≡ true
    pub kept : (k : K) (i : ℕ) → is_some (cached_at s k i) ≡ true → is_some (cached_at t k i) ≡ true

  mark_loaded-IsPreloaded :
      (kind : K) (s : Session K A) (result : Session K A × Outcome (List (Entity K (Object A))))
      → AreLoaded kind (rows_of kind s.rows) s result.0 result.1
      → (mark_loaded kind result).1 ≡ returned tt
      → IsPreloaded kind s (mark_loaded kind result).0
  unfolding is_fully_loaded
  mark_loaded-IsPreloaded kind s (t, raised) l h = cc
  mark_loaded-IsPreloaded kind s (t, returned os) l h = record {
    consistent = record {
      indexed = l.consistent.indexed;
      stamped = l.consistent.stamped;
      own = l.consistent.own;
    };
    same_rows = l.same_rows;
    loaded =
        ground (arith, member-add kind kind t.store.fully_loaded, (e.same_iff kind kind).1 refl);
    still_loaded =
        λ k loaded. ground (arith, member-add k kind t.store.fully_loaded, l.same_loaded, loaded);
    complete = λ i there. l.present i os refl (ground (arith, has_key-rows_of kind i s.rows));
    kept = λ k i there. l.kept k i os refl there;
  }

  preload_one-IsPreloaded :
      (schema : Schema K A) (now : ℕ) (kind : K) (s : Session K A)
      → IsConsistent s.store
      → (preload_one schema now kind s).1 ≡ returned tt
      → IsPreloaded kind s (preload_one schema now kind s).0
  unfolding preload_one
  preload_one-IsPreloaded schema now kind s h r =
      mark_loaded-IsPreloaded kind s (load_all schema now kind (rows_of kind s.rows) s)
        (load_all-AreLoaded schema now kind (rows_of kind s.rows) s h) r

  -- After the preload of some classes: each is fully loaded, with each of its rows cached.
  pub record ArePreloaded (kinds : List K) (s t : Session K A) : Type 0 where
    pub consistent : IsConsistent t.store
    pub same_rows : t.rows ≡ s.rows
    pub loaded : (k : K) → member k kinds ≡ true → is_fully_loaded k t.store ≡ true
    pub complete :
        (k : K) (i : ℕ)
        → member k kinds ≡ true
        → is_some (get s.rows (k, i)) ≡ true
        → is_some (cached_at t k i) ≡ true
    pub still_loaded : (k : K) → is_fully_loaded k s.store ≡ true → is_fully_loaded k t.store ≡ true
    pub kept : (k : K) (i : ℕ) → is_some (cached_at s k i) ≡ true → is_some (cached_at t k i) ≡ true

  after_one-ArePreloaded :
      (kind : K) (kinds : List K) (s t u : Session K A)
      → IsPreloaded kind s t
      → ArePreloaded kinds t u
      → ArePreloaded (kind ∷ kinds) s u
  unfolding member
  after_one-ArePreloaded kind kinds s t u p r = record {
    consistent = r.consistent;
    same_rows = ground (arith, r.same_rows, p.same_rows);
    loaded = λ k h. elim (Bool-cases (kind == k)) [
      | inl same ↦
          let there = r.still_loaded kind p.loaded in ground (arith, there, e.same_iff kind k)
      | inr other ↦ r.loaded k (ground arith)
    ];
    complete = λ k i h row. elim (Bool-cases (kind == k)) [
      | inl same ↦
          let own : is_some (get s.rows (kind, i)) ≡ true = ground (arith, e.same_iff kind k) in
          let there = r.kept kind i (p.complete i own) in ground (arith, there, e.same_iff kind k)
      | inr other ↦ r.complete k i (ground arith) (ground (arith, p.same_rows))
    ];
    still_loaded = λ k h. r.still_loaded k (p.still_loaded k h);
    kept = λ k i h. r.kept k i (p.kept k i h);
  }

  preload_step :
      (kind : K) (kinds : List K) (s t : Session K A) (outcome : Outcome Unit)
      (rest : Session K A × Outcome Unit)
      → (outcome ≡ returned tt → IsPreloaded kind s t)
      → (rest.1 ≡ returned tt → IsConsistent t.store → ArePreloaded kinds t rest.0)
      → (after_class t outcome rest).1 ≡ returned tt
      → ArePreloaded (kind ∷ kinds) s (after_class t outcome rest).0
  preload_step kind kinds s t raised rest p r h = cc
  preload_step kind kinds s t (returned tt) rest p r h =
      after_one-ArePreloaded kind kinds s t rest.0 (p refl) (r h (p refl).consistent)

  -- A preload of some classes that returns, over a consistent identity map: the map is consistent,
  -- the rows are untouched, each of the classes is fully loaded with every row of it cached, and
  -- nothing that was cached or fully loaded before is lost.
  pub preload-ArePreloaded :
      (schema : Schema K A) (now : ℕ) (kinds : List K) (s : Session K A)
      → IsConsistent s.store
      → (preload schema now kinds s).1 ≡ returned tt
      → ArePreloaded kinds s (preload schema now kinds s).0
  unfolding preload member
  preload-ArePreloaded schema now [] s h r = record {
    consistent = h;
    same_rows = refl;
    loaded = λ k f. cc;
    complete = λ k i f. cc;
    still_loaded = λ k f. f;
    kept = λ k i f. f;
  }
  preload-ArePreloaded schema now (kind ∷ kinds) s h r =
      let t = (preload_one schema now kind s).0 in
      preload_step kind kinds s t (preload_one schema now kind s).1 (preload schema now kinds t)
        (preload_one-IsPreloaded schema now kind s h)
        (λ f g. preload-ArePreloaded schema now kinds t g f) r
