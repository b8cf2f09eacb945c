-- ===== src/Metadata/Session/Loads.antt =====
-- What a load of rows leaves in the identity map.
use fansly_scraper.Common.{
  ℕ, true, false, ◌&&◌, Option, none, some, is_some, List, [], ◌∷◌, String, ◌≡◌, refl, arith, inl,
  inr, Bool-cases, Option-cases,
}
use fansly_scraper.Common.Classes.{Keyed, ◌==◌, nat_keyed, pair_keyed, string_keyed}
use fansly_scraper.Common.Dict.{Dict, get, has_key, get-pop}
use fansly_scraper.Metadata.Identity.{Entity, invalidate, get_from_cache, is_expired}
use fansly_scraper.Metadata.Identity.Invariant.{
  IsConsistent, cache_instance-IsConsistent, cache_instance-get, cache_instance-fully_loaded,
  invalidate-IsConsistent,
}
use fansly_scraper.Metadata.Objects.{Value, Object, snapshot_of}
use fansly_scraper.Metadata.Session.{
  Schema, Session, Outcome, raised, returned, merge_tracked, with_store, merge_row, construct_row,
  load_found, load, then_loaded, after_load, load_all,
}

module _ {K A : Type 0} ⦃e : Keyed K⦄ ⦃a : Keyed A⦄ where
  -- the cache of a session, read
  abbrev pub cached_at : Session K A → K → ℕ → Option (Entity K (Object A))
  cached_at s k i = get s.store.cache (k, i)

  -- What a step of a load leaves: the entity that it returns is cached under its id, the entities of
  -- other ids are as before; neither the rows nor the loaded classes change.
  pub record IsLoaded (kind : K) (id : ℕ) (s t : Session K A)
      (outcome : Outcome (Entity K (Object A))) : Type 0 where
    pub consistent : IsConsistent t.store
    pub same_rows : t.rows ≡ s.rows
    pub same_loaded : t.store.fully_loaded ≡ s.store.fully_loaded
    pub others :
        (k : K) (i : ℕ) → (kind == k && id == i) ≡ false → cached_at t k i ≡ cached_at s k i
    pub present : (o : Entity K (Object A)) → outcome ≡ returned o → cached_at t kind id ≡ some o

  construct-IsLoaded :
      (schema : Schema K A) (now : ℕ) (kind : K) (id : ℕ) (s : Session K A)
      (validated : Option (Dict String (Value A)))
      → IsConsistent s.store
      → IsLoaded kind id s
          (construct_row schema now kind id s validated).0
          (construct_row schema now kind id s validated).1
  unfolding construct_row
  construct-IsLoaded schema now kind id s none h = record {
    consistent = h;
    same_rows = refl;
    same_loaded = refl;
    others = λ k i other. refl;
    present = λ o f. cc;
  }
  construct-IsLoaded schema now kind id s (some fields) h =
      let snapshot = snapshot_of fields (schema.model kind).tracked_fields in
      let object : Object A = record { fields = fields; snapshot = snapshot; is_new = false } in
      let o : Entity K (Object A) = record { kind = kind; id = some id; value = object } in
      record {
        consistent = cache_instance-IsConsistent now o s.store h;
        same_rows = refl;
        same_loaded = cache_instance-fully_loaded now o s.store;
        others = λ k i other. ground (arith, cache_instance-get now id o s.store k i refl);
        present = λ p f.
            let same : (kind == kind) ≡ true = (e.same_iff kind kind).1 refl in
            ground (arith, cache_instance-get now id o s.store kind id refl, same, f);
      }

  merge-IsLoaded :
      (schema : Schema K A) (now : ℕ) (kind : K) (id : ℕ) (row : Dict String (Value A))
      (cached : Entity K (Object A)) (s : Session K A) (validated : Option (Dict String (Value A)))
      → cached.kind ≡ kind
      → cached.id ≡ some id
      → IsConsistent s.store
      → IsLoaded kind id s
          (merge_row schema now kind row cached s validated).0
          (merge_row schema now kind row cached s validated).1
  unfolding merge_row
  merge-IsLoaded schema now kind id row cached s none same named h = record {
    consistent = cache_instance-IsConsistent now cached s.store h;
    same_rows = refl;
    same_loaded = cache_instance-fully_loaded now cached s.store;
    others = λ k i other. ground (arith, same, cache_instance-get now id cached s.store k i named);
    present = λ o f. cc;
  }
  merge-IsLoaded schema now kind id row cached s (some validated) same named h =
      let fields =
        merge_tracked (schema.model kind).tracked_fields row validated cached.value.fields in
      let value : Object A = record cached.value { fields = fields; is_new = false } in
      let o : Entity K (Object A) = record cached { value = value } in
      record {
        consistent = cache_instance-IsConsistent now o s.store h;
        same_rows = refl;
        same_loaded = cache_instance-fully_loaded now o s.store;
        others = λ k i other. ground (arith, same, cache_instance-get now id o s.store k i named);
        present = λ p f.
            let own : (kind == kind) ≡ true = (e.same_iff kind kind).1 refl in
            ground (arith, same, cache_instance-get now id o s.store kind id named, own, f);
      }

  -- A step that follows an eviction of the same entity leaves what it leaves after none.
  IsLoaded-evicted :
      (kind : K) (id : ℕ) (s t : Session K A) (outcome : Outcome (Entity K (Object A)))
      → IsLoaded kind id (with_store s (invalidate kind id s.store)) t outcome
      → IsLoaded kind id s t outcome
  unfolding invalidate
  IsLoaded-evicted kind id s t outcome l = record {
    consistent = l.consistent;
    same_rows = l.same_rows;
    same_loaded = l.same_loaded;
    others = λ k i other.
        ground (arith, other, l.others k i other, get-pop s.store.cache (kind, id) (k, i));
    present = l.present;
  }

  pub load_found-IsLoaded :
      (schema : Schema K A) (now : ℕ) (kind : K) (id : ℕ) (row : Dict String (Value A))
      (s : Session K A)
      → IsConsistent s.store
      → IsLoaded kind id s (load schema now kind id row s).0 (load schema now kind id row s).1
  unfolding load load_found get_from_cache
  load_found-IsLoaded schema now kind id row s h =
      let validated = schema.validate kind row in
      let evicted = invalidate kind id s.store in
      let still = invalidate-IsConsistent kind id s.store h in
      elim (Option-cases (get s.store.cache (kind, id))) [
        | inl absent ↦ rw (absent) (construct-IsLoaded schema now kind id s validated h)
        | inr (o, found) ↦
            let own = h.own kind id o found in
            elim (Bool-cases (is_expired now kind id s.store)) [
              | inl expired ↦
                  rw (found, expired)
                    (IsLoaded-evicted kind id s _ _ (
                      construct-IsLoaded schema now kind id (with_store s evicted) validated still))
              | inr fresh ↦
                  rw (found, fresh)
                    (IsLoaded-evicted kind id s _ _ (
                      merge-IsLoaded schema now kind id row o (with_store s evicted) validated own.0
                        own.1 still))
            ]
      ]

  -- What a load of several rows leaves, unless one raises: the entities that were cached and those of
  -- the rows.
  pub record AreLoaded (kind : K) (rows : List (ℕ × Dict String (Value A))) (s t : Session K A)
      (outcome : Outcome (List (Entity K (Object A)))) : Type 0 where
    pub consistent : IsConsistent t.store
    pub same_rows : t.rows ≡ s.rows
    pub same_loaded : t.store.fully_loaded ≡ s.store.fully_loaded
    pub kept :
        (k : K) (i : ℕ) (os : List (Entity K (Object A)))
        → outcome ≡ returned os
        → is_some (cached_at s k i) ≡ true
        → is_some (cached_at t k i) ≡ true
    pub present :
        (i : ℕ) (os : List (Entity K (Object A)))
        → outcome ≡ returned os
        → has_key rows i ≡ true
        → is_some (cached_at t kind i) ≡ true

  load_kept :
      (kind : K) (id : ℕ) (s t : Session K A) (o : Entity K (Object A)) (k : K) (i : ℕ)
      → IsLoaded kind id s t (returned o)
      → is_some (cached_at s k i) ≡ true
      → is_some (cached_at t k i) ≡ true
  load_kept kind id s t o k i l h = elim (Bool-cases (kind == k && id == i)) [
    | inl same ↦ ground (arith, l.present o refl, e.same_iff kind k)
    | inr other ↦ ground (arith, l.others k i other)
  ]

  then_loaded-AreLoaded :
      (kind : K) (id : ℕ) (row : Dict String (Value A)) (rows : List (ℕ × Dict String (Value A)))
      (s t : Session K A) (o : Entity K (Object A))
      (rest : Session K A × Outcome (List (Entity K (Object A))))
      → IsLoaded kind id s t (returned o)
      → AreLoaded kind rows t rest.0 rest.1
      → AreLoaded kind ((id, row) ∷ rows) s (then_loaded o rest).0 (then_loaded o rest).1
  unfolding has_key
  then_loaded-AreLoaded kind id row rows s t o (u, raised) l r = record {
    consistent = r.consistent;
    same_rows = ground (arith, r.same_rows, l.same_rows);
    same_loaded = ground (arith, r.same_loaded, l.same_loaded);
    kept = λ k i os f. cc;
    present = λ i os f. cc;
  }
  then_loaded-AreLoaded kind id row rows s t o (u, returned os) l r = record {
    consistent = r.consistent;
    same_rows = ground (arith, r.same_rows, l.same_rows);
    same_loaded = ground (arith, r.same_loaded, l.same_loaded);
    kept = λ k i ps f h. r.kept k i os refl (load_kept kind id s t o k i l h);
    present = λ i ps f h. elim (Bool-cases (id == i)) [
      | inl same ↦
          let here : is_some (cached_at t kind id) ≡ true = ground (arith, l.present o refl) in
          r.kept kind i os refl (ground (arith, here))
      | inr other ↦ r.present i os refl (ground arith)
    ];
  }

  after_load-AreLoaded :
      (kind : K) (id : ℕ) (row : Dict String (Value A)) (rows : List (ℕ × Dict String (Value A)))
      (s t : Session K A) (outcome : Outcome (Entity K (Object A)))
      (rest : Session K A × Outcome (List (Entity K (Object A))))
      → IsLoaded kind id s t outcome
      → AreLoaded kind rows t rest.0 rest.1
      → AreLoaded kind
          ((id, row) ∷ rows)
          s
          (after_load t outcome rest).0
          (after_load t outcome rest).1
  after_load-AreLoaded kind id row rows s t raised rest l r = record {
    consistent = l.consistent;
    same_rows = l.same_rows;
    same_loaded = l.same_loaded;
    kept = λ k i os f. cc;
    present = λ i os f. cc;
  }
  after_load-AreLoaded kind id row rows s t (returned o) rest l r =
      then_loaded-AreLoaded kind id row rows s t o rest l r

  pub load_all-AreLoaded :
      (schema : Schema K A) (now : ℕ) (kind : K) (rows : List (ℕ × Dict String (Value A)))
      (s : Session K A)
      → IsConsistent s.store
      → AreLoaded kind rows s
          (load_all schema now kind rows s).0
          (load_all schema now kind rows s).1
  unfolding load_all has_key
  load_all-AreLoaded schema now kind [] s h = record {
    consistent = h;
    same_rows = refl;
    same_loaded = refl;
    kept = λ k i os f there. there;
    present = λ i os f. cc;
  }
  load_all-AreLoaded schema now kind ((id, row) ∷ rows) s h =
      let l = load_found-IsLoaded schema now kind id row s h in
      let t = (load schema now kind id row s).0 in
      let rest = load_all-AreLoaded schema now kind rows t l.consistent in
      after_load-AreLoaded kind id row rows s t (load schema now kind id row s).1
        (load_all schema now kind rows t) l rest
