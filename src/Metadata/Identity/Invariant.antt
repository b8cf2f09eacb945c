-- ===== src/Metadata/Identity/Invariant.antt =====
-- The identity map: the cache, the index by type and the timestamps describe one set of entities.
use fansly_scraper.Common.{
  ℕ, true, ◌&&◌, Option, none, some, is_some, List, [], ◌∷◌, ◌≡◌, refl, if◌then◌else◌, arith, inl,
  inr, Bool-cases, Option-cases,
}
use fansly_scraper.Common.Classes.{Keyed, ◌==◌, nat_keyed, pair_keyed}
use fansly_scraper.Common.Dict.{Dict, get, pop, get-put, get-pop}
use fansly_scraper.Common.Sets.{member, add, discard, member-add, member-discard}
use fansly_scraper.Metadata.Identity.{
  Entity, Store, indexed_ids, pop_all, cache_under, cache_instance, invalidate, invalidate_type,
  invalidate_all, set_ttl, is_expired, get_from_cache,
}

pub get-pop_all {ℓ} :
    {K : Type 0} {A : Type ℓ} ⦃e : Keyed K⦄ (kind k : K) (ids : List ℕ) (d : Dict (K × ℕ) A) (i : ℕ)
    → get (pop_all kind ids d) (k, i) ≡ (if kind == k && member i ids then none else get d (k, i))
unfolding pop_all member
get-pop_all kind k [] d i = ground arith
get-pop_all kind k (id ∷ ids) d i =
    ground (arith, get-pop_all kind k ids (pop d (kind, id)) i, get-pop d (kind, id) (k, i))

module _ {K V : Type 0} ⦃e : Keyed K⦄ where
  -- An entity is cached exactly if the index of its type has its id, it has a timestamp exactly if
  -- it is cached, and it is cached under its own type and id.
  pub record IsConsistent (s : Store K V) : Type 0 where
    pub indexed : (k : K) (i : ℕ) → member i (indexed_ids s k) ≡ is_some (get s.cache (k, i))
    pub stamped : (k : K) (i : ℕ) → is_some (get s.timestamps (k, i)) ≡ is_some (get s.cache (k, i))
    pub own :
        (k : K) (i : ℕ) (o : Entity K V)
        → get s.cache (k, i) ≡ some o
        → (o.kind ≡ k) × (o.id ≡ some i)

  cache_under-IsConsistent :
      (now : ℕ) (i : Option ℕ) (o : Entity K V) (s : Store K V)
      → o.id ≡ i
      → IsConsistent s
      → IsConsistent (cache_under now i o s)
  cache_under-IsConsistent now none o s same h = h
  cache_under-IsConsistent now (some id) o s same h = record {
    indexed = λ k i. ground (
      arith,
      get-put s.cache (o.kind, id) (k, i) o,
      get-put s.type_index o.kind k (add id (indexed_ids s o.kind)),
      member-add i id (indexed_ids s o.kind),
      h.indexed k i,
      e.same_iff o.kind k,
    );
    stamped = λ k i. ground (
      arith,
      get-put s.cache (o.kind, id) (k, i) o,
      get-put s.timestamps (o.kind, id) (k, i) now,
      h.stamped k i,
    );
    own = λ k i p f.
        ground (arith, get-put s.cache (o.kind, id) (k, i) o, h.own k i p, e.same_iff o.kind k);
  }

  pub cache_instance-IsConsistent :
      (now : ℕ) (o : Entity K V) (s : Store K V)
      → IsConsistent s
      → IsConsistent (cache_instance now o s)
  unfolding cache_instance
  cache_instance-IsConsistent now o s h = cache_under-IsConsistent now o.id o s refl h

  cache_under-get :
      (now : ℕ) (id : ℕ) (found : Option ℕ) (o : Entity K V) (s : Store K V) (k : K) (i : ℕ)
      → found ≡ some id
      → get (cache_under now found o s).cache (k, i)
        ≡ (if o.kind == k && id == i then some o else get s.cache (k, i))
  cache_under-get now id none o s k i h = cc
  cache_under-get now id (some j) o s k i h = ground (arith, get-put s.cache (o.kind, j) (k, i) o)

  pub cache_instance-get :
      (now : ℕ) (id : ℕ) (o : Entity K V) (s : Store K V) (k : K) (i : ℕ)
      → o.id ≡ some id
      → get (cache_instance now o s).cache (k, i)
        ≡ (if o.kind == k && id == i then some o else get s.cache (k, i))
  unfolding cache_instance
  cache_instance-get now id o s k i h = cache_under-get now id o.id o s k i h

  cache_under-fully_loaded :
      (now : ℕ) (id : Option ℕ) (o : Entity K V) (s : Store K V)
      → (cache_under now id o s).fully_loaded ≡ s.fully_loaded
  cache_under-fully_loaded now none o s = refl
  cache_under-fully_loaded now (some id) o s = refl

  pub cache_instance-fully_loaded :
      (now : ℕ) (o : Entity K V) (s : Store K V)
      → (cache_instance now o s).fully_loaded ≡ s.fully_loaded
  unfolding cache_instance
  cache_instance-fully_loaded now o s = cache_under-fully_loaded now o.id o s

  pub invalidate-IsConsistent :
      (kind : K) (id : ℕ) (s : Store K V) → IsConsistent s → IsConsistent (invalidate kind id s)
  unfolding invalidate member
  invalidate-IsConsistent kind id s h = record {
    indexed = λ k i. elim (Option-cases (get s.type_index kind)) [
      | inl absent ↦
          ground (arith, get-pop s.cache (kind, id) (k, i), h.indexed k i, e.same_iff kind k)
      | inr (ids, found) ↦ ground (
        arith,
        get-pop s.cache (kind, id) (k, i),
        get-put s.type_index kind k (discard id ids),
        member-discard i id ids,
        h.indexed k i,
        e.same_iff kind k,
      )
    ];
    stamped = λ k i. ground (
      arith,
      get-pop s.cache (kind, id) (k, i),
      get-pop s.timestamps (kind, id) (k, i),
      h.stamped k i,
    );
    own = λ k i p f. ground (arith, get-pop s.cache (kind, id) (k, i), h.own k i p);
  }

  invalidate_type-IsConsistent :
      (kind : K) (s : Store K V) → IsConsistent s → IsConsistent (invalidate_type kind s)
  unfolding invalidate_type member
  invalidate_type-IsConsistent kind s h = record {
    indexed = λ k i. ground (
      arith,
      get-pop_all kind k (indexed_ids s kind) s.cache i,
      get-pop s.type_index kind k,
      h.indexed k i,
      e.same_iff kind k,
    );
    stamped = λ k i. ground (
      arith,
      get-pop_all kind k (indexed_ids s kind) s.cache i,
      get-pop_all kind k (indexed_ids s kind) s.timestamps i,
      h.stamped k i,
    );
    own = λ k i p f. ground (arith, get-pop_all kind k (indexed_ids s kind) s.cache i, h.own k i p);
  }

  pub invalidate_all-IsConsistent : (s : Store K V) → IsConsistent (invalidate_all s)
  unfolding invalidate_all get member
  invalidate_all-IsConsistent s = record {
    indexed = λ k i. refl;
    stamped = λ k i. refl;
    own = λ k i o f. cc;
  }

  pub get_from_cache-IsConsistent :
      (now : ℕ) (kind : K) (id : ℕ) (s : Store K V)
      → IsConsistent s
      → IsConsistent (get_from_cache now kind id s).0
  unfolding get_from_cache
  get_from_cache-IsConsistent now kind id s h = elim (Option-cases (get s.cache (kind, id))) [
    | inl absent ↦ rw (absent) h
    | inr (o, found) ↦ elim (Bool-cases (is_expired now kind id s)) [
      | inl expired ↦ rw (found, expired) (invalidate-IsConsistent kind id s h)
      | inr fresh ↦ rw (found, fresh) h
    ]
  ]

  -- An operation of any thread on the identity map; each holds the store's lock.
  pub data Step : Store K V → Store K V → Type 0 where
    cached : (s : Store K V) (now : ℕ) (o : Entity K V) → Step s (cache_instance now o s)
    looked_up :
        (s : Store K V) (now : ℕ) (kind : K) (id : ℕ) → Step s (get_from_cache now kind id s).0
    invalidated : (s : Store K V) (kind : K) (id : ℕ) → Step s (invalidate kind id s)
    type_invalidated : (s : Store K V) (kind : K) → Step s (invalidate_type kind s)
    all_invalidated : (s : Store K V) → Step s (invalidate_all s)
    ttl_set : (s : Store K V) (kind : K) (ttl : Option ℕ) → Step s (set_ttl kind ttl s)

  pub data Steps : Store K V → Store K V → Type 0 where
    done : {s : Store K V} → Steps s s
    next : {s t u : Store K V} → Step s t → Steps t u → Steps s u

  Step-IsConsistent : {s t : Store K V} → Step s t → IsConsistent s → IsConsistent t
  unfolding set_ttl
  Step-IsConsistent (cached s now o) h = cache_instance-IsConsistent now o s h
  Step-IsConsistent (looked_up s now kind id) h = get_from_cache-IsConsistent now kind id s h
  Step-IsConsistent (invalidated s kind id) h = invalidate-IsConsistent kind id s h
  Step-IsConsistent (type_invalidated s kind) h = invalidate_type-IsConsistent kind s h
  Step-IsConsistent (all_invalidated s) h = invalidate_all-IsConsistent s
  Step-IsConsistent (ttl_set s kind ttl) h = record {
    indexed = h.indexed;
    stamped = h.stamped;
    own = h.own;
  }

  -- Every interleaving of the operations of the threads keeps the cache, the index by type and the
  -- timestamps consistent: the same ids, and each entity under its own type and id.
  pub Steps-IsConsistent : {s t : Store K V} → Steps s t → IsConsistent s → IsConsistent t
  Steps-IsConsistent done h = h
  Steps-IsConsistent (next step steps) h = Steps-IsConsistent steps (Step-IsConsistent step h)

  -- A lookup keeps a fully loaded class marked so, and evicts an entity that has expired.
  pub get_from_cache-evicts :
      (now : ℕ) (kind : K) (id : ℕ) (s : Store K V)
      → ((get_from_cache now kind id s).0.fully_loaded ≡ s.fully_loaded)
        × (is_expired now kind id s ≡ true
            → get (get_from_cache now kind id s).0.cache (kind, id) ≡ none)
  unfolding get_from_cache invalidate
  get_from_cache-evicts now kind id s =
      let gone = get-pop s.cache (kind, id) (kind, id) in
      let own : (kind == kind) ≡ true = (e.same_iff kind kind).1 refl in
      elim (Option-cases (get s.cache (kind, id))) [
        | inl absent ↦ (ground (arith, absent), λ expired. ground (arith, absent))
        | inr (o, found) ↦ elim (Bool-cases (is_expired now kind id s)) [
          | inl old ↦ (ground (arith, found, old), λ expired. ground (arith, found, own, gone))
          | inr fresh ↦ (ground (arith, found, fresh), λ expired. ground (arith, fresh, expired))
        ]
      ]
