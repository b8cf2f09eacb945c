-- ===== src/Metadata/Identity.antt =====
-- metadata/entity_store.py: the identity map of PostgresEntityStore. K is the type of the model
-- classes, V that of an entity's values. The clock of `time.monotonic()` counts whole ticks, and its
-- readings are arguments; each operation runs under the store's lock.
pub mod Invariant
use fansly_scraper.Common.{
  ℕ, ◌-◌, ◌+◌, Bool, true, false, Option, none, some, List, [], ◌∷◌, ltb, String, length,
  if◌then◌else◌,
}
use fansly_scraper.Common.Classes.{Keyed, ◌==◌, nat_keyed, pair_keyed, string_keyed}
use fansly_scraper.Common.Dict.{Dict, get, put, pop}
use fansly_scraper.Common.Sets.{member, add, discard}

-- an entity: its class, its id and its values
pub record Entity (K V : Type 0) : Type 0 where
  pub kind : K
  pub id : Option ℕ
  pub value : V

pub record Store (K V : Type 0) : Type 0 where
  pub cache : Dict (K × ℕ) (Entity K V)
  pub type_index : Dict K (List ℕ)
  pub timestamps : Dict (K × ℕ) ℕ
  pub fully_loaded : List K
  pub type_ttls : Dict K (Option ℕ)
  pub default_ttl : Option ℕ

abbrev pub ids_of : Option (List ℕ) → List ℕ
ids_of none = []
ids_of (some ids) = ids

-- `self._type_ttls.get(model_type, self._default_ttl)`
abbrev pub ttl_or : Option (Option ℕ) → Option ℕ → Option ℕ
ttl_or none default = default
ttl_or (some ttl) default = ttl

abbrev pub has_exceeded : ℕ → Option ℕ → Option ℕ → Bool
has_exceeded now none at = false
has_exceeded now (some ttl) none = false
has_exceeded now (some ttl) (some at) = ltb ttl (now - at)

module _ {K : Type 0} ⦃e : Keyed K⦄ where
  abbrev pub discard_indexed : Dict K (List ℕ) → K → ℕ → Option (List ℕ) → Dict K (List ℕ)
  discard_indexed index kind id none = index
  discard_indexed index kind id (some ids) = put index kind (discard id ids)

  -- the loop of `invalidate_type` over the ids of the type
  unfoldable pub pop_all {ℓ} : {A : Type ℓ} → K → List ℕ → Dict (K × ℕ) A → Dict (K × ℕ) A
  pop_all kind [] d = d
  pop_all kind (id ∷ ids) d = pop_all kind ids (pop d (kind, id))

  -- the number of entities by type, for the types that have one
  abbrev pub with_size : K → List ℕ → Dict K ℕ → Dict K ℕ
  with_size kind [] rest = rest
  with_size kind (id ∷ ids) rest = (kind, length (id ∷ ids)) ∷ rest

  unfoldable pub sizes : Dict K (List ℕ) → Dict K ℕ
  sizes [] = []
  sizes ((kind, ids) ∷ index) = with_size kind ids (sizes index)

module _ {K V : Type 0} ⦃e : Keyed K⦄ where
  abbrev pub indexed_ids : Store K V → K → List ℕ
  indexed_ids s kind = ids_of (get s.type_index kind)

  -- `cache_instance`
  abbrev pub cache_under : ℕ → Option ℕ → Entity K V → Store K V → Store K V
  cache_under now none o s = s
  cache_under now (some id) o s = record s {
    cache = put s.cache (o.kind, id) o;
    type_index = put s.type_index o.kind (add id (indexed_ids s o.kind));
    timestamps = put s.timestamps (o.kind, id) now;
  }

  unfoldable pub cache_instance : ℕ → Entity K V → Store K V → Store K V
  cache_instance now o s = cache_under now o.id o s

  unfoldable pub invalidate : K → ℕ → Store K V → Store K V
  invalidate kind id s = record s {
    cache = pop s.cache (kind, id);
    timestamps = pop s.timestamps (kind, id);
    type_index = discard_indexed s.type_index kind id (get s.type_index kind);
  }

  unfoldable pub invalidate_type : K → Store K V → Store K V
  unfolding pop_all
  invalidate_type kind s = record s {
    cache = pop_all kind (indexed_ids s kind) s.cache;
    timestamps = pop_all kind (indexed_ids s kind) s.timestamps;
    type_index = pop s.type_index kind;
    fully_loaded = discard kind s.fully_loaded;
  }

  unfoldable pub invalidate_all : Store K V → Store K V
  invalidate_all s = record s { cache = []; type_index = []; timestamps = []; fully_loaded = [] }

  unfoldable pub set_ttl : K → Option ℕ → Store K V → Store K V
  set_ttl kind ttl s = record s { type_ttls = put s.type_ttls kind ttl }

  unfoldable pub is_expired : ℕ → K → ℕ → Store K V → Bool
  is_expired now kind id s =
      has_exceeded now (ttl_or (get s.type_ttls kind) s.default_ttl) (get s.timestamps (kind, id))

  abbrev pub unless_expired :
      Bool → K → ℕ → Store K V → Option (Entity K V) → Store K V × Option (Entity K V)
  unless_expired expired kind id s none = (s, none)
  unless_expired false kind id s (some o) = (s, some o)
  unless_expired true kind id s (some o) = (invalidate kind id s, none)

  unfoldable pub get_from_cache : ℕ → K → ℕ → Store K V → Store K V × Option (Entity K V)
  unfolding invalidate is_expired
  get_from_cache now kind id s =
      unless_expired (is_expired now kind id s) kind id s (get s.cache (kind, id))

  abbrev pub keep :
      (Entity K V → Bool) → Option (Entity K V) → List (Entity K V) → List (Entity K V)
  keep p none rest = rest
  keep p (some o) rest = if p o then o ∷ rest else rest

  -- the cached entities of the type that pass a test: `filter`, and `find` and `count` on a type
  -- that is fully loaded
  unfoldable pub matching : (Entity K V → Bool) → K → List ℕ → Store K V → List (Entity K V)
  matching p kind [] s = []
  matching p kind (id ∷ ids) s = keep p (get s.cache (kind, id)) (matching p kind ids s)

  unfoldable pub filter : (Entity K V → Bool) → K → Store K V → List (Entity K V)
  unfolding matching
  filter p kind s = matching p kind (indexed_ids s kind) s

  unfoldable pub is_fully_loaded : K → Store K V → Bool
  is_fully_loaded kind s = member kind s.fully_loaded

  -- `cache_stats`: the total and the numbers by type
  unfoldable pub cache_stats : Store K V → ℕ × Dict K ℕ
  unfolding sizes
  cache_stats s = (length s.cache, sizes s.type_index)
