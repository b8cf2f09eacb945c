-- ===== src/Metadata/Session.antt =====
-- metadata/entity_store.py and the identity-map validator of metadata/models.py: reads and deletions
-- through the cache. The rows are those of the database, by class and id; `validate` is pydantic's
-- construction of the fields from a row, `none` where it raises.
pub mod Loads
pub mod Preload
pub mod Reads
use fansly_scraper.Common.{
  ℕ, ◌+◌, ◌-◌, Bool, true, false, not, ◌&&◌, ◌||◌, Option, none, some, is_some, List, [], ◌∷◌, ◌++◌,
  String, length, zero, suc, if◌then◌else◌,
}
use fansly_scraper.Common.Classes.{Keyed, ◌==◌, nat_keyed, pair_keyed, string_keyed}
use fansly_scraper.Common.Dict.{Dict, get, put, pop, has_key}
use fansly_scraper.Common.Sets.{member, add}
use fansly_scraper.Helpers.Text.{Text}
use fansly_scraper.Metadata.Identity.{
  Entity, Store, indexed_ids, cache_instance, invalidate, get_from_cache, matching, is_fully_loaded,
}
use fansly_scraper.Metadata.Objects.{Value, Object, Model, attr, snapshot_of}
use fansly_scraper.Metadata.Query.{Filter, Resolved, Comparable, matches_filters}
use fansly_scraper.Metadata.Sorting.{Ranked, OrderBySpec, sort_results, validate_order_by}

pub record Schema (K A : Type 0) : Type 0 where
  pub model : K → Model
  pub validate : K → Dict String (Value A) → Option (Dict String (Value A))

pub record Session (K A : Type 0) : Type 0 where
  pub store : Store K (Object A)
  pub rows : Dict (K × ℕ) (Dict String (Value A))

-- what a call does: it raises, or it returns
pub data Outcome (T : Type 0) : Type 0 where
  raised : Outcome T
  returned : T → Outcome T

-- SELECT * … WHERE pk = ANY(ids): each row once, in the order of the table
unfoldable pub rows_among :
    {A : Type 0} → List ℕ → List (ℕ × Dict String (Value A)) → List (ℕ × Dict String (Value A))
rows_among ids [] = []
rows_among ids ((id, row) ∷ rows) =
    let rest = rows_among ids rows in if member id ids then (id, row) ∷ rest else rest

-- the fields that a row sets, over those of the cached entity
unfoldable pub merge_tracked :
    {A : Type 0}
    → List String
    → Dict String (Value A)
    → Dict String (Value A)
    → Dict String (Value A)
    → Dict String (Value A)
unfolding attr
merge_tracked [] row validated fields = fields
merge_tracked (k ∷ ks) row validated fields =
    let rest = merge_tracked ks row validated fields in
    if has_key row k then put rest k (attr validated k) else rest

module _ {K A : Type 0} ⦃e : Keyed K⦄ ⦃a : Keyed A⦄ where
  abbrev pub with_store : Session K A → Store K (Object A) → Session K A
  with_store s store = record s { store = store }

  -- the merge into a cached entity, which is out of the cache meanwhile and back in any case
  unfoldable pub merge_row :
      Schema K A
      → ℕ
      → K
      → Dict String (Value A)
      → Entity K (Object A)
      → Session K A
      → Option (Dict String (Value A))
      → Session K A × Outcome (Entity K (Object A))
  unfolding merge_tracked cache_instance
  merge_row schema now kind row cached s none =
      (with_store s (cache_instance now cached s.store), raised)
  merge_row schema now kind row cached s (some validated) =
      let fields =
        merge_tracked (schema.model kind).tracked_fields row validated cached.value.fields in
      let merged = record cached {
        value = record cached.value { fields = fields; is_new = false };
      } in
      (with_store s (cache_instance now merged s.store), returned merged)

  unfoldable pub construct_row :
      Schema K A
      → ℕ
      → K
      → ℕ
      → Session K A
      → Option (Dict String (Value A))
      → Session K A × Outcome (Entity K (Object A))
  unfolding cache_instance snapshot_of
  construct_row schema now kind id s none = (s, raised)
  construct_row schema now kind id s (some fields) =
      let snapshot = snapshot_of fields (schema.model kind).tracked_fields in
      let object : Object A = record { fields = fields; snapshot = snapshot; is_new = false } in
      let o : Entity K (Object A) = record { kind = kind; id = some id; value = object } in
      (with_store s (cache_instance now o s.store), returned o)

  unfoldable pub load_found :
      Schema K A
      → ℕ
      → K
      → ℕ
      → Dict String (Value A)
      → Session K A
      → Store K (Object A) × Option (Entity K (Object A))
      → Session K A × Outcome (Entity K (Object A))
  unfolding merge_row construct_row invalidate
  load_found schema now kind id row s (store, none) =
      construct_row schema now kind id (with_store s store) (schema.validate kind row)
  load_found schema now kind id row s (store, some cached) =
      merge_row schema now kind row cached (with_store s (invalidate kind id store))
        (schema.validate kind row)

  -- `model_validate` of a row, through `_identity_map_validator`, and `_is_new = False`
  unfoldable pub load :
      Schema K A
      → ℕ
      → K
      → ℕ
      → Dict String (Value A)
      → Session K A
      → Session K A × Outcome (Entity K (Object A))
  unfolding load_found get_from_cache
  load schema now kind id row s =
      load_found schema now kind id row s (get_from_cache now kind id s.store)

  abbrev pub found_one :
      Session K A × Outcome (Entity K (Object A))
      → Session K A × Outcome (Option (Entity K (Object A)))
  found_one (s, raised) = (s, raised)
  found_one (s, returned o) = (s, returned (some o))

  unfoldable pub fetch :
      Schema K A
      → ℕ
      → K
      → ℕ
      → Session K A
      → Option (Dict String (Value A))
      → Session K A × Outcome (Option (Entity K (Object A)))
  unfolding load
  fetch schema now kind id s none = (s, returned none)
  fetch schema now kind id s (some row) = found_one (load schema now kind id row s)

  unfoldable pub get_cached :
      Schema K A
      → ℕ
      → K
      → ℕ
      → Session K A
      → Option (Entity K (Object A))
      → Session K A × Outcome (Option (Entity K (Object A)))
  unfolding fetch
  get_cached schema now kind id s (some cached) = (s, returned (some cached))
  get_cached schema now kind id s none = fetch schema now kind id s (get s.rows (kind, id))

  -- `get`: the cache, and then the database
  unfoldable pub get_entity :
      Schema K A → ℕ → K → ℕ → Session K A → Session K A × Outcome (Option (Entity K (Object A)))
  unfolding get_cached
  get_entity schema now kind id s = get_cached schema now kind id s (get s.store.cache (kind, id))

  abbrev pub then_loaded :
      Entity K (Object A)
      → Session K A × Outcome (List (Entity K (Object A)))
      → Session K A × Outcome (List (Entity K (Object A)))
  then_loaded o (s, raised) = (s, raised)
  then_loaded o (s, returned os) = (s, returned (o ∷ os))

  abbrev pub after_load :
      Session K A
      → Outcome (Entity K (Object A))
      → Session K A × Outcome (List (Entity K (Object A)))
      → Session K A × Outcome (List (Entity K (Object A)))
  after_load t raised rest = (t, raised)
  after_load t (returned o) rest = then_loaded o rest

  -- the loop over the rows of a query
  unfoldable pub load_all :
      Schema K A
      → ℕ
      → K
      → List (ℕ × Dict String (Value A))
      → Session K A
      → Session K A × Outcome (List (Entity K (Object A)))
  unfolding load
  load_all schema now kind [] s = (s, returned [])
  load_all schema now kind ((id, row) ∷ rows) s =
      let (t, outcome) = load schema now kind id row s in
      let rest = load_all schema now kind rows t in after_load t outcome rest

  -- the ids that are cached, and those that are missing
  unfoldable pub split_cached :
      K → List ℕ → Store K (Object A) → List (Entity K (Object A)) × List ℕ
  split_cached kind [] store = ([], [])
  split_cached kind (id ∷ ids) store =
      let (hits, missing) = split_cached kind ids store in
      elim (get store.cache (kind, id)) [
        | some o ↦ (o ∷ hits, missing)
        | none ↦ (hits, id ∷ missing)
      ]

  -- the rows of a table
  unfoldable pub rows_of :
      K → Dict (K × ℕ) (Dict String (Value A)) → List (ℕ × Dict String (Value A))
  rows_of kind [] = []
  rows_of kind (((k, id), row) ∷ rows) =
      let rest = rows_of kind rows in if k == kind then (id, row) ∷ rest else rest

  abbrev pub prepend :
      List (Entity K (Object A))
      → Session K A × Outcome (List (Entity K (Object A)))
      → Session K A × Outcome (List (Entity K (Object A)))
  prepend hits (s, raised) = (s, raised)
  prepend hits (s, returned os) = (s, returned (hits ++ os))

  -- `get_many`; with no id missing the query has no rows
  unfoldable pub get_many :
      Schema K A → ℕ → K → List ℕ → Session K A → Session K A × Outcome (List (Entity K (Object A)))
  unfolding split_cached rows_among rows_of load_all
  get_many schema now kind ids s =
      let (hits, missing) = split_cached kind ids s.store in
      prepend hits (load_all schema now kind (rows_among missing (rows_of kind s.rows)) s)

  unfoldable pub delete_id : K → Option ℕ → Session K A → Session K A
  unfolding invalidate
  delete_id kind none s = s
  delete_id kind (some id) s = record {
    store = invalidate kind id s.store;
    rows = pop s.rows (kind, id);
  }

  unfoldable pub delete : Entity K (Object A) → Session K A → Session K A
  unfolding delete_id
  delete o s = delete_id o.kind o.id s

  unfoldable pub delete_all : K → List ℕ → Session K A → Session K A
  unfolding delete_id
  delete_all kind [] s = s
  delete_all kind (id ∷ ids) s = delete_all kind ids (delete_id kind (some id) s)

  -- `delete_many`, with the number of ids that it returns
  unfoldable pub delete_many : K → List ℕ → Session K A → Session K A × ℕ
  unfolding delete_all
  delete_many kind ids s = (delete_all kind ids s, length ids)

  abbrev pub mark_loaded :
      K → Session K A × Outcome (List (Entity K (Object A))) → Session K A × Outcome Unit
  mark_loaded kind (s, raised) = (s, raised)
  mark_loaded kind (s, returned os) =
      (with_store s (record s.store { fully_loaded = add kind s.store.fully_loaded }), returned tt)

  -- `preload` of one class, the relationships left out
  unfoldable pub preload_one : Schema K A → ℕ → K → Session K A → Session K A × Outcome Unit
  unfolding load_all rows_of
  preload_one schema now kind s =
      mark_loaded kind (load_all schema now kind (rows_of kind s.rows) s)

  abbrev pub after_class :
      Session K A → Outcome Unit → Session K A × Outcome Unit → Session K A × Outcome Unit
  after_class t raised rest = (t, raised)
  after_class t (returned u) rest = rest

  -- `preload`, class by class
  unfoldable pub preload : Schema K A → ℕ → List K → Session K A → Session K A × Outcome Unit
  unfolding preload_one
  preload schema now [] s = (s, returned tt)
  preload schema now (kind ∷ kinds) s =
      let (t, outcome) = preload_one schema now kind s in
      let rest = preload schema now kinds t in after_class t outcome rest
