-- ===== src/Metadata/Objects.antt =====
-- metadata/models.py and metadata/entity_store.py: the fields of an entity, its snapshot for dirty
-- tracking, and the write of its own row. A is the type of the plain values of a field; the tables
-- of related entities are outside this part.
pub mod Fields
pub mod Dirty
pub mod Saving
use fansly_scraper.Common.{
  ℕ, Bool, true, false, not, ◌&&◌, ◌||◌, Option, none, some, List, [], ◌∷◌, ◌++◌, String,
  if◌then◌else◌, ◌≡◌, ◌↔◌, refl, arith,
}
use fansly_scraper.Common.Classes.{Keyed, ◌==◌, string_keyed}
use fansly_scraper.Common.Dict.{Dict, get, put, pop}
use fansly_scraper.Common.Sets.{member, add}

-- a field's value: None, a plain one, a ContentType with its name and value, or another enum's value
pub data Value (A : Type 0) : Type 0 where
  null : Value A
  plain : A → Value A
  content_type : A → A → Value A
  enum : A → Value A

pub record Object (A : Type 0) : Type 0 where
  pub fields : Dict String (Value A)
  pub snapshot : Dict String (Value A)
  pub is_new : Bool

-- what a model class declares, and the columns and primary key of its table
pub record Model : Type 0 where
  pub tracked_fields : List String
  pub relationships : List String
  pub write_excluded : List String
  pub columns : List String
  pub pk_column : String

module _ {A : Type 0} ⦃a : Keyed A⦄ where
  abbrev pub value_beq : Value A → Value A → Bool
  value_beq null null = true
  value_beq (plain x) (plain y) = x == y
  value_beq (content_type n x) (content_type m y) = n == m && x == y
  value_beq (enum x) (enum y) = x == y
  value_beq _ _ = false

  pub value_beq_iff : (v w : Value A) → (value_beq v w ≡ true) ↔ (v ≡ w)
  value_beq_iff null null = ground arith
  value_beq_iff (plain x) (plain y) = ground (arith, a.same_iff x y)
  value_beq_iff (content_type n x) (content_type m y) =
      ground (arith, a.same_iff n m, a.same_iff x y)
  value_beq_iff (enum x) (enum y) = ground (arith, a.same_iff x y)
  value_beq_iff null (plain y) = ground arith
  value_beq_iff null (content_type m y) = ground arith
  value_beq_iff null (enum y) = ground arith
  value_beq_iff (plain x) null = ground arith
  value_beq_iff (plain x) (content_type m y) = ground arith
  value_beq_iff (plain x) (enum y) = ground arith
  value_beq_iff (content_type n x) null = ground arith
  value_beq_iff (content_type n x) (plain y) = ground arith
  value_beq_iff (content_type n x) (enum y) = ground arith
  value_beq_iff (enum x) null = ground arith
  value_beq_iff (enum x) (plain y) = ground arith
  value_beq_iff (enum x) (content_type m y) = ground arith

instance abbrev pub value_keyed : {A : Type 0} ⦃a : Keyed A⦄ → Keyed (Value A)
value_keyed = record { same = value_beq; same_iff = value_beq_iff }

-- `rel_keys | self._WRITE_EXCLUDED`
abbrev pub excluded : Model → List String
excluded m = m.relationships ++ m.write_excluded

module _ {A : Type 0} where
  abbrev pub or_null : Option (Value A) → Value A
  or_null none = null
  or_null (some v) = v

  -- `getattr(self, field, None)`, and `snapshot.get(field)`
  unfoldable pub attr : Dict String (Value A) → String → Value A
  attr fields f = or_null (get fields f)

  -- {k: v for k, v in data.items() if k in names}
  unfoldable pub only : List String → Dict String (Value A) → Dict String (Value A)
  only names [] = []
  only names ((k, v) ∷ d) =
      let rest = only names d in if member k names then (k, v) ∷ rest else rest

  -- {k: v for k, v in data.items() if k not in names}
  unfoldable pub without : List String → Dict String (Value A) → Dict String (Value A)
  without names [] = []
  without names ((k, v) ∷ d) =
      let rest = without names d in if member k names then rest else (k, v) ∷ rest

  -- the conversion of enums at the end of `to_db_dict`
  abbrev pub db_value : Value A → Value A
  db_value null = null
  db_value (plain x) = plain x
  db_value (content_type name x) = plain name
  db_value (enum x) = plain x

  unfoldable pub db_values : Dict String (Value A) → Dict String (Value A)
  db_values [] = []
  db_values ((k, v) ∷ d) = (k, db_value v) ∷ db_values d

  -- a write of each item over a row: `SET col = val, …`
  unfoldable pub assign_all : Dict String (Value A) → Dict String (Value A) → Dict String (Value A)
  assign_all row [] = row
  assign_all row ((k, v) ∷ d) = put (assign_all row d) k v

  unfoldable pub snapshot_of : Dict String (Value A) → List String → Dict String (Value A)
  unfolding attr
  snapshot_of fields [] = []
  snapshot_of fields (f ∷ fs) = (f, attr fields f) ∷ snapshot_of fields fs

  unfoldable pub mark_clean : Model → Object A → Object A
  unfolding snapshot_of
  mark_clean m o = record o { snapshot = snapshot_of o.fields m.tracked_fields }

  unfoldable pub mark_dirty : Object A → Object A
  mark_dirty o = record o { snapshot = [] }

module _ {A : Type 0} ⦃a : Keyed A⦄ where
  unfoldable pub has_changed : Object A → String → Bool
  unfolding attr
  has_changed o f = not (attr o.fields f == attr o.snapshot f)

  unfoldable pub any_changed : Object A → List String → Bool
  any_changed o [] = false
  any_changed o (f ∷ fs) = has_changed o f || any_changed o fs

  unfoldable pub is_dirty : Model → Object A → Bool
  unfolding any_changed
  is_dirty m o = any_changed o m.tracked_fields

  unfoldable pub changed_among : Object A → List String → Dict String (Value A)
  unfolding attr
  changed_among o [] = []
  changed_among o (f ∷ fs) =
      let rest = changed_among o fs in if has_changed o f then (f, attr o.fields f) ∷ rest else rest

  unfoldable pub get_changed_fields : Model → Object A → Dict String (Value A)
  unfolding changed_among
  get_changed_fields m o = changed_among o m.tracked_fields

  unfoldable pub to_db_dict : Bool → Model → Object A → Dict String (Value A)
  unfolding attr without db_values get_changed_fields
  to_db_dict true m o =
      db_values (put (without (excluded m) (get_changed_fields m o)) "id" (attr o.fields "id"))
  to_db_dict false m o = db_values (without (excluded m) o.fields)

  -- INSERT … ON CONFLICT (pk) DO UPDATE of the row with this key, if there is one
  unfoldable pub upsert :
      Option (Dict String (Value A))
      → Dict String (Value A)
      → String
      → Option (Dict String (Value A))
  unfolding assign_all without
  upsert none values pk = some values
  upsert (some row) values pk = some (assign_all row (without (pk ∷ []) values))

  -- UPDATE … WHERE pk = …, which changes nothing if there is no such row
  unfoldable pub update_where :
      Option (Dict String (Value A)) → Dict String (Value A) → Option (Dict String (Value A))
  unfolding assign_all
  update_where none values = none
  update_where (some row) values = some (assign_all row values)

  -- the row that INSERT … RETURNING id makes, with the id that the database gives
  abbrev pub insert_numbered :
      Value A → Object A → Dict String (Value A) → Object A × Option (Dict String (Value A))
  insert_numbered new_id o values =
      (record o { fields = put o.fields "id" new_id }, some (put (pop values "id") "id" new_id))

  unfoldable pub insert_values :
      Value A
      → Model
      → Object A
      → Option (Dict String (Value A))
      → Dict String (Value A)
      → Object A × Option (Dict String (Value A))
  unfolding attr
  insert_values new_id m o row [] = (o, row)
  insert_values new_id m o row (v ∷ vs) =
      if attr o.fields "id" == null && m.pk_column == "id"
      then insert_numbered new_id o (v ∷ vs)
      else (o, upsert row (v ∷ vs) m.pk_column)

  -- `_insert_row`: the object and the row of its key afterwards
  unfoldable pub insert_row :
      Value A
      → Model
      → Object A
      → Option (Dict String (Value A))
      → Object A × Option (Dict String (Value A))
  unfolding only to_db_dict
  insert_row new_id m o row = insert_values new_id m o row (only m.columns (to_db_dict false m o))

  abbrev pub update_values :
      Option (Dict String (Value A)) → Dict String (Value A) → Option (Dict String (Value A))
  update_values row [] = row
  update_values row (v ∷ vs) = update_where row (v ∷ vs)

  unfoldable pub update_changed :
      Model
      → Object A
      → Option (Dict String (Value A))
      → Dict String (Value A)
      → Option (Dict String (Value A))
  unfolding only to_db_dict
  update_changed m o row [] = row
  update_changed m o row (c ∷ cs) =
      update_values row (only m.columns (pop (pop (to_db_dict true m o) m.pk_column) "id"))

  -- `_update`
  unfoldable pub update :
      Model → Object A → Option (Dict String (Value A)) → Option (Dict String (Value A))
  unfolding get_changed_fields
  update m o row = update_changed m o row (get_changed_fields m o)

  -- the first step of the store's `save`: the entity's own row
  unfoldable pub write_row :
      Value A
      → Model
      → Object A
      → Option (Dict String (Value A))
      → Object A × Option (Dict String (Value A))
  unfolding insert_row update is_dirty
  write_row new_id m o row =
      let (inserted, after) = insert_row new_id m o row in
      if o.is_new
      then (record inserted { is_new = false }, after)
      else if is_dirty m o
      then (o, update m o row)
      else (o, row)

  -- the store's `save` of an entity that has no related entities
  unfoldable pub save :
      Value A
      → Model
      → Object A
      → Option (Dict String (Value A))
      → Object A × Option (Dict String (Value A))
  unfolding write_row mark_clean
  save new_id m o row =
      let (written, after) = write_row new_id m o row in (mark_clean m written, after)

  -- `FanslyObject.save`
  unfoldable pub save_object :
      Value A
      → Model
      → Object A
      → Option (Dict String (Value A))
      → Object A × Option (Dict String (Value A))
  unfolding save mark_clean is_dirty
  save_object new_id m o row =
      let (saved, after) = save new_id m o row in
      if not (is_dirty m o) && not o.is_new then (o, row) else (mark_clean m saved, after)
