-- ===== src/Metadata/Objects/Fields.antt =====
-- What a name reads in the dictionaries of an entity: fields, snapshot, values for the database.
use fansly_scraper.Common.{
  Bool, not, ◌&&◌, Option, none, some, List, [], ◌∷◌, String, if◌then◌else◌, ◌≡◌, refl, arith,
}
use fansly_scraper.Common.Classes.{Keyed, ◌==◌, string_keyed}
use fansly_scraper.Common.Dict.{Dict, get, get-put}
use fansly_scraper.Common.Sets.{member}
use fansly_scraper.Metadata.Objects.{
  Value, Object, Model, value_keyed, attr, only, without, db_value, db_values, assign_all,
  snapshot_of, has_changed, changed_among, excluded,
}

-- a column that a write of the object covers: not its key
abbrev pub is_written : Model → String → Bool
is_written m f =
    member f m.tracked_fields
    && member f m.columns
    && not (member f (excluded m))
    && not (m.pk_column == f)
    && not ("id" == f)

module _ {A : Type 0} where
  pub get-only :
      (names : List String) (d : Dict String (Value A)) (k : String)
      → get (only names d) k ≡ (if member k names then get d k else none)
  unfolding get only
  get-only names [] k = ground arith
  get-only names ((j, v) ∷ d) k = ground (arith, get-only names d k, string_keyed.same_iff j k)

  pub get-without :
      (names : List String) (d : Dict String (Value A)) (k : String)
      → get (without names d) k ≡ (if member k names then none else get d k)
  unfolding get without
  get-without names [] k = ground arith
  get-without names ((j, v) ∷ d) k =
      ground (arith, get-without names d k, string_keyed.same_iff j k)

  abbrev pub db_option : Option (Value A) → Option (Value A)
  db_option none = none
  db_option (some v) = some (db_value v)

  pub get-db_values :
      (d : Dict String (Value A)) (k : String) → get (db_values d) k ≡ db_option (get d k)
  unfolding get db_values
  get-db_values [] k = refl
  get-db_values ((j, v) ∷ d) k = ground (arith, get-db_values d k)

  abbrev pub or_else : Option (Value A) → Option (Value A) → Option (Value A)
  or_else none o = o
  or_else (some v) o = some v

  pub get-assign_all :
      (row d : Dict String (Value A)) (k : String)
      → get (assign_all row d) k ≡ or_else (get d k) (get row k)
  unfolding assign_all get
  get-assign_all row [] k = refl
  get-assign_all row ((j, v) ∷ d) k =
      ground (arith, get-assign_all row d k, get-put (assign_all row d) j k v)

  pub get-snapshot_of :
      (fields : Dict String (Value A)) (fs : List String) (f : String)
      → get (snapshot_of fields fs) f ≡ (if member f fs then some (attr fields f) else none)
  unfolding snapshot_of get member
  get-snapshot_of fields [] f = ground arith
  get-snapshot_of fields (g ∷ fs) f =
      ground (arith, get-snapshot_of fields fs f, string_keyed.same_iff g f)

module _ {A : Type 0} ⦃a : Keyed A⦄ where
  pub get-changed_among :
      (o : Object A) (fs : List String) (f : String)
      → get (changed_among o fs) f ≡ (
          if member f fs && not (attr o.fields f == attr o.snapshot f)
          then some (attr o.fields f)
          else none)
  unfolding changed_among has_changed get member
  get-changed_among o [] f = ground arith
  get-changed_among o (g ∷ fs) f =
      ground (arith, get-changed_among o fs f, string_keyed.same_iff g f)

  abbrev pub cell : Option (Dict String (Value A)) → String → Option (Value A)
  cell none f = none
  cell (some row) f = get row f
