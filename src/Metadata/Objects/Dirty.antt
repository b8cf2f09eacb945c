-- ===== src/Metadata/Objects/Dirty.antt =====
-- Dirty tracking, and the values that a write of an entity dumps.
use fansly_scraper.Common.{
  true, false, none, some, is_some, List, [], ◌∷◌, String, if◌then◌else◌, ◌≡◌, refl, arith, inl,
  inr, Bool-cases,
}
use fansly_scraper.Common.Classes.{Keyed, ◌==◌, string_keyed}
use fansly_scraper.Common.Dict.{get, put, pop, get-put, get-pop}
use fansly_scraper.Common.Sets.{member}
use fansly_scraper.Metadata.Objects.{
  value_beq, value_beq_iff, Object, Model, value_keyed, attr, only, without, db_value, db_values,
  snapshot_of, mark_clean, any_changed, has_changed, is_dirty, get_changed_fields, excluded,
  to_db_dict,
}
use fansly_scraper.Metadata.Objects.Fields.{
  get-only, get-without, get-db_values, get-snapshot_of, get-changed_among, is_written,
}

module _ {A : Type 0} ⦃a : Keyed A⦄ where
  pub clean_among :
      (o : Object A) (fs gs : List String)
      → ((f : String) → member f fs ≡ true → member f gs ≡ true)
      → any_changed (record o { snapshot = snapshot_of o.fields gs }) fs ≡ false
  unfolding any_changed has_changed attr member
  clean_among o [] gs h = refl
  clean_among o (f ∷ fs) gs h =
      let v = attr o.fields f in
      let same : value_beq v v ≡ true = (value_beq_iff v v).1 refl in
      let known : member f gs ≡ true = h f (ground (arith, (string_keyed.same_iff f f).1 refl)) in
      ground (
        arith,
        clean_among o fs gs (λ g k. h g (ground arith)),
        get-snapshot_of o.fields gs f,
        same,
        known,
      )

  -- An object that was marked clean is not dirty.
  pub mark_clean_lem : (m : Model) (o : Object A) → is_dirty m (mark_clean m o) ≡ false
  unfolding mark_clean is_dirty
  mark_clean_lem m o = clean_among o m.tracked_fields m.tracked_fields (λ f h. h)

  pub unchanged_among :
      (o : Object A) (fs : List String) (f : String)
      → any_changed o fs ≡ false
      → member f fs ≡ true
      → attr o.fields f ≡ attr o.snapshot f
  unfolding any_changed has_changed member
  unchanged_among o [] f h k = cc
  unchanged_among o (g ∷ fs) f h k = elim (Bool-cases (g == f)) [
    | inl same ↦
        ground
          (arith, string_keyed.same_iff g f, value_beq_iff (attr o.fields g) (attr o.snapshot g))
    | inr other ↦ unchanged_among o fs f (ground arith) (ground arith)
  ]

  pub to_db_dict-full :
      (m : Model) (o : Object A) (f : String)
      → is_written m f ≡ true
      → is_some (get o.fields f) ≡ true
      → get (only m.columns (to_db_dict false m o)) f ≡ some (db_value (attr o.fields f))
  unfolding to_db_dict attr
  to_db_dict-full m o f written present = ground (
    arith,
    get-only m.columns (db_values (without (excluded m) o.fields)) f,
    get-db_values (without (excluded m) o.fields) f,
    get-without (excluded m) o.fields f,
  )

  -- what an UPDATE sets: the written columns that have changed
  pub to_db_dict-dirty :
      (m : Model) (o : Object A) (f : String)
      → is_written m f ≡ true
      → get (only m.columns (pop (pop (to_db_dict true m o) m.pk_column) "id")) f
        ≡ (if has_changed o f then some (db_value (attr o.fields f)) else none)
  unfolding to_db_dict attr has_changed get_changed_fields
  to_db_dict-dirty m o f written =
      let changed = get_changed_fields m o in
      let all = put (without (excluded m) changed) "id" (attr o.fields "id") in
      ground (
        arith,
        get-only m.columns (pop (pop (db_values all) m.pk_column) "id") f,
        get-pop (pop (db_values all) m.pk_column) "id" f,
        get-pop (db_values all) m.pk_column f,
        get-db_values all f,
        get-put (without (excluded m) changed) "id" f (attr o.fields "id"),
        get-without (excluded m) changed f,
        get-changed_among o m.tracked_fields f,
      )
