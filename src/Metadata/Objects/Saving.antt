-- ===== src/Metadata/Objects/Saving.antt =====
-- The write of an entity's own row.
use fansly_scraper.Common.{
  Bool, true, false, not, ◌&&◌, Option, none, some, is_some, [], ◌∷◌, String, if◌then◌else◌, ◌≡◌,
  refl, arith, inl, inr, Bool-cases,
}
use fansly_scraper.Common.Classes.{Keyed, ◌==◌, string_keyed}
use fansly_scraper.Common.Dict.{Dict, get, pop, get-put, get-pop}
use fansly_scraper.Common.Sets.{member}
use fansly_scraper.Metadata.Objects.{
  Value, value_beq_iff, null, Object, Model, value_keyed, attr, only, without, db_value, mark_clean,
  mark_dirty, has_changed, is_dirty, get_changed_fields, to_db_dict, upsert, update_where,
  insert_row, insert_values, update_values, update_changed, update, write_row, save, save_object,
}
use fansly_scraper.Metadata.Objects.Fields.{
  get-without, or_else, get-assign_all, get-changed_among, is_written, cell,
}
use fansly_scraper.Metadata.Objects.Dirty.{
  mark_clean_lem, unchanged_among, to_db_dict-full, to_db_dict-dirty,
}

module _ {A : Type 0} ⦃a : Keyed A⦄ where
  upsert-cell :
      (row : Option (Dict String (Value A))) (values : Dict String (Value A)) (pk f : String)
      (w : Value A)
      → get values f ≡ some w
      → (pk == f) ≡ false
      → cell (upsert row values pk) f ≡ some w
  unfolding member upsert get
  upsert-cell none values pk f w found key = found
  upsert-cell (some row) values pk f w found key = ground (
    arith,
    get-assign_all row (without (pk ∷ []) values) f,
    get-without (pk ∷ []) values f,
    string_keyed.same_iff f pk,
    string_keyed.same_iff pk f,
  )

  insert_values-cell :
      (new_id : Value A) (m : Model) (o : Object A) (row : Option (Dict String (Value A)))
      (values : Dict String (Value A)) (f : String) (w : Value A)
      → get values f ≡ some w
      → (m.pk_column == f) ≡ false
      → ("id" == f) ≡ false
      → cell (insert_values new_id m o row values).1 f ≡ some w
  unfolding get insert_values
  insert_values-cell new_id m o row [] f w found key id = cc
  insert_values-cell new_id m o row (v ∷ vs) f w found key id =
      elim (Bool-cases (attr o.fields "id" == null && m.pk_column == "id")) [
        | inl numbered ↦
            rw (numbered)
              (ground (arith, get-put (pop (v ∷ vs) "id") "id" f new_id, get-pop (v ∷ vs) "id" f))
        | inr keyed ↦ rw (keyed) (upsert-cell row (v ∷ vs) m.pk_column f w found key)
      ]

  update_values-cell :
      (row values : Dict String (Value A)) (f : String)
      → cell (update_values (some row) values) f ≡ or_else (get values f) (get row f)
  unfolding update_where get
  update_values-cell row [] f = refl
  update_values-cell row (v ∷ vs) f = ground (arith, get-assign_all row (v ∷ vs) f)

  update_changed-cell :
      (m : Model) (o : Object A) (row changed : Dict String (Value A)) (f : String)
      → is_written m f ≡ true
      → get_changed_fields m o ≡ changed
      → cell (update_changed m o (some row) changed) f
        ≡ (if has_changed o f then some (db_value (attr o.fields f)) else get row f)
  unfolding update_changed get has_changed get_changed_fields
  update_changed-cell m o row [] f written e =
      ground (arith, get-changed_among o m.tracked_fields f)
  update_changed-cell m o row (c ∷ cs) f written e = ground (
    arith,
    to_db_dict-dirty m o f written,
    update_values-cell row (only m.columns (pop (pop (to_db_dict true m o) m.pk_column) "id")) f,
  )

  -- An UPDATE of an existing row gives each written column that has changed its new value, and
  -- leaves the value of each that has not.
  pub update-cell :
      (m : Model) (o : Object A) (row : Dict String (Value A)) (f : String)
      → is_written m f ≡ true
      → cell (update m o (some row)) f
        ≡ (if has_changed o f then some (db_value (attr o.fields f)) else get row f)
  unfolding update
  update-cell m o row f written =
      update_changed-cell m o row (get_changed_fields m o) f written refl

  -- The row has the values of the fields, in its written columns.
  abbrev pub Agrees : Model → Dict String (Value A) → Option (Dict String (Value A)) → Type 0
  Agrees m fields row =
      (f : String) → is_written m f ≡ true → cell row f ≡ some (db_value (attr fields f))

  -- What a save may find: the object has all its tracked fields, and unless it is new, a row that
  -- agrees with its snapshot.
  abbrev pub IsSynced : Model → Object A → Option (Dict String (Value A)) → Type 0
  IsSynced m o row =
      ((f : String) → member f m.tracked_fields ≡ true → is_some (get o.fields f) ≡ true)
      × (o.is_new ≡ false → (is_some row ≡ true) × Agrees m o.snapshot row)

  write_old-cell :
      (m : Model) (o : Object A) (row : Option (Dict String (Value A))) (f : String)
      → is_some row ≡ true
      → Agrees m o.snapshot row
      → is_written m f ≡ true
      → cell (if is_dirty m o then update m o row else row) f ≡ some (db_value (attr o.fields f))
  unfolding is_dirty has_changed
  write_old-cell m o none f there agrees written = cc
  write_old-cell m o (some row) f there agrees written =
      let seen = agrees f written in
      let new = attr o.fields f in
      let old = attr o.snapshot f in
      elim (Bool-cases (is_dirty m o)) [
        | inl dirty ↦
            rw (dirty) (ground (arith, update-cell m o row f written, seen, value_beq_iff new old))
        | inr clean ↦
            rw (clean)
              (ground (arith, seen, unchanged_among o m.tracked_fields f clean (ground arith)))
      ]

  write_row-Agrees :
      (new_id : Value A) (m : Model) (o : Object A) (row : Option (Dict String (Value A)))
      → IsSynced m o row
      → Agrees m o.fields (write_row new_id m o row).1
  unfolding write_row insert_row
  write_row-Agrees new_id m o row h f written = elim (Bool-cases o.is_new) [
    | inl new ↦
        let dumped = to_db_dict-full m o f written (h.0 f (ground arith)) in
        let values = only m.columns (to_db_dict false m o) in
        let inserted =
          insert_values-cell new_id m o row values f (db_value (attr o.fields f)) dumped
            (ground arith) (ground arith) in
        ground (arith, inserted)
    | inr old ↦ ground (arith, write_old-cell m o row f (h.1 old).0 (h.1 old).1 written)
  ]

  insert_values-others :
      (new_id : Value A) (m : Model) (o : Object A) (row : Option (Dict String (Value A)))
      (values : Dict String (Value A)) (f : String)
      → ("id" == f) ≡ false
      → attr (insert_values new_id m o row values).0.fields f ≡ attr o.fields f
  unfolding insert_values attr
  insert_values-others new_id m o row [] f h = refl
  insert_values-others new_id m o row (v ∷ vs) f h = ground (arith, get-put o.fields "id" f new_id)

  write_row-others :
      (new_id : Value A) (m : Model) (o : Object A) (row : Option (Dict String (Value A)))
      (f : String)
      → ("id" == f) ≡ false
      → attr (write_row new_id m o row).0.fields f ≡ attr o.fields f
  unfolding write_row insert_row
  write_row-others new_id m o row f h =
      let values = only m.columns (to_db_dict false m o) in
      ground (arith, insert_values-others new_id m o row values f h)

  -- what a save of the object leaves
  abbrev pub IsSaved : Model → Object A → Object A × Option (Dict String (Value A)) → Type 0
  IsSaved m o result =
      Agrees m o.fields result.1
      × ((f : String) → ("id" == f) ≡ false → attr result.0.fields f ≡ attr o.fields f)
      × (is_dirty m result.0 ≡ false)
      × (result.0.is_new ≡ false)

  if-IsSaved :
      (m : Model) (o : Object A) (b : Bool) (x y : Object A × Option (Dict String (Value A)))
      → (b ≡ true → IsSaved m o x)
      → (b ≡ false → IsSaved m o y)
      → IsSaved m o (if b then x else y)
  if-IsSaved m o true x y first second = first refl
  if-IsSaved m o false x y first second = second refl

  write_row-old :
      (new_id : Value A) (m : Model) (o : Object A) (row : Option (Dict String (Value A)))
      → (write_row new_id m o row).0.is_new ≡ false
  unfolding write_row
  write_row-old new_id m o row = ground arith

  -- After a save of an object whose row, unless it is new, exists and agrees with its snapshot: the
  -- row has the value of each tracked column but the key, the fields other than the id are as
  -- before, and the object is clean and no longer new.
  pub save_object_lem :
      (new_id : Value A) (m : Model) (o : Object A) (row : Option (Dict String (Value A)))
      → IsSynced m o row
      → IsSaved m o (save_object new_id m o row)
  unfolding save_object save mark_clean
  save_object_lem new_id m o row h =
      let written = write_row new_id m o row in
      if-IsSaved m o (not (is_dirty m o) && not o.is_new) (o, row)
        (mark_clean m (mark_clean m written.0), written.1)
        (λ skip. (
          λ f k. ground (
            arith,
            (h.1 (ground arith)).1 f k,
            unchanged_among o m.tracked_fields f (ground arith) (ground arith),
          ),
          λ f k. refl,
          ground arith,
          ground arith,
        ))
        (λ go. (
          write_row-Agrees new_id m o row h,
          write_row-others new_id m o row,
          mark_clean_lem m (mark_clean m written.0),
          write_row-old new_id m o row,
        ))

  -- An object that was marked dirty and is updated has each written column set, but for those whose
  -- field is None: they keep the value of the row.
  pub update-mark_dirty :
      (m : Model) (o : Object A) (row : Dict String (Value A)) (f : String)
      → is_written m f ≡ true
      → cell (update m (mark_dirty o) (some row)) f
        ≡ (if attr o.fields f == null then get row f else some (db_value (attr o.fields f)))
  unfolding mark_dirty attr has_changed get
  update-mark_dirty m o row f written = ground (arith, update-cell m (mark_dirty o) row f written)
