-- ===== src/Storage/SqliteDatabase/Refines.antt =====
-- The SQLite database keeps the contract of src/Utils/Storage/IDatabase.hpp.
use watchlist.Prelude.{
  ◌↔◌, ℕ, true, Option, some, List, ◌≡◌, refl, ap, ◌∙◌, Bool-cases, inl, inr, Bytes, equal,
}
use watchlist.Storage.Item.{DatabaseItem, Result, ok, err, Done, ◌>>=◌}
use watchlist.Storage.Interface.{
  IDatabase, Contract, Items, Changes, Reads, WasFree, with_item, without_item,
}
use watchlist.Storage.SqliteDatabase.{
  Row, Sqlite, SqliteDatabase, bind_item, decode_rows, ensure_initialized, run_if, add_item,
  upsert_item, get_item, get_all_items, get_all_sorted_by_id, contains_item, count_items,
  was_removed, remove_item, clear, replace_all,
}
use watchlist.Storage.SqliteDatabase.Rows.{
  Rows, KeepsRows, RowChanges, RowReads, RowFree, with_row, without_row, as_item, item_of-bind_item,
  find_item-decode_rows,
}

-- The class as an implementation of the interface, with the `Initialize` that it is given.
abbrev pub sqlite_database : (q : Sqlite) → (SqliteDatabase q → Done × SqliteDatabase q) → IDatabase
sqlite_database q initialize = record {
  State = SqliteDatabase q;
  initialize = initialize;
  add_item = add_item q;
  upsert_item = upsert_item q;
  get_item = get_item q;
  get_all_items = get_all_items q;
  replace_all = replace_all q;
  get_all_sorted_by_id = get_all_sorted_by_id q;
  contains_item = contains_item q;
  count_items = count_items q;
  remove_item = remove_item q;
  clear = clear q;
}

as_item-with_row :
    (i : DatabaseItem) (rows : Rows) (id : Bytes)
    → as_item (with_row i.id (bind_item i) rows id) ≡ with_item i (λ id. as_item (rows id)) id
as_item-with_row i rows id = elim (Bool-cases (equal i.id id)) [
  | inl e ↦ rw e (ap some (item_of-bind_item i))
  | inr e ↦ rw e refl
]

as_item-without_row :
    (target : Bytes) (rows : Rows) (id : Bytes)
    → as_item (without_row target rows id) ≡ without_item target (λ id. as_item (rows id)) id
as_item-without_row target rows id = elim (Bool-cases (equal target id)) [
  | inl e ↦ rw e refl
  | inr e ↦ rw e refl
]

abbrev as_items : Rows → Items
as_items rows id = as_item (rows id)

Changes-RowChanges :
    {A : Type 0} (r : Result A) (before after wanted : Rows) (w : Items)
    → RowChanges r before after wanted
    → ((id : Bytes) → as_item (wanted id) ≡ w id)
    → Changes r (as_items before) (as_items after) w
Changes-RowChanges (ok a) before after wanted w h e = λ id. ap as_item (h id) ∙ e id
Changes-RowChanges (err x) before after wanted w h e = λ id. ap as_item (h id)

WasFree-RowFree : (r : Done) (o : Option Row) → RowFree r o → WasFree r (as_item o)
WasFree-RowFree (ok _) o h = ap as_item h
WasFree-RowFree (err e) o h = tt

module _ (q : Sqlite) (k : KeepsRows q) where
  abbrev stored_items : SqliteDatabase q → Items
  stored_items s = as_items (k.rows s.database)

  run_if-Changes :
      {A : Type 0} (m : Done) (f : q.Db → Result A × q.Db) (s : SqliteDatabase q) (wanted : Rows)
      (w : Items)
      → RowChanges (f s.database).0 (k.rows s.database) (k.rows (f s.database).1) wanted
      → ((id : Bytes) → as_item (wanted id) ≡ w id)
      → Changes (run_if q m f s).0 (stored_items s) (stored_items (run_if q m f s).1) w
  unfolding run_if
  run_if-Changes (err e) f s wanted w h same = λ id. refl
  run_if-Changes (ok _) f s wanted w h same =
      Changes-RowChanges (f s.database).0 _ _ wanted w h same

  run_if-open :
      {A : Type 0} (m : Done) (f : q.Db → Result A × q.Db) (s : SqliteDatabase q)
      → (run_if q m f s).1.initialized ≡ s.initialized
  unfolding run_if
  run_if-open (err e) f s = refl
  run_if-open (ok _) f s = refl

  run_if-WasFree :
      (m : Done) (f : q.Db → Done × q.Db) (s : SqliteDatabase q) (o : Option Row)
      → RowFree (f s.database).0 o
      → WasFree (run_if q m f s).0 (as_item o)
  unfolding run_if
  run_if-WasFree (err e) f s o h = tt
  run_if-WasFree (ok _) f s o h = WasFree-RowFree (f s.database).0 o h

  was_removed-RowChanges :
      (r : Result ℕ × q.Db) (before wanted : Rows)
      → RowChanges r.0 before (k.rows r.1) wanted
      → RowChanges (was_removed q r).0 before (k.rows (was_removed q r).1) wanted
  unfolding was_removed
  was_removed-RowChanges (ok n, db) before wanted h = h
  was_removed-RowChanges (err e, db) before wanted h = h

  decoded-Reads :
      (rows : List Row) (stored : Rows) (d : Result (List DatabaseItem))
      → RowReads (ok rows) stored
      → decode_rows rows ≡ d
      → Reads d (as_items stored)
  decoded-Reads rows stored (ok items) h e =
      λ id. find_item-decode_rows rows items id e ∙ ap as_item (h id)
  decoded-Reads rows stored (err x) h e = tt

  selected-Reads :
      (m : Done) (o : Result (List Row)) (stored : Rows)
      → RowReads o stored
      → Reads (m >>= λ _. o >>= λ rows. decode_rows rows) (as_items stored)
  selected-Reads (err e) o stored h = tt
  selected-Reads (ok _) (err e) stored h = tt
  selected-Reads (ok _) (ok rows) stored h = decoded-Reads rows stored (decode_rows rows) h refl

  -- Over a SQLite library whose statements on the table do what SQL says, the class keeps the contract
  -- of the interface, whatever its `Initialize` is. In this contract, a database is open exactly if it
  -- is initialized, and the stored devices are what the rows of the table stand for: on an initialized
  -- database, each call either throws and leaves the stored devices as they were, or changes the one
  -- device that it is about, and the sorted list that it returns holds every stored device.
  pub sqlite_database-Contract :
      (initialize : SqliteDatabase q → Done × SqliteDatabase q)
      → (contract : Contract (sqlite_database q initialize)) × ((s : SqliteDatabase q)
          → contract.IsOpen s ↔ (s.initialized ≡ true))
        × ((s : SqliteDatabase q) (id : Bytes)
            → contract.view s id ≡ as_item (k.rows s.database id))
  unfolding add_item upsert_item remove_item get_all_sorted_by_id
  sqlite_database-Contract initialize = (
    record {
      IsOpen = λ s. s.initialized ≡ true;
      view = stored_items;
      open_add = λ i s o. run_if-open _ (q.insert_item (bind_item i)) s ∙ o;
      open_upsert = λ i s o. run_if-open _ (q.upsert_row (bind_item i)) s ∙ o;
      open_remove = λ id s o. run_if-open _ (λ db. was_removed q (q.delete_where id db)) s ∙ o;
      add_changes = λ i s o.
          run_if-Changes _ (q.insert_item (bind_item i)) s _ _
            (k.insert_changes (bind_item i) i.id s.database (unfold bind_item in refl))
            (as_item-with_row i (k.rows s.database));
      add_free = λ i s o.
          run_if-WasFree _ (q.insert_item (bind_item i)) s _
            (k.insert_free (bind_item i) i.id s.database (unfold bind_item in refl));
      upsert_changes = λ i s o.
          run_if-Changes _ (q.upsert_row (bind_item i)) s _ _
            (k.upsert_changes (bind_item i) i.id s.database (unfold bind_item in refl))
            (as_item-with_row i (k.rows s.database));
      remove_changes = λ id s o.
          run_if-Changes _ (λ db. was_removed q (q.delete_where id db)) s _ _
            (was_removed-RowChanges (q.delete_where id s.database) _ _
              (k.delete_changes id s.database))
            (as_item-without_row id (k.rows s.database));
      sorted_reads = λ s o.
          selected-Reads (ensure_initialized q s) (q.select_ordered s.database) _
            (k.ordered_reads s.database);
    },
    λ s. (λ h. h, λ h. h),
    λ s id. refl,
  )
