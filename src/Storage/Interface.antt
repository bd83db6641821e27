-- ===== src/Storage/Interface.antt =====
-- src/Utils/Storage/IDatabase.hpp: the interface that the storage service uses, and the contract that
-- its comments state.
use watchlist.Prelude.{ℕ, Bool, Option, none, some, List, [], ◌∷◌, ◌≡◌, if◌then◌else◌, Bytes, equal}
use watchlist.Storage.Item.{DatabaseItem, Result, ok, err, Done}

-- A method that changes the database returns its new state with the result, also when it throws.
pub record IDatabase : Type 1 where
  pub State : Type 0
  pub initialize : State → Done × State
  pub add_item : DatabaseItem → State → Done × State
  pub upsert_item : DatabaseItem → State → Done × State
  pub get_item : Bytes → State → Result (Option DatabaseItem)
  pub get_all_items : State → Result (List DatabaseItem)
  pub replace_all : List DatabaseItem → State → Done × State
  pub get_all_sorted_by_id : State → Result (List DatabaseItem)
  pub contains_item : Bytes → State → Result Bool
  pub count_items : State → Result ℕ
  pub remove_item : Bytes → State → Result Bool × State
  pub clear : State → Done × State

-- A set of items, by id.
abbrev pub Items : Type 0
Items = Bytes → Option DatabaseItem

unfoldable pub find_item : List DatabaseItem → Items
find_item [] id = none
find_item (i ∷ is) id = if equal i.id id then some i else find_item is id

abbrev pub with_item : DatabaseItem → Items → Items
with_item i view id = if equal i.id id then some i else view id

abbrev pub without_item : Bytes → Items → Items
without_item target view id = if equal target id then none else view id

-- `after` is `before` with one change when the call succeeds, and as before when it throws.
abbrev pub Changes {ℓ} : {A : Type ℓ} → Result A → Items → Items → Items → Type 0
Changes (ok a) before after wanted = (id : Bytes) → after id ≡ wanted id
Changes (err e) before after wanted = (id : Bytes) → after id ≡ before id

abbrev pub Reads : Result (List DatabaseItem) → Items → Type 0
Reads (ok items) view = (id : Bytes) → find_item items id ≡ view id
Reads (err e) view = Unit

abbrev pub WasFree : Done → Option DatabaseItem → Type 0
WasFree (ok _) o = o ≡ none
WasFree (err e) o = Unit

-- The part of the contract that the storage service relies on, for the states with `IsOpen`.
pub record Contract (d : IDatabase) : Type 1 where
  pub IsOpen : d.State → Type 0
  pub view : d.State → Items
  pub open_add : (i : DatabaseItem) (s : d.State) → IsOpen s → IsOpen (d.add_item i s).1
  pub open_upsert : (i : DatabaseItem) (s : d.State) → IsOpen s → IsOpen (d.upsert_item i s).1
  pub open_remove : (id : Bytes) (s : d.State) → IsOpen s → IsOpen (d.remove_item id s).1
  -- Adds a new device and fails if another device already uses the same id.
  pub add_changes :
      (i : DatabaseItem) (s : d.State)
      → IsOpen s
      → Changes (d.add_item i s).0 (view s) (view (d.add_item i s).1) (with_item i (view s))
  pub add_free :
      (i : DatabaseItem) (s : d.State) → IsOpen s → WasFree (d.add_item i s).0 (view s i.id)
  -- Adds a new device or updates the existing device with the same id.
  pub upsert_changes :
      (i : DatabaseItem) (s : d.State)
      → IsOpen s
      → Changes (d.upsert_item i s).0 (view s) (view (d.upsert_item i s).1) (with_item i (view s))
  -- Removes the device stored under id.
  pub remove_changes :
      (id : Bytes) (s : d.State)
      → IsOpen s
      → Changes
          (d.remove_item id s).0
          (view s)
          (view (d.remove_item id s).1)
          (without_item id (view s))
  -- Returns every stored device.
  pub sorted_reads : (s : d.State) → IsOpen s → Reads (d.get_all_sorted_by_id s) (view s)
