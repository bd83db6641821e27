-- ===== src/Gui/DeviceMonitorState/Devices.antt =====
-- The laws of the device list: what a lookup finds after a write, and when ids stay unique.
use watchlist.Prelude.{
  true, false, Option, none, some, List, [], ◌∷◌, ◌++◌, ◌≡◌, refl, arith, if◌then◌else◌, has_value,
  Bool-cases, inl, inr, sym, ◌∙◌, Bytes, equal, equal_iff,
}
use watchlist.Gui.Device.{DeviceViewModel}
use watchlist.Gui.DeviceMonitorState.{find_device, assign_device, erase_device}

abbrev or_else : Option DeviceViewModel → Option DeviceViewModel → Option DeviceViewModel
or_else none o = o
or_else (some d) o = some d

-- No two devices have one id.
abbrev pub HasUniqueIds : List DeviceViewModel → Type 0
HasUniqueIds [] = Unit
HasUniqueIds (d ∷ ds) = (find_device d.id ds ≡ none) × HasUniqueIds ds

pub find_device-append :
    (id : Bytes) (ds : List DeviceViewModel) (v : DeviceViewModel)
    → find_device id (ds ++ v ∷ [])
      ≡ or_else (find_device id ds) (if equal v.id id then some v else none)
unfolding find_device
find_device-append id [] v = refl
find_device-append id (d ∷ ds) v = ground (arith, find_device-append id ds v)

-- What is found has the id that was asked for.
pub id-find_device :
    (id : Bytes) (ds : List DeviceViewModel) (v : DeviceViewModel)
    → find_device id ds ≡ some v
    → v.id ≡ id
unfolding find_device
id-find_device id [] v h = cc
id-find_device id (d ∷ ds) v h = ground (arith, id-find_device id ds v, equal_iff d.id id)

pub find_device-assign :
    (id j : Bytes) (v : DeviceViewModel) (ds : List DeviceViewModel)
    → v.id ≡ id
    → has_value (find_device id ds) ≡ true
    → find_device j (assign_device id v ds) ≡ (if equal id j then some v else find_device j ds)
unfolding find_device assign_device
find_device-assign id j v [] e h = cc
find_device-assign id j v (d ∷ ds) e h = ground (
  arith,
  find_device-assign id j v ds e,
  equal_iff d.id id,
  equal_iff d.id j,
  equal_iff id j,
  equal_iff v.id j,
)

pub find_device-erase :
    (id j : Bytes) (ds : List DeviceViewModel)
    → HasUniqueIds ds
    → find_device j (erase_device id ds) ≡ (if equal id j then none else find_device j ds)
unfolding find_device erase_device
find_device-erase id j [] u = ground arith
find_device-erase id j (d ∷ ds) u =
    ground
      (arith, find_device-erase id j ds u.1, equal_iff d.id id, equal_iff d.id j, equal_iff id j)

pub HasUniqueIds-append :
    (ds : List DeviceViewModel) (v : DeviceViewModel)
    → HasUniqueIds ds
    → find_device v.id ds ≡ none
    → HasUniqueIds (ds ++ v ∷ [])
unfolding find_device
HasUniqueIds-append [] v u h = (refl, tt)
HasUniqueIds-append (d ∷ ds) v u h = (
  ground (arith, find_device-append d.id ds v, equal_iff d.id v.id, equal_iff v.id d.id),
  HasUniqueIds-append ds v u.1 (ground arith),
)

find_device-assign_none :
    (id j : Bytes) (v : DeviceViewModel) (ds : List DeviceViewModel)
    → equal v.id j ≡ false
    → find_device j ds ≡ none
    → find_device j (assign_device id v ds) ≡ none
unfolding find_device assign_device
find_device-assign_none id j v [] e h = refl
find_device-assign_none id j v (d ∷ ds) e h = ground (arith, find_device-assign_none id j v ds e)

find_device-erase_none :
    (id j : Bytes) (ds : List DeviceViewModel)
    → find_device j ds ≡ none
    → find_device j (erase_device id ds) ≡ none
unfolding find_device erase_device
find_device-erase_none id j [] h = refl
find_device-erase_none id j (d ∷ ds) h = ground (arith, find_device-erase_none id j ds)

pub HasUniqueIds-assign :
    (id : Bytes) (v : DeviceViewModel) (ds : List DeviceViewModel)
    → v.id ≡ id
    → HasUniqueIds ds
    → HasUniqueIds (assign_device id v ds)
unfolding assign_device
HasUniqueIds-assign id v [] e u = u
HasUniqueIds-assign id v (d ∷ ds) e u = elim (Bool-cases (equal d.id id)) [
  | inl here ↦ rw here (rw (e ∙ sym ((equal_iff d.id id).0 here)) u.0, u.1)
  | inr later ↦ rw later (
    find_device-assign_none id d.id v ds (ground (arith, equal_iff d.id id, equal_iff v.id d.id))
        u.0,
    HasUniqueIds-assign id v ds e u.1,
  )
]

pub HasUniqueIds-erase :
    (id : Bytes) (ds : List DeviceViewModel) → HasUniqueIds ds → HasUniqueIds (erase_device id ds)
unfolding erase_device
HasUniqueIds-erase id [] u = u
HasUniqueIds-erase id (d ∷ ds) u = elim (Bool-cases (equal d.id id)) [
  | inl here ↦ rw here u.1
  | inr later ↦ rw later (find_device-erase_none id d.id ds u.0, HasUniqueIds-erase id ds u.1)
]
