-- ===== src/Gui/DeviceMonitorState/Invariant.antt =====
-- What every method of the device monitor keeps: ids stay unique, ports stay 16-bit numbers, and
-- each queued command carries what the storage service wants of its kind.
use watchlist.Prelude.{
  ◌≤◌, Option, none, some, List, [], ◌∷◌, ◌++◌, ◌≡◌, inl, inr, refl, Bytes, equal, All, Bool-cases,
  has_value,
}
use watchlist.Gui.Device.{DeviceViewModel, DeviceCommandKind, DeviceCommand}
use watchlist.Gui.DeviceMonitorState.{
  DeviceMonitorState, assign_device, erase_device, max_port, replace_devices, request_refresh,
  begin_add, begin_edit, begin_edit_on, cancel_editor, request_delete, cancel_delete, set_error,
  clear_error, request_exit, consume_commands, find_device,
}
use watchlist.Gui.DeviceMonitorState.Devices.{
  HasUniqueIds, HasUniqueIds-append, HasUniqueIds-assign, HasUniqueIds-erase,
}
use watchlist.Gui.DeviceMonitorState.Calls.{Call, run_call, run_calls}
use watchlist.Gui.DeviceMonitorState.Effects.{
  PortsFit, Effect, nothing, refreshed, added, assigned, erased, HasEffect, HasEffect-unchanged,
  submit_editor-HasEffect, confirm_delete-HasEffect, set_alive-HasEffect,
}

-- A command that writes a device carries it, under the id that it targets.
pub record Carries (id : Bytes) (device : Option DeviceViewModel) : Type 0 where
  pub written : DeviceViewModel
  pub device_is : device ≡ some written
  pub id_is : written.id ≡ id
  pub port_fits : written.port ≤ max_port

abbrev pub CompleteFor : DeviceCommandKind → Bytes → Option DeviceViewModel → Type 0
CompleteFor DeviceCommandKind.refresh id device = Unit
CompleteFor DeviceCommandKind.delete id device = Unit
CompleteFor _ id device = Carries id device

abbrev pub IsComplete : DeviceCommand → Type 0
IsComplete c = CompleteFor c.kind c.target_id c.device

pub record IsValid (s : DeviceMonitorState) : Type 0 where
  pub unique : HasUniqueIds s.devices
  pub ports : PortsFit s.devices
  pub complete : All IsComplete s.commands

PortsFit-append :
    (ds : List DeviceViewModel) (v : DeviceViewModel)
    → PortsFit ds
    → v.port ≤ max_port
    → PortsFit (ds ++ v ∷ [])
PortsFit-append [] v f h = (h, tt)
PortsFit-append (d ∷ ds) v f h = (f.0, PortsFit-append ds v f.1 h)

PortsFit-assign :
    (id : Bytes) (v : DeviceViewModel) (ds : List DeviceViewModel)
    → PortsFit ds
    → v.port ≤ max_port
    → PortsFit (assign_device id v ds)
unfolding assign_device
PortsFit-assign id v [] f h = f
PortsFit-assign id v (d ∷ ds) f h = elim (Bool-cases (equal d.id id)) [
  | inl here ↦ rw here (h, f.1)
  | inr later ↦ rw later (f.0, PortsFit-assign id v ds f.1 h)
]

PortsFit-erase :
    (id : Bytes) (ds : List DeviceViewModel) → PortsFit ds → PortsFit (erase_device id ds)
unfolding erase_device
PortsFit-erase id [] f = f
PortsFit-erase id (d ∷ ds) f = elim (Bool-cases (equal d.id id)) [
  | inl here ↦ rw here f.1
  | inr later ↦ rw later (f.0, PortsFit-erase id ds f.1)
]

Effect-unique :
    {before after : List DeviceViewModel} {queued : List DeviceCommand}
    → HasUniqueIds before
    → Effect before after queued
    → HasUniqueIds after
Effect-unique u (nothing a q) = rw a u
Effect-unique u (refreshed a q) = rw a u
Effect-unique u (added v free p a q) = rw a (HasUniqueIds-append _ v u free)
Effect-unique u (assigned kind id v e k found p a q) = rw a (HasUniqueIds-assign id v _ e u)
Effect-unique u (erased id a q) = rw a (HasUniqueIds-erase id _ u)

Effect-ports :
    {before after : List DeviceViewModel} {queued : List DeviceCommand}
    → PortsFit before
    → Effect before after queued
    → PortsFit after
Effect-ports f (nothing a q) = rw a f
Effect-ports f (refreshed a q) = rw a f
Effect-ports f (added v free p a q) = rw a (PortsFit-append _ v f p)
Effect-ports f (assigned kind id v e k found p a q) = rw a (PortsFit-assign id v _ f p)
Effect-ports f (erased id a q) = rw a (PortsFit-erase id _ f)

CompleteFor-written :
    (kind : DeviceCommandKind) (id : Bytes) (v : DeviceViewModel)
    → v.id ≡ id
    → v.port ≤ max_port
    → CompleteFor kind id (some v)
CompleteFor-written DeviceCommandKind.refresh id v e p = tt
CompleteFor-written DeviceCommandKind.delete id v e p = tt
CompleteFor-written _ id v e p = record { written = v; device_is = refl; id_is = e; port_fits = p }

Effect-IsComplete :
    {before after : List DeviceViewModel} {queued : List DeviceCommand}
    → Effect before after queued
    → All IsComplete queued
Effect-IsComplete (nothing a q) = rw q tt
Effect-IsComplete (refreshed a q) = rw q (tt, tt)
Effect-IsComplete (added v free p a q) =
    rw q (CompleteFor-written DeviceCommandKind.add v.id v refl p, tt)
Effect-IsComplete (assigned kind id v e k found p a q) =
    rw q (CompleteFor-written kind id v e p, tt)
Effect-IsComplete (erased id a q) = rw q (tt, tt)

All-append {ℓ κ} :
    {A : Type ℓ} (P : A → Type κ) (xs ys : List A) → All P xs → All P ys → All P (xs ++ ys)
All-append P [] ys h k = k
All-append P (x ∷ xs) ys h k = (h.0, All-append P xs ys h.1 k)

pub HasEffect-IsValid : {s s' : DeviceMonitorState} → IsValid s → HasEffect s s' → IsValid s'
HasEffect-IsValid {s} v h = record {
  unique = Effect-unique v.unique h.effect;
  ports = Effect-ports v.ports h.effect;
  complete =
      rw h.commands
        (All-append IsComplete s.commands h.queued v.complete (Effect-IsComplete h.effect));
}

begin_edit_on-HasEffect :
    (o : Option DeviceViewModel) (s : DeviceMonitorState) → HasEffect s (begin_edit_on o s).1
unfolding begin_edit_on set_error
begin_edit_on-HasEffect none s = HasEffect-unchanged s _ refl refl
begin_edit_on-HasEffect (some v) s = HasEffect-unchanged s _ refl refl

request_delete-HasEffect :
    (id : Bytes) (s : DeviceMonitorState) → HasEffect s (request_delete id s).1
unfolding request_delete
request_delete-HasEffect id s = elim (Bool-cases (has_value (find_device id s.devices))) [
  | inl found ↦ rw found (HasEffect-unchanged s _ refl refl)
  | inr gone ↦ rw gone (HasEffect-unchanged s _ refl refl)
]

-- The calls that the GUI makes on its own, without the storage service's side.
abbrev pub IsLocal : Call → Type 0
IsLocal (Call.replace_devices ds) = ⊥
IsLocal Call.consume_commands = ⊥
IsLocal _ = Unit

pub run_call-HasEffect :
    (c : Call) (s : DeviceMonitorState) → IsLocal c → IsValid s → HasEffect s (run_call c s)
unfolding run_call request_refresh begin_add cancel_editor cancel_delete request_exit clear_error
    set_error begin_edit
run_call-HasEffect (Call.replace_devices ds) s l v = absurd l
run_call-HasEffect Call.consume_commands s l v = absurd l
run_call-HasEffect Call.request_refresh s l v = record {
  queued = _;
  effect = refreshed refl refl;
  commands = refl;
}
run_call-HasEffect Call.submit_editor s l v = submit_editor-HasEffect s
run_call-HasEffect Call.confirm_delete s l v = confirm_delete-HasEffect s
run_call-HasEffect (Call.begin_edit id) s l v = begin_edit_on-HasEffect (find_device id s.devices) s
run_call-HasEffect (Call.request_delete id) s l v = request_delete-HasEffect id s
run_call-HasEffect (Call.set_alive id alive) s l v = set_alive-HasEffect id alive s v.ports
run_call-HasEffect _ s l v = HasEffect-unchanged s _ refl refl

-- A list of devices that the storage service may hand over.
abbrev pub IsAdmissible : Call → Type 0
IsAdmissible (Call.replace_devices ds) = HasUniqueIds ds × PortsFit ds
IsAdmissible _ = Unit

run_call-IsValid :
    (c : Call) (s : DeviceMonitorState) → IsAdmissible c → IsValid s → IsValid (run_call c s)
unfolding run_call replace_devices consume_commands
run_call-IsValid (Call.replace_devices ds) s a v = record {
  unique = a.0;
  ports = a.1;
  complete = v.complete;
}
run_call-IsValid Call.consume_commands s a v = record {
  unique = v.unique;
  ports = v.ports;
  complete = tt;
}
run_call-IsValid c s a v = HasEffect-IsValid v (run_call-HasEffect c s tt v)

-- From a valid state, whatever calls the GUI makes in whatever order, if the lists that replace the
-- devices have unique ids and 16-bit ports, the device ids stay unique, the ports stay 16-bit, and
-- every queued add, edit and set-alive command carries a device under its target id.
pub run_calls-IsValid :
    (cs : List Call) (s : DeviceMonitorState)
    → All IsAdmissible cs
    → IsValid s
    → IsValid (run_calls cs s)
unfolding run_calls
run_calls-IsValid [] s a v = v
run_calls-IsValid (c ∷ cs) s a v =
    run_calls-IsValid cs (run_call c s) a.1 (run_call-IsValid c s a.0 v)
