-- ===== src/Gui/DeviceMonitorState/Replay.antt =====
-- The queue of commands tells the storage service all that the GUI has done to its devices.
use mathlib.Core.Path.{fun_ext}
use watchlist.Prelude.{
  Option, none, some, List, [], ◌∷◌, ◌++◌, ◌≡◌, refl, sym, ap, ◌∙◌, inl, inr, arith, if◌then◌else◌,
  Bytes, equal, equal_iff, All,
}
use watchlist.Gui.Device.{DeviceViewModel, DeviceCommandKind, DeviceCommand}
use watchlist.Gui.DeviceMonitorState.{DeviceMonitorState, find_device, consume_commands}
use watchlist.Gui.DeviceMonitorState.Devices.{
  HasUniqueIds, find_device-append, find_device-assign, find_device-erase,
}
use watchlist.Gui.DeviceMonitorState.Calls.{Call, run_call, run_calls}
use watchlist.Gui.DeviceMonitorState.Effects.{
  Effect, nothing, refreshed, added, assigned, erased, HasEffect,
}
use watchlist.Gui.DeviceMonitorState.Invariant.{
  IsValid, IsLocal, run_call-HasEffect, HasEffect-IsValid,
}

-- A set of devices, by id.
abbrev pub View : Type 0
View = Bytes → Option DeviceViewModel

abbrev write : Option DeviceViewModel → View → View
write none view id = view id
write (some v) view id = if equal v.id id then some v else view id

abbrev pub apply_kind : DeviceCommandKind → Bytes → Option DeviceViewModel → View → View
apply_kind DeviceCommandKind.refresh target device view = view
apply_kind DeviceCommandKind.delete target device view =
    λ id. if equal target id then none else view id
apply_kind _ target device view = write device view

abbrev pub apply_command : DeviceCommand → View → View
apply_command c = apply_kind c.kind c.target_id c.device

-- What the commands say, in their order, starting from `view`.
unfoldable pub replay : List DeviceCommand → View → View
replay [] view = view
replay (c ∷ cs) view = replay cs (apply_command c view)

abbrev pub shown : DeviceMonitorState → View
shown s id = find_device id s.devices

pub replay-append :
    (cs ds : List DeviceCommand) (view : View) → replay (cs ++ ds) view ≡ replay ds (replay cs view)
unfolding replay
replay-append [] ds view = refl
replay-append (c ∷ cs) ds view = replay-append cs ds (apply_command c view)

Effect-replay :
    (before after : List DeviceViewModel) (queued : List DeviceCommand) (id : Bytes)
    → HasUniqueIds before
    → Effect before after queued
    → find_device id after ≡ replay queued (λ j. find_device j before) id
unfolding replay
Effect-replay before after queued id u (nothing a q) = rw (a, q)
Effect-replay before after queued id u (refreshed a q) = rw (a, q)
Effect-replay before after queued id u (added v free p a q) =
    rw (a, q) (ground (arith, find_device-append id before v, equal_iff v.id id))
Effect-replay before after queued id u (assigned kind target v e (inl k) found p a q) =
    rw (a, q, k) (ground (arith, find_device-assign target id v before e found))
Effect-replay before after queued id u (assigned kind target v e (inr k) found p a q) =
    rw (a, q, k) (ground (arith, find_device-assign target id v before e found))
Effect-replay before after queued id u (erased target a q) =
    rw (a, q) (find_device-erase target id before u)

-- The devices on the screen are those of `base`, changed by the commands that wait in the queue.
Tracks : View → DeviceMonitorState → Type 0
Tracks base s = shown s ≡ replay s.commands base

HasEffect-Tracks :
    (base : View) {s s' : DeviceMonitorState}
    → IsValid s
    → HasEffect s s'
    → Tracks base s
    → Tracks base s'
unfolding Tracks
HasEffect-Tracks base {s} {s'} v h t =
    fun_ext (λ id. Effect-replay s.devices s'.devices h.queued id v.unique h.effect)
    ∙ ap (replay h.queued) t
    ∙ rw h.commands (sym (replay-append s.commands h.queued base))

run_calls-Tracks :
    (cs : List Call) (base : View) (s : DeviceMonitorState)
    → All IsLocal cs
    → IsValid s
    → Tracks base s
    → Tracks base (run_calls cs s)
unfolding run_calls
run_calls-Tracks [] base s l v t = t
run_calls-Tracks (c ∷ cs) base s l v t =
    let e = run_call-HasEffect c s l.0 v in
    run_calls-Tracks cs base (run_call c s) l.1 (HasEffect-IsValid v e)
      (HasEffect-Tracks base v e t)

-- From a valid state with no command in the queue, after any calls of the GUI's own methods, the
-- commands that `ConsumeCommands` takes turn the devices that were shown before the calls into those
-- that are shown after them.
pub replay-consume_commands :
    (cs : List Call) (s : DeviceMonitorState)
    → All IsLocal cs
    → IsValid s
    → s.commands ≡ []
    → replay (consume_commands (run_calls cs s)).0 (shown s) ≡ shown (run_calls cs s)
unfolding consume_commands
replay-consume_commands cs s l v e =
    sym (unfold Tracks in run_calls-Tracks cs (shown s) s l v (unfold replay Tracks in rw e))
