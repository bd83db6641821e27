-- ===== src/DeviceStorageService/Sync.antt =====
-- The GUI and the database: what the screen shows is what is stored.
use watchlist.Prelude.{true, List, [], ◌≡◌, ap, ◌∙◌, append-nil, All, Bytes}
use watchlist.Gui.Device.{DeviceCommand}
use watchlist.Gui.DeviceMonitorState.{DeviceMonitorState, find_device, consume_commands}
use watchlist.Gui.DeviceMonitorState.Calls.{Call, run_calls}
use watchlist.Gui.DeviceMonitorState.Invariant.{IsValid, IsLocal}
use watchlist.Gui.DeviceMonitorState.Replay.{shown, replay-consume_commands}
use watchlist.Storage.Interface.{IDatabase, Contract}
use watchlist.DeviceStorageService.{execute}
use watchlist.DeviceStorageService.Replayed.{stored}
use watchlist.DeviceStorageService.Execute.{execute-Executed}

module _ (d : IDatabase) (k : Contract d) where
  open k use {IsOpen, view}

  -- The screen shows what is stored, and no command waits.
  pub record InSync (g : DeviceMonitorState) (s : d.State) : Type 0 where
    pub valid : IsValid g
    pub is_open : IsOpen s
    pub idle : g.commands ≡ []
    pub same : shown g ≡ stored (view s)

  -- From a state in which the screen shows the stored devices and no command waits, after any calls of
  -- the GUI's own methods, if the batch that `ConsumeCommands` then takes is executed with success,
  -- the database holds what the screen shows, and so does the list of devices in the result.
  pub execute-consume_commands :
      (cs : List Call) (g : DeviceMonitorState) (s : d.State)
      → All IsLocal cs
      → InSync g s
      → (execute d (consume_commands (run_calls cs g)).0 s).0.success ≡ true
      → (stored (view (execute d (consume_commands (run_calls cs g)).0 s).1)
          ≡ shown (run_calls cs g))
        × ((id : Bytes)
            → find_device id (execute d (consume_commands (run_calls cs g)).0 s).0.devices
              ≡ shown (run_calls cs g) id)
  execute-consume_commands cs g s l h success =
      let batch : List DeviceCommand = (consume_commands (run_calls cs g)).0 in
      let done = execute-Executed d k batch s h.is_open in
      let whole : batch ≡ done.finished = done.splits ∙ rw (done.all_done success, append-nil) in
      let same : stored (view (execute d batch s).1) ≡ shown (run_calls cs g) =
        done.replayed ∙ rw (← whole, ← h.same) (replay-consume_commands cs g l h.valid h.idle) in
      (same, λ id. done.reported success id ∙ ap (λ (v : Bytes → _). v id) same)
