-- ===== src/DeviceStorageService/Execute.antt =====
-- A batch against the contract of the database: it does what its commands say, up to the first throw.
use watchlist.Prelude.{true, List, [], ◌∷◌, ◌++◌, ◌≡◌, refl, ap, ◌∙◌, map, Bytes}
use watchlist.Gui.Device.{DeviceCommand}
use watchlist.Gui.DeviceMonitorState.{find_device}
use watchlist.Gui.DeviceMonitorState.Replay.{replay}
use watchlist.Storage.Item.{DatabaseItem, Failure, Result, ok, err, Done}
use watchlist.Storage.Interface.{IDatabase, Contract, Items, Reads}
use watchlist.DeviceStorageService.Stopped.{
  Returned, Throws, Stops, at_end, at_throw, run_commands-Stopped, Lists,
}
use watchlist.DeviceStorageService.{
  DeviceStorageResult, to_view_model, run_kind, run_commands, report, execute, failed, what,
  unknown_command,
}
use watchlist.DeviceStorageService.Replayed.{
  as_view, stored, find_device-map, Returned-Replayed, Stops-Replayed,
}

module _ (d : IDatabase) (k : Contract d) where
  open k use {IsOpen, view}

  -- How a batch ends and what its result says: the whole batch was executed, and the result lists the
  -- stored devices unless the listing throws; or the next command throws, and the result is its error.
  pub data Ends (left : List DeviceCommand) (reached : d.State) (r : DeviceStorageResult × d.State)
      : Type 0 where
    all_returned :
        left ≡ []
        → r.1 ≡ reached
        → Lists d (d.get_all_sorted_by_id reached) r.0
        → Ends left reached r
    command_threw :
        (c : DeviceCommand) (rest : List DeviceCommand) (e : Failure)
        → left ≡ c ∷ rest
        → run_kind d c.kind c reached ≡ (err e, r.1)
        → Throws d c.kind c reached e
        → r.0 ≡ failed (what (unknown_command d) e)
        → Ends left reached r

  -- What a batch did. `finished` are the commands that returned, `left` those from the first throw on.
  pub record Executed (cs : List DeviceCommand) (s : d.State) (r : DeviceStorageResult × d.State)
      : Type 0 where
    pub finished : List DeviceCommand
    pub left : List DeviceCommand
    pub reached : d.State
    pub splits : cs ≡ finished ++ left
    pub path : Returned d finished s reached
    pub ends : Ends left reached r
    pub still_open : IsOpen r.1
    pub replayed : stored (view r.1) ≡ replay finished (stored (view s))
    pub all_done : r.0.success ≡ true → left ≡ []
    pub reported :
        r.0.success ≡ true → (id : Bytes) → find_device id r.0.devices ≡ stored (view r.1) id

  report-Lists : (s : d.State) → Lists d (d.get_all_sorted_by_id s) (report d (ok tt) s)
  unfolding report
  report-Lists s = listed (d.get_all_sorted_by_id s)
    where
      listed :
          (q : Result (List DatabaseItem))
          → Lists d q (elim q [
            | ok items ↦ record { success = true; error = []; devices = map to_view_model items }
            | err e ↦ failed (what (unknown_command d) e)
          ])
      listed (ok items) = refl
      listed (err e) = refl

  Stops-Ends :
      (left : List DeviceCommand) (reached : d.State) (r : Done × d.State)
      → Stops d left reached r
      → Ends left reached (report d r.0 r.1, r.1)
  Stops-Ends left reached r (at_end l e) = rw e (all_returned l refl (report-Lists reached))
  Stops-Ends left reached r (at_throw c rest x l e f b) =
      command_threw c rest x l (e ∙ ap (λ (x : Done). (x, r.1)) f) b (rw f (unfold report in refl))

  Lists-reported :
      (q : Result (List DatabaseItem)) (r : DeviceStorageResult) (v : Items)
      → Reads q v
      → Lists d q r
      → r.success ≡ true
      → (id : Bytes) → find_device id r.devices ≡ stored v id
  Lists-reported (ok items) r v reads l h id =
      rw l (find_device-map id items ∙ ap as_view (reads id))
  Lists-reported (err e) r v reads l h id = absurd cc

  Ends-all_done :
      (left : List DeviceCommand) (reached : d.State) (r : DeviceStorageResult × d.State)
      → Ends left reached r
      → r.0.success ≡ true
      → left ≡ []
  Ends-all_done left reached r (all_returned l e f) h = l
  Ends-all_done left reached r (command_threw c rest x l e b f) h = absurd cc

  Ends-reported :
      (left : List DeviceCommand) (reached : d.State) (r : DeviceStorageResult × d.State)
      → IsOpen reached
      → Ends left reached r
      → r.0.success ≡ true
      → (id : Bytes) → find_device id r.0.devices ≡ stored (view r.1) id
  Ends-reported left reached r o (all_returned l e f) h = rw e (
      Lists-reported (d.get_all_sorted_by_id reached) r.0 (view reached) (k.sorted_reads reached o)
        f h)
  Ends-reported left reached r o (command_threw c rest x l e b f) h = absurd cc

  -- On an open database that keeps its contract, a batch is executed in its order up to the first
  -- command that throws, which is one without its device or one for which the database throws; the
  -- rest of the batch is not executed and nothing is rolled back. After a throw the result is its
  -- error, and otherwise the result lists the stored devices, or is the error of the listing.
  pub execute-Executed :
      (cs : List DeviceCommand) (s : d.State) → IsOpen s → Executed cs s (execute d cs s)
  unfolding execute
  execute-Executed cs s o =
      let ran = run_commands-Stopped d cs s in
      let (r, s') = run_commands d cs s in
      let replayed = Returned-Replayed d k ran.finished s ran.reached o ran.path in
      let after =
        Stops-Replayed d k ran.finished ran.left s ran.reached (r, s') replayed ran.stop in
      let ends = Stops-Ends ran.left ran.reached (r, s') ran.stop in
      record {
        finished = ran.finished;
        left = ran.left;
        reached = ran.reached;
        splits = ran.splits;
        path = ran.path;
        ends = ends;
        still_open = after.still_open;
        replayed = after.replayed;
        all_done = Ends-all_done ran.left ran.reached (report d r s', s') ends;
        reported = Ends-reported ran.left ran.reached (report d r s', s') replayed.still_open ends;
      }
