-- ===== src/DeviceStorageService/Stopped.antt =====
-- Where the loop of `Execute` in src/Watchlist/DeviceStorageService.cpp leaves a batch, and why.
use watchlist.Prelude.{
  Bool, true, Option, none, some, List, [], ◌∷◌, ◌++◌, ◌≡◌, ◌⊎◌, inl, inr, refl, ap, map, Bytes,
  bytes,
}
use watchlist.Gui.Device.{DeviceViewModel, DeviceCommandKind, DeviceCommand}
use watchlist.Storage.Item.{DatabaseItem, Failure, invalid_argument, Result, ok, err, Done}
use watchlist.Storage.Interface.{IDatabase}
use watchlist.DeviceStorageService.{
  DeviceStorageResult, to_database_item, to_view_model, run_kind, with_device, drop_result,
  run_commands, failed, what, unknown_command,
}

module _ (d : IDatabase) where
  -- Commands that were executed one after the other, each of which returned.
  pub data Returned : List DeviceCommand → d.State → d.State → Type 0 where
    nothing : {s : d.State} → Returned [] s s
    next :
        {c : DeviceCommand} {cs : List DeviceCommand} {s s' t : d.State}
        → run_kind d c.kind c s ≡ (ok tt, s')
        → Returned cs s' t
        → Returned (c ∷ cs) s t

  -- A call of the database on the command's device, which is missing or for which the call throws.
  abbrev pub Fails :
      Bytes → (DatabaseItem → d.State → Done × d.State) → DeviceCommand → d.State → Failure → Type 0
  Fails missing f c s e =
      ((c.device ≡ none) × (e ≡ invalid_argument missing))
      ⊎ ((v : DeviceViewModel) × (c.device ≡ some v) × ((f (to_database_item v) s).0 ≡ err e))

  -- Why a command throws.
  abbrev pub Throws : DeviceCommandKind → DeviceCommand → d.State → Failure → Type 0
  Throws DeviceCommandKind.refresh c s e = ⊥
  Throws DeviceCommandKind.add c s e =
      Fails (bytes "Add command is missing device data") d.add_item c s e
  Throws DeviceCommandKind.edit c s e =
      Fails (bytes "Update command is missing device data") d.upsert_item c s e
  Throws DeviceCommandKind.set_alive c s e =
      Fails (bytes "Update command is missing device data") d.upsert_item c s e
  Throws DeviceCommandKind.delete c s e = (d.remove_item c.target_id s).0 ≡ err e

  -- The loop ends with the batch, or with a command that throws.
  pub data Stops (left : List DeviceCommand) (reached : d.State) (r : Done × d.State) : Type 0 where
    at_end : left ≡ [] → r ≡ (ok tt, reached) → Stops left reached r
    at_throw :
        (c : DeviceCommand) (rest : List DeviceCommand) (e : Failure)
        → left ≡ c ∷ rest
        → run_kind d c.kind c reached ≡ r
        → r.0 ≡ err e
        → Throws c.kind c reached e
        → Stops left reached r

  pub record Stopped (cs : List DeviceCommand) (s : d.State) (r : Done × d.State) : Type 0 where
    pub finished : List DeviceCommand
    pub left : List DeviceCommand
    pub reached : d.State
    pub splits : cs ≡ finished ++ left
    pub path : Returned finished s reached
    pub stop : Stops left reached r

  with_device-Fails :
      (missing : Bytes) (f : DatabaseItem → d.State → Done × d.State) (c : DeviceCommand)
      (device : Option DeviceViewModel) (s : d.State) (e : Failure)
      → c.device ≡ device
      → (with_device d missing device f s).0 ≡ err e
      → Fails missing f c s e
  unfolding with_device
  with_device-Fails missing f c none s e i h = inl (i, cc)
  with_device-Fails missing f c (some v) s e i h = inr (v, i, h)

  drop_result-err :
      (r : Result Bool × d.State) (e : Failure) → (drop_result d r).0 ≡ err e → r.0 ≡ err e
  unfolding drop_result
  drop_result-err (ok b, s) e h = absurd cc
  drop_result-err (err x, s) e h = cc

  run_kind-Throws :
      (kind : DeviceCommandKind) (c : DeviceCommand) (s : d.State) (e : Failure)
      → (run_kind d kind c s).0 ≡ err e
      → Throws kind c s e
  unfolding run_kind
  run_kind-Throws DeviceCommandKind.refresh c s e h = absurd cc
  run_kind-Throws DeviceCommandKind.add c s e h =
      with_device-Fails _ d.add_item c c.device s e refl h
  run_kind-Throws DeviceCommandKind.edit c s e h =
      with_device-Fails _ d.upsert_item c c.device s e refl h
  run_kind-Throws DeviceCommandKind.set_alive c s e h =
      with_device-Fails _ d.upsert_item c c.device s e refl h
  run_kind-Throws DeviceCommandKind.delete c s e h =
      drop_result-err (d.remove_item c.target_id s) e h

  pub run_commands-Stopped :
      (cs : List DeviceCommand) (s : d.State) → Stopped cs s (run_commands d cs s)
  unfolding run_commands
  run_commands-Stopped [] s = record {
    finished = [];
    left = [];
    reached = s;
    splits = refl;
    path = nothing;
    stop = at_end refl refl;
  }
  run_commands-Stopped (c ∷ cs) s =
      after (run_kind d c.kind c s) refl (run_commands-Stopped cs (run_kind d c.kind c s).1)
    where
      after :
          (r : Done × d.State)
          → run_kind d c.kind c s ≡ r
          → Stopped cs r.1 (run_commands d cs r.1)
          → Stopped (c ∷ cs) s (elim r.0 [ ok _ ↦ run_commands d cs r.1 | err e ↦ (err e, r.1) ])
      after (ok _, s') e rest = record {
        finished = c ∷ rest.finished;
        left = rest.left;
        reached = rest.reached;
        splits = ap (◌∷◌ c) rest.splits;
        path = next e rest.path;
        stop = rest.stop;
      }
      after (err x, s') e rest = record {
        finished = [];
        left = c ∷ cs;
        reached = s;
        splits = refl;
        path = nothing;
        stop =
            at_throw c cs x refl e refl
              (run_kind-Throws c.kind c s x (ap (λ (r : Done × d.State). r.0) e));
      }

  -- The list that a result of success holds; no list after a throw.
  abbrev pub Lists : Result (List DatabaseItem) → DeviceStorageResult → Type 0
  Lists (ok items) r = r ≡ record { success = true; error = []; devices = map to_view_model items }
  Lists (err e) r = r ≡ failed (what (unknown_command d) e)
