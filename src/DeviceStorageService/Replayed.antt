-- ===== src/DeviceStorageService/Replayed.antt =====
-- Commands against the contract of the database: each does what it says, or throws.
use mathlib.Core.Path.{fun_ext}
use watchlist.Prelude.{
  Bool, Option, none, some, List, [], ◌∷◌, ◌≡◌, refl, sym, ap, ◌∙◌, arith, map, Bytes,
}
use watchlist.Gui.Device.{DeviceViewModel, DeviceCommandKind, DeviceCommand}
use watchlist.Gui.DeviceMonitorState.{find_device}
use watchlist.Gui.DeviceMonitorState.Replay.{View, apply_kind, replay}
use watchlist.Storage.Item.{DatabaseItem, Result, ok, err, Done}
use watchlist.Storage.Interface.{
  IDatabase, Contract, Items, Changes, find_item, with_item, without_item,
}
use watchlist.DeviceStorageService.Stopped.{Returned, nothing, next, Stops, at_end, at_throw}
use watchlist.DeviceStorageService.{
  to_database_item, to_view_model, run_kind, with_device, drop_result,
}

abbrev pub as_view : Option DatabaseItem → Option DeviceViewModel
as_view none = none
as_view (some i) = some (to_view_model i)

-- The stored items as the devices that the GUI would show for them.
abbrev pub stored : Items → View
stored view id = as_view (view id)

pub find_device-map :
    (id : Bytes) (items : List DatabaseItem)
    → find_device id (map to_view_model items) ≡ as_view (find_item items id)
unfolding find_device find_item to_view_model
find_device-map id [] = refl
find_device-map id (i ∷ is) = ground (arith, find_device-map id is)

stored-with_item :
    (v : DeviceViewModel) (view : Items)
    → stored (with_item (to_database_item v) view)
      ≡ apply_kind DeviceCommandKind.add v.id (some v) (stored view)
unfolding to_database_item to_view_model
stored-with_item v view = fun_ext (λ id. ground arith)

stored-without_item :
    (target : Bytes) (view : Items)
    → stored (without_item target view)
      ≡ apply_kind DeviceCommandKind.delete target none (stored view)
stored-without_item target view = fun_ext (λ id. ground arith)

module _ (d : IDatabase) (k : Contract d) where
  open k use {IsOpen, view}

  -- One call of the database: the effect of the command if it returns, and none if it throws.
  abbrev StepFor : View → View → Done → View → Type 0
  StepFor before wanted (ok _) after = after ≡ wanted
  StepFor before wanted (err e) after = after ≡ before

  Changes-StepFor :
      (r : Done) (before after wanted : Items) (w : View)
      → stored wanted ≡ w
      → Changes r before after wanted
      → StepFor (stored before) w r (stored after)
  Changes-StepFor (ok _) before after wanted w e h = ap stored (fun_ext h) ∙ e
  Changes-StepFor (err _) before after wanted w e h = ap stored (fun_ext h)

  record Stepped (kind : DeviceCommandKind) (c : DeviceCommand) (s : d.State) (r : Done × d.State)
      : Type 0 where
    still_open : IsOpen r.1
    did :
        StepFor
          (stored (view s))
          (apply_kind kind c.target_id c.device (stored (view s)))
          r.0
          (stored (view r.1))

  write_call :
      (kind : DeviceCommandKind) (c : DeviceCommand) (v : DeviceViewModel) (s : d.State)
      (r : Done × d.State)
      → apply_kind kind c.target_id c.device (stored (view s))
        ≡ apply_kind DeviceCommandKind.add v.id (some v) (stored (view s))
      → IsOpen r.1
      → Changes r.0 (view s) (view r.1) (with_item (to_database_item v) (view s))
      → Stepped kind c s r
  write_call kind c v s r e o h = record {
    still_open = o;
    did = Changes-StepFor r.0 (view s) (view r.1) _ _ (stored-with_item v (view s) ∙ sym e) h;
  }

  drop_result-Stepped :
      (c : DeviceCommand) (s : d.State) (r : Result Bool × d.State)
      → IsOpen r.1
      → Changes r.0 (view s) (view r.1) (without_item c.target_id (view s))
      → Stepped DeviceCommandKind.delete c s (drop_result d r)
  unfolding drop_result
  drop_result-Stepped c s (ok b, s') o h = record {
    still_open = o;
    did =
        Changes-StepFor (ok tt) (view s) (view s') _ _ (stored-without_item c.target_id (view s)) h;
  }
  drop_result-Stepped c s (err e, s') o h = record {
    still_open = o;
    did = Changes-StepFor (err e) (view s) (view s') (view s) _ refl h;
  }

  device_call :
      (kind : DeviceCommandKind) (c : DeviceCommand) (device : Option DeviceViewModel)
      (missing : Bytes) (f : DatabaseItem → d.State → Done × d.State) (s : d.State)
      → ((v : DeviceViewModel) → device ≡ some v → Stepped kind c s (f (to_database_item v) s))
      → IsOpen s
      → Stepped kind c s (with_device d missing device f s)
  unfolding with_device
  device_call kind c none missing f s h o = record { still_open = o; did = refl }
  device_call kind c (some v) missing f s h o = h v refl

  run_kind-Stepped :
      (kind : DeviceCommandKind) (c : DeviceCommand) (s : d.State)
      → IsOpen s
      → Stepped kind c s (run_kind d kind c s)
  unfolding run_kind
  run_kind-Stepped DeviceCommandKind.refresh c s o = record { still_open = o; did = refl }
  run_kind-Stepped DeviceCommandKind.add c s o =
      device_call _ c c.device _ d.add_item s
        (λ v e.
          write_call _ c v s _
            (ap
              (λ (x : Option DeviceViewModel).
                apply_kind DeviceCommandKind.add v.id x (stored (view s)))
              e)
            (k.open_add _ s o) (k.add_changes _ s o))
        o
  run_kind-Stepped DeviceCommandKind.edit c s o =
      device_call _ c c.device _ d.upsert_item s
        (λ v e.
          write_call _ c v s _
            (ap
              (λ (x : Option DeviceViewModel).
                apply_kind DeviceCommandKind.add v.id x (stored (view s)))
              e)
            (k.open_upsert _ s o) (k.upsert_changes _ s o))
        o
  run_kind-Stepped DeviceCommandKind.set_alive c s o =
      device_call _ c c.device _ d.upsert_item s
        (λ v e.
          write_call _ c v s _
            (ap
              (λ (x : Option DeviceViewModel).
                apply_kind DeviceCommandKind.add v.id x (stored (view s)))
              e)
            (k.open_upsert _ s o) (k.upsert_changes _ s o))
        o
  run_kind-Stepped DeviceCommandKind.delete c s o =
      drop_result-Stepped c s (d.remove_item c.target_id s) (k.open_remove _ s o)
        (k.remove_changes _ s o)

  -- Commands that returned were replayed on what is stored.
  pub record Replayed (finished : List DeviceCommand) (s t : d.State) : Type 0 where
    pub still_open : IsOpen t
    pub replayed : stored (view t) ≡ replay finished (stored (view s))

  pub Returned-Replayed :
      (finished : List DeviceCommand) (s t : d.State)
      → IsOpen s
      → Returned d finished s t
      → Replayed finished s t
  unfolding replay
  Returned-Replayed [] s _ o nothing = record { still_open = o; replayed = refl }
  Returned-Replayed (c ∷ cs) s t o (next {s' = s'} e path) =
      let first = run_kind-Stepped c.kind c s o in
      let at : IsOpen s' = rw e at first.still_open in
      let rest = Returned-Replayed cs s' t at path in
      record {
        still_open = rest.still_open;
        replayed = rest.replayed ∙ ap (replay cs) (rw e at first.did);
      }

  pub Stops-Replayed :
      (finished left : List DeviceCommand) (s reached : d.State) (r : Done × d.State)
      → Replayed finished s reached
      → Stops d left reached r
      → Replayed finished s r.1
  Stops-Replayed finished left s reached r h (at_end l e) = rw e h
  Stops-Replayed finished left s reached r h (at_throw c rest x l e f b) =
      let last = run_kind-Stepped c.kind c reached h.still_open in
      record { still_open = rw e at last.still_open; replayed = rw (e, f) at last.did ∙ h.replayed }
