-- ===== src/Messaging/MqttService/Mirrors.antt =====
-- The console's status line of src/Watchlist/AppState.hpp, which src/Watchlist/Messaging/MqttService.cpp
-- writes beside its own status.
use watchlist.Prelude.{Option, none, some, List, ◌≡◌, refl, value_or, Bytes}
use watchlist.AppState.{AppState, update_console, add_activity, snapshot_console}
use watchlist.Messaging.MqttService.{
  LifecycleStatus, offline, Library, Handlers, Impl, Application, show, status_text, initial_impl,
  track_operation, cancel_operation,
}
use watchlist.Messaging.MqttService.Connection.{lifecycle}
use watchlist.Messaging.MqttService.Events.{Event, run_events}
use watchlist.Messaging.MqttService.Invariants.{KeptByHandlers, KeptByParts}
use watchlist.Messaging.MqttService.Invariants.Steps.{run_events-keeps}

abbrev pub Shows : {H : Type 0} → Option (AppState H) → LifecycleStatus → Type 0
Shows none status = Unit
Shows (some x) status = x.console.connection_status ≡ status_text status

abbrev pub Mirrors : {l : Library} {h : Handlers} → Impl l h → Type 0
Mirrors s = Shows s.app_state s.status

module _ {l : Library} {h : Handlers} (a : Application l h) where
  show-Shows :
      (changed : Option LifecycleStatus) (detail : Bytes) (x : Option (AppState h.Outbound))
      (status : LifecycleStatus)
      → Shows x status
      → Shows (show changed detail x) (value_or changed status)
  unfolding show update_console add_activity snapshot_console
  show-Shows changed detail none status m = tt
  show-Shows none detail (some x) status m = m
  show-Shows (some new) detail (some x) status m = refl

  parts-Mirrors : KeptByParts a Mirrors
  unfolding track_operation cancel_operation
  parts-Mirrors = record {
    world_keeps = λ w s m. m;
    client_keeps = λ c s m. m;
    subscriptions_keep = λ x s m. m;
    status_handler_keeps = λ f s m. m;
    error_handler_keeps = λ f s m. m;
    shutting_down_keeps = λ b s m. m;
    track_keeps = λ operation s m. m;
    cancel_keeps = λ address s m. m;
    erase_keeps = λ address s m. m;
    clear_keeps = λ s m. m;
    show_keeps = λ changed detail s m. show-Shows changed detail s.app_state s.status m;
  }

  -- Where the application's handlers leave the console and the status in agreement: from a new service,
  -- after any calls of its methods and any callbacks of the client library, each run to its end before
  -- the next, the console of the application state, if there is one, shows the text of the service's
  -- lifecycle status.
  pub run_events-Mirrors :
      (u : KeptByHandlers a Mirrors) (es : List (Event l h))
      (app_state : Option (AppState h.Outbound)) (world : l.World)
      → Shows app_state offline
      → let s = run_events l h a es (initial_impl l h app_state world) in
        Shows s.app_state (lifecycle l h a s)
  unfolding lifecycle
  run_events-Mirrors u es app_state world m =
      run_events-keeps a Mirrors u parts-Mirrors es (initial_impl l h app_state world) m
