-- ===== src/AppState/Examples.antt =====
-- Tests of the state, and its theorems at concrete inputs.
use watchlist.Prelude.{some, List, [], ◌∷◌, ◌≡◌, refl, Bytes, bytes}
use watchlist.AppState.{
  AppState, ConsoleState, default_console, Outcome, threw, initial, add_bounded, add_received,
  add_ack, add_activity, set_outbound_command_handler, dispatch_outbound,
}
use watchlist.AppState.History.{
  Event, acks, received, lines_in, history, newest, record_all, record_all-history,
}
use watchlist.AppState.Console.{update_forms, last_form, update_forms-console}
use watchlist.AppState.Outbound.{Dispatched, dispatch_outbound-Dispatched}

-- A handler that sends nothing and reports a lost connection in the state that it was called on.
abbrev failing : Unit {0} → Bytes → AppState (Unit {0}) → Outcome × AppState (Unit {0})
failing _ payload s = (threw (bytes "offline"), add_activity (bytes "lost") s)

abbrev ready : AppState (Unit {0})
ready = set_outbound_command_handler (some tt) initial

abbrev events : List Event
events =
    record { log = acks; line = bytes "a" }
    ∷ record { log = received; line = bytes "r" }
    ∷ record { log = acks; line = bytes "b" }
    ∷ []

acks_kept : lines_in acks (record_all events ready) ≡ bytes "a" ∷ bytes "b" ∷ []
unfolding record_all add_ack add_received add_bounded set_outbound_command_handler bytes
acks_kept = refl

refused :
    (dispatch_outbound failing (bytes "p") ready).1.activity
    ≡ bytes "lost" ∷ bytes "Unable to send request: offline" ∷ []
unfolding dispatch_outbound set_outbound_command_handler add_activity add_bounded bytes
refused = refl

record_all-history_example : lines_in acks (record_all events ready) ≡ newest (history acks events)
record_all-history_example =
    record_all-history acks events ready (unfold set_outbound_command_handler in refl)

abbrev form : ConsoleState
form = record default_console { payload = bytes "new"; connection_status = bytes "Offline" }

update_forms-console_example : update_forms (default_console ∷ form ∷ []) ready ≡ record ready {
  console = record (last_form default_console (form ∷ [])) {
    connection_status = ready.console.connection_status;
  };
}
update_forms-console_example = update_forms-console default_console (form ∷ []) ready

dispatch_outbound-Dispatched_example :
    Dispatched failing (bytes "p") ready (dispatch_outbound failing (bytes "p") ready)
dispatch_outbound-Dispatched_example = dispatch_outbound-Dispatched failing (bytes "p") ready
