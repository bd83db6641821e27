-- ===== src/AppState.antt =====
-- src/Watchlist/AppState.hpp and src/Watchlist/AppState.cpp: the event history and the console form
-- that the GUI, MQTT and dispatcher threads share. Every operation holds the state's mutex for its
-- whole body, so that an operation is one step from state to state; `dispatch_outbound` takes the
-- mutex several times and is the sequence of those steps, with the handler's own steps between.
pub mod History
pub mod Console
pub mod Outbound
mod Examples
use watchlist.Prelude.{
  ℕ, ◌-◌, Bool, true, false, Option, none, some, List, [], ◌∷◌, ◌++◌, length, drop, ltb,
  if◌then◌else◌, Bytes, bytes,
}
use watchlist.Prelude.Int.{ℤ, pos}

pub record ConsoleState : Type 0 where
  pub broker_host : Bytes
  pub broker_port : ℤ
  pub client_id : Bytes
  pub connection_status : Bytes
  pub selected_message_type : ℤ
  pub script_name : Bytes
  pub device_id : Bytes
  pub payload : Bytes
  pub command : Bytes
  pub key : Bytes
  pub value : Bytes
  pub prompt : Bytes

abbrev pub default_console : ConsoleState
default_console = record {
  broker_host = bytes "localhost";
  broker_port = pos 1883;
  client_id = bytes "watchlist-client";
  connection_status = bytes "Offline";
  selected_message_type = pos 0;
  script_name = bytes "script1";
  device_id = bytes "device-1";
  payload = bytes "hello";
  command = bytes "status";
  key = bytes "sample";
  value = bytes "42";
  prompt = bytes "Summarize device health";
}

-- `H` is the type of outbound command handlers: callables of the program around the state.
pub record AppState (H : Type 0) : Type 0 where
  pub outbound_command_handler : Option H
  pub console : ConsoleState
  pub outbound : List Bytes
  pub received : List Bytes
  pub acks : List Bytes
  pub activity : List Bytes

abbrev pub max_lines : ℕ
max_lines = 50

-- How the call of a handler ends.
pub data Outcome : Type 0 where
  returned : Outcome
  threw : Bytes → Outcome
  threw_unknown : Outcome

unfoldable pub add_bounded : List Bytes → Bytes → List Bytes
add_bounded lines line =
    let pushed = lines ++ line ∷ [] in
    if ltb max_lines (length pushed) then drop (length pushed - max_lines) pushed else pushed

module _ {H : Type 0} where
  abbrev pub initial : AppState H
  initial = record {
    outbound_command_handler = none;
    console = default_console;
    outbound = [];
    received = [];
    acks = [];
    activity = [];
  }

  unfoldable pub snapshot_console : AppState H → ConsoleState
  snapshot_console s = s.console

  unfoldable pub update_console : ConsoleState → AppState H → AppState H
  update_console console s = record s { console = console }

  unfoldable pub update_console_form : ConsoleState → AppState H → AppState H
  update_console_form console s =
      let connection_status = s.console.connection_status in
      record s { console = record console { connection_status = connection_status } }

  unfoldable pub set_outbound_command_handler : Option H → AppState H → AppState H
  set_outbound_command_handler handler s = record s { outbound_command_handler = handler }

  unfoldable pub add_outbound : Bytes → AppState H → AppState H
  add_outbound line s = record s { outbound = add_bounded s.outbound line }

  unfoldable pub add_received : Bytes → AppState H → AppState H
  add_received line s = record s { received = add_bounded s.received line }

  unfoldable pub add_ack : Bytes → AppState H → AppState H
  add_ack line s = record s { acks = add_bounded s.acks line }

  unfoldable pub add_activity : Bytes → AppState H → AppState H
  add_activity line s = record s { activity = add_bounded s.activity line }

  -- What follows the call of the handler in the `try` block, and the `catch` clauses.
  after_handler : Bytes → Outcome × AppState H → Bool × AppState H
  after_handler payload (returned, s) = (true, add_outbound payload s)
  after_handler payload (threw what, s) =
      (false, add_activity (bytes "Unable to send request: " ++ what) s)
  after_handler payload (threw_unknown, s) = (
    false,
    add_activity (bytes "Unable to send request: outbound command failed with an unknown exception")
        s,
  )

-- The handler runs without the mutex, and may call operations of the state itself.
module _ {H : Type 0} (invoke : H → Bytes → AppState H → Outcome × AppState H) where
  -- On the copy of the handler that was taken under the mutex.
  dispatch_with : Bytes → AppState H → Option H → Bool × AppState H
  unfolding after_handler
  dispatch_with payload s none = (
    false,
    add_activity (bytes "Unable to send request: no outbound command handler is installed") s,
  )
  dispatch_with payload s (some handler) = after_handler payload (invoke handler payload s)

  unfoldable pub dispatch_outbound : Bytes → AppState H → Bool × AppState H
  unfolding dispatch_with
  dispatch_outbound payload s = dispatch_with payload s s.outbound_command_handler
