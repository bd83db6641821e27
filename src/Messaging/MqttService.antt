-- ===== src/Messaging/MqttService.antt =====
-- The state of src/Watchlist/Messaging/MqttService.cpp, its reports of statuses and errors, and its
-- pending operations. The Paho client library is not part of the repository: `Library` has a field
-- for each call of it, over a state of the library. The handlers that the application installs are
-- called without the service's mutex and may call the service: `Application` says what a call of one
-- does to the whole state.
pub mod Operations
pub mod Connection
pub mod Events
pub mod Invariants
pub mod Stages
pub mod Owned
pub mod Quiet
pub mod Mirrors
pub mod Pending
pub mod Routing
pub mod Run
mod Examples
use watchlist.Prelude.{
  ℕ, zero, suc, ◌+◌, ◌/◌, ◌%◌, Bool, true, false, not, ◌&&◌, Option, none, some, List, [], ◌∷◌,
  ◌++◌, if◌then◌else◌, is_empty, Bytes, bytes, equal, ltb, ◌==◌,
}
use watchlist.Prelude.Int.{ℤ, pos, negsuc}
use watchlist.AppState.{
  AppState, ConsoleState, Outcome, snapshot_console, update_console, add_activity,
}

pub data LifecycleStatus : Type 0 where
  offline connecting connected reconnecting disconnecting error : LifecycleStatus

unfoldable pub status_text : LifecycleStatus → Bytes
status_text offline = bytes "Offline"
status_text connecting = bytes "Connecting"
status_text connected = bytes "Connected"
status_text reconnecting = bytes "Reconnecting"
status_text disconnecting = bytes "Disconnecting"
status_text error = bytes "Error"

abbrev pub is_connected_status : LifecycleStatus → Bool
is_connected_status connected = true
is_connected_status _ = false

-- How a `try` block around the client's construction and connection ends.
pub data Attempt (A : Type 0) : Type 0 where
  returned : A → Attempt A
  mqtt_exception : Bytes → Attempt A
  std_exception : Bytes → Attempt A

-- The other calls throw `mqtt::exception` only; `threw` holds its text.
pub data Answer (A : Type 0) : Type 0 where
  answered : A → Answer A
  threw : Bytes → Answer A

-- `mqtt::async_client`. A listener is known by its address.
pub record Library : Type 1 where
  pub Client : Type 0
  pub World : Type 0
  pub create : Bytes → Bytes → World → Attempt Client × World
  pub connect : Client → World → Attempt (Unit {0}) × World
  pub subscribe : Client → Bytes → ℕ → ℕ → World → Answer (Unit {0}) × World
  pub unsubscribe : Client → Bytes → ℕ → World → Answer (Unit {0}) × World
  pub publish : Client → Bytes → Bytes → ℕ → Bool → ℕ → World → Answer (Unit {0}) × World
  pub is_connected : Client → World → Bool
  -- `disconnect(2s)`, and what `wait_for(3s)` of its token returns.
  pub disconnect : Client → World → Answer Bool × World
  pub disable_callbacks : Client → World → World

-- The types of the callables that the application installs.
pub record Handlers : Type 1 where
  pub Outbound : Type 0
  pub Message : Type 0
  pub Status : Type 0
  pub Error : Type 0

-- `OperationListener`. The address stands for the object's identity.
pub record OperationListener : Type 0 where
  pub address : ℕ
  pub operation : Bytes

-- `MqttToken`: what a callback reads of the token that it is called with.
pub record Token : Type 0 where
  pub error_message : Bytes
  pub return_code : ℤ

abbrev pub delivery_qos : ℕ
delivery_qos = 1

abbrev pub retain_messages : Bool
retain_messages = false

-- `operator<` of `std::string`.
unfoldable pub less : Bytes → Bytes → Bool
less a [] = false
less [] (d ∷ b) = true
less (c ∷ a) (d ∷ b) = if c == d then less a b else ltb c d

-- `insert_or_assign` of `std::map`, which keeps its keys in order.
unfoldable pub insert_or_assign {ℓ} : {V : Type ℓ} → Bytes → V → List (Bytes × V) → List (Bytes × V)
unfolding less
insert_or_assign k v [] = (k, v) ∷ []
insert_or_assign k v ((j, w) ∷ m) =
    let rest = (j, w) ∷ insert_or_assign k v m in
    if equal j k then (k, v) ∷ m else if less k j then (k, v) ∷ (j, w) ∷ m else rest

module _ (l : Library) (h : Handlers) where
  pub record Impl : Type 0 where
    pub app_state : Option (AppState h.Outbound)
    pub client : Option l.Client
    pub subscriptions : List (Bytes × h.Message)
    pub pending_operations : List OperationListener
    pub status_handler : Option h.Status
    pub error_handler : Option h.Error
    pub status : LifecycleStatus
    pub shutting_down : Bool
    -- The state of the client library, and the address of the next listener.
    pub world : l.World
    pub next_listener : ℕ

  -- What a call of an installed handler leaves, and how it ends.
  pub record Application : Type 0 where
    pub invoke_message : h.Message → Bytes → Bytes → Impl → Outcome × Impl
    pub invoke_status : h.Status → LifecycleStatus → Bytes → Impl → Outcome × Impl
    pub invoke_error : h.Error → Bytes → Impl → Outcome × Impl

  abbrev pub initial_impl : Option (AppState h.Outbound) → l.World → Impl
  initial_impl app_state world = record {
    app_state = app_state;
    client = none;
    subscriptions = [];
    pending_operations = [];
    status_handler = none;
    error_handler = none;
    status = offline;
    shutting_down = false;
    world = world;
    next_listener = 0;
  }

-- The console's status, if it changes, and a line of activity.
unfoldable pub show :
    {H : Type 0} → Option LifecycleStatus → Bytes → Option (AppState H) → Option (AppState H)
unfolding status_text
show changed detail none = none
show none detail (some s) = some (add_activity detail (update_console (snapshot_console s) s))
show (some status) detail (some s) = some (
    add_activity detail
      (update_console (record (snapshot_console s) { connection_status = status_text status }) s))

-- `std::erase_if` by the address.
unfoldable pub erase_listener : ℕ → List OperationListener → List OperationListener
erase_listener address [] = []
erase_listener address (o ∷ os) =
    let rest = erase_listener address os in if o.address == address then rest else o ∷ rest

-- `std::ranges::find_if` by the address.
unfoldable pub is_pending : ℕ → List OperationListener → Bool
is_pending address [] = false
is_pending address (o ∷ os) = if o.address == address then true else is_pending address os

-- `erase` of what it found: the first one.
unfoldable pub erase_found : ℕ → List OperationListener → List OperationListener
erase_found address [] = []
erase_found address (o ∷ os) = if o.address == address then os else o ∷ erase_found address os

module _ (l : Library) (h : Handlers) (a : Application l h) where
  abbrev State : Type 0
  State = Impl l h

  -- What the handlers throw is swallowed.
  unfoldable pub call_status : Option h.Status → LifecycleStatus → Bytes → State → State
  call_status none status detail s = s
  call_status (some handler) status detail s = (a.invoke_status handler status detail s).1

  unfoldable pub call_error : Option h.Error → Bytes → State → State
  call_error none text s = s
  call_error (some handler) text s = (a.invoke_error handler text s).1

  unfoldable pub set_status : LifecycleStatus → Bytes → State → State
  unfolding call_status show
  set_status status detail s =
      call_status s.status_handler status detail
        (record s { status = status; app_state = show (some status) detail s.app_state })

  unfoldable pub report_error : Bytes → Bool → State → State
  unfolding call_error show
  report_error text changes_lifecycle s =
      let fails = not s.shutting_down && changes_lifecycle in
      call_error s.error_handler text (record s {
        status = if fails then error else s.status;
        app_state = show (if fails then some error else none) text s.app_state;
      })

  unfoldable pub track_operation : Bytes → State → OperationListener × State
  track_operation operation s =
      let listener : OperationListener = record {
        address = s.next_listener;
        operation = operation;
      } in
      (
        listener,
        record s {
          pending_operations = s.pending_operations ++ listener ∷ [];
          next_listener = suc s.next_listener;
        },
      )

  unfoldable pub cancel_operation : ℕ → State → State
  unfolding erase_listener
  cancel_operation address s = record s {
    pending_operations = erase_listener address s.pending_operations;
  }

  unfoldable pub complete_operation : ℕ → Bytes → State → State
  unfolding is_pending erase_found report_error
  complete_operation address text s =
      let s' = record s { pending_operations = erase_found address s.pending_operations } in
      if is_pending address s.pending_operations
      then (if is_empty text then s' else report_error text false s')
      else s

  -- The end of an operation that was handed to the client: what it threw cancels the operation and
  -- is reported.
  unfoldable pub submitted : ℕ → (Bytes → Bytes) → Answer (Unit {0}) × l.World → State → State
  unfolding cancel_operation report_error
  submitted address failure (answered _, w) s = record s { world = w }
  submitted address failure (threw what, w) s =
      report_error (failure what) false (cancel_operation address (record s { world = w }))

  -- Subscribe, unsubscribe and publish track a listener, make their call with it, and catch.
  unfoldable pub hand_over :
      Bytes → (ℕ → l.World → Answer (Unit {0}) × l.World) → (Bytes → Bytes) → State → State
  unfolding track_operation submitted
  hand_over operation call failure s =
      let (listener, s') = track_operation operation s in
      submitted listener.address failure (call listener.address s'.world) s'
