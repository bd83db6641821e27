-- ===== src/Messaging/MqttService/Connection.antt =====
-- The connection of src/Watchlist/Messaging/MqttService.cpp: connecting, disconnecting, and the
-- callbacks that the client library makes about it, each as one step from state to state.
use watchlist.Prelude.{
  format_int, Bool, true, false, ◌&&◌, ◌||◌, Option, none, some, List, [], ◌∷◌, ◌++◌, if◌then◌else◌,
  is_empty, Bytes, bytes,
}
use watchlist.Prelude.Int.{ℤ, pos, ltb_ℤ}
use watchlist.Messaging.MqttService.{
  LifecycleStatus, offline, connecting, connected, reconnecting, disconnecting, is_connected_status,
  Attempt, mqtt_exception, std_exception, Answer, answered, Library, Handlers, Token, Impl,
  Application, show, call_status, set_status, report_error,
}
use watchlist.Messaging.MqttService.Operations.{subscribe_client}

abbrev pub is_active : LifecycleStatus → Bool
is_active connecting = true
is_active connected = true
is_active reconnecting = true
is_active _ = false

-- `topics` of `HandleConnected`: the keys of the map.
unfoldable pub topics_of : {M : Type 0} → List (Bytes × M) → List Bytes
topics_of [] = []
topics_of ((topic, handler) ∷ m) = topic ∷ topics_of m

module _ (l : Library) (h : Handlers) (a : Application l h) where
  abbrev State : Type 0
  State = Impl l h

  abbrev report_problem : Bytes → Bool → State → State
  report_problem = report_error l h a

  -- Between the test of the client and the release of its callbacks.
  unfoldable pub disconnected : Answer Bool × l.World → State → State
  disconnected (answered true, w) s = record s { world = w }
  disconnected (answered false, w) s =
      report_problem (bytes "Timed out waiting for MQTT disconnect") false (record s { world = w })
  disconnected (Answer.threw what, w) s =
      report_problem (bytes "MQTT disconnect failed: " ++ what) false (record s { world = w })

  unfoldable pub release_held : Option l.Client → State → State
  unfolding disconnected
  release_held none s = s
  release_held (some c) s =
      let s' = if l.is_connected c s.world then disconnected (l.disconnect c s.world) s else s in
      record s' { world = l.disable_callbacks c s'.world; pending_operations = [] }

  unfoldable pub release_client : State → State
  unfolding release_held
  release_client s = release_held s.client (record s { client = none })

  -- What the `catch` clauses of `Connect` do with an exception, and `k` with what was returned.
  unfoldable pub caught : {A : Type 0} → (A → State → State) → Attempt A × l.World → State → State
  caught k (Attempt.returned x, w) s = k x (record s { world = w })
  caught k (mqtt_exception what, w) s =
      report_problem (bytes "MQTT connection attempt failed: " ++ what) true
        (record s { world = w })
  caught k (std_exception what, w) s =
      report_problem (bytes "Unable to create MQTT transport: " ++ what) true
        (record s { world = w })

  -- The `try` block of `Connect`.
  unfoldable pub attempt : Bytes → ℤ → Bytes → State → State
  unfolding caught format_int
  attempt host port client_id s =
      let uri = bytes "tcp://" ++ (host ++ (bytes ":" ++ format_int port)) in
      caught
        (λ client s'.
          caught (λ _ s''. s'') (l.connect client s'.world) (record s' { client = some client }))
        (l.create uri client_id s.world) s

  unfoldable pub start_connection : Bytes → ℤ → Bytes → State → State
  unfolding release_client set_status attempt format_int
  start_connection host port client_id s =
      let detail =
        bytes "Connecting to "
        ++ (host ++ (bytes ":" ++ (format_int port ++ (bytes " as " ++ client_id)))) in
      attempt host port client_id (set_status l h a connecting detail (release_client s))

  unfoldable pub connect : Bytes → ℤ → Bytes → State → State
  unfolding start_connection format_int
  connect host port client_id s =
      if is_empty host
      then report_problem (bytes "MQTT broker host must not be empty") true s
      else if ltb_ℤ port (pos 1) || ltb_ℤ (pos 65535) port
      then report_problem
          (bytes "MQTT broker port " ++ (format_int port ++ bytes " is outside 1-65535")) true s
      else if is_empty client_id
      then report_problem (bytes "MQTT client ID must not be empty") true s
      else if is_active s.status
      then s
      else start_connection host port client_id (record s { shutting_down = false })

  unfoldable pub disconnecting_from : Option l.Client → State → State
  unfolding set_status
  disconnecting_from none s = s
  disconnecting_from (some c) s =
      set_status l h a disconnecting (bytes "Disconnecting from MQTT broker") s

  unfoldable pub disconnect : State → State
  unfolding disconnecting_from release_client set_status
  disconnect s =
      set_status l h a offline (bytes "Offline")
        (release_client (disconnecting_from s.client (record s { shutting_down = true })))

  unfoldable pub client_is_connected : Option l.Client → l.World → Bool
  client_is_connected none w = false
  client_is_connected (some c) w = l.is_connected c w

  -- `Connected`
  unfoldable pub is_connected : State → Bool
  unfolding client_is_connected
  is_connected s = is_connected_status s.status && client_is_connected s.client s.world

  -- `Lifecycle`
  unfoldable pub lifecycle : State → LifecycleStatus
  lifecycle s = s.status

  unfoldable pub subscribe_all : Option l.Client → List Bytes → State → State
  unfolding subscribe_client
  subscribe_all client [] s = s
  subscribe_all client (topic ∷ topics) s =
      subscribe_all client topics (subscribe_client l h a client topic s)

  unfoldable pub handle_connected : Bytes → State → State
  unfolding call_status show subscribe_all topics_of
  handle_connected detail s =
      if s.shutting_down || is_connected_status s.status
      then s
      else subscribe_all s.client (topics_of s.subscriptions) (
          call_status l h a s.status_handler connected detail
            (record s { status = connected; app_state = show (some connected) detail s.app_state }))

  -- `connected`
  unfoldable pub on_connected : Bytes → State → State
  unfolding handle_connected
  on_connected cause s =
      handle_connected
        (if is_empty cause
          then bytes "Connected to MQTT broker"
          else bytes "MQTT reconnected: " ++ cause)
        s

  unfoldable pub connection_lost : Bytes → State → State
  unfolding set_status
  connection_lost cause s =
      if s.shutting_down
      then s
      else set_status l h a reconnecting
          (if is_empty cause
            then bytes "MQTT connection lost; reconnecting automatically"
            else bytes "MQTT connection lost: " ++ (cause ++ bytes "; reconnecting automatically"))
          s

  -- The listener of the connection attempt.
  unfoldable pub on_failure : Token → State → State
  unfolding format_int
  on_failure token s =
      report_problem
        (if is_empty token.error_message
          then bytes "MQTT connection attempt failed (code "
            ++ (format_int token.return_code ++ bytes ")")
          else bytes "MQTT connection attempt failed: " ++ token.error_message)
        true s

  unfoldable pub on_success : State → State
  unfolding handle_connected
  on_success s = handle_connected (bytes "Connected to MQTT broker") s
