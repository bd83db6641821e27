-- ===== src/Messaging/MqttService/Run.antt =====
-- `Run` of src/Watchlist/Messaging/MqttService.cpp: the loop that owns the connection. A schedule says
-- what happens on other threads at each point of a round where the loop does not hold the mutex: a
-- timed wait may end with its predicate or without, an untimed one ends with its predicate.
pub mod Ends
use watchlist.Prelude.{
  ℕ, ◌*◌, ◌≤◌, min, Bool, true, false, not, ◌||◌, Option, List, [], ◌∷◌, ◌≡◌, refl, arith,
  if◌then◌else◌, Bool-cases, inl, inr, Bytes,
}
use watchlist.Prelude.Int.{ℤ}
use watchlist.AppState.{AppState}
use watchlist.Messaging.MqttService.{
  LifecycleStatus, offline, connected, reconnecting, error, Library, Handlers, Impl, Application,
  initial_impl,
}
use watchlist.Messaging.MqttService.Connection.{connect, disconnect}
use watchlist.Messaging.MqttService.Events.{Event, step, run_events}
use watchlist.Messaging.MqttService.Stages.{Reached, owned, quiet, KeepsStages}
use watchlist.Messaging.MqttService.Owned.Steps.{
  connect-owned, disconnect-quiet, step-owned, run_events-owned,
}

abbrev pub is_error : LifecycleStatus → Bool
is_error error = true
is_error _ = false

-- Offline or Error: the loop connects.
abbrev pub is_down : LifecycleStatus → Bool
is_down offline = true
is_down error = true
is_down _ = false

-- Connected or Reconnecting: the loop waits for the end of the connection.
abbrev pub is_serving : LifecycleStatus → Bool
is_serving connected = true
is_serving reconnecting = true
is_serving _ = false

module _ (l : Library) (h : Handlers) where
  pub record Loop : Type 0 where
    pub service : Impl l h
    pub stop_requested : Bool
    -- In seconds.
    pub retry_delay : ℕ

  pub data Happening : Type 0 where
    event : Event l h → Happening
    stop : Happening

  -- What happens after the connection attempt, and in each of the three waits.
  pub record Round : Type 0 where
    pub settling : List Happening
    pub waiting : List Happening
    pub backing_off : List Happening
    pub serving : List Happening

  pub data Progress : Type 0 where
    running : Loop → Progress
    finished : Impl l h → Progress

module _ (l : Library) (h : Handlers) (a : Application l h) where
  unfoldable pub happens : List (Happening l h) → Loop l h → Loop l h
  happens [] s = s
  happens (event e ∷ xs) s = happens xs (record s { service = step l h a e s.service })
  happens (stop ∷ xs) s = happens xs (record s { stop_requested = true })

  unfoldable pub wait_for : (Loop l h → Bool) → List (Happening l h) → Loop l h → Loop l h
  wait_for p xs s = if p s then s else happens xs s

  abbrev pub connection_ended : Loop l h → Bool
  connection_ended s = s.stop_requested || not (is_serving s.service.status)

  -- The predicate of the wait for the outcome of an attempt, and that of the wait after an error.
  abbrev pub attempt_settled : Loop l h → Bool
  attempt_settled s = s.stop_requested || (is_serving s.service.status || is_error s.service.status)

  abbrev pub error_over : Loop l h → Bool
  error_over s = s.stop_requested || not (is_error s.service.status)

  abbrev pub attempted : Bytes → ℤ → Bytes → Loop l h → Loop l h
  attempted host port client_id s = record s {
    service =
        if is_down s.service.status then connect l h a host port client_id s.service else s.service;
  }

  abbrev pub doubled : Loop l h → Loop l h
  doubled s = record s { retry_delay = min (s.retry_delay * 2) 30 }

  -- A new attempt where the connection is down, and the wait for its outcome.
  unfoldable pub connecting_round : Bytes → ℤ → Bytes → Round l h → Loop l h → Loop l h
  connecting_round host port client_id r s =
      wait_for attempt_settled r.waiting (happens r.settling (attempted host port client_id s))

  -- Twice the delay after an error, and at most 30 seconds.
  unfoldable pub backing_off_round : Round l h → Loop l h → Loop l h
  backing_off_round r s =
      if is_error s.service.status
      then wait_for error_over r.backing_off (doubled s)
      else record s { retry_delay = 1 }

  -- A round up to its last wait, whose predicate is tested by the caller.
  unfoldable pub run_round : Bytes → ℤ → Bytes → Round l h → Loop l h → Loop l h
  unfolding connecting_round backing_off_round
  run_round host port client_id r s =
      let t = backing_off_round r (connecting_round host port client_id r s) in
      if is_serving t.service.status then wait_for connection_ended r.serving t else t

  unfoldable pub run : Bytes → ℤ → Bytes → List (Round l h) → Loop l h → Progress l h
  unfolding run_round
  run host port client_id [] s =
      if s.stop_requested then finished (disconnect l h a s.service) else running s
  run host port client_id (r ∷ rs) s =
      let t = run_round host port client_id r s in
      let later = run host port client_id rs t in
      if s.stop_requested
      then finished (disconnect l h a s.service)
      else if connection_ended t
      then later
      else running t

  -- What is known of the loop at any time.
  pub record IsRunning (s : Loop l h) : Type 0 where
    pub sound : Reached owned s.service
    pub at_least : 1 ≤ s.retry_delay
    pub at_most : s.retry_delay ≤ 30

  abbrev pub Progressed : Progress l h → Type 0
  Progressed (running s) = (s.stop_requested ≡ false) × (1 ≤ s.retry_delay) × (s.retry_delay ≤ 30)
  Progressed (finished s) = Reached quiet s
