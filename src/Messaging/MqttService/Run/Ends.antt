-- ===== src/Messaging/MqttService/Run/Ends.antt =====
-- How the loop of src/Watchlist/Messaging/MqttService.cpp runs and ends.
use watchlist.Prelude.{
  Bool, true, false, Option, List, [], ◌∷◌, ◌≡◌, refl, arith, if◌then◌else◌, Bool-cases, inl, inr,
  Bytes,
}
use watchlist.Prelude.Int.{ℤ}
use watchlist.AppState.{AppState}
use watchlist.Messaging.MqttService.{Library, Handlers, Application, initial_impl}
use watchlist.Messaging.MqttService.Connection.{connect, disconnect}
use watchlist.Messaging.MqttService.Events.{Event, run_events}
use watchlist.Messaging.MqttService.Stages.{Reached, owned, KeepsStages}
use watchlist.Messaging.MqttService.Owned.Steps.{
  connect-owned, disconnect-quiet, step-owned, run_events-owned,
}
use watchlist.Messaging.MqttService.Run.{
  is_error, is_down, is_serving, Loop, Happening, event, stop, Round, Progress, running, finished,
  happens, wait_for, connection_ended, attempt_settled, error_over, attempted, doubled,
  connecting_round, backing_off_round, run_round, run, IsRunning, Progressed,
}

module _ {l : Library} {h : Handlers} (a : Application l h) (k : KeepsStages a) where
  happens-IsRunning :
      (xs : List (Happening l h)) (s : Loop l h)
      → IsRunning l h a s
      → IsRunning l h a (happens l h a xs s)
  unfolding happens
  happens-IsRunning [] s i = i
  happens-IsRunning (event e ∷ xs) s i = happens-IsRunning xs _ (record {
    sound = step-owned a k e s.service i.sound;
    at_least = i.at_least;
    at_most = i.at_most;
  })
  happens-IsRunning (stop ∷ xs) s i =
      happens-IsRunning xs _
        (record { sound = i.sound; at_least = i.at_least; at_most = i.at_most })

  wait_for-IsRunning :
      (p : Loop l h → Bool) (xs : List (Happening l h)) (s : Loop l h)
      → IsRunning l h a s
      → IsRunning l h a (wait_for l h a p xs s)
  unfolding wait_for
  wait_for-IsRunning p xs s i = elim (Bool-cases (p s)) [
    | inl e ↦ rw e i
    | inr e ↦ rw e (happens-IsRunning xs s i)
  ]

  connecting_round-IsRunning :
      (host : Bytes) (port : ℤ) (client_id : Bytes) (r : Round l h) (s : Loop l h)
      → IsRunning l h a s
      → IsRunning l h a (connecting_round l h a host port client_id r s)
  unfolding connecting_round
  connecting_round-IsRunning host port client_id r s i =
      wait_for-IsRunning (attempt_settled l h a) r.waiting _ (
        happens-IsRunning r.settling (attempted l h a host port client_id s) (record {
          sound = tried (is_down s.service.status);
          at_least = i.at_least;
          at_most = i.at_most;
        }))
    where
      tried :
          (b : Bool)
          → Reached owned (if b then connect l h a host port client_id s.service else s.service)
      tried true = connect-owned a k host port client_id s.service i.sound
      tried false = i.sound

  backing_off_round-IsRunning :
      (r : Round l h) (s : Loop l h)
      → IsRunning l h a s
      → IsRunning l h a (backing_off_round l h a r s)
  unfolding backing_off_round
  backing_off_round-IsRunning r s i = backed (is_error s.service.status)
    where
      backed :
          (b : Bool)
          → IsRunning l h a (
              if b
              then wait_for l h a (error_over l h a) r.backing_off (doubled l h a s)
              else record s { retry_delay = 1 })
      backed true =
          wait_for-IsRunning (error_over l h a) r.backing_off (doubled l h a s) (record {
            sound = i.sound;
            at_least = omega (arith, i.at_least);
            at_most = omega arith;
          })
      backed false = record { sound = i.sound; at_least = omega arith; at_most = omega arith }

  run_round-IsRunning :
      (host : Bytes) (port : ℤ) (client_id : Bytes) (r : Round l h) (s : Loop l h)
      → IsRunning l h a s
      → IsRunning l h a (run_round l h a host port client_id r s)
  unfolding run_round
  run_round-IsRunning host port client_id r s i = served (
      is_serving
        (backing_off_round l h a r (connecting_round l h a host port client_id r s)).service.status)
    where
      t : Loop l h
      t = backing_off_round l h a r (connecting_round l h a host port client_id r s)

      backed : IsRunning l h a t
      backed =
          backing_off_round-IsRunning r _ (connecting_round-IsRunning host port client_id r s i)

      served :
          (b : Bool)
          → IsRunning l h a (if b then wait_for l h a (connection_ended l h a) r.serving t else t)
      served true = wait_for-IsRunning (connection_ended l h a) r.serving t backed
      served false = backed

  stopped_or :
      (b : Bool) (s : Loop l h) (p : Progress l h)
      → IsRunning l h a s
      → (b ≡ false → Progressed l h a p)
      → Progressed l h a (if b then finished (disconnect l h a s.service) else p)
  stopped_or true s p i q = disconnect-quiet a k s.service i.sound
  stopped_or false s p i q = q refl

  run-from :
      (host : Bytes) (port : ℤ) (client_id : Bytes) (rs : List (Round l h)) (s : Loop l h)
      → IsRunning l h a s
      → Progressed l h a (run l h a host port client_id rs s)
  unfolding run
  run-from host port client_id [] s i =
      stopped_or s.stop_requested s (running s) i (λ e. (e, i.at_least, i.at_most))
  run-from host port client_id (r ∷ rs) s i =
      let t = run_round l h a host port client_id r s in
      let j = run_round-IsRunning host port client_id r s i in
      stopped_or s.stop_requested s _ i
        (λ _. ended (connection_ended l h a t) _ t refl j (run-from host port client_id rs t j))
    where
      ended :
          (b : Bool) (p : Progress l h) (t : Loop l h)
          → b ≡ connection_ended l h a t
          → IsRunning l h a t
          → Progressed l h a p
          → Progressed l h a (if b then p else running t)
      ended true p t e j q = q
      ended false p t e j q = (ground (arith, e), j.at_least, j.at_most)

  -- Where the application's handlers do not connect or disconnect: whatever happened to the service
  -- before the loop, and whatever happens on other threads at each point of each round, the loop has
  -- finished with the service offline, without a client and without a pending operation, or it is still
  -- running, no stop has been requested, and its retry delay is between 1 and 30 seconds.
  pub run-Progressed :
      (host : Bytes) (port : ℤ) (client_id : Bytes) (before : List (Event l h))
      (rs : List (Round l h)) (stopped : Bool) (app_state : Option (AppState h.Outbound))
      (world : l.World)
      → Progressed l h a (
          run l h a host port client_id rs (record {
            service = run_events l h a before (initial_impl l h app_state world);
            stop_requested = stopped;
            retry_delay = 1;
          }))
  run-Progressed host port client_id before rs stopped app_state world =
      run-from host port client_id rs _ (record {
        sound = run_events-owned a k before (initial_impl l h app_state world) (λ _. refl);
        at_least = omega arith;
        at_most = omega arith;
      })
