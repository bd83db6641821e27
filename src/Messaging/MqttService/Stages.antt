-- ===== src/Messaging/MqttService/Stages.antt =====
-- What the operations of src/Watchlist/Messaging/MqttService.cpp keep of the client and of the shutdown,
-- for the parts that every operation is made of.
use watchlist.Prelude.{
  ℕ, Bool, true, false, not, ◌&&◌, Option, none, some, List, [], ◌∷◌, ◌≡◌, ◌⊎◌, refl, if◌then◌else◌,
  is_empty, Bool-cases, inl, inr, Bytes,
}
use watchlist.AppState.{Outcome, returned, threw, threw_unknown}
use watchlist.Messaging.MqttService.{
  LifecycleStatus, offline, error, Library, Handlers, Impl, Application, OperationListener,
  call_status, call_error, report_error, complete_operation, is_pending, erase_found,
}
use watchlist.Messaging.MqttService.Operations.{
  message_arrived, after_message, deliver, handlers_for,
}

-- `owned` is what holds at all times: without a client there is no pending operation. `holding` is a
-- time in which the client stays. The others say how far a shutdown has come.
pub data Stage (l : Library) : Type 0 where
  owned : Stage l
  holding : l.Client → Stage l
  shut released settled quiet : Stage l

module _ {l : Library} {h : Handlers} where
  abbrev pub Reached : Stage l → Impl l h → Type 0
  Reached owned s = s.client ≡ none → s.pending_operations ≡ []
  Reached (holding c) s = s.client ≡ some c
  Reached shut s = s.shutting_down ≡ true
  Reached released s = (s.shutting_down ≡ true) × (s.client ≡ none)
  Reached settled s = (s.shutting_down ≡ true) × (s.client ≡ none) × (s.pending_operations ≡ [])
  Reached quiet s =
      (s.shutting_down ≡ true)
      × (s.client ≡ none)
      × (s.pending_operations ≡ [])
      × (s.status ≡ offline)

  -- The application's handlers call neither `Connect` nor `Disconnect`, which would wait for
  -- `operationMutex_` in the thread that holds it. They may make any other call.
  pub record KeepsStages (a : Application l h) : Type 0 where
    pub status_keeps :
        (g : Stage l) (handler : h.Status) (status : LifecycleStatus) (detail : Bytes)
        (s : Impl l h)
        → Reached g s
        → Reached g (a.invoke_status handler status detail s).1
    pub error_keeps :
        (g : Stage l) (handler : h.Error) (text : Bytes) (s : Impl l h)
        → Reached g s
        → Reached g (a.invoke_error handler text s).1
    pub message_keeps :
        (g : Stage l) (handler : h.Message) (topic payload : Bytes) (s : Impl l h)
        → Reached g s
        → Reached g (a.invoke_message handler topic payload s).1

module _ {l : Library} {h : Handlers} (a : Application l h) (k : KeepsStages a) where
  abbrev State : Type 0
  State = Impl l h

  pub call_error-Reached :
      (g : Stage l) (handler : Option h.Error) (text : Bytes) (s : State)
      → Reached g s
      → Reached g (call_error l h a handler text s)
  unfolding call_error
  call_error-Reached g none text s r = r
  call_error-Reached g (some handler) text s r = k.error_keeps g handler text s r

  pub call_status-Reached :
      (g : Stage l) (handler : Option h.Status) (status : LifecycleStatus) (detail : Bytes)
      (s : State)
      → Reached g s
      → Reached g (call_status l h a handler status detail s)
  unfolding call_status
  call_status-Reached g none status detail s r = r
  call_status-Reached g (some handler) status detail s r =
      k.status_keeps g handler status detail s r

  reported :
      (g : Stage l) (b : Bool) (x : Option _) (s : State)
      → Reached g s
      → Reached g (record s {
        status = if not s.shutting_down && b then error else s.status;
        app_state = x;
      })
  reported owned b x s r = r
  reported (holding c) b x s r = r
  reported shut b x s r = r
  reported released b x s r = r
  reported settled b x s r = r
  reported quiet b x s r = (r.0, r.1, r.2, rw (r.0) r.3)

  pub report_error-Reached :
      (g : Stage l) (text : Bytes) (changes : Bool) (s : State)
      → Reached g s
      → Reached g (report_error l h a text changes s)
  unfolding report_error
  report_error-Reached g text changes s r =
      call_error-Reached g s.error_handler text _ (reported g changes _ s r)

  -- A completed or unknown listener leaves no more operations than before.
  erase_found-nil :
      (address : ℕ) (os : List OperationListener) → os ≡ [] → erase_found address os ≡ []
  unfolding erase_found
  erase_found-nil address [] e = refl
  erase_found-nil address (o ∷ os) e = absurd cc

  completed :
      (g : Stage l) (address : ℕ) (s : State)
      → Reached g s
      → Reached g (record s { pending_operations = erase_found address s.pending_operations })
  completed owned address s r = λ e. erase_found-nil address s.pending_operations (r e)
  completed (holding c) address s r = r
  completed shut address s r = r
  completed released address s r = r
  completed settled address s r = (r.0, r.1, erase_found-nil address s.pending_operations r.2)
  completed quiet address s r = (r.0, r.1, erase_found-nil address s.pending_operations r.2, r.3)

  pub complete_operation-Reached :
      (g : Stage l) (address : ℕ) (text : Bytes) (s : State)
      → Reached g s
      → Reached g (complete_operation l h a address text s)
  unfolding complete_operation
  complete_operation-Reached g address text s r =
      elim (Bool-cases (is_pending address s.pending_operations)) [
        | inr absent ↦ rw absent r
        | inl found ↦ rw found (done (Bool-cases (is_empty text)))
      ]
    where
      s' : State
      s' = record s { pending_operations = erase_found address s.pending_operations }

      done :
          (is_empty text ≡ true) ⊎ (is_empty text ≡ false)
          → Reached g (if is_empty text then s' else report_error l h a text false s')
      done (inl e) = rw e (completed g address s r)
      done (inr e) = rw e (report_error-Reached g text false s' (completed g address s r))

  deliver-Reached :
      (g : Stage l) (handlers : List h.Message) (topic payload : Bytes) (s : State)
      → Reached g s
      → Reached g (deliver l h a handlers topic payload s)
  unfolding deliver
  deliver-Reached g [] topic payload s r = r
  deliver-Reached g (handler ∷ handlers) topic payload s r =
      deliver-Reached g handlers topic payload _ (
        after (a.invoke_message handler topic payload s)
          (k.message_keeps g handler topic payload s r))
    where
      after : (x : Outcome × State) → Reached g x.1 → Reached g (after_message l h a topic x)
      after (returned, s) r = r
      after (threw what, s) r = report_error-Reached g _ false s r
      after (threw_unknown, s) r = report_error-Reached g _ false s r

  pub message_arrived-Reached :
      (g : Stage l) (topic payload : Bytes) (s : State)
      → Reached g s
      → Reached g (message_arrived l h a topic payload s)
  unfolding message_arrived
  message_arrived-Reached g topic payload s r =
      elim (Bool-cases (is_empty (handlers_for topic s.subscriptions))) [
        | inl e ↦ rw e (report_error-Reached g _ false s r)
        | inr e ↦ rw e (deliver-Reached g (handlers_for topic s.subscriptions) topic payload s r)
      ]
