-- ===== src/Messaging/MqttService/Operations.antt =====
-- Subscriptions, publications, messages and the listeners of operations, from
-- src/Watchlist/Messaging/MqttService.cpp. Each is run to its end as one step from state to state; the
-- mutex is released between its critical sections, and what another thread does there is not modelled.
use watchlist.Prelude.{
  format_int, ℕ, Bool, false, Option, none, some, List, [], ◌∷◌, ◌++◌, if◌then◌else◌, is_empty,
  Bytes, bytes, erase,
}
use watchlist.AppState.{Outcome, returned, threw, threw_unknown}
use watchlist.Messaging.Topics.{topic_matches}
use watchlist.Messaging.MqttService.{
  is_connected_status, Library, Handlers, Token, Impl, Application, delivery_qos, retain_messages,
  insert_or_assign, report_error, hand_over, complete_operation,
}

-- The handlers whose filter matches, in the order of the map.
unfoldable pub handlers_for : {M : Type 0} → Bytes → List (Bytes × M) → List M
handlers_for topic [] = []
handlers_for topic ((filter, handler) ∷ m) =
    let rest = handlers_for topic m in if topic_matches filter topic then handler ∷ rest else rest

module _ (l : Library) (h : Handlers) (a : Application l h) where
  abbrev State : Type 0
  State = Impl l h

  abbrev report_problem : Bytes → Bool → State → State
  report_problem = report_error l h a

  unfoldable pub subscribe_client : Option l.Client → Bytes → State → State
  subscribe_client none topic s = s
  subscribe_client (some c) topic s =
      hand_over l h a (bytes "MQTT subscription to " ++ topic) (l.subscribe c topic delivery_qos)
        (λ what. bytes "MQTT subscription to " ++ (topic ++ (bytes " failed: " ++ what))) s

  unfoldable pub register : Bytes → Option h.Message → State → State
  unfolding insert_or_assign subscribe_client
  register topic none s =
      report_problem (bytes "Cannot subscribe to " ++ (topic ++ bytes " without a message handler"))
        false s
  register topic (some handler) s =
      let s' = record s { subscriptions = insert_or_assign topic handler s.subscriptions } in
      if is_connected_status s.status then subscribe_client s.client topic s' else s'

  unfoldable pub subscribe : Bytes → Option h.Message → State → State
  unfolding register
  subscribe topic handler s =
      if is_empty topic
      then report_problem (bytes "Cannot subscribe to an empty MQTT topic") false s
      else register topic handler s

  unfoldable pub unsubscribe_client : Option l.Client → Bytes → State → State
  unsubscribe_client none topic s = s
  unsubscribe_client (some c) topic s =
      hand_over l h a (bytes "MQTT unsubscribe from " ++ topic) (l.unsubscribe c topic)
        (λ what. bytes "MQTT unsubscribe from " ++ (topic ++ (bytes " failed: " ++ what))) s

  unfoldable pub unsubscribe : Bytes → State → State
  unfolding unsubscribe_client
  unsubscribe topic s =
      let s' = record s { subscriptions = erase topic s.subscriptions } in
      if is_empty topic
      then report_problem (bytes "Cannot unsubscribe from an empty MQTT topic") false s
      else if is_connected_status s.status
      then unsubscribe_client s.client topic s'
      else s'

  unfoldable pub publish_client : Option l.Client → Bytes → Bytes → State → State
  publish_client none topic payload s =
      report_problem (bytes "Cannot publish to " ++ (topic ++ bytes " before Connect")) false s
  publish_client (some c) topic payload s =
      hand_over l h a (bytes "MQTT publish to " ++ topic)
        (l.publish c topic payload delivery_qos retain_messages)
        (λ what. bytes "MQTT publish failed: " ++ what) s

  unfoldable pub publish : Bytes → Bytes → State → State
  unfolding publish_client
  publish topic payload s =
      if is_empty topic
      then report_problem (bytes "Cannot publish to an empty MQTT topic") false s
      else publish_client s.client topic payload s

  -- The predicate that `WaitForPendingOperations` waits for, and that it returns.
  unfoldable pub wait_for_pending_operations : State → Bool
  wait_for_pending_operations s = is_empty s.pending_operations

  unfoldable pub set_status_handler : Option h.Status → State → State
  set_status_handler handler s = record s { status_handler = handler }

  unfoldable pub set_error_handler : Option h.Error → State → State
  set_error_handler handler s = record s { error_handler = handler }

  -- How the call of one message handler ends.
  unfoldable pub after_message : Bytes → Outcome × State → State
  after_message topic (returned, s) = s
  after_message topic (threw what, s) =
      report_problem (bytes "MQTT message handler for " ++ (topic ++ (bytes " failed: " ++ what)))
        false s
  after_message topic (threw_unknown, s) =
      report_problem
        (bytes "MQTT message handler for " ++ (topic ++ bytes " failed with an unknown exception"))
        false s

  unfoldable pub deliver : List h.Message → Bytes → Bytes → State → State
  unfolding after_message
  deliver [] topic payload s = s
  deliver (handler ∷ handlers) topic payload s =
      deliver handlers topic payload
        (after_message topic (a.invoke_message handler topic payload s))

  unfoldable pub message_arrived : Bytes → Bytes → State → State
  unfolding handlers_for deliver
  message_arrived topic payload s =
      let handlers = handlers_for topic s.subscriptions in
      if is_empty handlers
      then report_problem
          (bytes "Received MQTT message on " ++ (topic ++ bytes " without a registered handler"))
          false s
      else deliver handlers topic payload s

  -- The callbacks of `OperationListener`.
  unfoldable pub operation_failed : ℕ → Bytes → Token → State → State
  unfolding complete_operation format_int
  operation_failed address operation token s =
      complete_operation l h a address
        (operation
          ++ (bytes " failed: "
              ++ (token.error_message
                  ++ (bytes " (code " ++ (format_int token.return_code ++ bytes ")")))))
        s

  unfoldable pub operation_succeeded : ℕ → State → State
  unfolding complete_operation
  operation_succeeded address s = complete_operation l h a address [] s
