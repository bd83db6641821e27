-- ===== src/Messaging/MqttService/Routing.antt =====
-- `message_arrived` of src/Watchlist/Messaging/MqttService.cpp: which handlers get a message.
use watchlist.Prelude.{
  Bool, false, Option, none, some, List, [], ◌∷◌, ◌++◌, ◌≡◌, refl, sym, ap, ◌∙◌, map, append-nil,
  append_assoc, is_empty, if◌then◌else◌, Bool-cases, inl, inr, Bytes, bytes,
}
use watchlist.AppState.{AppState, Outcome, returned, threw, threw_unknown}
use watchlist.Messaging.Topics.{topic_matches}
use watchlist.Messaging.Topics.Decides.{Matches, topic_matches_iff}
use watchlist.Messaging.MqttService.{
  LifecycleStatus, Library, Handlers, Impl, Application, call_error, report_error,
}
use watchlist.Messaging.MqttService.Operations.{
  handlers_for, after_message, deliver, message_arrived,
}

-- The handlers of the subscriptions whose filter matches the topic, in the order of the subscriptions.
pub data Chosen (topic : Bytes) {M : Type 0} : List (Bytes × M) → List M → Type 0 where
  none_left : Chosen topic [] []
  chosen :
      {filter : Bytes} {f : M} {m : List (Bytes × M)} {fs : List M}
      → Matches filter topic
      → Chosen topic m fs
      → Chosen topic ((filter, f) ∷ m) (f ∷ fs)
  passed :
      {filter : Bytes} {f : M} {m : List (Bytes × M)} {fs : List M}
      → ¬ Matches filter topic
      → Chosen topic m fs
      → Chosen topic ((filter, f) ∷ m) fs

handlers_for-Chosen :
    {M : Type 0} (topic : Bytes) (m : List (Bytes × M)) → Chosen topic m (handlers_for topic m)
unfolding handlers_for
handlers_for-Chosen topic [] = none_left
handlers_for-Chosen topic ((filter, f) ∷ m) = elim (Bool-cases (topic_matches filter topic)) [
  | inl e ↦ rw e (chosen ((topic_matches_iff filter topic).0 e) (handlers_for-Chosen topic m))
  | inr e ↦ rw e (
      passed (λ h. let e' = (topic_matches_iff filter topic).1 h in cc)
        (handlers_for-Chosen topic m))
]

-- A record of the messages that handlers were called with, kept somewhere in the state: a call of a
-- message handler adds to it, whether the call returns or throws, and a report of an error does not.
pub record Observer {l : Library} {h : Handlers} (a : Application l h) : Type 0 where
  pub seen : Impl l h → List (h.Message × Bytes × Bytes)
  pub message_seen :
      (f : h.Message) (topic payload : Bytes) (s : Impl l h)
      → seen (a.invoke_message f topic payload s).1 ≡ seen s ++ (f, topic, payload) ∷ []
  pub error_seen :
      (f : h.Error) (text : Bytes) (s : Impl l h) → seen (a.invoke_error f text s).1 ≡ seen s
  pub report_seen :
      (status : LifecycleStatus) (x : Option (AppState h.Outbound)) (s : Impl l h)
      → seen (record s { status = status; app_state = x }) ≡ seen s

module _ {l : Library} {h : Handlers} (a : Application l h) (o : Observer a) where
  abbrev seen : Impl l h → List (h.Message × Bytes × Bytes)
  seen = o.seen

  report_error-seen :
      (text : Bytes) (changes : Bool) (s : Impl l h)
      → seen (report_error l h a text changes s) ≡ seen s
  unfolding report_error
  report_error-seen text changes s = called s.error_handler _ ∙ o.report_seen _ _ s
    where
      called : (f : Option h.Error) (s : Impl l h) → seen (call_error l h a f text s) ≡ seen s
      called none s = unfold call_error in refl
      called (some f) s = unfold call_error in o.error_seen f text s

  after_message-seen :
      (topic : Bytes) (x : Outcome × Impl l h) → seen (after_message l h a topic x) ≡ seen x.1
  unfolding after_message
  after_message-seen topic (returned, s) = refl
  after_message-seen topic (threw what, s) = report_error-seen _ false s
  after_message-seen topic (threw_unknown, s) = report_error-seen _ false s

  deliver-seen :
      (fs : List h.Message) (topic payload : Bytes) (s : Impl l h)
      → seen (deliver l h a fs topic payload s) ≡ seen s ++ map (λ f. (f, topic, payload)) fs
  unfolding deliver
  deliver-seen [] topic payload s = sym (append-nil _)
  deliver-seen (f ∷ fs) topic payload s =
      deliver-seen fs topic payload _
      ∙ ap (λ x. x ++ map (λ f. (f, topic, payload)) fs)
          (after_message-seen topic (a.invoke_message f topic payload s)
            ∙ o.message_seen f topic payload s)
      ∙ append_assoc (seen s) ((f, topic, payload) ∷ []) (map (λ f. (f, topic, payload)) fs)

  -- A message that arrives is handed, with its topic and payload, to the handler of every subscription
  -- whose filter matches the topic, once each and in the order of the subscriptions, whichever of the
  -- handlers throw, and to no other.
  pub message_arrived-seen :
      (topic payload : Bytes) (s : Impl l h)
      → (fs : List h.Message) × Chosen topic s.subscriptions fs
        × (o.seen (message_arrived l h a topic payload s)
            ≡ o.seen s ++ map (λ f. (f, topic, payload)) fs)
  unfolding message_arrived
  message_arrived-seen topic payload s = (
    handlers_for topic s.subscriptions,
    handlers_for-Chosen topic s.subscriptions,
    handed (handlers_for topic s.subscriptions),
  )
    where
      handed :
          (fs : List h.Message)
          → seen (
              if is_empty fs
              then report_error l h a
                  (bytes "Received MQTT message on "
                    ++ (topic ++ bytes " without a registered handler"))
                  false
                  s
              else deliver l h a fs topic payload s)
            ≡ seen s ++ map (λ f. (f, topic, payload)) fs
      handed [] = report_error-seen _ false s ∙ sym (append-nil _)
      handed (f ∷ fs) = deliver-seen (f ∷ fs) topic payload s
