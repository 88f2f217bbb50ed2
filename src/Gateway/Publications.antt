-- ===== src/Gateway/Publications.antt =====
-- What main/mqtt_manager.c returns to its callers agrees with what the MQTT client has taken.
use iot_sms.Base.{
  ℕ, Bool, true, false, List, [], ◌∷◌, ◌++◌, none, some, ◌≡◌, inl, inr, refl, sym, ap, subst, ◌∙◌,
  Bytes, if◌then◌else◌, Bool-cases, Option-cases, append-nil, append_assoc,
}
use iot_sms.Gateway.{
  Entry, sms_entry, other_entry, messages, payload_of, payloads, sms_log, Move, client_event,
  other_publish, World, make_move, make_moves, tell,
}
use iot_sms.Message.{SmsMessage}
use iot_sms.Mqtt.{
  MqttClient, MqttEvent, MqttState, Settings, mqtt_connected, mqtt_disconnected, mqtt_subscribed,
  mqtt_unsubscribed, mqtt_published, mqtt_data, mqtt_error, mqtt_other, client_publish,
  mqtt_event_handler, mqtt_manager_publish,
}
use iot_sms.Mqtt.Connection.{taken_of, taken_of-some, mqtt_manager_publish_sms-Published}
use iot_sms.Storage.{esp_ok, esp_fail}

payloads-append : (a b : List Entry) → payloads (a ++ b) ≡ payloads a ++ payloads b
payloads-append [] b = refl
payloads-append (e ∷ a) b = ap (payload_of e ∷◌) (payloads-append a b)

messages-append : (a b : List Entry) → messages (a ++ b) ≡ messages a ++ messages b
messages-append [] b = refl
messages-append (sms_entry g m ∷ a) b = ap (m ∷◌) (messages-append a b)
messages-append (other_entry topic payload ∷ a) b = messages-append a b

module _ (C : MqttClient) where
  -- Of what the client had taken at first, and of what the callers were told since.
  abbrev pub Agrees : List (Bytes × Bytes) → World C → Type 0
  Agrees base w = taken_of C w.state ≡ base ++ payloads w.log

  one_more :
      (base t : List (Bytes × Bytes)) (log : List Entry) (e : Entry)
      → t ≡ base ++ payloads log
      → t ++ payload_of e ∷ [] ≡ base ++ payloads (log ++ e ∷ [])
  one_more base t log e h =
      ap (λ l. l ++ payload_of e ∷ []) h
      ∙ append_assoc base (payloads log) (payload_of e ∷ [])
      ∙ ap (base ++◌) (sym (payloads-append log (e ∷ [])))

  told :
      (base t t' : List (Bytes × Bytes)) (log : List Entry) (e : Entry) (passed : Bool)
      → t ≡ base ++ payloads log
      → t' ≡ (if passed then t ++ payload_of e ∷ [] else t)
      → t' ≡ base ++ payloads (if passed then log ++ e ∷ [] else log)
  told base t t' log e true h taken = taken ∙ one_more base t log e h
  told base t t' log e false h taken = taken ∙ h

  other_told :
      (log : List Entry) (topic payload : Bytes) (passed : Bool)
      → messages (if passed then log ++ other_entry topic payload ∷ [] else log) ≡ messages log
  other_told log topic payload true =
      messages-append log (other_entry topic payload ∷ []) ∙ append-nil (messages log)
  other_told log topic payload false = refl

  event-taken_of :
      (s : MqttState C) (e : MqttEvent) → taken_of C (mqtt_event_handler C s e) ≡ taken_of C s
  unfolding mqtt_event_handler
  event-taken_of s mqtt_connected = refl
  event-taken_of s mqtt_disconnected = refl
  event-taken_of s mqtt_subscribed = refl
  event-taken_of s mqtt_unsubscribed = refl
  event-taken_of s mqtt_published = refl
  event-taken_of s mqtt_data = refl
  event-taken_of s mqtt_error = refl
  event-taken_of s mqtt_other = refl

  -- The client takes what a publication passes, and nothing where one fails.
  abbrev Taken : MqttState C → Bytes → Bytes → MqttState C × Bool → Type 0
  Taken s topic payload r =
      taken_of C r.0 ≡ (if r.1 then taken_of C s ++ (topic, payload) ∷ [] else taken_of C s)

  publish_off :
      (s : MqttState C) (topic payload : Bytes) (qos : ℕ)
      → s.s_mqtt_connected ≡ false
      → mqtt_manager_publish C s topic payload qos ≡ (s, false)
  unfolding mqtt_manager_publish
  publish_off s topic payload qos off = simp off

  publish_no_client :
      (s : MqttState C) (topic payload : Bytes) (qos : ℕ)
      → s.s_mqtt_connected ≡ true
      → s.s_mqtt_client ≡ none
      → mqtt_manager_publish C s topic payload qos ≡ (s, false)
  unfolding mqtt_manager_publish
  publish_no_client s topic payload qos on e = simp (on, e)

  publish_on :
      (s : MqttState C) (topic payload : Bytes) (qos : ℕ) (c : C.Client)
      → s.s_mqtt_connected ≡ true
      → s.s_mqtt_client ≡ some c
      → mqtt_manager_publish C s topic payload qos ≡ (
        record s { s_mqtt_client = some (C.publish c topic payload qos).0 },
        (C.publish c topic payload qos).1,
      )
  unfolding mqtt_manager_publish client_publish
  publish_on s topic payload qos c on e = simp (on, e)

  client-Taken :
      (s : MqttState C) (topic payload : Bytes) (qos : ℕ) (c : C.Client)
      → s.s_mqtt_client ≡ some c
      → Taken s topic payload (
        record s { s_mqtt_client = some (C.publish c topic payload qos).0 },
        (C.publish c topic payload qos).1,
      )
  client-Taken s topic payload qos c e = elim (Bool-cases (C.publish c topic payload qos).1) [
    | inl passed ↦ rw passed (
        C.publish_taken c topic payload qos passed
        ∙ ap (λ l. l ++ (topic, payload) ∷ []) (sym (taken_of-some C s c e)))
    | inr refused ↦
        rw refused (C.publish_refused c topic payload qos refused ∙ sym (taken_of-some C s c e))
  ]

  mqtt_manager_publish-Taken :
      (s : MqttState C) (topic payload : Bytes) (qos : ℕ)
      → Taken s topic payload (mqtt_manager_publish C s topic payload qos)
  mqtt_manager_publish-Taken s topic payload qos = elim (Bool-cases s.s_mqtt_connected) [
    | inr off ↦ subst (Taken s topic payload) (sym (publish_off s topic payload qos off)) refl
    | inl on ↦ elim (Option-cases s.s_mqtt_client) [
      | inl e ↦
          subst (Taken s topic payload) (sym (publish_no_client s topic payload qos on e)) refl
      | inr (c, e) ↦
          subst (Taken s topic payload) (sym (publish_on s topic payload qos c on e))
            (client-Taken s topic payload qos c e)
    ]
  ]

  module _ (base : List (Bytes × Bytes)) where
    make_move-Agrees : (w : World C) (m : Move) → Agrees base w → Agrees base (make_move C w m)
    unfolding make_move
    make_move-Agrees w (client_event e) h = event-taken_of w.state e ∙ h
    make_move-Agrees w (other_publish topic payload qos) h =
        told base (taken_of C w.state) _ w.log (other_entry topic payload)
          (mqtt_manager_publish C w.state topic payload qos).1 h
          (mqtt_manager_publish-Taken w.state topic payload qos)

    pub make_moves-Agrees :
        (w : World C) (ms : List Move) → Agrees base w → Agrees base (make_moves C w ms)
    unfolding make_moves
    make_moves-Agrees w [] h = h
    make_moves-Agrees w (m ∷ ms) h = make_moves-Agrees (make_move C w m) ms (make_move-Agrees w m h)

  make_move-messages : (w : World C) (m : Move) → messages (make_move C w m).log ≡ messages w.log
  unfolding make_move
  make_move-messages w (client_event e) = refl
  make_move-messages w (other_publish topic payload qos) =
      other_told w.log topic payload (mqtt_manager_publish C w.state topic payload qos).1

  pub make_moves-messages :
      (w : World C) (ms : List Move) → messages (make_moves C w ms).log ≡ messages w.log
  unfolding make_moves
  make_moves-messages w [] = refl
  make_moves-messages w (m ∷ ms) = make_moves-messages (make_move C w m) ms ∙ make_move-messages w m

  pub tell-Agrees :
      (base : List (Bytes × Bytes)) (w : World C) (g : Settings) (m : SmsMessage)
      → Agrees base w
      → Agrees base (tell C w g m).0
  unfolding tell
  tell-Agrees base w g m h = elim (mqtt_manager_publish_sms-Published C w.state g m) [
    | inl (ok, on, taken) ↦
        taken
        ∙ one_more base _ w.log (sms_entry g m) h
        ∙ ap (λ e. base ++ payloads (sms_log w.log g m e)) (sym ok)
    | inr (bad, taken) ↦ taken ∙ h ∙ ap (λ e. base ++ payloads (sms_log w.log g m e)) (sym bad)
  ]

  pub tell_ok :
      (w : World C) (g : Settings) (m : SmsMessage)
      → (tell C w g m).1 ≡ esp_ok
      → messages (tell C w g m).0.log ≡ messages w.log ++ m ∷ []
  unfolding tell
  tell_ok w g m ok =
      ap (λ e. messages (sms_log w.log g m e)) ok ∙ messages-append w.log (sms_entry g m ∷ [])

  pub tell_fail :
      (w : World C) (g : Settings) (m : SmsMessage)
      → (tell C w g m).1 ≡ esp_fail
      → messages (tell C w g m).0.log ≡ messages w.log
  unfolding tell
  tell_fail w g m bad = ap (λ e. messages (sms_log w.log g m e)) bad
