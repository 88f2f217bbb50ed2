-- ===== src/Mqtt/Connection.antt =====
-- A publication is tried only while the client is connected, and its result tells what was taken.
use iot_sms.Base.{
  true, false, List, [], ◌∷◌, ◌++◌, Option, none, some, ◌≡◌, ◌⊎◌, inl, inr, refl, sym, ap, subst,
  ◌∙◌, Bytes, if◌then◌else◌, Bool-cases, Option-cases,
}
use iot_sms.Message.{SmsMessage}
use iot_sms.Mqtt.{
  MqttClient, MqttState, Settings, sms_payload, client_publish, mqtt_manager_publish_sms,
}
use iot_sms.Storage.{EspErr, esp_ok, esp_fail}

module _ (C : MqttClient) where
  -- The payloads that the client of a state has taken.
  abbrev pub taken_of : MqttState C → List (Bytes × Bytes)
  taken_of s = elim s.s_mqtt_client [ none ↦ [] | some c ↦ C.taken c ]

  pub taken_of-some :
      (s : MqttState C) (c : C.Client) → s.s_mqtt_client ≡ some c → taken_of s ≡ C.taken c
  taken_of-some s c e = rw (e, taken_of)

  -- `ESP_OK`: connected, and the payload has been taken. `ESP_FAIL`: nothing has been taken.
  abbrev pub Published : MqttState C → Settings → SmsMessage → MqttState C × EspErr → Type 0
  Published s g sms r =
      ((r.1 ≡ esp_ok)
        × (s.s_mqtt_connected ≡ true)
        × (taken_of r.0 ≡ taken_of s ++ (g.topic_sms, sms_payload g sms) ∷ []))
      ⊎ ((r.1 ≡ esp_fail) × (taken_of r.0 ≡ taken_of s))

  publish_off :
      (s : MqttState C) (g : Settings) (sms : SmsMessage)
      → s.s_mqtt_connected ≡ false
      → mqtt_manager_publish_sms C s g sms ≡ (s, esp_fail)
  unfolding mqtt_manager_publish_sms
  publish_off s g sms off = simp off

  publish_on :
      (s : MqttState C) (g : Settings) (sms : SmsMessage) (o : Option C.Client)
      → s.s_mqtt_connected ≡ true
      → s.s_mqtt_client ≡ o
      → mqtt_manager_publish_sms C s g sms ≡ (elim o [
        | none ↦ (s, esp_fail)
        | some c ↦ (
          record s { s_mqtt_client = some (C.publish c g.topic_sms (sms_payload g sms) 1).0 },
          if (C.publish c g.topic_sms (sms_payload g sms) 1).1 then esp_ok else esp_fail,
        )
      ])
  unfolding mqtt_manager_publish_sms client_publish
  publish_on s g sms none on e = simp (on, e)
  publish_on s g sms (some c) on e = simp (on, e)

  some-Published :
      (s : MqttState C) (g : Settings) (sms : SmsMessage) (c : C.Client)
      → s.s_mqtt_connected ≡ true
      → s.s_mqtt_client ≡ some c
      → Published s g sms (
        record s { s_mqtt_client = some (C.publish c g.topic_sms (sms_payload g sms) 1).0 },
        if (C.publish c g.topic_sms (sms_payload g sms) 1).1 then esp_ok else esp_fail,
      )
  some-Published s g sms c on e =
      elim (Bool-cases (C.publish c g.topic_sms (sms_payload g sms) 1).1) [
        | inl passed ↦ inl (
          rw passed refl,
          on,
          C.publish_taken c g.topic_sms (sms_payload g sms) 1 passed
              ∙ ap (λ l. l ++ (g.topic_sms, sms_payload g sms) ∷ []) (sym (taken_of-some s c e)),
        )
        | inr refused ↦ inr (
          rw refused refl,
          C.publish_refused c g.topic_sms (sms_payload g sms) 1 refused ∙ sym (taken_of-some s c e),
        )
      ]

  -- Publishing a message returns ESP_OK only while connected, and then the client has taken its
  -- payload under the topic behind those taken before, or ESP_FAIL, and then the client has taken
  -- nothing.
  pub mqtt_manager_publish_sms-Published :
      (s : MqttState C) (g : Settings) (sms : SmsMessage)
      → Published s g sms (mqtt_manager_publish_sms C s g sms)
  mqtt_manager_publish_sms-Published s g sms = elim (Bool-cases s.s_mqtt_connected) [
    | inr off ↦ subst (Published s g sms) (sym (publish_off s g sms off)) (inr (refl, refl))
    | inl on ↦ elim (Option-cases s.s_mqtt_client) [
      | inl e ↦ subst (Published s g sms) (sym (publish_on s g sms none on e)) (inr (refl, refl))
      | inr (c, e) ↦
          subst (Published s g sms) (sym (publish_on s g sms (some c) on e))
            (some-Published s g sms c on e)
    ]
  ]
