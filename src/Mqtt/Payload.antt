-- ===== src/Mqtt/Payload.antt =====
-- The payload of a message is read back where its texts need no escapes.
use iot_sms.Base.{
  suc, ◌-◌, ◌≤◌, ◌<◌, false, ◌||◌, List, [], ◌∷◌, ◌++◌, Option, none, some, ◌≡◌, ◌≢◌, refl, sym, ap,
  ◌∙◌, arith, Bytes, All, codes, length, length-append, take_all, ltb, ◌==◌,
}
use iot_sms.CString.{strip_prefix, strip_prefix-append}
use iot_sms.Message.{SmsMessage, sender_size, content_size}
use iot_sms.Mqtt.{Settings, or_unknown, sms_json, sms_payload}
use iot_sms.RemoteLog.Json.{escape_byte}
use iot_sms.RemoteLog.Json.Reader.{escaped, read_string, read_string-escaped}

-- A text without quotes, backslashes and control characters.
abbrev pub Plain : Bytes → Type 0
Plain = All (λ c. (c ≢ 0x22) × (c ≢ 0x5C) × (0x20 ≤ c))

escaped-Plain : (s : Bytes) → Plain s → escaped s ≡ s
unfolding escape_byte
escaped-Plain [] h = refl
escaped-Plain (c ∷ s) ((quote, slash, printable), h) =
    let special : (c == 0x22 || c == 0x5C) ≡ false = ground arith in
    let control : ltb c 0x20 ≡ false = ground arith in
    rw (special, control) (ap (◌∷◌ c) (escaped-Plain s h))

-- A field that starts behind the given text: its value, up to the closing quote, and the rest.
unfoldable pub read_field : Bytes → Bytes → Option (Bytes × Bytes)
read_field name s = elim (strip_prefix name s) [
  | none ↦ none
  | some value ↦ read_string (suc (length value)) value
]

abbrev pub put_value : Bytes → Option (List Bytes × Bytes) → Option (List Bytes × Bytes)
put_value v none = none
put_value v (some (vs, rest)) = some (v ∷ vs, rest)

-- The values of fields with the given texts in front of them, and the rest.
unfoldable pub read_fields : List Bytes → Bytes → Option (List Bytes × Bytes)
read_fields [] s = some ([], s)
read_fields (name ∷ names) s = elim (read_field name s) [
  | none ↦ none
  | some (v, rest) ↦ put_value v (read_fields names rest)
]

abbrev pub object : List (Bytes × Bytes) → Bytes → Bytes
object [] end = end
object ((name, v) ∷ fields) end = name ++ (v ++ 0x22 ∷ object fields end)

abbrev names_of : List (Bytes × Bytes) → List Bytes
names_of [] = []
names_of ((name, v) ∷ fields) = name ∷ names_of fields

abbrev values_of : List (Bytes × Bytes) → List Bytes
values_of [] = []
values_of ((name, v) ∷ fields) = v ∷ values_of fields

read_field-Plain :
    (name v rest : Bytes) → Plain v → read_field name (name ++ (v ++ 0x22 ∷ rest)) ≡ some (v, rest)
unfolding read_field
read_field-Plain name v rest h =
    let behind = strip_prefix-append name (v ++ 0x22 ∷ rest) in
    let fuel : length v < suc (length (v ++ 0x22 ∷ rest)) =
      omega (arith, length-append v (0x22 ∷ rest)) in
    rw (behind, read_field)
      (ap (λ t. read_string (suc (length (v ++ 0x22 ∷ rest))) (t ++ 0x22 ∷ rest))
          (sym (escaped-Plain v h))
        ∙ read_string-escaped (suc (length (v ++ 0x22 ∷ rest))) v rest fuel)

read_fields-object :
    (fields : List (Bytes × Bytes)) (end : Bytes)
    → All Plain (values_of fields)
    → read_fields (names_of fields) (object fields end) ≡ some (values_of fields, end)
unfolding read_fields
read_fields-object [] end h = refl
read_fields-object ((name, v) ∷ fields) end (h, hs) =
    let first = read_field-Plain name v (object fields end) h in
    let others = read_fields-object fields end hs in rw (first, others, read_fields) refl

-- The texts in front of the five values.
abbrev pub sms_names : List Bytes
sms_names =
    codes "{\"sender\":\""
    ∷ codes ",\"content\":\""
    ∷ codes ",\"local_number\":\""
    ∷ codes ",\"operator\":\""
    ∷ codes ",\"timestamp\":\""
    ∷ []

abbrev pub sms_values : Settings → SmsMessage → List Bytes
sms_values g sms =
    sms.sender
    ∷ sms.content
    ∷ or_unknown g.sim_phone_number
    ∷ or_unknown g.sim_operator
    ∷ g.timestamp
    ∷ []

abbrev sms_fields : Settings → SmsMessage → List (Bytes × Bytes)
sms_fields g sms =
    (codes "{\"sender\":\"", sms.sender)
    ∷ (codes ",\"content\":\"", sms.content)
    ∷ (codes ",\"local_number\":\"", or_unknown g.sim_phone_number)
    ∷ (codes ",\"operator\":\"", or_unknown g.sim_operator)
    ∷ (codes ",\"timestamp\":\"", g.timestamp)
    ∷ []

-- The texts fit into their arrays.
pub record IsSized (g : Settings) (sms : SmsMessage) : Type 0 where
  pub sender_fits : length sms.sender < sender_size
  pub content_fits : length sms.content < content_size
  pub number_fits : length (or_unknown g.sim_phone_number) < 32
  pub operator_fits : length (or_unknown g.sim_operator) < 32
  pub timestamp_fits : length g.timestamp < 32

length-sms_json : (g : Settings) (sms : SmsMessage) → IsSized g sms → length (sms_json g sms) ≤ 2559
length-sms_json g sms z =
    simp length-append (
      omega
        (arith, z.sender_fits, z.content_fits, z.number_fits, z.operator_fits, z.timestamp_fits))

-- If the texts fit into their arrays and none of them has a quote, a backslash or a control
-- character, the payload of a message is not cut, and a reader of JSON strings gets back the
-- sender, the content, the own number, the operator, the last two or UNKNOWN where they are empty,
-- and the time.
pub read_fields-sms_payload :
    (g : Settings) (sms : SmsMessage)
    → IsSized g sms
    → All Plain (sms_values g sms)
    → read_fields sms_names (sms_payload g sms) ≡ some (sms_values g sms, codes "}")
unfolding sms_payload
read_fields-sms_payload g sms z h =
    ap (read_fields sms_names) (take_all (2560 - 1) (sms_json g sms) (length-sms_json g sms z))
    ∙ read_fields-object (sms_fields g sms) (codes "}") h
