-- ===== src/Storage/Keys.antt =====
-- The keys of main/sms_storage.c.
use iot_sms.Base.{
  ℕ, ◌<◌, ◌^◌, ◌≡◌, ◌≢◌, ◌++◌, ◌∷◌, [], sym, ap, ◌∙◌, arith, Bytes, codes, take, take_all,
}
use iot_sms.Decimal.{decimal, length-decimal, decimal-injective}

-- `NVS_KEY_COUNT`
abbrev pub count_key : Bytes
count_key = codes "count"

-- `NVS_KEY_PREFIX`
abbrev pub key_prefix : Bytes
key_prefix = codes "sms_"

-- `snprintf (key, sizeof (key), "%s%lu", NVS_KEY_PREFIX, i)` into 16 bytes.
unfoldable pub sms_key : ℕ → Bytes
sms_key i = take 15 (key_prefix ++ decimal i)

-- The array is long enough for every key.
sms_key_lem : (i : ℕ) → sms_key i ≡ key_prefix ++ decimal i
unfolding sms_key
sms_key_lem i = take_all 15 (key_prefix ++ decimal i) (omega (arith, length-decimal i))

behind_prefix : Bytes → Bytes
behind_prefix (a ∷ b ∷ c ∷ d ∷ s) = s
behind_prefix _ = []

pub sms_key-injective : (i j : ℕ) → i < 2 ^ 32 → j < 2 ^ 32 → sms_key i ≡ sms_key j → i ≡ j
unfolding behind_prefix
sms_key-injective i j hi hj e =
    decimal-injective i j hi hj (ap behind_prefix (sym (sms_key_lem i) ∙ e ∙ sms_key_lem j))

pub sms_key-ne-count_key : (i : ℕ) → sms_key i ≢ count_key
sms_key-ne-count_key i e = ground (arith, sym (sms_key_lem i) ∙ e)
