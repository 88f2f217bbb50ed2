-- ===== src/Dtu/Dedup/Repeats.antt =====
-- A recorded message is recognised within the window while fewer than eight others are recorded.
use iot_sms.Base.{
  ℕ, zero, suc, ◌+◌, ◌%◌, ◌<◌, true, List, [], ◌∷◌, some, ◌≡◌, ◌≢◌, inl, inr, refl, ap, ◌∙◌, arith,
  length, get_elem?, lt→ltb, ◌==◌, Bool-cases, some-injective, none-some,
}
use iot_sms.Dtu.Dedup.{
  SmsDedupEntry, DedupCache, dtu_dedup_cache_size, dtu_dedup_window_ms, sms_fingerprint, is_recent,
  refresh, sms_is_duplicate, set_entry, sms_dedup_record,
}
use iot_sms.Message.{SmsMessage}
use iot_sms.Rtos.{Rtos, ms_to_ticks, tick_sub}

-- The array's size and the index inside it.
abbrev pub IsCache : DedupCache → Type 0
IsCache c = (length c.entries ≡ dtu_dedup_cache_size) × (c.next < dtu_dedup_cache_size)

-- Messages recorded one after the other, each with its time.
abbrev pub record_all : DedupCache → List (SmsMessage × ℕ) → DedupCache
record_all c [] = c
record_all c ((m, now) ∷ ms) = record_all (sms_dedup_record c m now) ms

set_entry-get :
    (es : List SmsDedupEntry) (i : ℕ) (e : SmsDedupEntry)
    → i < length es
    → get_elem? (set_entry es i e) i ≡ some e
set_entry-get [] i e h = absurd (omega arith)
set_entry-get (x ∷ es) zero e h = refl
set_entry-get (x ∷ es) (suc i) e h = set_entry-get es i e (omega arith)

set_entry-other :
    (es : List SmsDedupEntry) (i j : ℕ) (e : SmsDedupEntry)
    → i ≢ j
    → get_elem? (set_entry es j e) i ≡ get_elem? es i
set_entry-other [] i j e ne = refl
set_entry-other (x ∷ es) zero zero e ne = absurd (ne refl)
set_entry-other (x ∷ es) zero (suc j) e ne = refl
set_entry-other (x ∷ es) (suc i) zero e ne = refl
set_entry-other (x ∷ es) (suc i) (suc j) e ne = set_entry-other es i j e (omega arith)

-- `k` more messages have been recorded since entry `i` was written.
record Stands (c : DedupCache) (i k : ℕ) (e : SmsDedupEntry) : Type 0 where
  here : get_elem? c.entries i ≡ some e
  next_is : c.next ≡ (i + 1 + k) % dtu_dedup_cache_size

Stands-sms_dedup_record :
    (c : DedupCache) (i k : ℕ) (e : SmsDedupEntry) (m : SmsMessage) (now : ℕ)
    → i < dtu_dedup_cache_size
    → k + 1 < dtu_dedup_cache_size
    → Stands c i k e
    → Stands (sms_dedup_record c m now) i (k + 1) e
unfolding sms_dedup_record
Stands-sms_dedup_record c i k e m now inside few s = record {
  here = set_entry-other c.entries i c.next _ (omega (arith, s.next_is)) ∙ s.here;
  next_is = omega (arith, s.next_is);
}

record_all-here :
    (ms : List (SmsMessage × ℕ)) (c : DedupCache) (i k : ℕ) (e : SmsDedupEntry)
    → i < dtu_dedup_cache_size
    → k + length ms < dtu_dedup_cache_size
    → Stands c i k e
    → get_elem? (record_all c ms).entries i ≡ some e
record_all-here [] c i k e inside few s = s.here
record_all-here ((m, now) ∷ ms) c i k e inside few s =
    record_all-here ms (sms_dedup_record c m now) i (k + 1) e inside (omega arith)
      (Stands-sms_dedup_record c i k e m now inside (omega arith) s)

record_Stands :
    (c : DedupCache) (m : SmsMessage) (now : ℕ)
    → IsCache c
    → Stands
        (sms_dedup_record c m now)
        c.next
        0
        (record { hash = sms_fingerprint m; tick = now; valid = true })
unfolding sms_dedup_record
record_Stands c m now (eight, inside) = record {
  here = set_entry-get c.entries c.next _ (omega arith);
  next_is = omega arith;
}

module _ (R : Rtos) where
  refresh-some :
      (h now : ℕ) (es : List SmsDedupEntry) (i : ℕ) (e : SmsDedupEntry)
      → get_elem? es i ≡ some e
      → is_recent R h now e ≡ true
      → (es' : List SmsDedupEntry) × (refresh R h now es ≡ some es')
  unfolding refresh
  refresh-some h now [] i e at r = absurd (none-some at)
  refresh-some h now (x ∷ es) zero e at r =
      let found_here = ap (is_recent R h now) (some-injective at) ∙ r in
      (record x { tick = now } ∷ es, rw (found_here, refresh) refl)
  refresh-some h now (x ∷ es) (suc i) e at r = elim (Bool-cases (is_recent R h now x)) [
    | inl first ↦ (record x { tick = now } ∷ es, rw (first, refresh) refl)
    | inr later ↦
        let (es', f) = refresh-some h now es i e at r in (x ∷ es', rw (later, f, refresh) refl)
  ]

  is_recent-entry :
      (h now stored : ℕ)
      → tick_sub now stored < ms_to_ticks R dtu_dedup_window_ms
      → is_recent R h now (record { hash = h; tick = stored; valid = true }) ≡ true
  unfolding is_recent
  is_recent-entry h now stored soon =
      let same : (h == h) ≡ true = ground arith in
      rw (same, lt→ltb (tick_sub now stored) (ms_to_ticks R dtu_dedup_window_ms) soon) refl

  refreshed_true :
      (c : DedupCache) (m : SmsMessage) (now : ℕ) (es : List SmsDedupEntry)
      → refresh R (sms_fingerprint m) now c.entries ≡ some es
      → (sms_is_duplicate R c m now).1 ≡ true
  unfolding sms_is_duplicate
  refreshed_true c m now es e = rw (e, sms_is_duplicate) refl

  -- A message that has been recorded in a cache of eight entries is a duplicate at any time within
  -- the window from then on, also over a wrap of the tick counter, after at most seven further
  -- messages have been recorded.
  pub record_all-sms_is_duplicate :
      (c : DedupCache) (m : SmsMessage) (stored now : ℕ) (ms : List (SmsMessage × ℕ))
      → IsCache c
      → length ms < dtu_dedup_cache_size
      → tick_sub now stored < ms_to_ticks R dtu_dedup_window_ms
      → (sms_is_duplicate R (record_all (sms_dedup_record c m stored) ms) m now).1 ≡ true
  record_all-sms_is_duplicate c m stored now ms ok few soon =
      let at =
        record_all-here ms (sms_dedup_record c m stored) c.next 0 _ ok.1 (omega arith)
          (record_Stands c m stored ok) in
      let (es, e) =
        refresh-some (sms_fingerprint m) now _ c.next _ at
          (is_recent-entry (sms_fingerprint m) now stored soon) in
      refreshed_true _ m now es e
