-- ===== src/Dtu/Dedup/Known.antt =====
-- A message is left out as a duplicate only if one with its fingerprint has been accepted before.
use iot_sms.Base.{
  ℕ, zero, suc, ◌<◌, true, false, List, [], ◌∷◌, ◌++◌, Option, none, some, ◌≡◌, ◌⊎◌, inl, inr, refl,
  sym, subst, ◌∙◌, arith, Bytes, All, length, get_elem?, get_elem?-append_left,
  get_elem?-append_last, ◌==◌, ==_iff, Bool-cases, Option-cases, some-injective, none-some,
}
use iot_sms.Dtu.Dedup.{
  SmsDedupEntry, DedupCache, DtuState, sms_fingerprint, is_recent, refresh, sms_is_duplicate,
  set_entry, sms_dedup_record, enqueue, handle_sms, dtu_handle_line,
}
use iot_sms.CString.{strip_prefix}
use iot_sms.Dtu.Parse.{parse_sms_line}
use iot_sms.Message.{SmsMessage}
use iot_sms.Rtos.{Rtos, ms_to_ticks}

-- A message of the list has the fingerprint.
abbrev pub Known : List SmsMessage → ℕ → Type 0
Known l h = (i : ℕ) × (m : SmsMessage) × (get_elem? l i ≡ some m) × (sms_fingerprint m ≡ h)

abbrev pub Backed : List SmsMessage → List SmsDedupEntry → Type 0
Backed l es = All (λ e. e.valid ≡ true → Known l e.hash) es

get_elem?-some_lt :
    (l : List SmsMessage) (i : ℕ) (m : SmsMessage) → get_elem? l i ≡ some m → i < length l
get_elem?-some_lt [] i m e = absurd (none-some e)
get_elem?-some_lt (x ∷ l) zero m e = omega arith
get_elem?-some_lt (x ∷ l) (suc i) m e = omega (arith, get_elem?-some_lt l i m e)

Known-append : (l l' : List SmsMessage) (h : ℕ) → Known l h → Known (l ++ l') h
Known-append l l' h (i, m, e, f) =
    (i, m, get_elem?-append_left l l' i (get_elem?-some_lt l i m e) ∙ e, f)

Backed-append :
    (l l' : List SmsMessage) (es : List SmsDedupEntry) → Backed l es → Backed (l ++ l') es
Backed-append l l' [] b = tt
Backed-append l l' (e ∷ es) (b, bs) =
    ((λ v. Known-append l l' e.hash (b v)), Backed-append l l' es bs)

Known-last : (l : List SmsMessage) (m : SmsMessage) → Known (l ++ m ∷ []) (sms_fingerprint m)
Known-last l m = (length l, m, get_elem?-append_last l m (length l) refl, refl)

set_entry-Backed :
    (l : List SmsMessage) (es : List SmsDedupEntry) (i : ℕ) (e : SmsDedupEntry)
    → Known l e.hash
    → Backed l es
    → Backed l (set_entry es i e)
set_entry-Backed l [] i e k b = tt
set_entry-Backed l (x ∷ es) zero e k (b, bs) = ((λ v. k), bs)
set_entry-Backed l (x ∷ es) (suc i) e k (b, bs) = (b, set_entry-Backed l es i e k bs)

parse_nil : parse_sms_line [] ≡ none
unfolding parse_sms_line strip_prefix
parse_nil = refl

module _ (R : Rtos) where
  is_recent-hash :
      (h now : ℕ) (e : SmsDedupEntry) → is_recent R h now e ≡ true → (e.valid ≡ true) × (e.hash ≡ h)
  unfolding is_recent
  is_recent-hash h now e r = elim (Bool-cases e.valid) [
    | inr off ↦ absurd (ground (arith, off, r))
    | inl on ↦ elim (Bool-cases (e.hash == h)) [
      | inr other ↦ absurd (ground (arith, on, other, r))
      | inl same ↦ (on, (==_iff e.hash h).0 same)
    ]
  ]

  abbrev Refreshed : List SmsMessage → ℕ → Option (List SmsDedupEntry) → Type 0
  Refreshed l h o = (es : List SmsDedupEntry) → o ≡ some es → Known l h × Backed l es

  refresh-Refreshed :
      (l : List SmsMessage) (h now : ℕ) (es : List SmsDedupEntry)
      → Backed l es
      → Refreshed l h (refresh R h now es)
  unfolding refresh
  refresh-Refreshed l h now [] b = λ es e. absurd (none-some e)
  refresh-Refreshed l h now (x ∷ xs) (b, bs) = elim (Bool-cases (is_recent R h now x)) [
    | inl r ↦
        let (on, same) = is_recent-hash h now x r in
        rw r (λ es e. (subst (Known l) same (b on), subst (Backed l) (some-injective e) (b, bs)))
    | inr r ↦ elim (Option-cases (refresh R h now xs)) [
      | inl f ↦ rw (r, f, refresh) (λ es e. absurd (none-some e))
      | inr (ys, f) ↦
          let (k, bs') = refresh-Refreshed l h now xs bs ys f in
          rw (r, f, refresh) (λ es e. (k, subst (Backed l) (some-injective e) (b, bs')))
    ]
  ]

  abbrev pub IsBacked : DtuState R → Type 0
  IsBacked s = Backed (R.accepted s.sms_queue) s.cache.entries

  is_duplicate-cases :
      (l : List SmsMessage) (c : DedupCache) (m : SmsMessage) (now : ℕ)
      → Backed l c.entries
      → ((sms_is_duplicate R c m now ≡ (c, false)))
        ⊎ ((c' : DedupCache) × (sms_is_duplicate R c m now ≡ (c', true))
            × Known l (sms_fingerprint m)
            × Backed l c'.entries)
  unfolding sms_is_duplicate
  is_duplicate-cases l c m now b =
      elim (Option-cases (refresh R (sms_fingerprint m) now c.entries)) [
        | inl e ↦ inl (rw (e, sms_is_duplicate) refl)
        | inr (es, e) ↦
            let (k, bs) = refresh-Refreshed l (sms_fingerprint m) now c.entries b es e in
            inr (record c { entries = es }, rw (e, sms_is_duplicate) refl, k, bs)
      ]

  -- What becomes of a message: it is accepted, it is left out since one with its fingerprint has
  -- been accepted, or the queue refuses it.
  abbrev pub Handled : DtuState R → SmsMessage → DtuState R → Type 0
  Handled s m s' =
      (R.accepted s'.sms_queue ≡ R.accepted s.sms_queue ++ m ∷ [])
      ⊎ ((R.accepted s'.sms_queue ≡ R.accepted s.sms_queue)
          × (Known (R.accepted s.sms_queue) (sms_fingerprint m)
              ⊎ ((R.send s.sms_queue m (ms_to_ticks R 1000)).1 ≡ false)))

  enqueue-Handled :
      (s : DtuState R) (m : SmsMessage) (now : ℕ)
      → IsBacked s
      → IsBacked (enqueue R s m now) × Handled s m (enqueue R s m now)
  unfolding enqueue sms_dedup_record
  enqueue-Handled s m now b = elim (Bool-cases (R.send s.sms_queue m (ms_to_ticks R 1000)).1) [
    | inl e ↦
        let log = R.send_pass s.sms_queue m (ms_to_ticks R 1000) e in
        let last = Known-last (R.accepted s.sms_queue) m in
        let bs = Backed-append (R.accepted s.sms_queue) (m ∷ []) s.cache.entries b in
        rw e (
          subst (λ l. Backed l (sms_dedup_record s.cache m now).entries) (sym log)
              (set_entry-Backed _ s.cache.entries s.cache.next _ last bs),
          inl log,
        )
    | inr e ↦
        let log = R.send_fail s.sms_queue m (ms_to_ticks R 1000) e in
        rw e (subst (λ l. Backed l s.cache.entries) (sym log) b, inr (log, inr refl))
  ]

  handle_sms-Handled :
      (s : DtuState R) (m : SmsMessage) (checked stored : ℕ)
      → IsBacked s
      → IsBacked (handle_sms R s m checked stored) × Handled s m (handle_sms R s m checked stored)
  unfolding handle_sms
  handle_sms-Handled s m checked stored b =
      elim (is_duplicate-cases (R.accepted s.sms_queue) s.cache m checked b) [
        | inl e ↦ rw e (enqueue-Handled s m stored b)
        | inr (c', e, k, bs) ↦ rw e (bs, inr (refl, inl k))
      ]

  -- If every valid entry of the cache has the fingerprint of a message that the queue has accepted,
  -- this holds after a line has been handled too, and a line either is no message and changes
  -- nothing, or its message is accepted, or nothing is accepted and the fingerprint is that of a
  -- message accepted before or the queue refuses the message.
  pub dtu_handle_line-Handled :
      (s : DtuState R) (line : Bytes) (checked stored : ℕ)
      → IsBacked s
      → IsBacked (dtu_handle_line R s line checked stored)
        × (((parse_sms_line line ≡ none) × (dtu_handle_line R s line checked stored ≡ s))
            ⊎ ((m : SmsMessage) × (parse_sms_line line ≡ some m)
                × Handled s m (dtu_handle_line R s line checked stored)))
  unfolding dtu_handle_line
  dtu_handle_line-Handled s [] checked stored b = (b, inl (parse_nil, refl))
  dtu_handle_line-Handled s (c ∷ line) checked stored b =
      let filled : (length (c ∷ line) == 0) ≡ false = ground arith in
      elim (Option-cases (parse_sms_line (c ∷ line))) [
        | inl e ↦ rw (filled, e, dtu_handle_line) (b, inl (refl, refl))
        | inr (m, e) ↦
            let (b', h) = handle_sms-Handled s m checked stored b in
            rw (filled, e, dtu_handle_line) (b', inr (m, refl, h))
      ]
