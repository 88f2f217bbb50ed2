-- ===== src/Dtu/Task/Passing.antt =====
-- Steps of the task that take lines out of the stream, each of which is handled or is an answer.
use iot_sms.Base.{
  ℕ, ◌+◌, ◌≤◌, ◌++◌, [], ◌∷◌, List, Option, none, some, Bytes, All, All-right, ◌≡◌, inl, inr, refl,
  sym, ap, subst, ◌∙◌, arith, append_assoc,
}
use iot_sms.Dtu.Dedup.{DtuState, dtu_handle_line}
use iot_sms.CString.{c_str}
use iot_sms.Dtu.Reader.{RxState}
use iot_sms.Dtu.Reader.Intact.{stream_of, HasRoom, IsLine, join}
use iot_sms.Dtu.Task.{DtuTask, QueryRound, PollRound}
use iot_sms.Dtu.Task.Answers.{text_of, Arrived, raws_of, handle_lines, Asked}
use iot_sms.Rtos.{Rtos}

-- What becomes of a line.
pub data Item : Type 0 where
  handled : Arrived → Item
  answer_line : Bytes → Item

abbrev pub raw_of : Item → Bytes
raw_of (handled a) = a.0
raw_of (answer_line raw) = raw

abbrev pub item_raws : List Item → List Bytes
item_raws [] = []
item_raws (x ∷ xs) = raw_of x ∷ item_raws xs

abbrev pub answers_in : List Item → ℕ
answers_in [] = 0
answers_in (handled a ∷ xs) = answers_in xs
answers_in (answer_line raw ∷ xs) = 1 + answers_in xs

abbrev pub all_handled : List Arrived → List Item
all_handled [] = []
all_handled (a ∷ l) = handled a ∷ all_handled l

item_raws-append : (a b : List Item) → item_raws (a ++ b) ≡ item_raws a ++ item_raws b
item_raws-append [] b = refl
item_raws-append (x ∷ a) b = ap (raw_of x ∷◌) (item_raws-append a b)

answers_in-append : (a b : List Item) → answers_in (a ++ b) ≡ answers_in a + answers_in b
answers_in-append [] b = omega arith
answers_in-append (handled x ∷ a) b = answers_in-append a b
answers_in-append (answer_line raw ∷ a) b = omega (arith, answers_in-append a b)

item_raws-all_handled : (l : List Arrived) → item_raws (all_handled l) ≡ raws_of l
item_raws-all_handled [] = refl
item_raws-all_handled (a ∷ l) = ap (a.0 ∷◌) (item_raws-all_handled l)

answers_in-all_handled : (l : List Arrived) → answers_in (all_handled l) ≡ 0
answers_in-all_handled [] = refl
answers_in-all_handled (a ∷ l) = answers_in-all_handled l

module _ (R : Rtos) where
  -- An answer changes nothing.
  abbrev pub handle_items : DtuState R → List Item → DtuState R
  handle_items d [] = d
  handle_items d (handled (raw, checked, stored) ∷ xs) =
      handle_items (dtu_handle_line R d (text_of raw) checked stored) xs
  handle_items d (answer_line raw ∷ xs) = handle_items d xs

  handle_items-append :
      (d : DtuState R) (a b : List Item)
      → handle_items d (a ++ b) ≡ handle_items (handle_items d a) b
  handle_items-append d [] b = refl
  handle_items-append d (handled (raw, checked, stored) ∷ a) b =
      handle_items-append (dtu_handle_line R d (text_of raw) checked stored) a b
  handle_items-append d (answer_line raw ∷ a) b = handle_items-append d a b

  handle_items-all_handled :
      (d : DtuState R) (l : List Arrived) → handle_items d (all_handled l) ≡ handle_lines R d l
  handle_items-all_handled d [] = refl
  handle_items-all_handled d ((raw, checked, stored) ∷ l) =
      handle_items-all_handled (dtu_handle_line R d (text_of raw) checked stored) l

  -- The first lines of the stream are taken out, with so many answers among them at most; all
  -- others have been handled, in order, and the rest is still to come.
  pub record Passed (answers : ℕ) (tail : Bytes) (s : DtuTask R) (raws : List Bytes) (t : DtuTask R)
      : Type 0 where
    pub items : List Item
    pub left : List Bytes
    pub parts : raws ≡ item_raws items ++ left
    pub reports : t.dtu ≡ handle_items s.dtu items
    pub few : answers_in items ≤ answers
    pub to_come : stream_of t.rx ≡ join left tail
    pub has_room : HasRoom t.rx

  pub Passed-more :
      {n m : ℕ} {tail : Bytes} {s t : DtuTask R} {raws : List Bytes}
      → n ≤ m
      → Passed n tail s raws t
      → Passed m tail s raws t
  Passed-more h p = record {
    items = p.items;
    left = p.left;
    parts = p.parts;
    reports = p.reports;
    few = omega (arith, p.few);
    to_come = p.to_come;
    has_room = p.has_room;
  }

  pub Passed-none :
      (tail : Bytes) (s : DtuTask R) (raws : List Bytes)
      → HasRoom s.rx
      → stream_of s.rx ≡ join raws tail
      → Passed 0 tail s raws s
  Passed-none tail s raws room h = record {
    items = [];
    left = raws;
    parts = refl;
    reports = refl;
    few = omega arith;
    to_come = h;
    has_room = room;
  }

  pub Passed-same :
      {n : ℕ} {tail : Bytes} {s s' t t' : DtuTask R} {raws : List Bytes}
      → s'.dtu ≡ s.dtu
      → t'.dtu ≡ t.dtu
      → t'.rx ≡ t.rx
      → Passed n tail s raws t
      → Passed n tail s' raws t'
  Passed-same from to rx p = record {
    items = p.items;
    left = p.left;
    parts = p.parts;
    reports = to ∙ p.reports ∙ ap (λ d. handle_items d p.items) (sym from);
    few = p.few;
    to_come = ap stream_of rx ∙ p.to_come;
    has_room = subst HasRoom (sym rx) p.has_room;
  }

  -- One step after another, the second on whatever the first has left.
  pub Passed-then :
      (n m : ℕ) (tail : Bytes) (s t u : DtuTask R) (raws : List Bytes)
      → All IsLine raws
      → Passed n tail s raws t
      → ((left : List Bytes)
          → All IsLine left
          → HasRoom t.rx
          → stream_of t.rx ≡ join left tail
          → Passed m tail t left u)
      → Passed (n + m) tail s raws u
  Passed-then n m tail s t u raws lines p next =
      let q =
        next p.left (All-right IsLine (item_raws p.items) p.left (subst (All IsLine) p.parts lines))
          p.has_room p.to_come in
      record {
        items = p.items ++ q.items;
        left = q.left;
        parts =
            p.parts
            ∙ ap (item_raws p.items ++◌) q.parts
            ∙ sym (append_assoc (item_raws p.items) (item_raws q.items) q.left)
            ∙ ap (◌++ q.left) (sym (item_raws-append p.items q.items));
        reports =
            q.reports
            ∙ ap (λ d. handle_items d q.items) p.reports
            ∙ sym (handle_items-append s.dtu p.items q.items);
        few = omega (arith, p.few, q.few, answers_in-append p.items q.items);
        to_come = q.to_come;
        has_room = q.has_room;
      }

  -- A query takes one answer at most.
  pub Asked-Passed :
      (tail resp_prefix : Bytes) (start : ℕ) (xs : List QueryRound) (s : DtuTask R)
      (raws : List Bytes) (r : DtuTask R × Option Bytes)
      → Asked R tail resp_prefix start xs s raws r
      → Passed 1 tail s raws r.0
  Asked-Passed tail resp_prefix start xs s raws r a = elim a.answer [
    | inl (nothing, parts, cause) ↦ record {
      items = all_handled a.handled;
      left = a.left;
      parts = parts ∙ ap (◌++ a.left) (sym (item_raws-all_handled a.handled));
      reports = a.reports ∙ sym (handle_items-all_handled s.dtu a.handled);
      few = omega (arith, answers_in-all_handled a.handled);
      to_come = a.to_come;
      has_room = a.has_room;
    }
    | inr (raw, rest, found, is, parts) ↦ record {
      items = all_handled a.handled ++ answer_line raw ∷ [];
      left = a.left;
      parts =
          parts
          ∙ ap (◌++ raw ∷ a.left) (sym (item_raws-all_handled a.handled))
          ∙ sym (append_assoc (item_raws (all_handled a.handled)) (raw ∷ []) a.left)
          ∙ ap (◌++ a.left) (sym (item_raws-append (all_handled a.handled) (answer_line raw ∷ [])));
      reports =
          a.reports
          ∙ sym (handle_items-all_handled s.dtu a.handled)
          ∙ sym (handle_items-append s.dtu (all_handled a.handled) (answer_line raw ∷ []));
      few = omega (
        arith,
        answers_in-all_handled a.handled,
        answers_in-append (all_handled a.handled) (answer_line raw ∷ []),
      );
      to_come = a.to_come;
      has_room = a.has_room;
    }
  ]

  -- What a round of the main loop has after its read.
  abbrev pub read_round : DtuTask R → PollRound → Option Bytes → RxState → DtuTask R
  read_round s x line rx' = elim line [
    | none ↦ record s { rx = rx' }
    | some l ↦ record s { rx = rx'; dtu = dtu_handle_line R s.dtu (c_str l) x.checked x.stored }
  ]
