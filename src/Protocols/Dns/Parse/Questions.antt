-- ===== src/Protocols/Dns/Parse/Questions.antt =====
-- The loop over the questions of `ns_parse_dns` of src/protocols/dns.c.
use native.Mathlib.Decide.{dec_lt}
use netscope.Base.{
  ℕ, zero, suc, ◌+◌, ◌≤◌, ◌<◌, min, Bytes, Option, none, some, ◌≡◌, ◌≢◌, ◌∙◌, length, All, lt→ltb,
  le→ltb, arith,
}
use mathlib.Core.Path.{subst}
use netscope.Run.{done, Returns, Returns-bind}
use netscope.Util.Buffer.{IsBuffer}
use netscope.Protocols.Status.{Status, ok, truncated, malformed, unsupported}
use netscope.Protocols.Dns.Message.{DnsQuestion, DnsInfo, slot_at, parse_question}
use netscope.Protocols.Dns.Message.Total.{
  IsQuestion, IsRecord, IsSlot, SameSlot, QuestionParsed, length-set, set-All, slot_at-All,
  parse_question-QuestionParsed,
}
use netscope.Protocols.Dns.Parse.{
  question_slot, put_question, count_question, Loop, stop, next, question_done, question_turn,
  question_loop,
}

-- The arrays have their slots, the counts stay inside them and below what the header announces,
-- and every text leaves room for its terminator.
pub record IsDns (d : DnsInfo) : Type 0 where
  pub question_slots : length d.questions ≡ 4
  pub answer_slots : length d.answers ≡ 12
  pub few_questions : d.decoded_question_count ≤ min d.question_count 4
  pub few_answers : d.decoded_answer_count ≤ min d.answer_count 12
  pub questions_fit : All IsQuestion d.questions
  pub answers_fit : All IsRecord d.answers

-- The loop over the questions, before its turn `i` of `qdcount`.
pub record InQuestions (qdcount ancount i : ℕ) (d : DnsInfo) : Type 0 where
  pub dns : IsDns d
  pub announced : d.question_count ≡ qdcount
  pub announced_answers : d.answer_count ≡ ancount
  pub counted : d.decoded_question_count ≡ min i 4
  pub no_answers : d.decoded_answer_count ≡ 0

abbrev pub QuestionLoop : ℕ → ℕ → ℕ → Loop → Type 0
QuestionLoop qdcount ancount i (next offset d) = InQuestions qdcount ancount i d
QuestionLoop qdcount ancount i (stop status d) = IsDns d × (status ≢ ok)

-- The slot that a question is parsed into: null from the fifth on.
abbrev SlotFor : ℕ → Option DnsQuestion → Type 0
SlotFor i none = 4 ≤ i
SlotFor i (some q) = i < 4

question_slot-SlotFor :
    (qdcount ancount i : ℕ) (d : DnsInfo)
    → InQuestions qdcount ancount i d
    → Returns (question_slot i d) (SlotFor i)
unfolding question_slot
question_slot-SlotFor qdcount ancount i d inv = elim (dec_lt i 4) [
  | no late ↦ rw (le→ltb i 4 (omega arith)) (omega arith)
  | yes early ↦ rw (lt→ltb i 4 early) (
      Returns-bind (slot_at d.questions d.decoded_question_count) _ IsQuestion (SlotFor i)
        (slot_at-All IsQuestion d.questions d.decoded_question_count inv.dns.questions_fit
          (omega (arith, inv.counted, inv.dns.question_slots)))
        (λ q h. early))
]

put_question-IsDns :
    (d : DnsInfo) (slot : Option DnsQuestion) → IsDns d → IsSlot slot → IsDns (put_question d slot)
put_question-IsDns d none h s = h
put_question-IsDns d (some q) h s = record {
  question_slots = length-set d.questions d.decoded_question_count q ∙ h.question_slots;
  answer_slots = h.answer_slots;
  few_questions = h.few_questions;
  few_answers = h.few_answers;
  questions_fit = set-All IsQuestion d.questions d.decoded_question_count q h.questions_fit s;
  answers_fit = h.answers_fit;
}

counted_question :
    (qdcount ancount i : ℕ) (d : DnsInfo) (slot slot' : Option DnsQuestion)
    → InQuestions qdcount ancount i d
    → i < qdcount
    → SlotFor i slot
    → IsSlot slot'
    → SameSlot slot slot'
    → InQuestions qdcount ancount (suc i) (count_question (put_question d slot') slot')
counted_question qdcount ancount i d none none inv lt late fits same = record {
  dns = inv.dns;
  announced = inv.announced;
  announced_answers = inv.announced_answers;
  counted = omega (arith, inv.counted);
  no_answers = inv.no_answers;
}
counted_question qdcount ancount i d none (some r) inv lt late fits same = absurd same
counted_question qdcount ancount i d (some q) none inv lt early fits same = absurd same
counted_question qdcount ancount i d (some q) (some r) inv lt early fits same =
    let put = put_question-IsDns d (some r) inv.dns fits in
    record {
      dns = record {
        question_slots = put.question_slots;
        answer_slots = put.answer_slots;
        few_questions = omega (arith, inv.counted, inv.announced);
        few_answers = put.few_answers;
        questions_fit = put.questions_fit;
        answers_fit = put.answers_fit;
      };
      announced = inv.announced;
      announced_answers = inv.announced_answers;
      counted = omega (arith, inv.counted);
      no_answers = inv.no_answers;
    }

question_done-QuestionLoop :
    (qdcount ancount i : ℕ) (d : DnsInfo) (slot : Option DnsQuestion)
    (r : Status × ℕ × Option DnsQuestion)
    → InQuestions qdcount ancount i d
    → i < qdcount
    → SlotFor i slot
    → QuestionParsed slot r
    → QuestionLoop qdcount ancount (suc i) (question_done d r)
unfolding question_done
question_done-QuestionLoop qdcount ancount i d slot (ok, offset, slot') inv lt s p =
    counted_question qdcount ancount i d slot slot' inv lt s p.0 p.1
question_done-QuestionLoop qdcount ancount i d slot (truncated, offset, slot') inv lt s p =
    (put_question-IsDns d slot' inv.dns p.0, λ e. cc)
question_done-QuestionLoop qdcount ancount i d slot (malformed, offset, slot') inv lt s p =
    (put_question-IsDns d slot' inv.dns p.0, λ e. cc)
question_done-QuestionLoop qdcount ancount i d slot (unsupported, offset, slot') inv lt s p =
    (put_question-IsDns d slot' inv.dns p.0, λ e. cc)

module _ {buf : Bytes} {n : ℕ} (valid : IsBuffer buf n) (qdcount ancount : ℕ) where
  question_turn-QuestionLoop :
      (i offset : ℕ) (d : DnsInfo)
      → InQuestions qdcount ancount i d
      → i < qdcount
      → Returns (question_turn buf n i offset d) (QuestionLoop qdcount ancount (suc i))
  unfolding question_turn
  question_turn-QuestionLoop i offset d inv lt =
      Returns-bind (question_slot i d) _ (SlotFor i) (QuestionLoop qdcount ancount (suc i))
        (question_slot-SlotFor qdcount ancount i d inv)
        (λ slot s.
          Returns-bind (parse_question buf n offset slot) _ (QuestionParsed slot)
            (QuestionLoop qdcount ancount (suc i)) (parse_question-QuestionParsed valid offset slot)
            (λ r p. question_done-QuestionLoop qdcount ancount i d slot r inv lt s p))

  pub question_loop-QuestionLoop :
      (turns i offset : ℕ) (d : DnsInfo)
      → InQuestions qdcount ancount i d
      → i + turns ≡ qdcount
      → Returns (question_loop turns buf n i offset d) (QuestionLoop qdcount ancount qdcount)
  unfolding question_loop
  question_loop-QuestionLoop zero i offset d inv e =
      subst (λ k. InQuestions qdcount ancount k d) (omega arith) inv
  question_loop-QuestionLoop (suc turns) i offset d inv e =
      Returns-bind (question_turn buf n i offset d) _ (QuestionLoop qdcount ancount (suc i))
        (QuestionLoop qdcount ancount qdcount)
        (question_turn-QuestionLoop i offset d inv (omega arith))
        (rest (λ offset' d' h. question_loop-QuestionLoop turns (suc i) offset' d' h (omega arith)))
    where
      rest :
          ((offset' : ℕ) (d' : DnsInfo)
            → InQuestions qdcount ancount (suc i) d'
            → Returns
                (question_loop turns buf n (suc i) offset' d')
                (QuestionLoop qdcount ancount qdcount))
          → (t : Loop) → QuestionLoop qdcount ancount (suc i) t
          → Returns
              (elim t [
                | stop status out ↦ done (stop status out)
                | next offset' out' ↦ question_loop turns buf n (suc i) offset' out'
              ])
              (QuestionLoop qdcount ancount qdcount)
      rest ih (stop status d') h = h
      rest ih (next offset' d') h = ih offset' d' h
