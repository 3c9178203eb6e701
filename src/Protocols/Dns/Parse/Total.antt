-- ===== src/Protocols/Dns/Parse/Total.antt =====
-- The loop over the answers of `ns_parse_dns` of src/protocols/dns.c, and the message as a whole.
use native.Mathlib.Decide.{dec_le, dec_lt}
use mathlib.Core.Path.{subst}
use netscope.Base.{
  ℕ, zero, suc, ◌+◌, ◌≤◌, ◌<◌, min, Bytes, ◌≡◌, ◌≢◌, refl, ◌∙◌, lt→leb, le→leb, lt→ltb, le→ltb,
  arith,
}
use netscope.Run.{done, Returns, Returns-bind}
use netscope.Util.Buffer.{IsBuffer, u16_at}
use netscope.Util.Reads.{bounds_check_lem, load_u16_lem}
use netscope.Protocols.Status.{Status, ok, truncated, malformed, unsupported}
use netscope.Protocols.Dns.Message.{DnsRecord, DnsInfo, slot_at, set, parse_record}
use netscope.Protocols.Dns.Message.Total.{
  IsRecord, RecordParsed, length-set, set-All, slot_at-All, parse_record-RecordParsed,
}
use netscope.Protocols.Dns.Parse.{
  Loop, stop, next, question_loop, answer_done, answer_turn, answer_loop, ended, parse_answers,
  parse_dns,
}
use netscope.Protocols.Dns.Parse.Questions.{IsDns, QuestionLoop, question_loop-QuestionLoop}

-- The loop over the answers, before its turn `i`.
record InAnswers (qdcount ancount i : ℕ) (d : DnsInfo) : Type 0 where
  dns : IsDns d
  announced : d.question_count ≡ qdcount
  announced_answers : d.answer_count ≡ ancount
  questions_counted : d.decoded_question_count ≡ min qdcount 4
  counted : d.decoded_answer_count ≡ i

abbrev AnswerLoop : ℕ → ℕ → ℕ → Loop → Type 0
AnswerLoop qdcount ancount i (next offset d) = InAnswers qdcount ancount i d
AnswerLoop qdcount ancount i (stop status d) = IsDns d × (status ≢ ok)

put_answer-IsDns :
    (d : DnsInfo) (slot : DnsRecord)
    → IsDns d
    → IsRecord slot
    → IsDns (record d { answers = set d.answers d.decoded_answer_count slot })
put_answer-IsDns d slot h s = record {
  question_slots = h.question_slots;
  answer_slots = length-set d.answers d.decoded_answer_count slot ∙ h.answer_slots;
  few_questions = h.few_questions;
  few_answers = h.few_answers;
  questions_fit = h.questions_fit;
  answers_fit = set-All IsRecord d.answers d.decoded_answer_count slot h.answers_fit s;
}

module _ (qdcount ancount i : ℕ) (d : DnsInfo) (inv : InAnswers qdcount ancount i d) where
  answer_done-AnswerLoop :
      (r : Status × ℕ × DnsRecord)
      → i < min ancount 12
      → RecordParsed r
      → AnswerLoop qdcount ancount (suc i) (answer_done d r)
  unfolding answer_done
  answer_done-AnswerLoop (ok, offset, slot) lt p =
      let put = put_answer-IsDns d slot inv.dns p in
      record {
        dns = record {
          question_slots = put.question_slots;
          answer_slots = put.answer_slots;
          few_questions = put.few_questions;
          few_answers = omega (arith, inv.counted, inv.announced_answers);
          questions_fit = put.questions_fit;
          answers_fit = put.answers_fit;
        };
        announced = inv.announced;
        announced_answers = inv.announced_answers;
        questions_counted = inv.questions_counted;
        counted = omega (arith, inv.counted);
      }
  answer_done-AnswerLoop (truncated, offset, slot) lt p =
      (put_answer-IsDns d slot inv.dns p, λ e. cc)
  answer_done-AnswerLoop (malformed, offset, slot) lt p =
      (put_answer-IsDns d slot inv.dns p, λ e. cc)
  answer_done-AnswerLoop (unsupported, offset, slot) lt p =
      (put_answer-IsDns d slot inv.dns p, λ e. cc)

module _ {buf : Bytes} {n : ℕ} (valid : IsBuffer buf n) (qdcount ancount : ℕ) where
  answer_turn-AnswerLoop :
      (i offset : ℕ) (d : DnsInfo)
      → InAnswers qdcount ancount i d
      → i < min ancount 12
      → Returns (answer_turn buf n offset d) (AnswerLoop qdcount ancount (suc i))
  unfolding answer_turn
  answer_turn-AnswerLoop i offset d inv lt =
      Returns-bind (slot_at d.answers d.decoded_answer_count) _ IsRecord
        (AnswerLoop qdcount ancount (suc i))
        (slot_at-All IsRecord d.answers d.decoded_answer_count inv.dns.answers_fit
          (omega (arith, inv.counted, inv.dns.answer_slots)))
        (λ slot s.
          Returns-bind (parse_record buf n offset slot) _ RecordParsed
            (AnswerLoop qdcount ancount (suc i)) (parse_record-RecordParsed valid offset slot s)
            (λ r p. answer_done-AnswerLoop qdcount ancount i d inv r lt p))

  answer_loop-AnswerLoop :
      (turns i offset : ℕ) (d : DnsInfo)
      → InAnswers qdcount ancount i d
      → i ≤ 12
      → i + turns ≡ ancount
      → Returns (answer_loop turns buf n i offset d) (AnswerLoop qdcount ancount (min ancount 12))
  unfolding answer_loop
  answer_loop-AnswerLoop zero i offset d inv few e =
      subst (λ k. InAnswers qdcount ancount k d) (omega arith) inv
  answer_loop-AnswerLoop (suc turns) i offset d inv few e = elim (dec_lt i 12) [
    | no full ↦
        rw (le→ltb i 12 (omega arith))
          (subst (λ k. InAnswers qdcount ancount k d) (omega arith) inv)
    | yes lt ↦ rw (lt→ltb i 12 lt) (
        Returns-bind (answer_turn buf n offset d) _ (AnswerLoop qdcount ancount (suc i))
          (AnswerLoop qdcount ancount (min ancount 12))
          (answer_turn-AnswerLoop i offset d inv (omega arith))
          (rest
            (λ offset' d' h. answer_loop-AnswerLoop turns (suc i) offset' d' h lt (omega arith))))
  ]
    where
      rest :
          ((offset' : ℕ) (d' : DnsInfo)
            → InAnswers qdcount ancount (suc i) d'
            → Returns
                (answer_loop turns buf n (suc i) offset' d')
                (AnswerLoop qdcount ancount (min ancount 12)))
          → (t : Loop) → AnswerLoop qdcount ancount (suc i) t
          → Returns
              (elim t [
                | stop status out ↦ done (stop status out)
                | next offset' out' ↦ answer_loop turns buf n (suc i) offset' out'
              ])
              (AnswerLoop qdcount ancount (min ancount 12))
      rest ih (stop status d') h = h
      rest ih (next offset' d') h = ih offset' d' h

  parse_answers-AnswerLoop :
      (t : Loop)
      → QuestionLoop qdcount ancount qdcount t
      → Returns (parse_answers buf n ancount t) (AnswerLoop qdcount ancount (min ancount 12))
  unfolding parse_answers
  parse_answers-AnswerLoop (stop status d) h = h
  parse_answers-AnswerLoop (next offset d) h =
      answer_loop-AnswerLoop ancount 0 offset d
        (record {
          dns = h.dns;
          announced = h.announced;
          announced_answers = h.announced_answers;
          questions_counted = h.counted;
          counted = h.no_answers;
        })
        (omega arith) (omega arith)

-- What `parse_dns` leaves: nothing where the header is cut off; else well-formed contents, and with
-- the status `ok` as many questions and answers as the header announces, up to 4 and 12.
abbrev pub DnsParsed : Bytes → ℕ → DnsInfo → Status × DnsInfo → Type 0
DnsParsed buf n out (ok, d) =
    IsDns d
    × (12 ≤ n)
    × (d.decoded_question_count ≡ min (u16_at buf 4) 4)
    × (d.decoded_answer_count ≡ min (u16_at buf 6) 12)
DnsParsed buf n out (status, d) = IsDns out → IsDns d

ended-DnsParsed :
    (buf : Bytes) (n : ℕ) (out : DnsInfo) (t : Loop)
    → 12 ≤ n
    → AnswerLoop (u16_at buf 4) (u16_at buf 6) (min (u16_at buf 6) 12) t
    → DnsParsed buf n out (ended t)
ended-DnsParsed buf n out (next offset d) h inv = (inv.dns, h, inv.questions_counted, inv.counted)
ended-DnsParsed buf n out (stop ok d) h inv = absurd (inv.1 refl)
ended-DnsParsed buf n out (stop truncated d) h inv = λ o. inv.0
ended-DnsParsed buf n out (stop malformed d) h inv = λ o. inv.0
ended-DnsParsed buf n out (stop unsupported d) h inv = λ o. inv.0

-- On every buffer `parse_dns` ends without a fault and within its fuel. If the status is `ok`, the
-- buffer holds a header, the counts of decoded questions and answers are those that the header
-- announces, up to 4 and 12, and the contents are well-formed: all array slots are there, and every
-- text leaves room for its terminator. With another status well-formed contents stay well-formed.
pub parse_dns-DnsParsed :
    {buf : Bytes} {n : ℕ} (valid : IsBuffer buf n) (out : DnsInfo)
    → Returns (parse_dns buf n out) (DnsParsed buf n out)
unfolding parse_dns
parse_dns-DnsParsed {buf} {n} valid out =
    rw (bounds_check_lem n 0 12 valid.small) (elim (dec_le 12 n) [
      | no cut ↦ rw (lt→leb 12 n (omega arith)) (λ h. h)
      | yes h ↦
          rw
            (
              le→leb 12 n h,
              load_u16_lem valid 0 (omega arith),
              load_u16_lem valid 2 (omega arith),
              load_u16_lem valid 4 (omega arith),
              load_u16_lem valid 6 (omega arith),
              load_u16_lem valid 8 (omega arith),
              load_u16_lem valid 10 (omega arith),
            )
            (Returns-bind (question_loop (u16_at buf 4) buf n 0 12 _) _
              (QuestionLoop (u16_at buf 4) (u16_at buf 6) (u16_at buf 4)) (DnsParsed buf n out)
              (question_loop-QuestionLoop valid (u16_at buf 4) (u16_at buf 6) (u16_at buf 4) 0 12 _
                (omega arith) (omega arith))
              (λ q hq.
                Returns-bind (parse_answers buf n (u16_at buf 6) q) _
                  (AnswerLoop (u16_at buf 4) (u16_at buf 6) (min (u16_at buf 6) 12))
                  (DnsParsed buf n out)
                  (parse_answers-AnswerLoop valid (u16_at buf 4) (u16_at buf 6) q hq)
                  (λ t. ended-DnsParsed buf n out t h)))
    ])
