-- ===== src/Protocols/Dns/Parse.antt =====
-- `ns_parse_dns`: the header, then the loops over the questions and the answers.
pub mod Questions
pub mod Total
use netscope.Base.{
  ℕ, zero, suc, ◌+◌, bit_and, Bytes, not, Option, none, some, ◌==◌, ltb, if◌then◌else◌,
}
use netscope.Run.{Run, done, ◌>>=◌}
use netscope.Util.{bounds_check, load_u16}
use netscope.Protocols.Status.{Status, ok, truncated}
use netscope.Protocols.Dns.Message.{
  DnsQuestion, DnsRecord, DnsInfo, zero_dns, slot_at, set, parse_question, parse_record,
}

-- `(i < NS_DNS_MAX_QUESTIONS) ? &out->questions[out->decoded_question_count] : NULL`
unfoldable pub question_slot : ℕ → DnsInfo → Run (Option DnsQuestion)
question_slot i out =
    if ltb i 4
    then slot_at out.questions out.decoded_question_count >>= (λ q. done (some q))
    else done none

abbrev pub put_question : DnsInfo → Option DnsQuestion → DnsInfo
put_question out none = out
put_question out (some q) = record out {
  questions = set out.questions out.decoded_question_count q;
}

abbrev pub count_question : DnsInfo → Option DnsQuestion → DnsInfo
count_question out none = out
count_question out (some q) = record out { decoded_question_count = out.decoded_question_count + 1 }

-- How a turn of either loop ends: in a `return`, or in the next turn.
pub data Loop : Type 0 where
  stop : Status → DnsInfo → Loop
  next : ℕ → DnsInfo → Loop

question_done : DnsInfo → Status × ℕ × Option DnsQuestion → Loop
question_done out (ok, offset, slot) = next offset (count_question (put_question out slot) slot)
question_done out (status, offset, slot) = stop status (put_question out slot)

unfoldable pub question_turn : Bytes → ℕ → ℕ → ℕ → DnsInfo → Run Loop
unfolding question_done
question_turn buf length i offset out = do
  slot ← question_slot i out
  parsed ← parse_question buf length offset slot
  done (question_done out parsed)

-- `for (i = 0; i < qdcount; i++)`, on the turns that are left.
unfoldable pub question_loop : ℕ → Bytes → ℕ → ℕ → ℕ → DnsInfo → Run Loop
question_loop zero buf length i offset out = done (next offset out)
question_loop (suc turns) buf length i offset out = do
  turn ← question_turn buf length i offset out
  elim turn [
    | stop status out ↦ done (stop status out)
    | next offset' out' ↦ question_loop turns buf length (suc i) offset' out'
  ]

answer_done : DnsInfo → Status × ℕ × DnsRecord → Loop
answer_done out (ok, offset, slot) = next offset (record out {
  answers = set out.answers out.decoded_answer_count slot;
  decoded_answer_count = out.decoded_answer_count + 1;
})
answer_done out (status, offset, slot) =
    stop status (record out { answers = set out.answers out.decoded_answer_count slot })

unfoldable pub answer_turn : Bytes → ℕ → ℕ → DnsInfo → Run Loop
unfolding answer_done
answer_turn buf length offset out = do
  slot ← slot_at out.answers out.decoded_answer_count
  parsed ← parse_record buf length offset slot
  done (answer_done out parsed)

-- `for (i = 0; i < ancount && i < NS_DNS_MAX_ANSWERS; i++)`, on the turns that `ancount` leaves.
unfoldable pub answer_loop : ℕ → Bytes → ℕ → ℕ → ℕ → DnsInfo → Run Loop
answer_loop zero buf length i offset out = done (next offset out)
answer_loop (suc turns) buf length i offset out =
    if not (ltb i 12) then done (next offset out) else do
      turn ← answer_turn buf length offset out
      elim turn [
        | stop status out ↦ done (stop status out)
        | next offset' out' ↦ answer_loop turns buf length (suc i) offset' out'
      ]

abbrev pub ended : Loop → Status × DnsInfo
ended (stop status out) = (status, out)
ended (next offset out) = (ok, out)

-- The second loop, if the first has not returned.
unfoldable pub parse_answers : Bytes → ℕ → ℕ → Loop → Run Loop
parse_answers buf length ancount (stop status out) = done (stop status out)
parse_answers buf length ancount (next offset out) = answer_loop ancount buf length 0 offset out

unfoldable pub parse_dns : Bytes → ℕ → DnsInfo → Run (Status × DnsInfo)
parse_dns buf length out = if not (bounds_check length 0 12) then done (truncated, out) else do
  txn_id ← load_u16 buf length 0
  flags ← load_u16 buf length 2
  qdcount ← load_u16 buf length 4
  ancount ← load_u16 buf length 6
  nscount ← load_u16 buf length 8
  arcount ← load_u16 buf length 10
  let out = record zero_dns {
    transaction_id = txn_id;
    flags = flags;
    is_response = not (bit_and flags 0x8000 == 0);
    question_count = qdcount;
    answer_count = ancount;
    authority_count = nscount;
    additional_count = arcount;
  }
  questions ← question_loop qdcount buf length 0 12 out
  answers ← parse_answers buf length ancount questions
  done (ended answers)
