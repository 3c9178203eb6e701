-- ===== src/Protocols/Dns/Message/Total.antt =====
-- Questions and records of src/protocols/dns.c: the slots and their texts.
use native.Mathlib.Decide.{dec_le}
use netscope.Base.{
  ℕ, zero, suc, ◌+◌, ◌<◌, Bytes, Option, none, some, List, [], ◌∷◌, ◌≡◌, refl, ap, inl, inr, leb,
  length, All, Bool-cases, lt→leb, le→leb, arith,
}
use netscope.Run.{Returns, Returns-bind}
use netscope.Word.{add_size, add_size_exact}
use netscope.Util.Buffer.{IsBuffer, u16_at}
use netscope.Util.Reads.{bounds_check_lem, load_u16_lem, load_u32_lem}
use netscope.Protocols.Status.{Status, ok, truncated, malformed, unsupported}
use netscope.Protocols.Dns.Name.{decode_name}
use netscope.Protocols.Dns.Name.Total.{Decoded, decode_name-Decoded}
use netscope.Protocols.Dns.Rdata.{format_rdata}
use netscope.Protocols.Dns.Rdata.Total.{format_rdata-Returns}
use netscope.Protocols.Dns.Message.{
  DnsQuestion, DnsRecord, question_name, question_fields, question_tail, parse_question,
  record_tail, parse_record, slot_at, set,
}

abbrev pub IsQuestion : DnsQuestion → Type 0
IsQuestion q = length q.name < 256

abbrev pub IsRecord : DnsRecord → Type 0
IsRecord r = (length r.name < 256) × (length r.rdata_text < 263)

-- A pointer to a slot, or null.
abbrev pub IsSlot : Option DnsQuestion → Type 0
IsSlot none = Unit
IsSlot (some q) = IsQuestion q

-- A slot stays a slot, and null stays null.
abbrev pub SameSlot : Option DnsQuestion → Option DnsQuestion → Type 0
SameSlot none none = Unit
SameSlot (some q) (some r) = Unit
SameSlot _ _ = ⊥

abbrev pub QuestionParsed : Option DnsQuestion → Status × ℕ × Option DnsQuestion → Type 0
QuestionParsed slot (status, offset, slot') = IsSlot slot' × SameSlot slot slot'

abbrev pub RecordParsed : Status × ℕ × DnsRecord → Type 0
RecordParsed (status, offset, slot) = IsRecord slot

module _ {ℓ} {A : Type ℓ} where
  pub length-set : (xs : List A) (i : ℕ) (v : A) → length (set xs i v) ≡ length xs
  unfolding set
  length-set [] i v = refl
  length-set (x ∷ xs) zero v = refl
  length-set (x ∷ xs) (suc i) v = ap suc (length-set xs i v)

  pub set-All : (P : A → Type 0) (xs : List A) (i : ℕ) (v : A) → All P xs → P v → All P (set xs i v)
  unfolding set
  set-All P [] i v h p = tt
  set-All P (x ∷ xs) zero v h p = (p, h.1)
  set-All P (x ∷ xs) (suc i) v h p = (h.0, set-All P xs i v h.1 p)

  pub slot_at-All :
      (P : A → Type 0) (xs : List A) (i : ℕ) → All P xs → i < length xs → Returns (slot_at xs i) P
  unfolding slot_at
  slot_at-All P [] i h lt = absurd (omega arith)
  slot_at-All P (x ∷ xs) zero h lt = h.0
  slot_at-All P (x ∷ xs) (suc i) h lt = slot_at-All P xs i h.1 (omega arith)

question_name-QuestionParsed :
    (slot : Option DnsQuestion) (name : Bytes) (status : Status) (offset : ℕ)
    → length name < 256
    → QuestionParsed slot (status, offset, question_name slot name)
question_name-QuestionParsed none name status offset h = (tt, tt)
question_name-QuestionParsed (some q) name status offset h = (h, tt)

question_fields-QuestionParsed :
    (slot : Option DnsQuestion) (name : Bytes) (type qclass offset : ℕ)
    → length name < 256
    → QuestionParsed slot (ok, offset, question_fields (question_name slot name) type qclass)
question_fields-QuestionParsed none name type qclass offset h = (tt, tt)
question_fields-QuestionParsed (some q) name type qclass offset h = (h, tt)

module _ {buf : Bytes} {n : ℕ} (valid : IsBuffer buf n) (offset : ℕ) where
  question_tail-QuestionParsed :
      (slot : Option DnsQuestion) (r : Status × Bytes × Option ℕ)
      → Decoded offset n 256 r
      → Returns (question_tail buf n offset slot r) (QuestionParsed slot)
  unfolding question_tail
  question_tail-QuestionParsed slot (ok, name, none) h = absurd h.1
  question_tail-QuestionParsed slot (ok, name, some e) h =
      rw (bounds_check_lem n e 4 valid.small) (elim (dec_le (e + 4) n) [
        | no cut ↦
            rw (lt→leb (e + 4) n (omega arith))
              (question_name-QuestionParsed slot name truncated offset h.0)
        | yes fits ↦
            rw
              (
                le→leb (e + 4) n fits,
                load_u16_lem valid e (omega arith),
                add_size_exact e 2 (omega (arith, valid.small)),
                load_u16_lem valid (e + 2) (omega arith),
              )
              (question_fields-QuestionParsed slot name (u16_at buf e) (u16_at buf (e + 2))
                (add_size e 4) h.0)
      ])
  question_tail-QuestionParsed slot (truncated, name, e) h =
      question_name-QuestionParsed slot name truncated offset h.0
  question_tail-QuestionParsed slot (malformed, name, e) h =
      question_name-QuestionParsed slot name malformed offset h.0
  question_tail-QuestionParsed slot (unsupported, name, e) h =
      question_name-QuestionParsed slot name unsupported offset h.0

  -- A question is parsed without a fault, from any offset.
  pub parse_question-QuestionParsed :
      (slot : Option DnsQuestion) → Returns (parse_question buf n offset slot) (QuestionParsed slot)
  unfolding parse_question
  parse_question-QuestionParsed slot =
      Returns-bind (decode_name buf n offset 256) (question_tail buf n offset slot)
        (Decoded offset n 256) (QuestionParsed slot)
        (decode_name-Decoded valid offset 256 (omega arith) (omega arith))
        (question_tail-QuestionParsed slot)

  record_tail-RecordParsed :
      (slot : DnsRecord) (r : Status × Bytes × Option ℕ)
      → IsRecord slot
      → Decoded offset n 256 r
      → Returns (record_tail buf n offset slot r) RecordParsed
  unfolding record_tail
  record_tail-RecordParsed slot (ok, name, none) good h = absurd h.1
  record_tail-RecordParsed slot (ok, name, some e) good h =
      rw (bounds_check_lem n e 10 valid.small) (elim (dec_le (e + 10) n) [
        | no cut ↦ rw (lt→leb (e + 10) n (omega arith)) good
        | yes fits ↦
            rw
              (
                le→leb (e + 10) n fits,
                load_u16_lem valid e (omega arith),
                add_size_exact e 2 (omega (arith, valid.small)),
                load_u16_lem valid (e + 2) (omega arith),
                add_size_exact e 4 (omega (arith, valid.small)),
                load_u32_lem valid (e + 4) (omega arith),
                add_size_exact e 8 (omega (arith, valid.small)),
                load_u16_lem valid (e + 8) (omega arith),
                add_size_exact e 10 (omega (arith, valid.small)),
                bounds_check_lem n (e + 10) (u16_at buf (e + 8)) valid.small,
              )
              (elim (Bool-cases (leb (e + 10 + u16_at buf (e + 8)) n)) [
                | inr long ↦ rw long good
                | inl inside ↦ rw inside (
                    Returns-bind
                      (format_rdata buf n (e + 10) (u16_at buf (e + 8)) (u16_at buf e) 263) _
                      (λ s. length s < 263) RecordParsed
                      (format_rdata-Returns valid (e + 10) (u16_at buf (e + 8)) 263 (omega arith)
                        (omega arith) (u16_at buf e))
                      (λ s text. (h.0, text)))
              ])
      ])
  record_tail-RecordParsed slot (truncated, name, e) good h = good
  record_tail-RecordParsed slot (malformed, name, e) good h = good
  record_tail-RecordParsed slot (unsupported, name, e) good h = good

  -- A record is parsed without a fault, from any offset.
  pub parse_record-RecordParsed :
      (slot : DnsRecord) → IsRecord slot → Returns (parse_record buf n offset slot) RecordParsed
  unfolding parse_record
  parse_record-RecordParsed slot good =
      Returns-bind (decode_name buf n offset 256) (record_tail buf n offset slot)
        (Decoded offset n 256) RecordParsed
        (decode_name-Decoded valid offset 256 (omega arith) (omega arith))
        (λ r. record_tail-RecordParsed slot r good)
