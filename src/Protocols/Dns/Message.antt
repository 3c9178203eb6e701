-- ===== src/Protocols/Dns/Message.antt =====
-- Questions, records and the message as a whole.
pub mod Total
use Prim.Native.String.{String}
use netscope.Base.{
  ℕ, zero, suc, ◌+◌, bit_and, Bytes, Bool, true, false, not, Option, none, some, List, [], ◌∷◌,
  ◌++◌, ◌==◌, ltb, if◌then◌else◌, replicate, length,
}
use netscope.Run.{Run, done, fault, Fault, ◌>>=◌, init}
use netscope.Word.{add_size}
use netscope.Util.{bounds_check, load_u16, load_u32}
use netscope.Util.Text.{snprintf, decimal}
use netscope.Util.Format.{codes}
use netscope.Protocols.Status.{Status, ok, truncated}
use netscope.Protocols.Dns.Name.{decode_name}
use netscope.Protocols.Dns.Rdata.{format_rdata}

pub record DnsQuestion : Type 0 where
  pub name : Bytes
  pub type : ℕ
  pub qclass : ℕ

pub record DnsRecord : Type 0 where
  pub name : Bytes
  pub type : ℕ
  pub rclass : ℕ
  pub ttl : ℕ
  pub rdlength : ℕ
  pub rdata_text : Bytes

-- The arrays `questions` and `answers` are lists of their 4 and 12 slots.
pub record DnsInfo : Type 0 where
  pub transaction_id : ℕ
  pub flags : ℕ
  pub is_response : Bool
  pub question_count : ℕ
  pub answer_count : ℕ
  pub authority_count : ℕ
  pub additional_count : ℕ
  pub decoded_question_count : ℕ
  pub questions : List DnsQuestion
  pub decoded_answer_count : ℕ
  pub answers : List DnsRecord

abbrev pub zero_question : DnsQuestion
zero_question = record { name = []; type = 0; qclass = 0 }

abbrev pub zero_record : DnsRecord
zero_record = record { name = []; type = 0; rclass = 0; ttl = 0; rdlength = 0; rdata_text = [] }

abbrev pub zero_dns : DnsInfo
zero_dns = record {
  transaction_id = 0;
  flags = 0;
  is_response = false;
  question_count = 0;
  answer_count = 0;
  authority_count = 0;
  additional_count = 0;
  decoded_question_count = 0;
  questions = replicate 4 zero_question;
  decoded_answer_count = 0;
  answers = replicate 12 zero_record;
}

-- `a[i]` and the array after a store into `a[i]`.
module _ {ℓ} {A : Type ℓ} where
  unfoldable pub slot_at : List A → ℕ → Run A
  slot_at [] i = fault Fault.out_of_bounds
  slot_at (x ∷ xs) zero = done x
  slot_at (x ∷ xs) (suc i) = slot_at xs i

  unfoldable pub set : List A → ℕ → A → List A
  set [] i v = []
  set (x ∷ xs) zero v = v ∷ xs
  set (x ∷ xs) (suc i) v = x ∷ set xs i v

-- The status, `*offset`, and the slot: `none` for a null pointer.
abbrev pub question_name : Option DnsQuestion → Bytes → Option DnsQuestion
question_name none name = none
question_name (some q) name = some (record q { name = name })

abbrev pub question_fields : Option DnsQuestion → ℕ → ℕ → Option DnsQuestion
question_fields none type qclass = none
question_fields (some q) type qclass = some (record q { type = type; qclass = qclass })

-- Behind the name: the type and the class.
unfoldable pub question_tail :
    Bytes
    → ℕ
    → ℕ
    → Option DnsQuestion
    → Status × Bytes × Option ℕ
    → Run (Status × ℕ × Option DnsQuestion)
question_tail buf length offset slot (ok, name, end) = do
  name_end ← init end
  let slot = question_name slot name
  if not (bounds_check length name_end 4) then done (truncated, offset, slot) else do
    type ← load_u16 buf length name_end
    qclass ← load_u16 buf length (add_size name_end 2)
    done (ok, add_size name_end 4, question_fields slot type qclass)
question_tail buf length offset slot (status, name, end) =
    done (status, offset, question_name slot name)

unfoldable pub parse_question :
    Bytes → ℕ → ℕ → Option DnsQuestion → Run (Status × ℕ × Option DnsQuestion)
parse_question buf length offset slot =
    decode_name buf length offset 256 >>= question_tail buf length offset slot

-- Behind the name: the fixed fields and the record data. (Every caller passes a slot.)
unfoldable pub record_tail :
    Bytes → ℕ → ℕ → DnsRecord → Status × Bytes × Option ℕ → Run (Status × ℕ × DnsRecord)
record_tail buf length offset slot (ok, name, end) = do
  name_end ← init end
  if not (bounds_check length name_end 10) then done (truncated, offset, slot) else do
    type ← load_u16 buf length name_end
    rclass ← load_u16 buf length (add_size name_end 2)
    ttl ← load_u32 buf length (add_size name_end 4)
    rdlength ← load_u16 buf length (add_size name_end 8)
    let rdata_offset = add_size name_end 10
    if not (bounds_check length rdata_offset rdlength) then done (truncated, offset, slot) else do
      rdata_text ← format_rdata buf length rdata_offset rdlength type 263
      done (
        ok,
        add_size rdata_offset rdlength,
        record {
          name = name;
          type = type;
          rclass = rclass;
          ttl = ttl;
          rdlength = rdlength;
          rdata_text = rdata_text;
        },
      )
record_tail buf length offset slot (status, name, end) = done (status, offset, slot)

unfoldable pub parse_record : Bytes → ℕ → ℕ → DnsRecord → Run (Status × ℕ × DnsRecord)
parse_record buf length offset slot =
    decode_name buf length offset 256 >>= record_tail buf length offset slot
