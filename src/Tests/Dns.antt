-- ===== src/Tests/Dns.antt =====
-- DNS messages, after tests/test_dns.c.
use netscope.Base.{Bytes, [], ◌∷◌, ◌++◌, some, ◌≡◌, refl}
use netscope.Run.{done}
use netscope.Protocols.Status.{ok, malformed}
use netscope.Util.Format.{codes}
use netscope.Protocols.Dns.Name.{
  decode_name, name_loop, name_turn, name_label, name_pointer, store_dot, finish_name,
}
use netscope.Util
use netscope.Util.Text

program : Unit {0}
unfolding decode_name name_loop name_turn name_label name_pointer store_dot finish_name Util.read_u8
    Util.read_u16_be Util.at Util.bounds_check Util.memcpy Text.store Text.terminate
    netscope.Word.add_size netscope.Word.sub_size
program = tt

abbrev www : Bytes
www = 3 ∷ codes "www" ++ (2 ∷ codes "ab" ++ (0 ∷ 1 ∷ b'x' ∷ 0xC0 ∷ 4 ∷ []))

name_text : decode_name www 12 0 256 ≡ done (ok, codes "www.ab", some 8)
unfolding program
name_text = refl

pointer_text : decode_name www 12 8 256 ≡ done (ok, codes "x.ab", some 12)
unfolding program
pointer_text = refl

self_pointer : decode_name (0xC0 ∷ 0 ∷ []) 2 0 256 ≡ done (malformed, [], some 2)
unfolding program
self_pointer = refl
